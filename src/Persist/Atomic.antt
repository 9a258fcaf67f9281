-- ===== src/Persist/Atomic.antt =====
-- A save either replaces the cache file as a whole or leaves it as it was.
use picante.Base.{ℕ, ◌≡◌, ◌≢◌, refl, ◌∙◌, ◌⊎◌, List, arith, inl, inr, Option-cases}
use picante.Base.Results.{ok, err, Result-cases}
use picante.Key.{Codec}
use picante.Error.{PicanteError, PicanteResult}
use picante.Persist.Defs.{CacheFile, encode_cache_file}
use picante.Persist.Ingredients.{Db}
use picante.Persist.Files.{FileSystem, Behaves, found}
use picante.Persist.Saving.{
  CacheSaveOptions, cache_of, encoded_cache, and_then, make_parent, write_tmp, rename_tmp,
  write_atomically, save_cache_with_options,
}

module _ {FilePath Fs : Type 0} (f : FileSystem FilePath Fs) (b : Behaves f) where
  -- The path holds the bytes, or what it held before an error.
  abbrev Written : FilePath → List ℕ → Fs → PicanteResult (Unit {0}) × Fs → Type 0
  Written path bytes fs (r, fs') =
      ((r ≡ ok tt) × (f.read path fs' ≡ found bytes))
      ⊎ ((e : PicanteError) × (r ≡ err e) × (f.read path fs' ≡ f.read path fs))

  make_parent-read :
      (path : FilePath) (fs : Fs)
      → f.read path (make_parent f (f.parent path) fs).1 ≡ f.read path fs
  make_parent-read path fs = elim (Option-cases (f.parent path)) [
    | inl p ↦ rw p refl
    | inr (d, p) ↦ rw p (b.create_dir_parent path d fs p)
  ]

  rename_tmp-Written :
      (path : FilePath) (bytes : List ℕ) (fs0 fs : Fs)
      → f.read (f.with_extension_tmp path) fs ≡ found bytes
      → f.read path fs ≡ f.read path fs0
      → Written path bytes fs0 (rename_tmp f path fs)
  rename_tmp-Written path bytes fs0 fs h same =
      let tmp = f.with_extension_tmp path in
      elim (Result-cases (f.rename tmp path fs).0) [
        | inl (tt, p) ↦ rw p (inl (refl, b.read-rename tmp path fs p ∙ h))
        | inr (e, p) ↦ rw p (inr (_, refl, b.rename_failed tmp path path fs e p ∙ same))
      ]

  write_tmp-Written :
      (path : FilePath) (bytes : List ℕ) (fs0 fs : Fs)
      → f.with_extension_tmp path ≢ path
      → f.read path fs ≡ f.read path fs0
      → Written path bytes fs0 (and_then f (rename_tmp f path) (write_tmp f path bytes fs))
  write_tmp-Written path bytes fs0 fs ne same =
      let tmp = f.with_extension_tmp path in
      let kept = b.write_other tmp path bytes fs ne ∙ same in
      elim (Result-cases (f.write tmp bytes fs).0) [
        | inl (tt, p) ↦ rw p (
            rename_tmp-Written path bytes fs0 (f.write tmp bytes fs).1 (b.read-write tmp bytes fs p)
              kept)
        | inr (e, p) ↦ rw p (inr (_, refl, kept))
      ]

  write_atomically-Written :
      (path : FilePath) (bytes : List ℕ) (fs : Fs)
      → f.with_extension_tmp path ≢ path
      → Written path bytes fs (write_atomically f path bytes fs)
  unfolding write_atomically
  write_atomically-Written path bytes fs ne =
      let kept = make_parent-read path fs in
      let (r, fs1) = make_parent f (f.parent path) fs in go r fs1 kept
    where
      go :
          (r : PicanteResult (Unit {0})) (fs1 : Fs)
          → f.read path fs1 ≡ f.read path fs
          → Written path bytes fs (
              and_then f
                (λ fs2. and_then f (rename_tmp f path) (write_tmp f path bytes fs2))
                (r, fs1))
      go (ok tt) fs1 kept = write_tmp-Written path bytes fs fs1 ne kept
      go (err e) fs1 kept = inr (e, refl, kept)

  module _ (c : Codec CacheFile) where
    -- What a save that succeeded has encoded.
    encoded_cache-file :
        (options : CacheSaveOptions) (db : Db) (bytes : List ℕ)
        → encoded_cache f c options db ≡ ok bytes
        → (file : CacheFile) × (cache_of c options db ≡ ok file) × (c.to_vec file ≡ ok bytes)
    unfolding encode_cache_file
    encoded_cache-file options db bytes p = elim (Result-cases (cache_of c options db)) [
      | inr (e, q) ↦ ground (arith, p, q)
      | inl (file, q) ↦ elim (Result-cases (c.to_vec file)) [
        | inr (e, u) ↦ ground (arith, p, q, u)
        | inl (bs, u) ↦ (file, q, ground (arith, p, q, u))
      ]
    ]

    -- Let the file system behave, and let the temporary file be another one than the cache file. Then
    -- a save that returns no error leaves in the cache file the whole encoding of what the database
    -- holds under the options, and a save that returns an error, at whatever step, leaves the
    -- cache file as it was.
    pub save_cache_with_options_lem :
        (path : FilePath) (db : Db) (options : CacheSaveOptions) (fs : Fs)
        → f.with_extension_tmp path ≢ path
        → let (r, fs') = save_cache_with_options f c path db options fs in
          ((r ≡ ok tt)
            × (file : CacheFile) × (bytes : List ℕ) × (cache_of c options db ≡ ok file)
            × (c.to_vec file ≡ ok bytes)
            × (f.read path fs' ≡ found bytes))
          ⊎ ((e : PicanteError) × (r ≡ err e) × (f.read path fs' ≡ f.read path fs))
    unfolding save_cache_with_options
    save_cache_with_options_lem path db options fs ne =
        elim (Result-cases (encoded_cache f c options db)) [
          | inr (e, p) ↦ rw (p, save_cache_with_options) (inr (e, refl, refl))
          | inl (bytes, p) ↦
              let (file, q, u) = encoded_cache-file options db bytes p in
              rw (p, save_cache_with_options)
                (elim (write_atomically-Written path bytes fs ne) [
                  | inl (done, w) ↦ inl (done, file, bytes, q, u, w)
                  | inr failed ↦ inr failed
                ])
        ]
