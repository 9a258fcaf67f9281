-- ===== src/Persist/Untouched.antt =====
-- The files that a save does not touch.
use picante.Base.{ℕ, ◌≡◌, ◌≢◌, ◌∙◌, false, Option, none, some, List, inl, inr}
use picante.Base.Results.{ok, err, Result-cases}
use picante.Key.{Codec}
use picante.Error.{PicanteResult}
use picante.Persist.Defs.{CacheFile}
use picante.Persist.Ingredients.{Db}
use picante.Persist.Files.{FileSystem, Behaves, found}
use picante.Persist.Saving.{
  CacheSaveOptions, encoded_cache, and_then, make_parent, write_tmp, rename_tmp, write_atomically,
  save_cache_with_options,
}

-- Files that an operation does not name keep what they hold, and a file that was removed is gone.
pub record KeepsOthers {FilePath Fs : Type 0} (f : FileSystem FilePath Fs) : Type 0 where
  pub create_dir_keeps :
      (d q : FilePath) (fs : Fs) (bytes : List ℕ)
      → f.read q fs ≡ found bytes
      → f.read q (f.create_dir_all d fs).1 ≡ found bytes
  pub rename_other :
      (p q r : FilePath) (fs : Fs) → p ≢ r → q ≢ r → f.read r (f.rename p q fs).1 ≡ f.read r fs
  pub remove_other :
      (p q : FilePath) (fs : Fs) → p ≢ q → f.read q (f.remove_file p fs).1 ≡ f.read q fs
  pub exists-remove :
      (p : FilePath) (fs : Fs)
      → (f.remove_file p fs).0 ≡ ok tt
      → f.exists p (f.remove_file p fs).1 ≡ false

module _ {FilePath Fs : Type 0} (f : FileSystem FilePath Fs) (b : Behaves f)
    (o : KeepsOthers f) where
  make_parent-found :
      (dir : Option FilePath) (q : FilePath) (fs : Fs) (bytes : List ℕ)
      → f.read q fs ≡ found bytes
      → f.read q (make_parent f dir fs).1 ≡ found bytes
  make_parent-found none q fs bytes h = h
  make_parent-found (some d) q fs bytes h = o.create_dir_keeps d q fs bytes h

  -- The steps of `write_atomically` touch no path but the two that they name.
  and_then-found :
      (next : Fs → PicanteResult (Unit {0}) × Fs) (done : PicanteResult (Unit {0}) × Fs)
      (q : FilePath) (bytes : List ℕ)
      → ((fs : Fs) → f.read q fs ≡ found bytes → f.read q (next fs).1 ≡ found bytes)
      → f.read q done.1 ≡ found bytes
      → f.read q (and_then f next done).1 ≡ found bytes
  and_then-found next (ok u, fs) q bytes step h = step fs h
  and_then-found next (err e, fs) q bytes step h = h

  write_atomically-found :
      (path q : FilePath) (content bytes : List ℕ) (fs : Fs)
      → f.with_extension_tmp path ≢ q
      → path ≢ q
      → f.read q fs ≡ found bytes
      → f.read q (write_atomically f path content fs).1 ≡ found bytes
  unfolding write_atomically
  write_atomically-found path q content bytes fs not_tmp other h =
      let tmp = f.with_extension_tmp path in
      and_then-found (λ fs1. and_then f (rename_tmp f path) (write_tmp f path content fs1))
        (make_parent f (f.parent path) fs) q bytes
        (λ fs1 h1.
          and_then-found (rename_tmp f path) (write_tmp f path content fs1) q bytes
            (λ fs2 h2. o.rename_other tmp path q fs2 not_tmp other ∙ h2)
            (b.write_other tmp q content fs1 not_tmp ∙ h1))
        (make_parent-found (f.parent path) q fs bytes h)

  module _ (c : Codec CacheFile) where
    pub save-found :
        (path q : FilePath) (db : Db) (options : CacheSaveOptions) (fs : Fs) (bytes : List ℕ)
        → f.with_extension_tmp path ≢ q
        → path ≢ q
        → f.read q fs ≡ found bytes
        → f.read q (save_cache_with_options f c path db options fs).1 ≡ found bytes
    unfolding save_cache_with_options
    save-found path q db options fs bytes not_tmp other h =
        elim (Result-cases (encoded_cache f c options db)) [
          | inr (e, p) ↦ rw (p, save_cache_with_options) h
          | inl (content, p) ↦
              rw (p, save_cache_with_options)
                (write_atomically-found path q content bytes fs not_tmp other h)
        ]
