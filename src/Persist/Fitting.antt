-- ===== src/Persist/Fitting.antt =====
-- A cache file that is made small enough.
use picante.Base.{
  ℕ, zero, suc, ◌+◌, ◌-◌, ◌≤◌, ◌≡◌, refl, ◌∙◌, List, arith, length, ltb, leb, inl, inr, Bool-cases,
}
use picante.Base.Results.{ok, Result-cases}
use picante.Key.{Codec}
use picante.Persist.Defs.{
  CacheFile, sort_sections, drop_loop, count, encode_cache_file, record_bytes, shrink_rounds,
  shrink_cache_to_fit, with_sections, finish_shrink, overhead_of,
}
use picante.Persist.Shrinking.{
  AreParts, AreParts-refl, AreParts-trans, drop_loop-AreParts, sort_sections-AreParts,
}

module _ (c : Codec CacheFile) (max_bytes : ℕ) where
  -- A file that fits, with the version and revision of another, and parts of its sections.
  pub record IsFit (after before : CacheFile) : Type 0 where
    pub bytes : List ℕ
    pub encoded : c.to_vec after ≡ ok bytes
    pub fits : length bytes ≤ max_bytes
    pub same_version : after.format_version ≡ before.format_version
    pub same_revision : after.current_revision ≡ before.current_revision
    pub parts : AreParts after.sections before.sections

  -- From a file whose parts were taken from another.
  IsFit-from :
      (f g h : CacheFile)
      → IsFit h g
      → g.format_version ≡ f.format_version
      → g.current_revision ≡ f.current_revision
      → AreParts g.sections f.sections
      → IsFit h f
  IsFit-from f g h i v r p = record {
    bytes = i.bytes;
    encoded = i.encoded;
    fits = i.fits;
    same_version = i.same_version ∙ v;
    same_revision = i.same_revision ∙ r;
    parts = AreParts-trans h.sections g.sections f.sections i.parts p;
  }

  -- A file that is returned as it is, when its encoding is not over the limit.
  IsFit-same :
      (f g : CacheFile) (bytes : List ℕ)
      → c.to_vec f ≡ ok bytes
      → length bytes ≤ max_bytes
      → f ≡ g
      → IsFit g f
  IsFit-same f g bytes e l same = rw⁻¹ same (record {
    bytes = bytes;
    encoded = e;
    fits = l;
    same_version = refl;
    same_revision = refl;
    parts = AreParts-refl f.sections;
  })

  finish_shrink-IsFit : (f g : CacheFile) → finish_shrink c max_bytes f ≡ ok g → IsFit g f
  unfolding encode_cache_file
  finish_shrink-IsFit f g h = elim (Result-cases (c.to_vec f)) [
    | inr (e, p) ↦ ground (arith, h, p)
    | inl (bytes, p) ↦ elim (Bool-cases (ltb max_bytes (length bytes))) [
      | inl q ↦ ground (arith, h, p, q)
      | inr q ↦ IsFit-same f g bytes p (ground (arith, q)) (ground (arith, h, p, q))
    ]
  ]

  shrink_rounds-IsFit : (n : ℕ) (f g : CacheFile) → shrink_rounds c max_bytes n f ≡ ok g → IsFit g f
  unfolding shrink_rounds encode_cache_file
  shrink_rounds-IsFit zero f g h = finish_shrink-IsFit f g h
  shrink_rounds-IsFit (suc n) f g h = elim (Result-cases (c.to_vec f)) [
    | inr (e, p) ↦ ground (arith, h, p)
    | inl (bytes, p) ↦ elim (Bool-cases (leb (length bytes) max_bytes)) [
      | inl q ↦ IsFit-same f g bytes p (ground (arith, q)) (ground (arith, h, p, q))
      | inr q ↦
          let used = record_bytes f.sections in
          elim (Bool-cases (leb max_bytes (length bytes - used))) [
            | inl u ↦ finish_shrink-IsFit f g (ground (arith, h, p, q, u))
            | inr u ↦
                let ss =
                  drop_loop (count f.sections + 1) (max_bytes - (length bytes - used)) f.sections
                    used in
                IsFit-from f (with_sections f ss) g
                  (shrink_rounds-IsFit n (with_sections f ss) g (ground (arith, h, p, q, u))) refl
                  refl
                  (drop_loop-AreParts (count f.sections + 1) (max_bytes - (length bytes - used))
                    f.sections used)
          ]
    ]
  ]

  -- If a cache file is shrunk with no error, the result encodes within the limit. It has the version
  -- and the revision of the file, and its sections in order, each with its kind, name and type, and with
  -- records of that section only, no more of them than before.
  pub shrink_cache_to_fit_lem :
      (f g : CacheFile) → shrink_cache_to_fit c max_bytes f ≡ ok g → IsFit g f
  unfolding shrink_cache_to_fit encode_cache_file
  shrink_cache_to_fit_lem f g h = elim (Result-cases (c.to_vec f)) [
    | inr (e, p) ↦ ground (arith, h, p)
    | inl (bytes, p) ↦ elim (Bool-cases (leb (length bytes) max_bytes)) [
      | inl q ↦ IsFit-same f g bytes p (ground (arith, q)) (ground (arith, h, p, q))
      | inr q ↦
          let used = record_bytes f.sections in
          let overhead = overhead_of c max_bytes (length bytes) used in
          let sorted = sort_sections f.sections in
          elim (Bool-cases (leb max_bytes overhead)) [
            | inl u ↦ ground (arith, h, p, q, u)
            | inr u ↦
                let ss = drop_loop (count f.sections + 1) (max_bytes - overhead) sorted used in
                IsFit-from f (with_sections f ss) g
                  (shrink_rounds-IsFit 3 (with_sections f ss) g (ground (arith, h, p, q, u))) refl
                  refl
                  (AreParts-trans ss sorted f.sections
                    (drop_loop-AreParts (count f.sections + 1) (max_bytes - overhead) sorted used)
                    (sort_sections-AreParts f.sections))
          ]
    ]
  ]
