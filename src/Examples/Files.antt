-- ===== src/Examples/Files.antt =====
-- A cache file that is made to fit.
use picante.Base.{ℕ, ◌≤◌, ◌≡◌, ◌⊎◌, none, refl, List, [], ◌∷◌, ◌++◌, arith}
use picante.Base.Results.{ok, err}
use picante.Key.{Codec}
use picante.Persist.{
  Section, CacheFile, input, derived, shrink_cache_to_fit, drop_loop, drop_any, count,
}
use picante.Persist.Dropping.{Rounds, drop_loop-ends}
use picante.Persist.Fitting.{IsFit, shrink_cache_to_fit_lem}

abbrev flat : List (List ℕ) → List ℕ
flat [] = []
flat (r ∷ rs) = r ++ flat rs

abbrev flat_sections : List Section → List ℕ
flat_sections [] = []
flat_sections (s ∷ ss) = flat s.records ++ flat_sections ss

abbrev file_codec : Codec CacheFile
file_codec = record {
  to_vec = λ f. ok (f.format_version ∷ f.current_revision ∷ flat_sections f.sections);
  from_slice = λ bytes. err "not read here";
}

abbrev inputs : Section
inputs = record { kind_id = 1; kind_name = "a"; section_type = input; records = (5 ∷ 6 ∷ []) ∷ [] }

abbrev queries : Section
queries = record {
  kind_id = 2;
  kind_name = "b";
  section_type = derived;
  records = (1 ∷ 2 ∷ 3 ∷ []) ∷ (4 ∷ []) ∷ [];
}

abbrev file : CacheFile
file = record { format_version = 1; current_revision = 7; sections = inputs ∷ queries ∷ [] }

abbrev smaller : CacheFile
smaller = record file { sections = inputs ∷ record queries { records = (4 ∷ []) ∷ [] } ∷ [] }

shrink_example : IsFit file_codec 6 smaller file
unfolding shrink_cache_to_fit drop_loop count
shrink_example = shrink_cache_to_fit_lem file_codec 6 file smaller refl

drop_loop_example :
    (left : ℕ) × Rounds 4 (inputs ∷ queries ∷ []) 6 (drop_loop 4 4 (inputs ∷ queries ∷ []) 6) left
    × ((left ≤ 4) ⊎ (drop_any (drop_loop 4 4 (inputs ∷ queries ∷ []) 6) left ≡ none))
unfolding count
drop_loop_example = drop_loop-ends 4 4 (inputs ∷ queries ∷ []) 6 (omega arith)
