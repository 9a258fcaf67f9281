-- ===== src/Persist/Sections.antt =====
-- The sections of a file and the ingredients that they are loaded into.
use mathlib.Core.List.{append_assoc}
use text.Mathlib.TextEquality.{eq_iff}
use picante.Base.{
  ℕ, ◌≡◌, ◌&&◌, refl, ap, subst, ◌∙◌, Bool, true, false, not, none, some, List, [], ◌∷◌, ◌++◌,
  arith, if◌then◌else◌,
}
use picante.Base.Eq.{nat_eq, ◌==◌, eq_sym}
use picante.Base.Results.{ok, err}
use picante.Base.Set
use picante.Base.Set.{contains-insert}
use picante.Key.{as_u32}
use picante.Error.{PicanteResult, cache}
use picante.Persist.Defs.{Section, SectionType, input, derived, interned, section_type_beq}
use picante.Persist.Ingredients.{Ingredient, with_kind, load_into, unique_loop, ensure_unique_kinds}
use picante.Persist.Loading.{load_section, load_sections}

-- The ids that the map of kinds is built from.
abbrev pub kinds : List Ingredient → List ℕ
kinds [] = []
kinds (i ∷ is) = as_u32 i.kind ∷ kinds is

-- None of the ids was seen.
abbrev none_seen : List ℕ → List ℕ → Bool
none_seen seen [] = true
none_seen seen (k ∷ ks) = not (Set.contains seen k) && none_seen seen ks

none_seen-insert :
    (seen ks : List ℕ) (k : ℕ)
    → none_seen (Set.insert seen k) ks ≡ (not (Set.contains ks k) && none_seen seen ks)
unfolding Set.contains
none_seen-insert seen [] k = refl
none_seen-insert seen (j ∷ ks) k =
    ground (arith, none_seen-insert seen ks k, contains-insert seen k j, eq_sym j k)

none_seen_empty : (ks : List ℕ) → none_seen [] ks ≡ true
unfolding Set.contains
none_seen_empty [] = refl
none_seen_empty (k ∷ ks) = none_seen_empty ks

unique_loop_lem :
    (is : List Ingredient) (seen : List ℕ)
    → unique_loop is seen ≡ (
        if none_seen seen (kinds is) && Set.distinct (kinds is)
        then ok tt
        else err (cache "duplicate ingredient kind id"))
unfolding unique_loop Set.distinct
unique_loop_lem [] seen = refl
unique_loop_lem (i ∷ is) seen = ground (
  arith,
  unique_loop_lem is (Set.insert seen (as_u32 i.kind)),
  none_seen-insert seen (kinds is) (as_u32 i.kind),
)

-- The check answers `Ok` if no two of the ingredients have one kind id, and the error otherwise.
pub ensure_unique_kinds_lem :
    (is : List Ingredient)
    → ensure_unique_kinds is
      ≡ (if Set.distinct (kinds is) then ok tt else err (cache "duplicate ingredient kind id"))
unfolding ensure_unique_kinds
ensure_unique_kinds_lem is = unique_loop_lem is [] ∙ rw (none_seen_empty (kinds is)) refl

module _ (id : ℕ) (f : Ingredient → PicanteResult (Unit {0}) × Ingredient) where
  with_kind-absent :
      (is : List Ingredient) → Set.contains (kinds is) id ≡ false → with_kind id f is ≡ none
  unfolding with_kind Set.contains
  with_kind-absent [] h = refl
  with_kind-absent (i ∷ is) h =
      let rest = with_kind-absent is (ground (arith, h)) in
      let other : (as_u32 i.kind == id) ≡ false = ground (arith, h) in rw (rest, other) refl

  pub with_kind-here :
      (i : Ingredient) (is : List Ingredient)
      → (as_u32 i.kind == id) ≡ true
      → Set.contains (kinds is) id ≡ false
      → with_kind id f (i ∷ is) ≡ some ((f i).0, (f i).1 ∷ is)
  unfolding with_kind
  with_kind-here i is same h = rw (with_kind-absent is h, same) refl

  -- What stands before is not looked at.
  pub with_kind-append :
      (before is is' : List Ingredient) (r : PicanteResult (Unit {0}))
      → with_kind id f is ≡ some (r, is')
      → with_kind id f (before ++ is) ≡ some (r, before ++ is')
  unfolding with_kind
  with_kind-append [] is is' r h = h
  with_kind-append (i ∷ before) is is' r h = rw (with_kind-append before is is' r h) refl

section_type_refl : (t : SectionType) → section_type_beq t t ≡ true
section_type_refl input = refl
section_type_refl derived = refl
section_type_refl interned = refl

-- A section that names the ingredient is loaded into it.
pub record LoadsAs (s : Section) (i j : Ingredient) : Type 1 where
  pub same_kind : s.kind_id ≡ as_u32 i.kind
  pub same_name : s.kind_name ≡ i.kind_name
  pub same_type : s.section_type ≡ i.section_type
  pub loads : load_into s.records i ≡ (ok tt, j)

load_section-LoadsAs :
    (s : Section) (i j : Ingredient) → LoadsAs s i j → load_section s i ≡ (ok tt, j)
unfolding load_section
load_section-LoadsAs s i j l =
    let named = (eq_iff s.kind_name i.kind_name).1 l.same_name in
    rw (named, l.same_type, section_type_refl i.section_type) l.loads

-- Section by section, in the order of the ingredients.
pub data AllLoadAs : List Section → List Ingredient → List Ingredient → Type 1 where
  all_loaded : AllLoadAs [] [] []
  load_one :
      (s : Section) (i j : Ingredient) (ss : List Section) (is js : List Ingredient)
      → LoadsAs s i j
      → AllLoadAs ss is js
      → AllLoadAs (s ∷ ss) (i ∷ is) (j ∷ js)

with_kind-LoadsAs :
    (s : Section) (i j : Ingredient) (before is : List Ingredient)
    → Set.distinct (kinds (i ∷ is)) ≡ true
    → LoadsAs s i j
    → with_kind s.kind_id (load_section s) (before ++ i ∷ is) ≡ some (ok tt, before ++ j ∷ is)
unfolding Set.distinct
with_kind-LoadsAs s i j before is d l =
    let same : (as_u32 i.kind == s.kind_id) ≡ true = ground (arith, l.same_kind) in
    let absent : Set.contains (kinds is) s.kind_id ≡ false = ground (arith, d, l.same_kind) in
    let here = with_kind-here s.kind_id (load_section s) i is same absent in
    with_kind-append s.kind_id (load_section s) before (i ∷ is) (j ∷ is) (ok tt)
      (here ∙ rw (load_section-LoadsAs s i j l) refl)

load_sections_loop :
    (ss : List Section) (before is js : List Ingredient)
    → Set.distinct (kinds is) ≡ true
    → AllLoadAs ss is js
    → load_sections ss (before ++ is) ≡ (ok tt, before ++ js)
unfolding load_sections Set.distinct
load_sections_loop _ before _ _ d all_loaded = refl
load_sections_loop _ before _ _ d (load_one s i j ss is js l a) =
    let rest = load_sections_loop ss (before ++ j ∷ []) is js (ground (arith, d)) a in
    rw (with_kind-LoadsAs s i j before is d l, load_sections)
      (subst (λ js'. load_sections ss js' ≡ (ok tt, before ++ j ∷ js))
        (append_assoc before (j ∷ []) is)
        (rest ∙ ap (λ js'. (ok tt, js')) (append_assoc before (j ∷ []) js)))

-- Sections that name the ingredients of a database in their order, no two of one kind, are loaded
-- each into its own.
pub load_sections_lem :
    (ss : List Section) (is js : List Ingredient)
    → Set.distinct (kinds is) ≡ true
    → AllLoadAs ss is js
    → load_sections ss is ≡ (ok tt, js)
load_sections_lem ss is js d a = load_sections_loop ss [] is js d a
