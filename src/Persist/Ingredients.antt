-- ===== src/Persist/Ingredients.antt =====
-- `PersistableIngredient`: what the persistence asks of an ingredient, the interface that the input,
-- derived and interned ingredients fill. A database is its runtime and its ingredients.
use picante.Base.{ℕ, Option, none, some, List, [], ◌∷◌, String, ◌==◌, if◌then◌else◌}
use picante.Base.Eq.{nat_eq}
use picante.Base.Results.{ok, err, after_ok}
use picante.Base.Set
use picante.Key.{QueryKindId, as_u32}
use picante.Error.{PicanteResult, cache}
use picante.Runtime.{Runtime}
use picante.Persist.Defs.{SectionType}

-- An object: the methods, over a type of states of its own, and the state.
pub record Ingredient : Type 1 where
  pub State : Type 0
  pub kind : QueryKindId
  pub kind_name : String
  pub section_type : SectionType
  pub clear : State → State
  pub save_records : State → PicanteResult (List (List ℕ))
  pub load_records : List (List ℕ) → State → PicanteResult (Unit {0}) × State
  pub restore_runtime_state : State → Runtime → PicanteResult (Unit {0}) × Runtime
  pub save_incremental_records : ℕ → State → PicanteResult (List (ℕ × List ℕ × Option (List ℕ)))
  pub apply_wal_entry : ℕ × List ℕ × Option (List ℕ) → State → PicanteResult (Unit {0}) × State
  pub state : State

pub record Db : Type 1 where
  pub runtime : Runtime
  pub ingredients : List Ingredient

-- The bodies that the trait gives to methods that an ingredient does not write.
unfoldable pub default_restore : {S : Type 0} → S → Runtime → PicanteResult (Unit {0}) × Runtime
default_restore s rt = (ok tt, rt)

unfoldable pub default_save_incremental :
    {S : Type 0} → ℕ → S → PicanteResult (List (ℕ × List ℕ × Option (List ℕ)))
default_save_incremental since s = ok []

unfoldable pub default_apply :
    {S : Type 0} → ℕ × List ℕ × Option (List ℕ) → S → PicanteResult (Unit {0}) × S
default_apply change s = (ok tt, s)

abbrev pub with_state : (i : Ingredient) → i.State → Ingredient
with_state i s = record i { state = s }

-- The calls of a method on the object.
abbrev pub cleared : Ingredient → Ingredient
cleared i = with_state i (i.clear i.state)

abbrev pub load_into : List (List ℕ) → Ingredient → PicanteResult (Unit {0}) × Ingredient
load_into records i = let (r, s) = i.load_records records i.state in (r, with_state i s)

abbrev pub apply_to :
    ℕ × List ℕ × Option (List ℕ) → Ingredient → PicanteResult (Unit {0}) × Ingredient
apply_to change i = let (r, s) = i.apply_wal_entry change i.state in (r, with_state i s)

unfoldable pub unique_loop : List Ingredient → List ℕ → PicanteResult (Unit {0})
unique_loop [] seen = ok tt
unique_loop (i ∷ is) seen =
    let rest = unique_loop is (Set.insert seen (as_u32 i.kind)) in
    if Set.contains seen (as_u32 i.kind) then err (cache "duplicate ingredient kind id") else rest

unfoldable pub ensure_unique_kinds : List Ingredient → PicanteResult (Unit {0})
unfolding unique_loop
ensure_unique_kinds is = unique_loop is []

-- A call on the ingredient that the map of kinds holds for an id: of those inserted under one id the
-- last. `none` if there is none.
unfoldable pub with_kind :
    ℕ
    → (Ingredient → PicanteResult (Unit {0}) × Ingredient)
    → List Ingredient
    → Option (PicanteResult (Unit {0}) × List Ingredient)
with_kind id f [] = none
with_kind id f (i ∷ is) = elim (with_kind id f is) [
  | some (r, is') ↦ some (r, i ∷ is')
  | none ↦ if as_u32 i.kind == id then (let (r, i') = f i in some (r, i' ∷ is)) else none
]

-- `for ingredient in ingredients { ingredient.restore_runtime_state(runtime).await?; }`
unfoldable pub restore_all : List Ingredient → Runtime → PicanteResult (Unit {0}) × Runtime
restore_all [] rt = (ok tt, rt)
restore_all (i ∷ is) rt = after_ok (restore_all is) (i.restore_runtime_state i.state rt)
