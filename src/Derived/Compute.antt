-- ===== src/Derived/Compute.antt =====
-- What a derived query is given from outside: the user's query functions, the comparisons of
-- values, and the registry of ingredients.
use picante.Base.{ℕ, Bool, Option, String, if◌then◌else◌}
use picante.Base.Table
use picante.Key.{Revision, QueryKindId, Key, DynKey, dyn_key_eq}
use picante.Error.{PicanteError, PicanteResult}
use picante.Frame.{has_active_frame, record_dep}
use picante.Input.{value_of}
use picante.Derived.World.{
  World, M, panicked, dropped, pure, raise, attempt, gets, modify, set_stack, ◌>>=◌, ◌>>◌,
}

-- A query function, as the reads that it makes: of an input, or of a derived query, whose result,
-- `Ok` or `Err`, it goes on from. `drops` is an await at which its owner drops the future.
pub data Comp (V : Type 0) : Type 0 where
  ret : V → Comp V
  fails : PicanteError → Comp V
  panics : String → Comp V
  drops : Comp V
  read : DynKey → (Option V → Comp V) → Comp V
  ask : DynKey → (PicanteResult V → Comp V) → Comp V

-- What an ingredient is, for `touch`. `interned` holds the `touch` of that ingredient, whose tables no
-- access changes.
pub data Sort : Type 0 where
  input : Sort
  derived : Sort
  interned : (Key → PicanteResult Revision) → Sort

pub record Config (V : Type 0) : Type 0 where
  pub compute : DynKey → Comp V
  -- `Arc::ptr_eq`, and the deep equality of the value type.
  pub ptr_eq : V → V → Bool
  pub eq_erased : V → V → Bool
  -- `db.ingredient(kind)`
  pub ingredient : QueryKindId → Option Sort
  -- `PICANTE_SHARED_CACHE_MAX_ENTRIES`
  pub env : Option ℕ

module _ {V : Type 0} where
  -- `if frame::has_active_frame() { frame::record_dep(dep) }`
  unfoldable pub record_if_active : DynKey → World V → World V
  record_if_active k w =
      if has_active_frame w.stack
      then set_stack (record_dep (record { kind = k.kind; key = k.key }) w.stack) w
      else w

  -- `InputIngredient::get` on an encoded key.
  unfoldable pub read_input : DynKey → M V (Option V)
  unfolding record_if_active
  read_input k = do modify (record_if_active k); gets (λ w. value_of (Table.get w.inputs k))

  -- A run of a query function; `get` is the access of a derived query for its value.
  unfoldable pub run_comp : (DynKey → M V V) → Comp V → M V V
  unfolding read_input
  run_comp get (ret v) = pure v
  run_comp get (fails e) = raise e
  run_comp get (panics m) = λ w. (panicked m, w)
  run_comp get drops = λ w. (dropped, w)
  run_comp get (read k f) = read_input k >>= λ v. run_comp get (f v)
  run_comp get (ask k f) = attempt (get k) >>= λ r. run_comp get (f r)
