-- ===== src/Derived/Cell.antt =====
-- The cell of one key: what a reader observes in it, and when a computation may start.
use picante.Base.{Bool, ◌||◌, Option, none, some, List, ◌==◌, if◌then◌else◌}
use picante.Base.Table
use picante.Key.{Revision, DynKey, Dep, dyn_key_eq}
use picante.Error.{PicanteError}
use picante.Derived.World.{World, ErasedState, vacant, running, ready, poisoned}

pub record AccessResult (V : Type 0) : Type 0 where
  pub value : Option V
  pub changed_at : Revision

-- `ErasedObserved`
pub data Observed (V : Type 0) : Type 0 where
  ready_now : (value : Option V) (changed_at : Revision) → Observed V
  error_now : PicanteError → Observed V
  running_now : (started_at : Revision) → Observed V
  stale_ready : (deps : List Dep) (changed_at : Revision) → Observed V
  stale_other : Observed V

module _ {V : Type 0} where
  -- `want_value.then(|| value.clone())`
  abbrev pub wanted : Bool → V → Option V
  wanted want_value value = if want_value then some value else none

  unfoldable pub observe : Bool → Revision → ErasedState V → Observed V
  observe want_value rev vacant = stale_other
  observe want_value rev (running started_at) = running_now started_at
  observe want_value rev (ready value verified_at changed_at deps) =
      if verified_at.num == rev.num
      then ready_now (wanted want_value value) changed_at
      else stale_ready deps changed_at
  observe want_value rev (poisoned error verified_at) =
      if verified_at.num == rev.num then error_now error else stale_other

  -- `none` if the computation may not start, else the previous value with its revision, if any.
  unfoldable pub try_start : Revision → ErasedState V → Option (Option (V × Revision))
  try_start rev vacant = some none
  try_start rev (running started_at) = none
  try_start rev (ready value verified_at changed_at deps) =
      if verified_at.num == rev.num then none else some (some (value, changed_at))
  try_start rev (poisoned error verified_at) =
      if verified_at.num == rev.num then none else some none

  -- Early cutoff: the revision of the new value.
  unfoldable pub cutoff :
      (V → V → Bool) → (V → V → Bool) → Revision → Option (V × Revision) → V → Revision
  cutoff ptr_eq eq_erased rev none out = rev
  cutoff ptr_eq eq_erased rev (some (prev_value, prev_changed_at)) out =
      if ptr_eq prev_value out || eq_erased prev_value out then prev_changed_at else rev

  -- The cell of a key; the source creates it, vacant, at the first access.
  unfoldable pub cell_at : DynKey → World V → ErasedState V
  cell_at k w = elim (Table.get w.cells k) [ none ↦ vacant | some st ↦ st ]

  unfoldable pub set_cell : DynKey → ErasedState V → World V → World V
  set_cell k st w = record w { cells = Table.insert w.cells k st }

  unfoldable pub ensure_cell : DynKey → World V → World V
  unfolding set_cell
  ensure_cell k w = elim (Table.get w.cells k) [ none ↦ set_cell k vacant w | some st ↦ w ]
