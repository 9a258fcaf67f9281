-- ===== src/Derived/World.antt =====
-- The state that an access of a derived query acts on, and the monad of its steps.
use picante.Base.{String, List}
use picante.Base.Results.{ok, err}
use picante.Base.Table.{Table}
use picante.Key.{Revision, DynKey, Dep}
use picante.Error.{PicanteError, PicanteResult}
use picante.Frame.{Stack, ActiveFrame, push_frame, pop_frame, enter_scope, leave_scope}
use picante.Runtime.{Runtime, current_revision}
use picante.Input.{InputEntry}
use picante.Inflight.SharedCache.{SharedCache}
use picante.Inflight.Registry.{Registry}

-- `ErasedState`. All queries of a model have one type of values.
pub data ErasedState (V : Type 0) : Type 0 where
  vacant : ErasedState V
  running : (started_at : Revision) → ErasedState V
  ready : (value : V) (verified_at changed_at : Revision) (deps : List Dep) → ErasedState V
  poisoned : (error : PicanteError) (verified_at : Revision) → ErasedState V

-- A database view, the calling task's frames, and the process-wide tables. The maps of all input
-- ingredients are one table, and so are the cells of all derived ones: their keys carry the kind.
pub record World (V : Type 0) : Type 0 where
  pub runtime : Runtime
  pub inputs : Table DynKey (InputEntry V)
  pub cells : Table DynKey (ErasedState V)
  pub stack : Stack
  pub shared : SharedCache V
  pub inflight : Registry V

-- How a call ends. `failed` is `Err`, `panicked` unwinds, `dropped` is a future that its owner drops
-- at an await point, `blocked` awaits a notification that no step of this task sends, and
-- `exhausted` is the model's fuel.
pub data Outcome (A : Type 0) : Type 0 where
  returned : A → Outcome A
  failed : PicanteError → Outcome A
  panicked : String → Outcome A
  dropped : Outcome A
  blocked : Outcome A
  exhausted : Outcome A

abbrev pub M : Type 0 → Type 0 → Type 0
M V A = World V → Outcome A × World V

module _ {V A : Type 0} where
  abbrev pub pure : A → M V A
  pure a w = (returned a, w)

  abbrev pub raise : PicanteError → M V A
  raise e w = (failed e, w)

  -- A `Result` with `?`.
  abbrev pub lift : PicanteResult A → M V A
  lift (ok a) w = (returned a, w)
  lift (err e) w = (failed e, w)

  abbrev pub gets : (World V → A) → M V A
  gets f w = (returned (f w), w)

  -- An `await` whose result is looked at, without `?`.
  abbrev pub caught : Outcome A × World V → Outcome (PicanteResult A) × World V
  caught (returned a, w) = (returned (ok a), w)
  caught (failed e, w) = (returned (err e), w)
  caught (panicked m, w) = (panicked m, w)
  caught (dropped, w) = (dropped, w)
  caught (blocked, w) = (blocked, w)
  caught (exhausted, w) = (exhausted, w)

  abbrev pub attempt : M V A → M V (PicanteResult A)
  attempt m w = caught (m w)

  -- A guard's `drop` runs on every way out of its scope. A blocked future stays where it is.
  abbrev pub guarded : (World V → World V) → Outcome A × World V → Outcome A × World V
  guarded d (returned a, w) = (returned a, d w)
  guarded d (failed e, w) = (failed e, d w)
  guarded d (panicked m, w) = (panicked m, d w)
  guarded d (dropped, w) = (dropped, d w)
  guarded d (blocked, w) = (blocked, w)
  guarded d (exhausted, w) = (exhausted, w)

module _ {V A B : Type 0} where
  abbrev pub bind : Outcome A × World V → (A → M V B) → Outcome B × World V
  bind (returned a, w) f = f a w
  bind (failed e, w) f = (failed e, w)
  bind (panicked m, w) f = (panicked m, w)
  bind (dropped, w) f = (dropped, w)
  bind (blocked, w) f = (blocked, w)
  bind (exhausted, w) f = (exhausted, w)

  infixl 5 ◌>>=◌
  abbrev pub ◌>>=◌ : M V A → (A → M V B) → M V B
  ◌>>=◌ m f w = bind (m w) f

module _ {V : Type 0} where
  infixl 5 ◌>>◌
  abbrev pub ◌>>◌ : {B : Type 0} → M V (Unit {0}) → M V B → M V B
  m >> k = m >>= λ _. k

  abbrev pub modify : (World V → World V) → M V (Unit {0})
  modify f w = (returned tt, f w)

  abbrev pub set_stack : Stack → World V → World V
  set_stack s w = record w { stack = s }

  -- `push_frame`, with the guard that pops it at the end of the scope.
  unfoldable pub with_frame : {A : Type 0} → ActiveFrame → M V A → M V A
  with_frame frame body w =
      guarded (λ w'. set_stack (pop_frame w'.stack) w')
        (body (set_stack (push_frame frame w.stack) w))

  -- `scope_if_needed_boxed`: a task with no stack gets one for the length of the future.
  unfoldable pub scoped : {A : Type 0} → M V A → M V A
  scoped body w =
      guarded (λ w'. set_stack (leave_scope w.stack w'.stack) w')
        (body (set_stack (enter_scope w.stack) w))

  unfoldable pub current : World V → Revision
  current w = current_revision w.runtime
