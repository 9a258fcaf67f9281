-- ===== src/Frame.antt =====
-- frame.rs: the task-local stack of active query frames. `none` is a task with no scope. The head
-- of the list is the top of the stack, the last element of the source's `Vec`.
pub mod Laws
use mathlib.Core.List.{reverse}
use picante.Base.{
  ℕ, ◌≡◌, refl, ap, ◌≢◌, Bool, true, false, Option, none, some, List, [], ◌∷◌, ◌++◌, map, arith,
  any, not, if◌then◌else◌, inl, inr, Bool-cases,
}
use picante.Base.Eq.{◌==◌}
use picante.Key.{DynKey, Dep, Revision, dyn_key_eq}

pub record ActiveFrame : Type 0 where
  pub dyn_key : DynKey
  pub started_at : Revision
  pub deps : List Dep

-- What `ACTIVE_STACK` holds.
abbrev pub Stack : Type 0
Stack = Option (List ActiveFrame)

unfoldable pub new_frame : DynKey → Revision → ActiveFrame
new_frame k r = record { dyn_key = k; started_at = r; deps = [] }

-- The scope that `scope_if_needed` and `scope_if_needed_boxed` run a future in.
unfoldable pub enter_scope : Stack → Stack
enter_scope none = some []
enter_scope (some fs) = some fs

-- What is left of it for the caller, from the caller's own stack and the future's last one.
unfoldable pub leave_scope : Stack → Stack → Stack
leave_scope none inner = none
leave_scope (some fs) inner = inner

unfoldable pub has_active_frame : Stack → Bool
has_active_frame none = false
has_active_frame (some []) = false
has_active_frame (some (f ∷ fs)) = true

unfoldable pub record_dep : Dep → Stack → Stack
record_dep dep none = none
record_dep dep (some []) = some []
record_dep dep (some (f ∷ fs)) = some (record f { deps = f.deps ++ dep ∷ [] } ∷ fs)

-- The keys on the stack, from the bottom up.
unfoldable pub stack_keys : List ActiveFrame → List DynKey
stack_keys fs = reverse (map (λ f. f.dyn_key) fs)

unfoldable pub find_cycle : DynKey → Stack → Option (List DynKey)
unfolding stack_keys
find_cycle requested none = none
find_cycle requested (some fs) =
    if any (λ f. f.dyn_key == requested) fs then some (stack_keys fs) else none

unfoldable pub push_frame : ActiveFrame → Stack → Stack
push_frame frame none = none
push_frame frame (some fs) = some (frame ∷ fs)

-- `Drop for FrameGuard`
unfoldable pub pop_frame : Stack → Stack
pop_frame none = none
pop_frame (some []) = some []
pop_frame (some (f ∷ fs)) = some fs

-- `take_deps` on the handle of the top frame.
unfoldable pub take_deps : Stack → List Dep × Stack
take_deps none = ([], none)
take_deps (some []) = ([], some [])
take_deps (some (f ∷ fs)) = (f.deps, some (record f { deps = [] } ∷ fs))
