-- ===== src/Frame/Laws.antt =====
-- The frame stack: what recording, taking and popping do to it, and when a cycle is reported.
use mathlib.Core.List.{append-nil, append_assoc}
use picante.Base.{◌≡◌, refl, true, none, some, List, [], ◌∷◌, ◌++◌, map, arith, any, if◌then◌else◌}
use picante.Base.Eq.{◌==◌}
use picante.Base.Set.{contains, distinct}
use picante.Key.{DynKey, Dep, Revision, dyn_key_eq}
use picante.Frame.{
  ActiveFrame, Stack, new_frame, record_dep, push_frame, pop_frame, take_deps, find_cycle,
  stack_keys,
}

-- The dependencies recorded one after another.
unfoldable pub record_deps : List Dep → Stack → Stack
record_deps [] s = s
record_deps (d ∷ ds) s = record_deps ds (record_dep d s)

record_deps_top :
    (ds : List Dep) (f : ActiveFrame) (fs : List ActiveFrame)
    → record_deps ds (some (f ∷ fs)) ≡ some (record f { deps = f.deps ++ ds } ∷ fs)
unfolding record_deps record_dep
record_deps_top [] f fs = rw append-nil
record_deps_top (d ∷ ds) f fs =
    rw (record_deps_top ds (record f { deps = f.deps ++ d ∷ [] }) fs)
      (rw (append_assoc f.deps (d ∷ []) ds) refl)

-- A frame collects exactly the dependencies that are recorded while it is on top, in order; taking
-- them and dropping its guard leaves the frames below as they were.
take_deps-record_deps :
    (ds : List Dep) (k : DynKey) (r : Revision) (fs : List ActiveFrame)
    → let (deps, s) = take_deps (record_deps ds (push_frame (new_frame k r) (some fs))) in
      (deps ≡ ds) × (pop_frame s ≡ some fs)
unfolding take_deps push_frame new_frame pop_frame
take_deps-record_deps ds k r fs = rw (record_deps_top ds (new_frame k r) fs) (refl, refl)

abbrev pub keys_of : List ActiveFrame → List DynKey
keys_of fs = map (λ f. f.dyn_key) fs

any-contains :
    (k : DynKey) (fs : List ActiveFrame) → any (λ f. f.dyn_key == k) fs ≡ contains (keys_of fs) k
unfolding contains
any-contains k [] = refl
any-contains k (f ∷ fs) = ground (arith, any-contains k fs)

-- A cycle is reported exactly when the requested key is on the stack, and then with the keys of the
-- whole stack from the bottom up.
pub find_cycle_lem :
    (k : DynKey) (fs : List ActiveFrame)
    → find_cycle k (some fs) ≡ (if contains (keys_of fs) k then some (stack_keys fs) else none)
unfolding find_cycle
find_cycle_lem k fs = rw (any-contains k fs)

-- A frame that is pushed when no cycle is reported keeps the keys on the stack distinct, so no
-- query is ever active twice in a task.
pub push_frame-distinct :
    (k : DynKey) (r : Revision) (fs : List ActiveFrame)
    → find_cycle k (some fs) ≡ none
    → distinct (keys_of fs) ≡ true
    → distinct (keys_of (new_frame k r ∷ fs)) ≡ true
unfolding find_cycle new_frame distinct
push_frame-distinct k r fs h d = ground (arith, any-contains k fs)
