-- ===== src/Derived/Replay.antt =====
-- What a query function computes from the inputs alone: the description that the memoized access of
-- derived.rs is held against. It is stated for functions that read inputs and ask no other query.
use mathlib.Core.List.{append-nil, append_assoc}
use picante.Base.{◌≡◌, refl, ap, ◌∙◌, Option, some, List, [], ◌∷◌, ◌++◌, All}
use picante.Base.Results.{ok, err}
use picante.Base.Table
use picante.Base.Table.{Table}
use picante.Key.{DynKey, Dep, QueryKindId, dep_key, dyn_key_eq}
use picante.Error.{PicanteResult, panic}
use picante.Frame.{ActiveFrame, has_active_frame, record_dep}
use picante.Input.{InputEntry, value_of}
use picante.Input.Reads.{View}
use picante.Derived.World.{World, M, returned, set_stack}
use picante.Derived.Compute.{
  Comp, ret, fails, panics, drops, read, ask, Sort, input, run_comp, read_input, record_if_active,
}
use picante.Derived.Rounds.{caught_unwind}

abbrev pub dep_of : DynKey → Dep
dep_of k = record { kind = k.kind; key = k.key }

module _ {V : Type 0} where
  -- The function reads registered inputs only, and its future is not dropped.
  abbrev pub IsInputOnly : (QueryKindId → Option Sort) → Comp V → Type 0
  IsInputOnly registry (ret v) = Unit {0}
  IsInputOnly registry (fails e) = Unit {0}
  IsInputOnly registry (panics m) = Unit {0}
  IsInputOnly registry drops = ⊥
  IsInputOnly registry (read k f) =
      (registry k.kind ≡ some input) × ((o : Option V) → IsInputOnly registry (f o))
  IsInputOnly registry (ask k f) = ⊥

  -- The result from scratch, and the inputs read, in order.
  unfoldable pub replay : Table DynKey (InputEntry V) → Comp V → PicanteResult V × List Dep
  replay inputs (ret v) = (ok v, [])
  replay inputs (fails e) = (err e, [])
  replay inputs (panics m) = (err (panic m), [])
  replay inputs drops = (err (panic "dropped"), [])
  replay inputs (read k f) =
      let (r, deps) = replay inputs (f (value_of (Table.get inputs k))) in (r, dep_of k ∷ deps)
  replay inputs (ask k f) = (err (panic "no input"), [])

  -- A run under an active frame gives the result from scratch, and records what it reads.
  pub run_comp-replay :
      (registry : QueryKindId → Option Sort) (get : DynKey → M V V) (c : Comp V) (f : ActiveFrame)
      (fs : List ActiveFrame) (w : World V)
      → IsInputOnly registry c
      → caught_unwind (run_comp get c (set_stack (some (f ∷ fs)) w)) ≡ (
        returned (replay w.inputs c).0,
        set_stack (some (record f { deps = f.deps ++ (replay w.inputs c).1 } ∷ fs)) w,
      )
  unfolding run_comp replay read_input record_if_active has_active_frame record_dep
  run_comp-replay registry get (ret v) f fs w h = rw append-nil
  run_comp-replay registry get (fails e) f fs w h = rw append-nil
  run_comp-replay registry get (panics m) f fs w h = rw append-nil
  run_comp-replay registry get drops f fs w h = absurd h
  run_comp-replay registry get (ask k g) f fs w h = absurd h
  run_comp-replay registry get (read k g) f fs w h =
      let v = value_of (Table.get w.inputs k) in
      let rest = (replay w.inputs (g v)).1 in
      run_comp-replay registry get (g v) (record f { deps = f.deps ++ dep_of k ∷ [] }) fs w (h.1 v)
      ∙ ap
          (λ ds.
            (returned (replay w.inputs (g v)).0, set_stack (some (record f { deps = ds } ∷ fs)) w))
          (append_assoc f.deps (dep_of k ∷ []) rest)

  -- Nothing that the function reads differs between the two inputs.
  abbrev pub SameAt : Table DynKey (InputEntry V) → Table DynKey (InputEntry V) → Dep → Type 0
  SameAt before after d = Table.get after (dep_key d) ≡ Table.get before (dep_key d)

  -- If what a run reads stays as it was, the run stays as it was.
  pub replay-same :
      (before after : Table DynKey (InputEntry V)) (c : Comp V)
      → All (SameAt before after) (replay before c).1
      → replay after c ≡ replay before c
  unfolding replay
  replay-same before after (ret v) h = refl
  replay-same before after (fails e) h = refl
  replay-same before after (panics m) h = refl
  replay-same before after drops h = refl
  replay-same before after (ask k f) h = refl
  replay-same before after (read k f) (h, hs) =
      let v = value_of (Table.get before k) in
      rw (ap value_of h) (
        ap (λ (p : PicanteResult V × List Dep). (p.0, dep_of k ∷ p.1))
          (replay-same before after (f v) hs))

  -- Every input that a run reads is registered as an input.
  pub replay-inputs :
      (registry : QueryKindId → Option Sort) (inputs : Table DynKey (InputEntry V)) (c : Comp V)
      → IsInputOnly registry c
      → All (λ d. registry d.kind ≡ some input) (replay inputs c).1
  unfolding replay
  replay-inputs registry inputs (ret v) h = tt
  replay-inputs registry inputs (fails e) h = tt
  replay-inputs registry inputs (panics m) h = tt
  replay-inputs registry inputs drops h = absurd h
  replay-inputs registry inputs (ask k f) h = absurd h
  replay-inputs registry inputs (read k f) h =
      (h.0, replay-inputs registry inputs (f (value_of (Table.get inputs k))) (h.1 _))

  -- The result of a query function on a map.
  abbrev pub from_scratch : View V → Comp V → PicanteResult V
  from_scratch m (ret v) = ok v
  from_scratch m (fails e) = err e
  from_scratch m (panics s) = err (panic s)
  from_scratch m drops = err (panic "dropped")
  from_scratch m (read k f) = from_scratch m (f (m k))
  from_scratch m (ask k f) = err (panic "no input")

  pub from_scratch-replay :
      (inputs : Table DynKey (InputEntry V)) (c : Comp V)
      → (replay inputs c).0 ≡ from_scratch (λ k. value_of (Table.get inputs k)) c
  unfolding replay
  from_scratch-replay inputs (ret v) = refl
  from_scratch-replay inputs (fails e) = refl
  from_scratch-replay inputs (panics s) = refl
  from_scratch-replay inputs drops = refl
  from_scratch-replay inputs (ask k f) = refl
  from_scratch-replay inputs (read k f) =
      from_scratch-replay inputs (f (value_of (Table.get inputs k)))
