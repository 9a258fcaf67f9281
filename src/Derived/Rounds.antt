-- ===== src/Derived/Rounds.antt =====
-- One round of the loop of `access_scoped_erased`. The accesses that it makes in turn, of
-- dependencies and from query functions, are the parameter `access`.
use picante.Base.{ℕ, Bool, true, false, Option, none, some, List, [], ◌∷◌, ◌==◌, ltb, if◌then◌else◌}
use picante.Base.Results.{ok, err}
use picante.Base.Table
use picante.Key.{Revision, DynKey, Dep, dyn_key_eq}
use picante.Error.{PicanteError, PicanteResult, panic}
use picante.Frame.{new_frame, take_deps}
use picante.Runtime.{cache_scope_id, update_query_deps, notify_query_changed}
use picante.Input.{revision_0}
use picante.Inflight.SharedCache.{SharedCacheRecord, shared_cache_put}
use picante.Inflight.Registry.{
  InFlightKey, InFlightGuard, TryLeadResult, leader, follower, Registry, try_lead, complete, fail,
  drop_guard, state,
}
use picante.Inflight.Registry as Reg
use picante.Derived.World.{
  World, M, Outcome, ErasedState, vacant, running, ready, poisoned, returned, failed, panicked,
  dropped, blocked, exhausted, pure, raise, lift, gets, modify, with_frame, scoped, current,
  set_stack, ◌>>=◌, ◌>>◌,
}
use picante.Derived.Compute.{Config, Sort, input, derived, interned}
use picante.Derived.Cell.{AccessResult, wanted, cutoff, set_cell}

abbrev pub Access : Type 0 → Type 0
Access V = DynKey → Bool → M V (AccessResult V)

module _ {V : Type 0} where
  -- "Ensure we return a value consistent with *now*": `none` is `continue`.
  unfoldable pub settle : Revision → AccessResult V → M V (Option (AccessResult V))
  settle rev r = gets (λ w. if (current w).num == rev.num then some r else none)

  unfoldable pub settle_err : Revision → PicanteError → M V (Option (AccessResult V))
  settle_err rev e w = if (current w).num == rev.num then (failed e, w) else (returned none, w)

  -- `touch_erased`
  unfoldable pub touch_erased : Access V → DynKey → M V Revision
  touch_erased access k = scoped (access k false) >>= λ r. pure r.changed_at

  -- `get_erased`
  unfoldable pub get_erased : Access V → DynKey → M V V
  get_erased access k = scoped (access k true) >>= λ r. elim r.value [
    | none ↦ raise (panic "[BUG] expected value but got None")
    | some v ↦ pure v
  ]

  -- `DynIngredient::touch` of the ingredient of a dependency.
  unfoldable pub touch_dep : Access V → Sort → Dep → M V Revision
  touch_dep access input d = gets λ w.
      elim (Table.get w.inputs (record { kind = d.kind; key = d.key })) [
        | none ↦ revision_0
        | some e ↦ e.changed_at
      ]
  touch_dep access derived d = touch_erased access (record { kind = d.kind; key = d.key })
  touch_dep access (interned t) d = lift (t d.key)

  -- The loop of `try_revalidate`.
  unfoldable pub touch_deps : Config V → Access V → Revision → List Dep → M V Bool
  touch_deps x access self_changed_at [] = pure true
  touch_deps x access self_changed_at (d ∷ deps) = elim (x.ingredient d.kind) [
    | none ↦ pure false
    | some s ↦ touch_dep access s d >>= λ changed_at.
        if ltb self_changed_at.num changed_at.num
        then pure false
        else touch_deps x access self_changed_at deps
  ]

  unfoldable pub try_revalidate :
      Config V → Access V → DynKey → Revision → List Dep → Revision → M V Bool
  try_revalidate x access requested rev deps self_changed_at =
      with_frame (new_frame requested rev) (touch_deps x access self_changed_at deps)

  unfoldable pub put_shared :
      Config V → DynKey → V → List Dep → Revision → Revision → World V → World V
  put_shared x requested value deps changed_at rev w = record w {
    shared =
        shared_cache_put x.env (cache_scope_id w.runtime) requested.kind requested.key
          (record {
            value = value;
            deps = deps;
            changed_at = changed_at;
            verified_at = rev;
            insert_id = 0;
          })
          w.shared;
  }

  unfoldable pub update_deps : DynKey → List Dep → World V → World V
  update_deps requested deps w = record w { runtime = update_query_deps requested deps w.runtime }

  -- `if changed_at == rev { notify_query_changed(..) }`
  unfoldable pub notify_if_changed : DynKey → Revision → Revision → World V → World V
  notify_if_changed requested changed_at rev w =
      if changed_at.num == rev.num
      then record w { runtime = notify_query_changed rev requested w.runtime }
      else w

  abbrev pub result : Bool → V → Revision → AccessResult V
  result want_value value changed_at = record {
    value = wanted want_value value;
    changed_at = changed_at;
  }

  -- `catch_unwind().await`: a panic becomes an error.
  abbrev pub caught_unwind : Outcome V × World V → Outcome (PicanteResult V) × World V
  caught_unwind (returned v, w) = (returned (ok v), w)
  caught_unwind (failed e, w) = (returned (err e), w)
  caught_unwind (panicked m, w) = (returned (err (panic m)), w)
  caught_unwind (dropped, w) = (dropped, w)
  caught_unwind (blocked, w) = (blocked, w)
  caught_unwind (exhausted, w) = (exhausted, w)

  abbrev pub take_frame_deps : M V (List Dep)
  take_frame_deps w = let (deps, s) = take_deps w.stack in (returned deps, set_stack s w)

  -- A leader that is dropped before it finishes: the in-flight guard cancels its entry.
  abbrev pub cancel_if_dropped :
      {A : Type 0} → InFlightGuard → Outcome A × World V → Outcome A × World V
  cancel_if_dropped guard (dropped, w) =
      (dropped, record w { inflight = drop_guard guard w.inflight })
  cancel_if_dropped guard (returned a, w) = (returned a, w)
  cancel_if_dropped guard (failed e, w) = (failed e, w)
  cancel_if_dropped guard (panicked m, w) = (panicked m, w)
  cancel_if_dropped guard (blocked, w) = (blocked, w)
  cancel_if_dropped guard (exhausted, w) = (exhausted, w)

module _ {V : Type 0} (x : Config V) (requested : DynKey) (want_value : Bool) (rev : Revision) where
  -- The `StaleReady` branch after a revalidation that succeeded.
  unfoldable pub refresh : ErasedState V → M V (Option (AccessResult V))
  refresh (ready value verified_at changed_at deps) =
      modify (set_cell requested (ready value rev changed_at deps))
      >> settle rev (result want_value value changed_at)
  refresh (running started_at) = pure none
  refresh vacant = pure none
  refresh (poisoned error verified_at) = pure none

  -- The adoption of a record of the shared cache.
  unfoldable pub adopt : SharedCacheRecord V → M V (Option (AccessResult V))
  adopt r = do
    modify (update_deps requested r.deps)
    modify (set_cell requested (ready r.value rev r.changed_at r.deps))
    modify (put_shared x requested r.value r.deps r.changed_at rev)
    settle rev (result want_value r.value r.changed_at)

  -- A follower's wait, and what it does with the leader's result.
  unfoldable pub follow_state : Option (Reg.InFlightState V) → M V (Option (AccessResult V))
  follow_state none = λ w. (blocked, w)
  follow_state (some Reg.running) = λ w. (blocked, w)
  follow_state (some (Reg.done value deps changed_at)) = do
    modify (set_cell requested (ready value rev changed_at deps))
    modify (update_deps requested deps)
    modify (notify_if_changed requested changed_at rev)
    modify (put_shared x requested value deps changed_at rev)
    settle rev (result want_value value changed_at)
  follow_state (some (Reg.failed error)) = do
    modify (set_cell requested (poisoned error rev))
    settle_err rev error
  follow_state (some Reg.cancelled) = pure none

  unfoldable pub follow : ℕ → M V (Option (AccessResult V))
  unfolding follow_state
  follow entry = do
    modify (set_cell requested vacant)
    st ← gets (λ w. state entry w.inflight)
    follow_state st

  -- `finalize` on a value.
  unfoldable pub finish_ok :
      InFlightGuard → Option (V × Revision) → List Dep → V → M V (Option (AccessResult V))
  finish_ok guard prev deps out =
      let changed_at = cutoff x.ptr_eq x.eq_erased rev prev out in
      (do
        modify (update_deps requested deps)
        modify (notify_if_changed requested changed_at rev)
        modify (set_cell requested (ready out rev changed_at deps))
        modify (put_shared x requested out deps changed_at rev)
        modify (λ w. record w { inflight = complete out deps changed_at guard w.inflight })
        settle rev (result want_value out changed_at))

  -- `finalize` on an error, or on a panic that was caught.
  unfoldable pub finish_err : InFlightGuard → PicanteError → M V (Option (AccessResult V))
  finish_err guard error = do
    modify (set_cell requested (poisoned error rev))
    modify (λ w. record w { inflight = fail error guard w.inflight })
    settle_err rev error

  unfoldable pub finish :
      InFlightGuard
      → Option (V × Revision)
      → List Dep
      → PicanteResult V
      → M V (Option (AccessResult V))
  unfolding finish_ok finish_err
  finish guard prev deps (ok out) = finish_ok guard prev deps out
  finish guard prev deps (err error) = finish_err guard error
