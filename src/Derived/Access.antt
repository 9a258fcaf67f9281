-- ===== src/Derived/Access.antt =====
-- `access_scoped_erased`: the whole access of a derived query, on fuel. Each unit of fuel lets an access
-- call one level deeper, and go round its loop once more.
use picante.Base.{ℕ, zero, suc, Bool, true, Option, none, some, ◌==◌, if◌then◌else◌}
use picante.Key.{Revision, DynKey}
use picante.Error.{cycle}
use picante.Frame.{new_frame, find_cycle}
use picante.Runtime.{cache_scope_id}
use picante.Inflight.SharedCache.{shared_cache_get}
use picante.Inflight.Registry.{
  InFlightKey, InFlightGuard, TryLeadResult, leader, follower, Registry, try_lead,
}
use picante.Derived.World.{
  World, M, running, exhausted, blocked, pure, raise, gets, modify, with_frame, current, ◌>>=◌,
  ◌>>◌,
}
use picante.Derived.Compute.{Config, record_if_active, run_comp}
use picante.Derived.Cell.{
  AccessResult, Observed, ready_now, error_now, running_now, stale_ready, stale_other, observe,
  try_start, cell_at, set_cell, ensure_cell,
}
use picante.Derived.Rounds.{
  Access, settle, settle_err, get_erased, try_revalidate, refresh, adopt, follow, finish,
  caught_unwind, take_frame_deps, cancel_if_dropped,
}

module _ {V : Type 0} where
  unfoldable pub inflight_key : DynKey → Revision → World V → InFlightKey
  inflight_key requested rev w = record {
    runtime_id = cache_scope_id w.runtime;
    revision = rev;
    kind = requested.kind;
    key = requested.key;
  }

module _ {V : Type 0} (x : Config V) (access : Access V) (requested : DynKey) (want_value : Bool)
    (rev : Revision) where
  -- The leader's computation, under an active frame, and its end.
  unfoldable pub lead : InFlightGuard → Option (V × Revision) → M V (Option (AccessResult V))
  lead guard prev w = cancel_if_dropped guard (
      with_frame (new_frame requested rev)
        (do
          result ← (λ w'. caught_unwind (run_comp (get_erased access) (x.compute requested) w'))
          deps ← take_frame_deps
          finish x requested want_value rev guard prev deps result)
        w)

  unfoldable pub lead_or_follow :
      Option (V × Revision) → TryLeadResult × Registry V → M V (Option (AccessResult V))
  unfolding lead
  lead_or_follow prev (leader guard, inflight) w =
      lead guard prev (record w { inflight = inflight })
  lead_or_follow prev (follower entry, inflight) w =
      follow x requested want_value rev entry (record w { inflight = inflight })

  -- `compute_round`: the in-flight registry decides who computes.
  unfoldable pub compute_round : Option (V × Revision) → M V (Option (AccessResult V))
  unfolding lead_or_follow
  compute_round prev w = lead_or_follow prev (try_lead (inflight_key requested rev w) w.inflight) w

  unfoldable pub adopt_or_compute : Option (V × Revision) → M V (Option (AccessResult V))
  unfolding compute_round
  adopt_or_compute prev w =
      elim (shared_cache_get (cache_scope_id w.runtime) requested.kind requested.key w.shared) [
        | none ↦ compute_round prev w
        | some r ↦
            ((if r.verified_at.num == rev.num
                  then pure true
                  else try_revalidate x access requested rev r.deps r.changed_at)
                >>= λ can_adopt.
                    if can_adopt then adopt x requested want_value rev r else compute_round prev)
              w
      ]

  -- From "attempt to start computation" on.
  unfoldable pub start_round : M V (Option (AccessResult V))
  unfolding adopt_or_compute
  start_round w = elim (try_start rev (cell_at requested w)) [
    | none ↦ pure none w
    | some prev ↦ (modify (set_cell requested (running rev)) >> adopt_or_compute prev) w
  ]

  unfoldable pub by_observed : Observed V → M V (Option (AccessResult V))
  unfolding start_round
  by_observed (ready_now value changed_at) =
      settle rev (record { value = value; changed_at = changed_at })
  by_observed (error_now e) = settle_err rev e
  by_observed (running_now started_at) = λ w. (blocked, w)
  by_observed (stale_ready deps changed_at) =
      try_revalidate x access requested rev deps changed_at >>= λ valid.
      if valid
      then (gets (cell_at requested) >>= refresh x requested want_value rev)
      else start_round
  by_observed stale_other = start_round

module _ {V : Type 0} (x : Config V) where
  -- One round of the loop.
  unfoldable pub round : Access V → DynKey → Bool → M V (Option (AccessResult V))
  unfolding by_observed
  round access requested want_value w =
      by_observed x access requested want_value (current w)
        (observe want_value (current w) (cell_at requested w)) w

  unfoldable pub rounds : Access V → DynKey → Bool → ℕ → M V (AccessResult V)
  unfolding round
  rounds access requested want_value zero = λ w. (exhausted, w)
  rounds access requested want_value (suc n) = round access requested want_value >>= λ r. elim r [
    | some res ↦ pure res
    | none ↦ rounds access requested want_value n
  ]

  -- What the access does before its loop.
  unfoldable pub access_with : Access V → ℕ → Access V
  unfolding rounds
  access_with access n requested want_value w = elim (find_cycle requested w.stack) [
    | some stack ↦ raise (cycle requested stack) w
    | none ↦
        (modify (λ w'. if want_value then record_if_active requested w' else w')
            >> modify (ensure_cell requested)
            >> rounds access requested want_value n)
          w
  ]

  unfoldable pub access_scoped : ℕ → Access V
  unfolding access_with
  access_scoped zero = λ requested want_value w. (exhausted, w)
  access_scoped (suc n) = access_with (access_scoped n) n
