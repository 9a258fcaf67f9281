-- ===== src/Derived/Cancel.antt =====
-- A leader whose owner drops its future at an await point.
use picante.Base.{
  ℕ, ◌+◌, zero, suc, ◌≡◌, ap, ◌∙◌, Bool, false, Option, none, some, arith, if◌then◌else◌,
}
use picante.Base.Table
use picante.Base.Table.{Table, get-insert}
use picante.Key.{Revision, DynKey, dyn_key_eq}
use picante.Frame.{
  Stack, has_active_frame, record_dep, new_frame, find_cycle, push_frame, pop_frame,
}
use picante.Runtime.{cache_scope_id, current_revision}
use picante.Base.Eq.{nat_eq}
use picante.Inflight.Registry.{
  inflight_key_eq, try_lead, leader, drop_guard, state, InFlightGuard, Registry,
}
use picante.Inflight.SharedCache.{shared_cache_get}
use picante.Inflight.Registry as Reg
use picante.Derived.World.{World, dropped, vacant, running, blocked, with_frame, current, set_stack}
use picante.Derived.Compute.{Config, record_if_active}
use picante.Derived.Cell.{observe, try_start, cell_at, set_cell, ensure_cell}
use picante.Derived.Outcomes.{noted, access_scoped-running}
use picante.Derived.Dropped.{IsDropped, run_comp-dropped, pop_frame-reads_on}
use picante.Derived.Rounds.{Access, get_erased}
use picante.Derived.Access.{
  access_scoped, access_with, rounds, round, by_observed, start_round, adopt_or_compute,
  compute_round, lead_or_follow, lead, inflight_key,
}

module _ {V : Type 0} (x : Config V) (access : Access V) (requested : DynKey)
    (want_value : Bool) where
  -- The guard and the registry of a leader, for a key that nobody computes.
  abbrev guard_of : Revision → World V → InFlightGuard
  guard_of rev w = record {
    key = inflight_key requested rev w;
    entry = w.inflight.next_address;
    completed = false;
  }

  abbrev registered : Revision → World V → Registry V
  registered rev w = record {
    entries =
        Table.insert w.inflight.entries (inflight_key requested rev w) w.inflight.next_address;
    states = Table.insert w.inflight.states w.inflight.next_address Reg.running;
    next_address = w.inflight.next_address + 1;
  }

  -- What a leader leaves that is dropped in its computation.
  abbrev abandoned : Revision → World V → World V
  abandoned rev w = record w {
    stack = pop_frame (push_frame (new_frame requested rev) w.stack);
    inflight = drop_guard (guard_of rev w) (registered rev w);
  }

  compute_round-dropped :
      (rev : Revision) (prev : Option (V × Revision)) (w : World V)
      → IsDropped w.inputs (x.compute requested)
      → Table.get w.inflight.entries (inflight_key requested rev w) ≡ none
      → compute_round x access requested want_value rev prev w ≡ (dropped, abandoned rev w)
  unfolding compute_round lead_or_follow try_lead lead with_frame
  compute_round-dropped rev prev w d free =
      let w1 = record w { inflight = registered rev w } in
      let s1 = push_frame (new_frame requested rev) w.stack in
      let run = run_comp-dropped (get_erased access) (x.compute requested) s1 w1 d in
      let popped = pop_frame-reads_on w.inputs (x.compute requested) s1 in
      rw (compute_round, try_lead, free, lead_or_follow, lead, with_frame, run, popped)

  start_round-dropped :
      (rev : Revision) (w : World V)
      → IsDropped w.inputs (x.compute requested)
      → Table.get w.cells requested ≡ some vacant
      → shared_cache_get (cache_scope_id w.runtime) requested.kind requested.key w.shared ≡ none
      → Table.get w.inflight.entries (inflight_key requested rev w) ≡ none
      → start_round x access requested want_value rev w
        ≡ (dropped, abandoned rev (set_cell requested (running rev) w))
  unfolding start_round cell_at try_start set_cell adopt_or_compute inflight_key
  start_round-dropped rev w d c s free =
      rw (c, start_round, cell_at, try_start, adopt_or_compute, set_cell, s)
        (compute_round-dropped rev none (set_cell requested (running rev) w) d free)

  round-dropped :
      (w : World V)
      → IsDropped w.inputs (x.compute requested)
      → Table.get w.cells requested ≡ some vacant
      → shared_cache_get (cache_scope_id w.runtime) requested.kind requested.key w.shared ≡ none
      → Table.get w.inflight.entries (inflight_key requested (current w) w) ≡ none
      → round x access requested want_value w
        ≡ (dropped, abandoned (current w) (set_cell requested (running (current w)) w))
  unfolding round cell_at observe by_observed
  round-dropped w d c s free =
      rw (round, cell_at, c, observe, by_observed) (start_round-dropped (current w) w d c s free)

module _ {V : Type 0} (x : Config V) (requested : DynKey) (want_value : Bool) where
  noted_stack : World V → Stack
  noted_stack w =
      if want_value
      then (if has_active_frame w.stack
          then record_dep (record { kind = requested.kind; key = requested.key }) w.stack
          else w.stack)
      else w.stack

  noted-noted_stack : (w : World V) → noted requested want_value w ≡ set_stack (noted_stack w) w
  unfolding record_if_active noted_stack
  noted-noted_stack w = ground arith

  -- The world of the first round of an access that finds no cell.
  abbrev fresh : World V → World V
  fresh w = record w { stack = noted_stack w; cells = Table.insert w.cells requested vacant }

  ensure-fresh :
      (w : World V)
      → Table.get w.cells requested ≡ none
      → ensure_cell requested (noted requested want_value w) ≡ fresh w
  unfolding ensure_cell set_cell
  ensure-fresh w c = ap (ensure_cell requested) (noted-noted_stack w) ∙ rw (ensure_cell, c)

  fresh-vacant : (w : World V) → Table.get (fresh w).cells requested ≡ some vacant
  fresh-vacant w =
      get-insert w.cells requested requested vacant ∙ rw (dyn_key_eq.beq_refl requested)

  abbrev left_behind : World V → World V
  left_behind w =
      abandoned x (access_scoped x zero) requested want_value (current w)
        (set_cell requested (running (current w)) (fresh w))

  access_scoped-left_behind :
      (n : ℕ) (w : World V)
      → IsDropped w.inputs (x.compute requested)
      → find_cycle requested w.stack ≡ none
      → Table.get w.cells requested ≡ none
      → shared_cache_get (cache_scope_id w.runtime) requested.kind requested.key w.shared ≡ none
      → Table.get w.inflight.entries (inflight_key requested (current w) w) ≡ none
      → access_scoped x (suc (suc n)) requested want_value w ≡ (dropped, left_behind w)
  unfolding access_scoped access_with rounds inflight_key current current_revision
  access_scoped-left_behind n w d cy c s free = rw (
    cy,
    access_scoped,
    access_with,
    ensure-fresh w c,
    rounds,
    round-dropped x (access_scoped x (suc n)) requested want_value (fresh w) d (fresh-vacant w) s
        free,
  )

  left_behind-running :
      (w : World V) → Table.get (left_behind w).cells requested ≡ some (running (current w))
  unfolding set_cell
  left_behind-running w =
      get-insert (fresh w).cells requested requested (running (current w))
      ∙ rw (dyn_key_eq.beq_refl requested)

  left_behind-cancelled :
      (w : World V) → state w.inflight.next_address (left_behind w).inflight ≡ some Reg.cancelled
  unfolding drop_guard state Reg.unregister Reg.set_state set_cell Table.get Table.insert
  left_behind-cancelled w =
      get-insert (Table.insert w.inflight.states w.inflight.next_address Reg.running)
        w.inflight.next_address w.inflight.next_address Reg.cancelled
      ∙ rw (nat_eq.beq_refl w.inflight.next_address)

  -- Let a query have no cell, no shared record and no computation in flight, and let the stack of
  -- the task that asks for it not hold its key. Let its function read inputs, any number of them,
  -- until its future is dropped. Then the access ends there, and its in-flight entry is
  -- `Cancelled`. Every later access of the key, as long as its cell is what this access left, by
  -- any task whose stack does not hold the key, whatever else of the database has changed, waits
  -- and never computes.
  pub access_scoped-dropped :
      (n m : ℕ) (want_later : Bool) (w w' : World V)
      → IsDropped w.inputs (x.compute requested)
      → find_cycle requested w.stack ≡ none
      → Table.get w.cells requested ≡ none
      → shared_cache_get (cache_scope_id w.runtime) requested.kind requested.key w.shared ≡ none
      → Table.get w.inflight.entries (inflight_key requested (current w) w) ≡ none
      → Table.get w'.cells requested
        ≡ Table.get (access_scoped x (suc (suc n)) requested want_value w).1.cells requested
      → find_cycle requested w'.stack ≡ none
      → (access_scoped x (suc (suc n)) requested want_value w).0 ≡ dropped
        × state w.inflight.next_address
            (access_scoped x (suc (suc n)) requested want_value w).1.inflight
          ≡ some Reg.cancelled
        × (access_scoped x (suc (suc m)) requested want_later w').0 ≡ blocked
  access_scoped-dropped n m want_later w w' d cy c s free same cy' =
      let e = access_scoped-left_behind n w d cy c s free in
      (
        ap (λ r. r.0) e,
        ap (λ r. state w.inflight.next_address r.1.inflight) e ∙ left_behind-cancelled w,
        ap (λ r. r.0)
            (access_scoped-running x m requested want_later w' (current w) cy'
              (same ∙ ap (λ r. Table.get r.1.cells requested) e ∙ left_behind-running w)),
      )
