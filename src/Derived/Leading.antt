-- ===== src/Derived/Leading.antt =====
-- A leader's computation from its start to its end, on a query that reads inputs only.
use picante.Base.{◌+◌, ◌≡◌, ap, ◌∙◌, Bool, false, none, some, Option, List, [], ◌∷◌}
use picante.Base.Eq.{nat_eq}
use picante.Base.Results.{ok, err}
use picante.Base.Table
use picante.Key.{Revision, DynKey, Dep, dyn_key_eq}
use picante.Error.{PicanteResult}
use picante.Frame.{new_frame, push_frame, pop_frame, take_deps}
use picante.Inflight.Registry.{
  InFlightKey, InFlightGuard, Registry, inflight_key_eq, complete, fail, try_lead, leader,
}
use picante.Inflight.Registry as Reg
use picante.Derived.World.{
  World, Outcome, returned, failed, poisoned, guarded, with_frame, set_stack, bind, ◌>>=◌,
}
use picante.Derived.Compute.{Config}
use picante.Derived.Cell.{AccessResult, cutoff}
use picante.Derived.Replay.{IsInputOnly, replay, run_comp-replay}
use picante.Derived.Ends.{stored, finish_ok_lem, finish_err_lem}
use picante.Derived.Rounds.{Access, get_erased, result, take_frame_deps, cancel_if_dropped, finish}
use picante.Derived.Access.{lead, lead_or_follow, compute_round, inflight_key}

module _ {V : Type 0} (x : Config V) (access : Access V) (requested : DynKey) (want_value : Bool)
    (rev : Revision) where
  -- How a computation with this result and these reads ends, at the bottom of a stack.
  abbrev pub ended :
      InFlightGuard
      → Option (V × Revision)
      → List Dep
      → PicanteResult V
      → World V
      → Outcome (Option (AccessResult V)) × World V
  ended g prev deps (ok out) w =
      let changed_at = cutoff x.ptr_eq x.eq_erased rev prev out in
      (
        returned (some (result want_value out changed_at)),
        record (stored x requested want_value rev out deps changed_at w) {
          inflight = complete out deps changed_at g w.inflight;
        },
      )
  ended g prev deps (err e) w = (
    failed e,
    record w {
      cells = Table.insert w.cells requested (poisoned e rev);
      inflight = fail e g w.inflight;
    },
  )

  finish_end :
      (g : InFlightGuard) (prev : Option (V × Revision)) (deps : List Dep) (r : PicanteResult V)
      (w : World V)
      → w.runtime.current ≡ rev.num
      → cancel_if_dropped g (
          guarded
            (λ w'. set_stack (pop_frame w'.stack) w')
            (finish x requested want_value rev g prev deps r
              (set_stack (some (new_frame requested rev ∷ [])) w)))
        ≡ ended g prev deps r (set_stack (some []) w)
  unfolding finish pop_frame
  finish_end g prev deps (ok out) w h = rw (
      finish_ok_lem x requested want_value rev g prev deps out
        (set_stack (some (new_frame requested rev ∷ [])) w) h)
  finish_end g prev deps (err e) w h = rw (
      finish_err_lem x requested want_value rev g e
        (set_stack (some (new_frame requested rev ∷ [])) w) h)

  pub lead_lem :
      (g : InFlightGuard) (prev : Option (V × Revision)) (w : World V)
      → IsInputOnly x.ingredient (x.compute requested)
      → w.runtime.current ≡ rev.num
      → lead x access requested want_value rev g prev (set_stack (some []) w)
        ≡ ended g prev
            (replay w.inputs (x.compute requested)).1
            (replay w.inputs (x.compute requested)).0
            (set_stack (some []) w)
  unfolding lead with_frame push_frame new_frame take_deps
  lead_lem g prev w io h =
      ap
        (λ (p : Outcome (PicanteResult V) × World V). cancel_if_dropped g (
          guarded (λ w'. set_stack (pop_frame w'.stack) w')
            (bind p
              (λ r. take_frame_deps >>= λ deps. finish x requested want_value rev g prev deps r))))
        (run_comp-replay x.ingredient (get_erased access) (x.compute requested)
          (new_frame requested rev) [] w io)
      ∙ finish_end g prev (replay w.inputs (x.compute requested)).1
          (replay w.inputs (x.compute requested)).0 w h

  -- The guard and the registry of the leader for a key that nobody computes.
  abbrev pub guard_for : World V → InFlightGuard
  guard_for w = record {
    key = inflight_key requested rev w;
    entry = w.inflight.next_address;
    completed = false;
  }

  abbrev pub leading : World V → Registry V
  leading w = record {
    entries =
        Table.insert w.inflight.entries (inflight_key requested rev w) w.inflight.next_address;
    states = Table.insert w.inflight.states w.inflight.next_address Reg.running;
    next_address = w.inflight.next_address + 1;
  }

  -- A round that nobody else computes runs the query function once, and ends as its result says.
  pub compute_round_lem :
      (prev : Option (V × Revision)) (w : World V)
      → IsInputOnly x.ingredient (x.compute requested)
      → w.runtime.current ≡ rev.num
      → Table.get w.inflight.entries (inflight_key requested rev (set_stack (some []) w)) ≡ none
      → compute_round x access requested want_value rev prev (set_stack (some []) w)
        ≡ ended
            (guard_for (set_stack (some []) w))
            prev
            (replay w.inputs (x.compute requested)).1
            (replay w.inputs (x.compute requested)).0
            (record w { stack = some []; inflight = leading (set_stack (some []) w) })
  unfolding compute_round lead_or_follow try_lead
  compute_round_lem prev w io h free =
      rw (compute_round, try_lead, free, lead_or_follow)
        (lead_lem (guard_for (set_stack (some []) w)) prev
          (record w { inflight = leading (set_stack (some []) w) }) io h)
