-- ===== src/Derived/Serving.antt =====
-- What one round of an access answers in a sound database, when the query reads inputs only: the
-- result from scratch.
use picante.Base.{ℕ, ◌≡◌, refl, ap, subst, Bool, none, some, Option, List, arith, ◌≤◌, All}
use picante.Base.Results.{ok, err}
use picante.Base.Table
use picante.Base.Table.{Table}
use picante.Key.{Revision, DynKey, Dep, dyn_key_eq}
use picante.Error.{PicanteError, PicanteResult}
use picante.Runtime.{Runtime, cache_scope_id, update_query_deps}
use picante.Input.Scope.{Scope, InScope}
use picante.Inflight.SharedCache.{SharedCacheRecord, shared_cache_put}
use picante.Inflight.Registry.{Registry, InFlightGuard, inflight_key_eq, complete, fail}
use picante.Derived.World.{World, Outcome, returned, failed, ready, poisoned}
use picante.Derived.Compute.{Config, input}
use picante.Derived.Cell.{AccessResult, cutoff}
use picante.Derived.Replay.{IsInputOnly, replay, replay-inputs}
use picante.Derived.Memo.{IsMemo}
use picante.Derived.Sound.{
  IsByKey, AreOthers, AreRecords, IsIdle, IsSound, AreOthers-insert, AreRecords-put,
  IsIdle-complete, IsIdle-fail,
}
use picante.Derived.Ends.{
  informed, current-informed, informed-InScope, update_query_deps-InScope, shared_record, stored,
  adopted,
}
use picante.Derived.Rounds.{Access, result}
use picante.Derived.Leading.{ended}

module _ {V : Type 0} (want_value : Bool) where
  -- The outcome that a result from scratch asks for, at some revision.
  abbrev pub IsAnswer : {A : Type 0} → (AccessResult V → A) → PicanteResult V → Outcome A → Type 0
  IsAnswer wrap (ok v) o = (ch : Revision) × (o ≡ returned (wrap (result want_value v ch)))
  IsAnswer wrap (err e) o = o ≡ failed e

module _ {V : Type 0} (x : Config V) (scope : Scope) (requested : DynKey) (want_value : Bool) where
  -- A sound database but for the cell of the key that is asked for.
  pub record IsOpen (w : World V) : Type 0 where
    pub in_scope : InScope scope w.runtime
    pub others : AreOthers x requested w.inputs w.runtime.current w.cells
    pub records : AreRecords x scope.id w.inputs w.runtime.current w.shared

  -- The answer is the result from scratch, and the database stays sound.
  pub record Serves {A : Type 0} (wrap : AccessResult V → A) (w : World V) (p : Outcome A × World V)
      : Type 0 where
    pub answer : IsAnswer want_value wrap (replay w.inputs (x.compute requested)).0 p.0
    pub stack : p.1.stack ≡ w.stack
    pub inputs : p.1.inputs ≡ w.inputs
    pub now : p.1.runtime.current ≡ w.runtime.current
    pub sound : IsSound x scope p.1

  module _ (by : IsByKey x) where
    -- A value that is stored with the dependencies sent to a runtime of the same scope and revision.
    filled-IsSound :
        (rt : Runtime) (value : V) (deps : List Dep) (ch rev : Revision) (w : World V)
        (reg : Registry V)
        → InScope scope rt
        → rt.current ≡ w.runtime.current
        → IsOpen w
        → IsMemo x w.inputs w.runtime.current (x.compute requested) value rev ch deps
        → IsIdle x reg
        → IsSound x scope (record w {
          runtime = rt;
          cells = Table.insert w.cells requested (ready value rev ch deps);
          shared =
              shared_cache_put x.env
                (cache_scope_id rt)
                requested.kind
                requested.key
                (shared_record value deps ch rev)
                w.shared;
          inflight = reg;
        })
    filled-IsSound rt value deps ch rev w reg alive same o m i = record {
      in_scope = alive;
      cells =
          rw same (AreOthers-insert x by requested w.inputs w.runtime.current w.cells _ o.others m);
      records =
          rw (alive.scoped, same)
            (AreRecords-put x by x.env scope.id requested (shared_record value deps ch rev) w.inputs
              w.runtime.current w.shared o.records m);
      idle = i;
    }

    stored-IsSound :
        (value : V) (deps : List Dep) (ch rev : Revision) (w : World V) (reg : Registry V)
        → IsOpen w
        → IsMemo x w.inputs w.runtime.current (x.compute requested) value rev ch deps
        → IsIdle x reg
        → IsSound x scope
            (record (stored x requested want_value rev value deps ch w) { inflight = reg })
    stored-IsSound value deps ch rev w reg o m i =
        filled-IsSound (informed requested deps ch rev w.runtime) value deps ch rev w reg
          (informed-InScope requested scope deps ch rev w.runtime o.in_scope)
          (current-informed requested deps ch rev w.runtime) o m i

    pub adopted-IsSound :
        (r : SharedCacheRecord V) (rev : Revision) (w : World V)
        → IsOpen w
        → IsIdle x w.inflight
        → IsMemo x w.inputs w.runtime.current (x.compute requested) r.value rev r.changed_at r.deps
        → IsSound x scope (adopted x requested want_value rev r w)
    adopted-IsSound r rev w o i m =
        let (alive, same) = update_query_deps-InScope requested scope r.deps w.runtime o.in_scope in
        filled-IsSound (update_query_deps requested r.deps w.runtime) r.value r.deps r.changed_at
          rev w w.inflight alive same o m i

    -- A cell that is verified now, after an error.
    poisoned-IsSound :
        (e : PicanteError) (rev : Revision) (w : World V) (reg : Registry V)
        → IsOpen w
        → (rev.num ≡ w.runtime.current)
        → (replay w.inputs (x.compute requested)).0 ≡ err e
        → IsIdle x reg
        → IsSound x scope
            (record w { cells = Table.insert w.cells requested (poisoned e rev); inflight = reg })
    poisoned-IsSound e rev w reg o n run i = record {
      in_scope = o.in_scope;
      cells =
          AreOthers-insert x by requested w.inputs w.runtime.current w.cells _ o.others
            (omega (arith, n), λ _. run);
      records = o.records;
      idle = i;
    }

    cutoff-bound :
        (rev : Revision) (prev : Option (V × Revision)) (out : V) (now : ℕ)
        → rev.num ≡ now
        → ((v : V) (r : Revision) → prev ≡ some (v, r) → r.num ≤ now)
        → (cutoff x.ptr_eq x.eq_erased rev prev out).num ≤ now
    unfolding cutoff
    cutoff-bound rev none out now e h = omega (arith, e)
    cutoff-bound rev (some (v, r)) out now e h = ground (arith, e, h v r refl)

    -- A computation from scratch, whose result is stored.
    pub ended-Serves :
        (access : Access V) (rev : Revision) (g : InFlightGuard) (prev : Option (V × Revision))
        (deps : List Dep) (r : PicanteResult V) (a : ℕ) (before : Registry V) (w : World V)
        → IsInputOnly x.ingredient (x.compute requested)
        → IsOpen w
        → rev.num ≡ w.runtime.current
        → ((v : V) (ch : Revision) → prev ≡ some (v, ch) → ch.num ≤ w.runtime.current)
        → replay w.inputs (x.compute requested) ≡ (r, deps)
        → IsIdle x before
        → w.inflight.entries ≡ Table.insert before.entries g.key a
        → Serves some w (ended x access requested want_value rev g prev deps r w)
    ended-Serves access rev g prev deps (ok out) a before w io o n b run idle e =
        let ch = cutoff x.ptr_eq x.eq_erased rev prev out in
        record {
          answer = rw run (ch, refl);
          stack = refl;
          inputs = refl;
          now = current-informed requested deps ch rev w.runtime;
          sound =
              stored-IsSound out deps ch rev w (complete out deps ch g w.inflight) o
                (record {
                  verified = omega (arith, n);
                  changed = cutoff-bound rev prev out w.runtime.current n b;
                  leaves =
                      subst (λ ds. All (λ d. x.ingredient d.kind ≡ some input) ds)
                        (ap (λ p. p.1) run)
                        (replay-inputs x.ingredient w.inputs (x.compute requested) io);
                  fresh = λ _. run;
                  kept = λ _. run;
                })
                (IsIdle-complete x out deps ch g a before w.inflight idle e);
        }
    ended-Serves access rev g prev deps (err error) a before w io o n b run idle e = record {
      answer = rw run refl;
      stack = refl;
      inputs = refl;
      now = refl;
      sound =
          poisoned-IsSound error rev w (fail error g w.inflight) o n (ap (λ p. p.0) run)
            (IsIdle-fail x error g a before w.inflight idle e);
    }
