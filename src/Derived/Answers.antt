-- ===== src/Derived/Answers.antt =====
-- One round of an access in a sound database, from the cell that it finds to the answer that it gives.
use picante.Base.{
  ◌≡◌, refl, ap, sym, Bool, true, some, Option, List, [], ◌∷◌, arith, ◌==◌, inl, inr, Bool-cases,
  Option-cases, ◌≤◌, All, ℕ,
}
use picante.Base.Eq.{nat_eq}
use picante.Base.Results.{ok}
use picante.Base.Table
use picante.Key.{Revision, DynKey, Dep, dyn_key_eq}
use picante.Runtime.{cache_scope_id}
use picante.Input.{InputEntry}
use picante.Inflight.SharedCache.{SharedCacheRecord, shared_cache_get}
use picante.Inflight.Registry.{inflight_key_eq}
use picante.Input.Scope.{Scope}
use picante.Derived.World.{World, Outcome, running, ready, set_stack}
use picante.Derived.Compute.{Config, input}
use picante.Derived.Cell.{AccessResult, cell_at, set_cell, try_start}
use picante.Derived.Replay.{IsInputOnly, replay}
use picante.Derived.Memo.{IsMemo}
use picante.Derived.Sound.{IsByKey, IsIdle, AreCells-others, AreOthers-insert}
use picante.Derived.Ends.{settle-now, adopt_lem, update_query_deps-InScope}
use picante.Derived.Rounds.{Access, adopt, refresh, result}
use picante.Derived.Revalidation.{is_leaf, all_unchanged, try_revalidate-leaves}
use picante.Derived.Leading.{compute_round_lem, leading, guard_for}
use picante.Derived.Access.{compute_round, adopt_or_compute, start_round}
use picante.Derived.Serving.{IsOpen, Serves, ended-Serves, adopted-IsSound}

module _ {V : Type 0} (x : Config V) where
  pub input-is_leaf :
      (deps : List Dep)
      → All (λ d. x.ingredient d.kind ≡ some input) deps
      → All (λ d. is_leaf d (x.ingredient d.kind) ≡ true) deps
  input-is_leaf [] l = tt
  input-is_leaf (d ∷ deps) (l, ls) = (ap (is_leaf d) l, input-is_leaf deps ls)

  -- Where a memo is known to be what a run from scratch gives, it holds at the current revision.
  IsMemo-now :
      (inputs : Table.Table DynKey (InputEntry V)) (now : ℕ) (k : DynKey) (value : V)
      (rev verified_at ch : Revision) (deps : List Dep)
      → rev.num ≡ now
      → IsMemo x inputs now (x.compute k) value verified_at ch deps
      → replay inputs (x.compute k) ≡ (ok value, deps)
      → IsMemo x inputs now (x.compute k) value rev ch deps
  IsMemo-now inputs now k value rev verified_at ch deps n m run = record {
    verified = omega (arith, n);
    changed = m.changed;
    leaves = m.leaves;
    fresh = λ _. run;
    kept = λ _. run;
  }

module _ {V : Type 0} (x : Config V) (scope : Scope) (requested : DynKey) (want_value : Bool)
    (by : IsByKey x) (io : IsInputOnly x.ingredient (x.compute requested)) (access : Access V)
    (rev : Revision) where
  -- At the bottom of a stack.
  abbrev pub at : World V → World V
  at w = set_stack (some []) w

  abbrev pub IsPrevious : Option (V × Revision) → World V → Type 0
  IsPrevious prev w = (v : V) (ch : Revision) → prev ≡ some (v, ch) → ch.num ≤ w.runtime.current

  abbrev pub Good : World V → Outcome (Option (AccessResult V)) × World V → Type 0
  Good = Serves x scope requested want_value some

  compute_round-Serves :
      (prev : Option (V × Revision)) (w : World V)
      → IsOpen x scope requested want_value (at w)
      → IsIdle x w.inflight
      → rev.num ≡ w.runtime.current
      → IsPrevious prev w
      → Good (at w) (compute_round x access requested want_value rev prev (at w))
  compute_round-Serves prev w o i n b =
      let go =
        ended-Serves x scope requested want_value by access rev
          (guard_for x access requested want_value rev (at w)) prev
          (replay w.inputs (x.compute requested)).1 (replay w.inputs (x.compute requested)).0
          w.inflight.next_address w.inflight
          (record w {
            stack = some [];
            inflight = leading x access requested want_value rev (at w);
          })
          io (record { in_scope = o.in_scope; others = o.others; records = o.records }) n b refl i
          refl in
      rw (compute_round_lem x access requested want_value rev prev w io (sym n) (i _)) (record {
        answer = go.answer;
        stack = go.stack;
        inputs = go.inputs;
        now = go.now;
        sound = go.sound;
      })

  adopt-Serves :
      (r : SharedCacheRecord V) (w : World V)
      → IsOpen x scope requested want_value (at w)
      → IsIdle x w.inflight
      → rev.num ≡ w.runtime.current
      → IsMemo x w.inputs w.runtime.current
          (x.compute requested)
          r.value
          r.verified_at
          r.changed_at
          r.deps
      → replay w.inputs (x.compute requested) ≡ (ok r.value, r.deps)
      → Good (at w) (adopt x requested want_value rev r (at w))
  adopt-Serves r w o i n m run =
      rw (adopt_lem x requested want_value rev r (at w) (sym n)) (record {
        answer = rw run (r.changed_at, refl);
        stack = refl;
        inputs = refl;
        now = (update_query_deps-InScope requested scope r.deps w.runtime o.in_scope).1;
        sound = adopted-IsSound x scope requested want_value by r rev (at w) o i (
            IsMemo-now x w.inputs w.runtime.current requested r.value rev r.verified_at r.changed_at
              r.deps n m run);
      })

  adopt_or_compute-Serves :
      (prev : Option (V × Revision)) (w : World V)
      → IsOpen x scope requested want_value (at w)
      → IsIdle x w.inflight
      → rev.num ≡ w.runtime.current
      → IsPrevious prev w
      → Good (at w) (adopt_or_compute x access requested want_value rev prev (at w))
  unfolding adopt_or_compute
  adopt_or_compute-Serves prev w o i n b =
      elim (Option-cases
        (shared_cache_get (cache_scope_id w.runtime) requested.kind requested.key w.shared)) [
          | inl p ↦ rw (p, adopt_or_compute) (compute_round-Serves prev w o i n b)
          | inr (r, p) ↦
              let m = o.records requested r (rw⁻¹ o.in_scope.scoped p) in
              elim (Bool-cases (r.verified_at.num == rev.num)) [
                | inl q ↦
                    rw (p, q, adopt_or_compute)
                      (adopt-Serves r w o i n m (m.fresh (ground (arith, q, n))))
                | inr q ↦
                    let asked =
                      try_revalidate-leaves x access requested rev r.deps r.changed_at (at w)
                        (input-is_leaf x r.deps m.leaves) in
                    elim (Bool-cases (all_unchanged x w.inputs r.changed_at r.deps)) [
                      | inl u ↦
                          rw (p, q, adopt_or_compute, asked, u)
                            (adopt-Serves r w o i n m (m.kept u))
                      | inr u ↦
                          rw (p, q, adopt_or_compute, asked, u)
                            (compute_round-Serves prev w o i n b)
                    ]
              ]
        ]

  pub start_round-Serves :
      (prev : Option (V × Revision)) (w : World V)
      → try_start rev (cell_at requested w) ≡ some prev
      → IsOpen x scope requested want_value (at w)
      → IsIdle x w.inflight
      → rev.num ≡ w.runtime.current
      → IsPrevious prev w
      → Good (at w) (start_round x access requested want_value rev (at w))
  unfolding start_round set_cell cell_at
  start_round-Serves prev w p o i n b =
      let go =
        adopt_or_compute-Serves prev (set_cell requested (running rev) w)
          (record {
            in_scope = o.in_scope;
            others =
                AreCells-others x requested w.inputs w.runtime.current w.cells (running rev)
                  o.others;
            records = o.records;
          })
          i n b in
      rw (p, start_round)
        (record {
          answer = go.answer;
          stack = go.stack;
          inputs = go.inputs;
          now = go.now;
          sound = go.sound;
        })

  -- A cell that is right, and verified now.
  pub refresh-Serves :
      (value : V) (verified_at ch : Revision) (deps : List Dep) (w : World V)
      → cell_at requested w ≡ ready value verified_at ch deps
      → IsOpen x scope requested want_value (at w)
      → IsIdle x w.inflight
      → rev.num ≡ w.runtime.current
      → IsMemo x w.inputs w.runtime.current (x.compute requested) value verified_at ch deps
      → replay w.inputs (x.compute requested) ≡ (ok value, deps)
      → Good (at w) (refresh x requested want_value rev (cell_at requested (at w)) (at w))
  unfolding refresh set_cell cell_at
  refresh-Serves value verified_at ch deps w p o i n m run =
      rw
        (
          p,
          refresh,
          settle-now (result want_value value ch)
              (set_cell requested (ready value rev ch deps) (at w)) rev (sym n),
        )
        (record {
          answer = rw run (ch, refl);
          stack = refl;
          inputs = refl;
          now = refl;
          sound = record {
            in_scope = o.in_scope;
            cells =
                AreOthers-insert x by requested w.inputs w.runtime.current w.cells
                  (ready value rev ch deps) o.others
                  (IsMemo-now x w.inputs w.runtime.current requested value rev verified_at ch deps n
                    m run);
            records = o.records;
            idle = i;
          };
        })
