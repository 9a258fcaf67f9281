-- ===== src/Derived/Scratch.antt =====
-- A whole access in a sound database: it gives the result from scratch, and the database stays sound.
use picante.Base.{
  ◌≡◌, refl, sym, Bool, none, some, Option, List, [], arith, ◌==◌, inl, inr, Bool-cases,
  Option-cases,
}
use picante.Base.Eq.{nat_eq}
use picante.Base.Table
use picante.Base.Table.{get-insert}
use picante.Key.{Revision, DynKey, Dep, dyn_key_eq}
use picante.Runtime.{current_revision}
use picante.Input.Scope.{Scope}
use picante.Derived.World.{
  World, Outcome, ErasedState, vacant, running, ready, poisoned, set_stack, current,
}
use picante.Derived.Compute.{Config}
use picante.Derived.Cell.{AccessResult, cell_at, try_start, observe}
use picante.Derived.Replay.{IsInputOnly}
use picante.Derived.Memo.{IsMemo, IsGood}
use picante.Derived.Sound.{IsByKey, IsSound}
use picante.Derived.Ends.{settle-now, settle_err-current}
use picante.Derived.Rounds.{Access, result}
use picante.Derived.Revalidation.{all_unchanged, try_revalidate-leaves}
use picante.Derived.Access.{by_observed, round}
use picante.Derived.Serving.{IsOpen, Serves}
use picante.Derived.Answers.{input-is_leaf, start_round-Serves, refresh-Serves}

module _ {V : Type 0} (x : Config V) (scope : Scope) (requested : DynKey) (want_value : Bool) where
  IsSound-IsOpen : (w : World V) → IsSound x scope w → IsOpen x scope requested want_value w
  IsSound-IsOpen w s = record {
    in_scope = s.in_scope;
    others = λ k st _ p. s.cells k st p;
    records = s.records;
  }

  -- The cell that an access finds is right.
  cell_at-IsGood :
      (w : World V)
      → IsSound x scope w
      → IsGood x w.inputs w.runtime.current (x.compute requested) (cell_at requested w)
  unfolding cell_at
  cell_at-IsGood w s = elim (Option-cases (Table.get w.cells requested)) [
    | inl p ↦ rw (p, cell_at) tt
    | inr (st, p) ↦ rw (p, cell_at) (s.cells requested st p)
  ]

module _ {V : Type 0} (x : Config V) (scope : Scope) (requested : DynKey) (want_value : Bool)
    (by : IsByKey x) (io : IsInputOnly x.ingredient (x.compute requested)) (access : Access V)
    (rev : Revision) where
  abbrev at : World V → World V
  at w = set_stack (some []) w

  abbrev Good : World V → Outcome (Option (AccessResult V)) × World V → Type 0
  Good = Serves x scope requested want_value some

  ready-Serves :
      (value : V) (va ch : Revision) (deps : List Dep) (w : World V)
      → cell_at requested w ≡ ready value va ch deps
      → IsSound x scope (at w)
      → rev.num ≡ w.runtime.current
      → IsMemo x w.inputs w.runtime.current (x.compute requested) value va ch deps
      → Good (at w) (
          by_observed x access requested want_value rev
            (observe want_value rev (ready value va ch deps))
            (at w))
  unfolding by_observed observe cell_at try_start
  ready-Serves value va ch deps w p s n m =
      let o = IsSound-IsOpen x scope requested want_value (at w) s in
      elim (Bool-cases (va.num == rev.num)) [
        | inl q ↦
            rw (q, observe, by_observed, settle-now (result want_value value ch) (at w) rev (sym n))
              (record {
                answer = rw (m.fresh (ground (arith, q, n))) (ch, refl);
                stack = refl;
                inputs = refl;
                now = refl;
                sound = s;
              })
        | inr q ↦
            let asked =
              try_revalidate-leaves x access requested rev deps ch (at w)
                (input-is_leaf x deps m.leaves) in
            elim (Bool-cases (all_unchanged x w.inputs ch deps)) [
              | inl u ↦
                  rw (q, observe, by_observed, asked, u)
                    (refresh-Serves x scope requested want_value by io access rev value va ch deps w
                      p o s.idle n m (m.kept u))
              | inr u ↦
                  rw (q, observe, by_observed, asked, u)
                    (start_round-Serves x scope requested want_value by io access rev
                      (some (value, ch)) w (rw (p, q, try_start) refl) o s.idle n
                      (λ v r e. ground (arith, m.changed, e)))
            ]
      ]

  observed-Serves :
      (st : ErasedState V) (w : World V)
      → cell_at requested w ≡ st
      → IsGood x w.inputs w.runtime.current (x.compute requested) st
      → IsSound x scope (at w)
      → rev.num ≡ w.runtime.current
      → Good
          (at w)
          (by_observed x access requested want_value rev (observe want_value rev st) (at w))
  unfolding by_observed observe try_start
  observed-Serves vacant w p g s n =
      start_round-Serves x scope requested want_value by io access rev none w
        (rw (p, try_start) refl) (IsSound-IsOpen x scope requested want_value (at w) s) s.idle n
        (λ v r e. ground (arith, e))
  observed-Serves (running r) w p g s n = absurd g
  observed-Serves (ready value va ch deps) w p g s n = ready-Serves value va ch deps w p s n g
  observed-Serves (poisoned e va) w p g s n = elim (Bool-cases (va.num == rev.num)) [
    | inl q ↦
        rw (q, observe, by_observed, settle_err-current e (at w) rev (sym n))
          (record {
            answer = rw (g.1 (ground (arith, q, n))) refl;
            stack = refl;
            inputs = refl;
            now = refl;
            sound = s;
          })
    | inr q ↦
        rw (q, observe, by_observed)
          (start_round-Serves x scope requested want_value by io access rev none w
            (rw (p, q, try_start) refl) (IsSound-IsOpen x scope requested want_value (at w) s)
            s.idle n (λ v r e. ground (arith, e)))
  ]

module _ {V : Type 0} (x : Config V) (scope : Scope) (requested : DynKey) (want_value : Bool)
    (by : IsByKey x) (io : IsInputOnly x.ingredient (x.compute requested)) where
  pub round-Serves :
      (access : Access V) (w : World V)
      → IsSound x scope (set_stack (some []) w)
      → Serves x scope requested want_value some
          (set_stack (some []) w)
          (round x access requested want_value (set_stack (some []) w))
  unfolding round current current_revision cell_at
  round-Serves access w s =
      observed-Serves x scope requested want_value by io access (current w) (cell_at requested w) w
        refl (cell_at-IsGood x scope requested want_value (set_stack (some []) w) s) s refl
