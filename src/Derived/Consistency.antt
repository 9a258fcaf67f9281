-- ===== src/Derived/Consistency.antt =====
-- A whole access, from the call to its result, in a sound database.
use picante.Base.{
  ℕ, suc, ◌≡◌, refl, ap, ◌∙◌, sym, subst, Bool, true, none, some, Option, [], arith, inl, inr,
  Option-cases, if◌then◌else◌,
}
use picante.Base.Results.{ok, err}
use picante.Base.Table
use picante.Key.{DynKey, dyn_key_eq}
use picante.Error.{PicanteResult, panic}
use picante.Frame.{Stack, has_active_frame, find_cycle, enter_scope, leave_scope}
use picante.Input.Scope.{Scope}
use picante.Derived.World.{
  World, Outcome, returned, failed, vacant, set_stack, pure, raise, bind, guarded, scoped, M,
}
use picante.Derived.Compute.{Config, record_if_active}
use picante.Derived.Cell.{AccessResult, ensure_cell, set_cell}
use picante.Derived.Replay.{IsInputOnly, replay}
use picante.Derived.Sound.{IsByKey, IsSound, AreOthers-insert}
use picante.Derived.Rounds.{Access, get_erased}
use picante.Derived.Access.{rounds, round, access_with, access_scoped}
use picante.Derived.Serving.{Serves, IsAnswer}
use picante.Derived.Scratch.{round-Serves}

module _ {V : Type 0} (want_value : Bool) where
  abbrev next : M V (AccessResult V) → Option (AccessResult V) → M V (AccessResult V)
  next again o = elim o [ some res ↦ pure res | none ↦ again ]

  -- A round that answers is the last one.
  IsAnswer-last :
      (r : PicanteResult V) (again : M V (AccessResult V)) (o : Outcome (Option (AccessResult V)))
      (w : World V)
      → IsAnswer want_value some r o
      → IsAnswer want_value (λ res. res) r (bind (o, w) (next again)).0
        × ((bind (o, w) (next again)).1 ≡ w)
  IsAnswer-last (ok v) again o w (ch, h) = rw h ((ch, refl), refl)
  IsAnswer-last (err e) again o w h = rw h (refl, refl)

abbrev pub at : {V : Type 0} → World V → World V
at w = set_stack (some []) w

module _ {V : Type 0} (x : Config V) (requested : DynKey) (want_value : Bool) where
  ensure_cell-rest :
      (w : World V)
      → ((ensure_cell requested w).inputs ≡ w.inputs)
        × ((ensure_cell requested w).runtime ≡ w.runtime)
        × (ensure_cell requested (at w) ≡ at (ensure_cell requested w))
  unfolding ensure_cell set_cell
  ensure_cell-rest w = elim (Option-cases (Table.get w.cells requested)) [
    | inr (st, p) ↦ rw (p, ensure_cell) (refl, refl, refl)
    | inl p ↦ rw (p, ensure_cell) (refl, refl, refl)
  ]

  if_same : (w : World V) → (if want_value then w else w) ≡ w
  if_same w = ground arith

  -- With no frame on the stack, an access is its loop.
  pub access_scoped-loop :
      (n : ℕ) (w : World V)
      → access_scoped x (suc (suc n)) requested want_value (at w)
        ≡ rounds x
            (access_scoped x (suc n))
            requested
            want_value
            (suc n)
            (at (ensure_cell requested w))
  unfolding access_scoped access_with find_cycle record_if_active has_active_frame
  access_scoped-loop n w =
      ap (λ w'. rounds x (access_scoped x (suc n)) requested want_value (suc n) w')
        (ap (ensure_cell requested) (if_same (at w)) ∙ (ensure_cell-rest w).2)

module _ {V : Type 0} (x : Config V) (scope : Scope) (requested : DynKey) (want_value : Bool)
    (by : IsByKey x) (io : IsInputOnly x.ingredient (x.compute requested)) where
  rounds-Serves :
      (access : Access V) (n : ℕ) (w : World V)
      → IsSound x scope (at w)
      → Serves x scope requested want_value
          (λ res. res)
          (at w)
          (rounds x access requested want_value (suc n) (at w))
  unfolding rounds
  rounds-Serves access n w s =
      let one = round-Serves x scope requested want_value by io access w s in
      let (a, e) =
        IsAnswer-last want_value (replay w.inputs (x.compute requested)).0
          (rounds x access requested want_value n) (round x access requested want_value (at w)).0
          (round x access requested want_value (at w)).1 one.answer in
      record {
        answer = a;
        stack = ap (λ w'. w'.stack) e ∙ one.stack;
        inputs = ap (λ w'. w'.inputs) e ∙ one.inputs;
        now = ap (λ w'. w'.runtime.current) e ∙ one.now;
        sound = rw e one.sound;
      }

  ensure_cell-IsSound :
      (w : World V) → IsSound x scope (at w) → IsSound x scope (at (ensure_cell requested w))
  unfolding ensure_cell set_cell
  ensure_cell-IsSound w s = elim (Option-cases (Table.get w.cells requested)) [
    | inr (st, p) ↦ rw (p, ensure_cell) s
    | inl p ↦
        rw (p, ensure_cell)
          (record {
            in_scope = s.in_scope;
            cells =
                AreOthers-insert x by requested w.inputs w.runtime.current w.cells vacant
                  (λ k st _. s.cells k st) tt;
            records = s.records;
            idle = s.idle;
          })
  ]

  pub access_scoped-Serves :
      (n : ℕ) (w : World V)
      → IsSound x scope (at w)
      → Serves x scope requested want_value
          (λ res. res)
          (at w)
          (access_scoped x (suc (suc n)) requested want_value (at w))
  access_scoped-Serves n w s =
      let (i, r, e) = ensure_cell-rest x requested want_value w in
      let go =
        rounds-Serves (access_scoped x (suc n)) n (ensure_cell requested w)
          (ensure_cell-IsSound w s) in
      rw (access_scoped-loop x requested want_value n w) (record {
        answer =
            subst
              (λ inputs.
                IsAnswer want_value (λ res. res) (replay inputs (x.compute requested)).0
                  (rounds x (access_scoped x (suc n)) requested want_value (suc n)
                    (at (ensure_cell requested w))).0)
              i go.answer;
        stack = go.stack;
        inputs = go.inputs ∙ i;
        now = go.now ∙ ap (λ rt. rt.current) r;
        sound = go.sound;
      })

module _ {V : Type 0} where
  -- What a result is for the caller.
  abbrev pub outcome_of : PicanteResult V → Outcome V
  outcome_of (ok v) = returned v
  outcome_of (err e) = failed e

  abbrev taken : AccessResult V → M V V
  taken r = elim r.value [
    | none ↦ raise (panic "[BUG] expected value but got None")
    | some v ↦ pure v
  ]

  taken-answer :
      (r : PicanteResult V) (d : World V → World V) (o : Outcome (AccessResult V)) (w : World V)
      → IsAnswer true (λ res. res) r o
      → bind (guarded d (o, w)) taken ≡ (outcome_of r, d w)
  taken-answer (ok v) d o w (ch, h) = rw h refl
  taken-answer (err e) d o w h = rw h refl

module _ {V : Type 0} (x : Config V) (scope : Scope) where
  IsSound-stack : (s : Stack) (w : World V) → IsSound x scope w → IsSound x scope (set_stack s w)
  IsSound-stack s w h = record {
    in_scope = h.in_scope;
    cells = h.cells;
    records = h.records;
    idle = h.idle;
  }

  module _ (requested : DynKey) where
    abbrev asked : ℕ → World V → Outcome V × World V
    asked n w = get_erased (access_scoped x (suc (suc n))) requested w

    get_erased-open :
        (n : ℕ) (w : World V)
        → IsByKey x
        → IsInputOnly x.ingredient (x.compute requested)
        → IsSound x scope w
        → let (o, w') = asked n (set_stack none w) in
          (o ≡ outcome_of (replay w.inputs (x.compute requested)).0)
          × (w'.stack ≡ none)
          × (w'.inputs ≡ w.inputs)
          × (w'.runtime.current ≡ w.runtime.current)
          × IsSound x scope w'
    unfolding get_erased scoped enter_scope leave_scope
    get_erased-open n w by io s =
        let go =
          access_scoped-Serves x scope requested true by io n w (IsSound-stack (some []) w s) in
        let (o, w') = access_scoped x (suc (suc n)) requested true (set_stack (some []) w) in
        rw (taken-answer (replay w.inputs (x.compute requested)).0 (set_stack none) o w' go.answer)
          (refl, refl, go.inputs, go.now, IsSound-stack none w' go.sound)

    -- In a sound database, live or a snapshot, a query that reads inputs only, asked for outside every query, returns the
    -- value, or fails with the error, that running its function from scratch on the current inputs
    -- gives, whatever the cell, the shared cache and earlier revisions hold. The inputs and the revision
    -- stay, and the database stays sound. Equal keys have one function.
    pub get_erased-replay :
        (n : ℕ) (w : World V)
        → IsByKey x
        → IsInputOnly x.ingredient (x.compute requested)
        → IsSound x scope w
        → w.stack ≡ none
        → let (o, w') = asked n w in
          (o ≡ outcome_of (replay w.inputs (x.compute requested)).0)
          × (w'.stack ≡ none)
          × (w'.inputs ≡ w.inputs)
          × (w'.runtime.current ≡ w.runtime.current)
          × IsSound x scope w'
    get_erased-replay n w by io s e =
        subst
          (λ v.
            (let (o, w') = asked n v in
              (o ≡ outcome_of (replay w.inputs (x.compute requested)).0)
              × (w'.stack ≡ none)
              × (w'.inputs ≡ w.inputs)
              × (w'.runtime.current ≡ w.runtime.current)
              × IsSound x scope w'))
          (ap (λ t. set_stack t w) (sym e)) (get_erased-open n w by io s)
