-- ===== src/Derived/Snapshot.antt =====
-- The snapshot that the generated `from_database` takes of a database, and what queries on it answer.
use picante.Base.{
  ℕ, suc, ◌≡◌, refl, ap, ◌∙◌, sym, Bool, true, none, some, Option, List, [], ◌∷◌, map, arith,
}
use picante.Base.Table
use picante.Base.Table.{Table, AreDistinct}
use picante.Key.{DynKey, Hasher, dyn_key_eq}
use picante.Runtime.{
  RuntimeId, new_for_snapshot, set_current_revision, current_revision, cache_scope_id,
}
use mathlib.Core.Path.{fun_ext}
use picante.Derived.Inputs.{
  InputDecl, AreInputs, snapshot_inputs, snapshot_inputs-get, replay-alike, IsMemo-alike,
  IsGood-alike,
}
use picante.Input.Scope.{Scope}
use picante.Derived.World.{World, Outcome, ErasedState, vacant, running, ready, poisoned}
use picante.Derived.Compute.{Config}
use picante.Derived.Persist.{DerivedCore}
use picante.Derived.Logged.{snapshot_loop, snapshot_cells_deep_inner}
use picante.Derived.Stored.{only_ready}
use picante.Derived.Restored.{snapshot_cells_deep_lem}
use picante.Derived.Replay.{IsInputOnly, replay}
use picante.Derived.Sound.{IsByKey, IsSound}
use picante.Derived.Rounds.{get_erased}
use picante.Derived.Access.{access_scoped}
use picante.Derived.Consistency.{get_erased-replay, outcome_of}

module _ {V : Type 0} where
  -- The inputs are rebuilt from snapshots of the declared ingredients. The cells of all queries are one
  -- table here, so one deep snapshot takes them all. Interned values are shared.
  unfoldable pub from_database : ⦃h : Hasher⦄ → List InputDecl → World V → World V
  unfolding snapshot_inputs snapshot_loop
  from_database ds w = record w {
    runtime = set_current_revision (current_revision w.runtime) (new_for_snapshot w.runtime.id);
    inputs = snapshot_inputs ds w.inputs;
    cells = snapshot_loop w.cells [];
  }

  only_ready-some :
      (o : Option (ErasedState V)) (st : ErasedState V) → only_ready o ≡ some st → o ≡ some st
  only_ready-some none st h = h
  only_ready-some (some vacant) st h = ground (arith, h)
  only_ready-some (some (running r)) st h = ground (arith, h)
  only_ready-some (some (poisoned e r)) st h = ground (arith, h)
  only_ready-some (some (ready v a b deps)) st h = h

  abbrev core_of : World V → DerivedCore V
  core_of w = record { kind = record { id = 0 }; kind_name = ""; cells = w.cells }

module _ {V : Type 0} (x : Config V) where
  abbrev snapshot_scope : RuntimeId → Scope
  snapshot_scope id = record { id = id; is_snapshot = true }

  -- A snapshot of a sound database, whose cells have distinct keys and whose inputs are encodings of
  -- what is declared, is sound at the same revision, in the scope of the database's id.
  pub from_database-IsSound :
      ⦃h : Hasher⦄ (ds : List InputDecl) (id : RuntimeId) (live : Bool) (w : World V)
      → IsSound x (record { id = id; is_snapshot = live }) w
      → w.runtime.id ≡ id
      → AreDistinct w.cells
      → AreInputs ds w.inputs
      → IsSound x (snapshot_scope id) (from_database ds w)
  unfolding from_database set_current_revision current_revision new_for_snapshot cache_scope_id
      snapshot_cells_deep_inner
  from_database-IsSound ds id live w s same d i =
      let alike = snapshot_inputs-get ds w.inputs i in
      let inputs = snapshot_inputs ds w.inputs in
      record {
        in_scope = record { mode = refl; scoped = same };
        cells = λ k st p. IsGood-alike w.inputs inputs alike x w.runtime.current (x.compute k) st (
            s.cells k st (
              only_ready-some (Table.get w.cells k) st
                (sym (snapshot_cells_deep_lem (core_of w) k d) ∙ p)));
        records = λ k r p.
            IsMemo-alike w.inputs inputs alike x w.runtime.current (x.compute k) r.value
              r.verified_at r.changed_at r.deps (s.records k r p);
        idle = s.idle;
      }

  -- What calls of queries return, one after the other, and the database that they leave.
  unfoldable pub ask_all : ℕ → List DynKey → World V → List (Outcome V) × World V
  ask_all n [] w = ([], w)
  ask_all n (k ∷ ks) w =
      let (o, w') = get_erased (access_scoped x (suc (suc n))) k w in
      let (os, w'') = ask_all n ks w' in (o ∷ os, w'')

  -- Calls of queries answer from scratch on the inputs, and keep a database sound.
  pub ask_all_lem :
      IsByKey x
      → ((k : DynKey) → IsInputOnly x.ingredient (x.compute k))
      → (scope : Scope) (n : ℕ) (ks : List DynKey) (w : World V) → IsSound x scope w
      → w.stack ≡ none
      → let (os, w') = ask_all n ks w in
        (os ≡ map (λ k. outcome_of (replay w.inputs (x.compute k)).0) ks)
        × (w'.inputs ≡ w.inputs)
        × (w'.runtime.current ≡ w.runtime.current)
        × IsSound x scope w'
  unfolding ask_all
  ask_all_lem by io scope n [] w s e = (refl, refl, refl, s)
  ask_all_lem by io scope n (k ∷ ks) w s e =
      let (o, w') = get_erased (access_scoped x (suc (suc n))) k w in
      let (a, st, i, c, s') = get_erased-replay x scope k n w by (io k) s e in
      let (os, i', c', s'') = ask_all_lem by io scope n ks w' s' st in
      (
        ap (λ h. h ∷ (ask_all n ks w').0) a
            ∙ ap (λ t. outcome_of (replay w.inputs (x.compute k)).0 ∷ t)
                (os ∙ ap (λ inputs. map (λ j. outcome_of (replay inputs (x.compute j)).0) ks) i),
        i' ∙ i,
        c' ∙ c,
        s'',
      )

  -- Let a snapshot be taken of a sound database, outside every query, whose cells have distinct keys,
  -- whose cache scope is its id, and whose inputs are distinct encodings of the declared ingredients,
  -- with codecs that read back what they write. Then however many queries that read inputs only are
  -- called on the snapshot, with no change and no call in the database in between, each returns what
  -- its function gives from scratch on the inputs of the database. Equal keys have one function.
  pub from_database-asks :
      ⦃h : Hasher⦄
      → IsByKey x
      → ((k : DynKey) → IsInputOnly x.ingredient (x.compute k))
      → (ds : List InputDecl) (id : RuntimeId) (live : Bool) (n : ℕ) (ks : List DynKey)
        (w : World V)
      → IsSound x (record { id = id; is_snapshot = live }) w
      → w.runtime.id ≡ id
      → AreDistinct w.cells
      → AreInputs ds w.inputs
      → w.stack ≡ none
      → (ask_all n ks (from_database ds w)).0
        ≡ map (λ k. outcome_of (replay w.inputs (x.compute k)).0) ks
  unfolding from_database
  from_database-asks by io ds id live n ks w s same d i e =
      let alike = snapshot_inputs-get ds w.inputs i in
      (ask_all_lem by io (snapshot_scope id) n ks (from_database ds w)
        (from_database-IsSound ds id live w s same d i) e).0
      ∙ ap (λ answer. map answer ks)
          (fun_ext (λ k.
            ap (λ r. outcome_of r.0)
              (replay-alike w.inputs (snapshot_inputs ds w.inputs) alike (x.compute k))))
