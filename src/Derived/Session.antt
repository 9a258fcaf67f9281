-- ===== src/Derived/Session.antt =====
-- A live database and its clients: inputs are set and removed, and derived queries are asked for, one
-- after the other.
use mathlib.Core.Path.{fun_ext}
use picante.Base.{
  ℕ, suc, ◌+◌, ◌<◌, ◌≤◌, ◌^◌, ◌≡◌, refl, ap, ◌∙◌, sym, subst, Bool, true, false, none, some, Option,
  List, [], ◌∷◌, arith, length, inl, inr,
}
use picante.Base.Table
use picante.Base.Table.{Table}
use picante.Key.{Revision, DynKey, dyn_key_eq}
use picante.Runtime.{current_revision}
use picante.Input.{InputEntry, InputCore, Host, value_of, set_at, remove_at}
use picante.Input.Changes.{Written, set_at_lem, remove_at_lem}
use picante.Input.Reads.{Change, sets, removes, View, updated, perform, perform_lem}
use picante.Input.Scope.{Scope, InScope, set_at-InScope, remove_at-InScope}
use picante.Derived.World.{World, Outcome}
use picante.Derived.Compute.{Config}
use picante.Derived.Replay.{IsInputOnly, replay, from_scratch, from_scratch-replay}
use picante.Derived.Memo.{Writes, IsMemo-write, IsGood-write}
use picante.Derived.Sound.{IsByKey, IsSound}
use picante.Derived.Rounds.{get_erased}
use picante.Derived.Access.{access_scoped}
use picante.Derived.Consistency.{get_erased-replay, outcome_of}

pub data Call (V : Type 0) : Type 0 where
  changes : Change V → Call V
  asks : DynKey → Call V

module _ {V : Type 0} where
  abbrev pub changed_key : Change V → DynKey
  changed_key (sets k v) = k
  changed_key (removes k) = k

  -- The ingredient of a key, in the table of all inputs.
  abbrev pub core_at : DynKey → World V → InputCore V
  core_at k w = record { kind = k.kind; kind_name = ""; entries = w.inputs }

  -- A change of an input of the database.
  unfoldable pub change : (V → V → Bool) → Change V → World V → ℕ → World V × ℕ
  change facet_eq op w counter =
      let (rev, core, host) =
        perform facet_eq op (core_at (changed_key op) w)
          (record { runtime = w.runtime; counter = counter }) in
      (record w { runtime = host.runtime; inputs = core.entries }, host.counter)

  -- What a change of one ingredient leaves of the database.
  abbrev pub put_back : World V → InputCore V → Host → World V
  put_back w core host = record w { runtime = host.runtime; inputs = core.entries }

  abbrev pub host_of : World V → ℕ → Host
  host_of w counter = record { runtime = w.runtime; counter = counter }

module _ {V : Type 0} (x : Config V) where
  -- A change that was written is a write of one entry, at the next revision.
  pub Written-Writes :
      (k : DynKey) (value : Option V) (rev : Revision) (w : World V) (counter : ℕ)
      (core : InputCore V) (host : Host)
      → Written k value rev (core_at k w, host_of w counter) (core, host)
      → Writes x w.inputs core.entries k w.runtime.current
        × (host.runtime.current ≡ w.runtime.current + 1)
  unfolding current_revision
  Written-Writes k value rev w counter core host (n, r, _, t) = (
    record { entry = record { value = value; changed_at = rev }; next = n; written = t },
    ap (λ (v : Revision). v.num) r ∙ n,
  )

module _ {V : Type 0} (x : Config V) (scope : Scope) where
  -- A write of one input keeps a database sound.
  Written-IsSound :
      (k : DynKey) (value : Option V) (rev : Revision) (w : World V) (counter : ℕ)
      (core : InputCore V) (host : Host)
      → IsSound x scope w
      → InScope scope host.runtime
      → Written k value rev (core_at k w, host_of w counter) (core, host)
      → IsSound x scope (put_back w core host)
  Written-IsSound k value rev w counter core host s alive written =
      let (h, now) = Written-Writes x k value rev w counter core host written in
      record {
        in_scope = alive;
        cells = λ j st p. rw now (
            IsGood-write x w.inputs core.entries k w.runtime.current (x.compute j) st h
              (s.cells j st p));
        records = λ j m p. rw now (
            IsMemo-write x w.inputs core.entries k w.runtime.current (x.compute j) m.value
              m.verified_at m.changed_at m.deps h (s.records j m p));
        idle = s.idle;
      }

  kept-IsSound :
      (k : DynKey) (w : World V) (counter : ℕ) (core : InputCore V) (host : Host)
      → IsSound x scope w
      → core ≡ core_at k w
      → host ≡ host_of w counter
      → IsSound x scope (put_back w core host)
  kept-IsSound k w counter core host s c h =
      subst (λ c'. IsSound x scope (put_back w c' host)) (sym c)
        (subst (λ h'. IsSound x scope (put_back w (core_at k w) h')) (sym h) s)

  -- A set or a removal of an input of a sound database, short of the end of `u64`, leaves it sound at the
  -- revision that it leaves.
  pub change-IsSound :
      (facet_eq : V → V → Bool) (op : Change V) (w : World V) (counter : ℕ)
      → scope.is_snapshot ≡ false
      → IsSound x scope w
      → w.runtime.current + 1 < 2 ^ 64
      → IsSound x scope (change facet_eq op w counter).0
  unfolding change perform
  change-IsSound facet_eq (sets k v) w counter here s small =
      let after = set_at facet_eq k v (core_at k w) (host_of w counter) in
      let alive =
        set_at-InScope scope facet_eq k v (core_at k w) (host_of w counter) here s.in_scope in
      elim (set_at_lem facet_eq k v (core_at k w) (host_of w counter) small) [
        | inl (_, _, _, _, _, (_, t)) ↦
            kept-IsSound k w counter after.1 after.2 s (ap (λ c. c.0) t) (ap (λ c. c.1) t)
        | inr (_, p) ↦ Written-IsSound k (some v) after.0 w counter after.1 after.2 s alive p
      ]
  change-IsSound facet_eq (removes k) w counter here s small =
      let after = remove_at k (core_at k w) (host_of w counter) in
      let alive = remove_at-InScope scope k (core_at k w) (host_of w counter) here s.in_scope in
      elim (remove_at_lem k (core_at k w) (host_of w counter) small) [
        | inl (_, _, c, h) ↦ kept-IsSound k w counter after.1 after.2 s c h
        | inr (_, _, p) ↦ Written-IsSound k none after.0 w counter after.1 after.2 s alive p
      ]

module _ {V : Type 0} (x : Config V) (facet_eq : V → V → Bool) (n : ℕ) where
  -- What the calls return, the queries of them, and the database that they leave. The two units of
  -- fuel are enough for queries that ask no other.
  unfoldable pub run_calls : List (Call V) → World V → ℕ → List (Outcome V) × World V
  unfolding change
  run_calls [] w counter = ([], w)
  run_calls (changes op ∷ calls) w counter =
      let (w', counter') = change facet_eq op w counter in run_calls calls w' counter'
  run_calls (asks k ∷ calls) w counter =
      let (o, w') = get_erased (access_scoped x (suc (suc n))) k w in
      let (os, w'') = run_calls calls w' counter in (o ∷ os, w'')

  -- What they return with no database: a map is updated, and each query is run on it.
  abbrev pub without_cache : List (Call V) → View V → List (Outcome V)
  without_cache [] m = []
  without_cache (changes op ∷ calls) m = without_cache calls (updated m op)
  without_cache (asks k ∷ calls) m =
      outcome_of (from_scratch m (x.compute k)) ∷ without_cache calls m

  abbrev pub input_view : World V → View V
  input_view w k = value_of (Table.get w.inputs k)

  change_lem :
      ((a b : V) → facet_eq a b ≡ true → a ≡ b)
      → (op : Change V) (w : World V) (counter : ℕ) → w.runtime.current + 1 < 2 ^ 64
      → let (w', counter') = change facet_eq op w counter in
        (input_view w' ≡ updated (input_view w) op) × (w'.runtime.current ≤ w.runtime.current + 1)
  unfolding change
  change_lem same op w counter small =
      let one =
        perform_lem facet_eq same op (core_at (changed_key op) w) (host_of w counter) small in
      (fun_ext one.0, ground (arith, one.1))

  -- Start from a sound live database, outside every query, with queries that read inputs only and a
  -- comparison of inputs that answers true on equal values only. Then in every sequence of sets and
  -- removals of inputs and calls of queries, with the revision short of the end of `u64`, each call
  -- returns what running its function from scratch on the map of the inputs at that moment returns: no
  -- call sees a stale value. Equal keys have one function.
  pub run_calls_lem :
      IsByKey x
      → ((k : DynKey) → IsInputOnly x.ingredient (x.compute k))
      → ((a b : V) → facet_eq a b ≡ true → a ≡ b)
      → (scope : Scope) (calls : List (Call V)) (w : World V) (counter : ℕ)
      → scope.is_snapshot ≡ false
      → IsSound x scope w
      → w.stack ≡ none
      → w.runtime.current + length calls < 2 ^ 64
      → (run_calls calls w counter).0 ≡ without_cache calls (input_view w)
  unfolding run_calls
  run_calls_lem by io same scope [] w counter here s e small = refl
  run_calls_lem by io same scope (changes op ∷ calls) w counter here s e small =
      let (m, c) = change_lem same op w counter (omega arith) in
      let (w', counter') = change facet_eq op w counter in
      run_calls_lem by io same scope calls w' counter' here
        (change-IsSound x scope facet_eq op w counter here s (omega arith)) e (omega arith)
      ∙ ap (without_cache calls) m
  run_calls_lem by io same scope (asks k ∷ calls) w counter here s e small =
      let (o, w') = get_erased (access_scoped x (suc (suc n))) k w in
      let (a, st, i, c, s') = get_erased-replay x scope k n w by (io k) s e in
      let rest = run_calls_lem by io same scope calls w' counter here s' st (omega (arith, c)) in
      let here : outcome_of (replay w.inputs (x.compute k)).0
          ≡ outcome_of (from_scratch (input_view w) (x.compute k)) =
        ap outcome_of (from_scratch-replay w.inputs (x.compute k)) in
      ap (λ h. h ∷ (run_calls calls w' counter).0) (a ∙ here)
      ∙ ap (λ t. outcome_of (from_scratch (input_view w) (x.compute k)) ∷ t)
          (rest
            ∙ ap
                (λ (t : Table DynKey (InputEntry V)).
                  without_cache calls (λ j. value_of (Table.get t j)))
                i)
