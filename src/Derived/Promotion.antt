-- ===== src/Derived/Promotion.antt =====
-- Promotion: a ready record that one database holds is checked against another one and inserted there.
use picante.Base.{
  ℕ, ◌+◌, ◌<◌, ◌^◌, ◌≡◌, refl, ap, sym, subst, Bool, true, none, some, Option, arith, inl, inr,
}
use picante.Base.Results.{ok, err, ◌>>=◌}
use picante.Base.Table
use picante.Base.Table.{Table}
use picante.Key.{Revision, QueryKindId, DynKey, Hasher, Codec, dyn_key_eq}
use picante.Encoding.{encode_facet}
use picante.Error.{PicanteResult}
use picante.Input.{InputEntry, InputCore, Host, set_at, remove_at}
use picante.Input.Scope.{Scope}
use picante.Input.Changes.{Written, set_at_lem, remove_at_lem}
use picante.Input.Reads.{Change, sets, removes, perform}
use picante.Derived.World.{World, M, returned, ErasedState, vacant, running, ready, poisoned}
use picante.Derived.Compute.{Config, Comp}
use picante.Derived.Cell.{set_cell}
use picante.Derived.Rounds.{Access, touch_deps}
use picante.Derived.Persist.{ReadyRecord, new_ready, ready_record}
use picante.Derived.Replay.{replay}
use picante.Derived.Revalidation.{all_unchanged, touch_deps-leaves}
use picante.Derived.Memo.{Writes, IsMemo, IsGood, IsMemo-write}
use picante.Derived.Answers.{input-is_leaf}
use picante.Derived.Sound.{IsByKey, IsSound, AreOthers-insert}
use picante.Derived.Session.{change, core_at, host_of, Written-Writes}

abbrev pub dyn_key_for :
    {K : Type 0} ⦃h : Hasher⦄ → Codec K → QueryKindId → K → PicanteResult DynKey
dyn_key_for c kind key = do encoded ← encode_facet c key; ok (record { kind = kind; key = encoded })

module _ {K V : Type 0} ⦃h : Hasher⦄ (c : Codec K) (kind : QueryKindId) where
  unfoldable pub cell_for_key : K → World V → PicanteResult (Option (ErasedState V))
  cell_for_key key w = do k ← dyn_key_for c kind key; ok (Table.get w.cells k)

  unfoldable pub insert_ready_record :
      K → ReadyRecord V → World V → PicanteResult (Unit {0}) × World V
  unfolding new_ready set_cell
  insert_ready_record key r w = elim (dyn_key_for c kind key) [
    | err e ↦ (err e, w)
    | ok k ↦ (ok tt, set_cell k (new_ready r) w)
  ]

module _ {V : Type 0} (x : Config V) where
  -- The loop is that of `try_revalidate`, with no frame pushed.
  unfoldable pub record_is_valid_on : Access V → ReadyRecord V → M V Bool
  unfolding touch_deps
  record_is_valid_on access r = touch_deps x access r.changed_at r.deps

  -- The inputs and the revision that writes lead to.
  pub data Later (inputs : Table DynKey (InputEntry V)) (now : ℕ)
      : Table DynKey (InputEntry V) → ℕ → Type 0 where
    at_once : Later inputs now inputs now
    after_write :
        (t t' : Table DynKey (InputEntry V)) (n : ℕ) (k : DynKey)
        → Later inputs now t n
        → Writes x t t' k n
        → Later inputs now t' (n + 1)

  IsMemo-Later :
      (inputs : Table DynKey (InputEntry V)) (now : ℕ) (comp : Comp V) (r : ReadyRecord V)
      (t : Table DynKey (InputEntry V)) (n : ℕ)
      → Later inputs now t n
      → IsMemo x inputs now comp r.value r.verified_at r.changed_at r.deps
      → IsMemo x t n comp r.value r.verified_at r.changed_at r.deps
  IsMemo-Later inputs now comp r _ _ at_once m = m
  IsMemo-Later inputs now comp r _ _ (after_write t t' n k l w) m =
      IsMemo-write x t t' k n comp r.value r.verified_at r.changed_at r.deps w
        (IsMemo-Later inputs now comp r t n l m)

  kept-Later :
      (k : DynKey) (w : World V) (counter : ℕ) (core : InputCore V) (host : Host)
      → core ≡ core_at k w
      → host ≡ host_of w counter
      → Later w.inputs w.runtime.current core.entries host.runtime.current
  kept-Later k w counter core host c e =
      subst (λ c'. Later w.inputs w.runtime.current c'.entries host.runtime.current) (sym c)
        (subst (λ e'. Later w.inputs w.runtime.current w.inputs e'.runtime.current) (sym e) at_once)

  Written-Later :
      (k : DynKey) (value : Option V) (rev : Revision) (w : World V) (counter : ℕ)
      (core : InputCore V) (host : Host)
      → Written k value rev (core_at k w, host_of w counter) (core, host)
      → Later w.inputs w.runtime.current core.entries host.runtime.current
  Written-Later k value rev w counter core host p =
      let (written, now) = Written-Writes x k value rev w counter core host p in
      subst (Later w.inputs w.runtime.current core.entries) (sym now)
        (after_write w.inputs core.entries w.runtime.current k at_once written)

  -- A set or a removal of an input leads to later inputs, short of the end of `u64`.
  pub change-Later :
      (facet_eq : V → V → Bool) (op : Change V) (w : World V) (counter : ℕ)
      → w.runtime.current + 1 < 2 ^ 64
      → let w' = (change facet_eq op w counter).0 in
        Later w.inputs w.runtime.current w'.inputs w'.runtime.current
  unfolding change perform
  change-Later facet_eq (sets k v) w counter small =
      let after = set_at facet_eq k v (core_at k w) (host_of w counter) in
      elim (set_at_lem facet_eq k v (core_at k w) (host_of w counter) small) [
        | inl (_, _, _, _, _, (_, t)) ↦
            kept-Later k w counter after.1 after.2 (ap (λ c. c.0) t) (ap (λ c. c.1) t)
        | inr (_, p) ↦ Written-Later k (some v) after.0 w counter after.1 after.2 p
      ]
  change-Later facet_eq (removes k) w counter small =
      let after = remove_at k (core_at k w) (host_of w counter) in
      elim (remove_at_lem k (core_at k w) (host_of w counter) small) [
        | inl (_, _, c, h) ↦ kept-Later k w counter after.1 after.2 c h
        | inr (_, _, p) ↦ Written-Later k none after.0 w counter after.1 after.2 p
      ]

  IsGood-ready_record :
      (inputs : Table DynKey (InputEntry V)) (now : ℕ) (comp : Comp V) (st : ErasedState V)
      (r : ReadyRecord V)
      → IsGood x inputs now comp st
      → ready_record st ≡ some r
      → IsMemo x inputs now comp r.value r.verified_at r.changed_at r.deps
  unfolding ready_record
  IsGood-ready_record inputs now comp vacant r g p = ground (arith, p)
  IsGood-ready_record inputs now comp (running s) r g p = ground (arith, p)
  IsGood-ready_record inputs now comp (poisoned e s) r g p = ground (arith, p)
  IsGood-ready_record inputs now comp (ready v a b deps) r g p =
      let same : record { value = v; verified_at = a; changed_at = b; deps = deps } ≡ r =
        ground (arith, p) in
      subst
        (λ (q : ReadyRecord V). IsMemo x inputs now comp q.value q.verified_at q.changed_at q.deps)
        same g

  -- A cell that holds what is right for its key keeps a database sound.
  pub set_cell-IsSound :
      (scope : Scope) (k : DynKey) (st : ErasedState V) (w : World V)
      → IsByKey x
      → IsSound x scope w
      → IsGood x w.inputs w.runtime.current (x.compute k) st
      → IsSound x scope (set_cell k st w)
  unfolding set_cell
  set_cell-IsSound scope k st w by s g = record {
    in_scope = s.in_scope;
    cells =
        AreOthers-insert x by k w.inputs w.runtime.current w.cells st (λ j st' _. s.cells j st') g;
    records = s.records;
    idle = s.idle;
  }

  module _ {K : Type 0} ⦃h : Hasher⦄ (c : Codec K) (kind : QueryKindId) (access : Access V) where
    -- Let a sound database, a snapshot for instance, hold a ready record for a key, and let another sound
    -- database have inputs that are those of the first, or later ones. Then the check of the record
    -- against the second answers whether none of its dependencies changed after it, and changes
    -- nothing. If the answer is true, the record is what the query's function gives from scratch on
    -- the inputs of the second. Inserting the record there succeeds and leaves that database
    -- sound, whatever the answer was. Equal keys have one function, and the key encodes.
    pub insert_ready_record_lem :
        IsByKey x
        → (first scope : Scope) (from w : World V) (key : K) (k : DynKey) (st : ErasedState V)
          (r : ReadyRecord V)
        → IsSound x first from
        → Table.get from.cells k ≡ some st
        → ready_record st ≡ some r
        → Later from.inputs from.runtime.current w.inputs w.runtime.current
        → IsSound x scope w
        → dyn_key_for c kind key ≡ ok k
        → (record_is_valid_on access r w
            ≡ (returned (all_unchanged x w.inputs r.changed_at r.deps), w))
          × (all_unchanged x w.inputs r.changed_at r.deps ≡ true
              → replay w.inputs (x.compute k) ≡ (ok r.value, r.deps))
          × ((insert_ready_record c kind key r w).0 ≡ ok tt)
          × IsSound x scope (insert_ready_record c kind key r w).1
    unfolding record_is_valid_on insert_ready_record new_ready
    insert_ready_record_lem by first scope from w key k st r sf there p later s enc =
        let here =
          IsGood-ready_record from.inputs from.runtime.current (x.compute k) st r
            (sf.cells k st there) p in
        let m =
          IsMemo-Later from.inputs from.runtime.current (x.compute k) r w.inputs w.runtime.current
            later here in
        (
          touch_deps-leaves x access r.changed_at w r.deps (input-is_leaf x r.deps m.leaves),
          m.kept,
          rw (enc, insert_ready_record) refl,
          rw (enc, insert_ready_record)
              (set_cell-IsSound scope k (ready r.value r.verified_at r.changed_at r.deps) w by s m),
        )
