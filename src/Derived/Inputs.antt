-- ===== src/Derived/Inputs.antt =====
-- The input ingredients of a database, whose maps are one table in a world, and how the snapshot of
-- a database takes them.
use picante.Base.{
  ℕ, ◌≡◌, refl, ap, sym, ◌∙◌, Bool, true, false, ◌||◌, Option, none, some, List, [], ◌∷◌, ◌++◌,
  String, arith, All, inl, inr, Bool-cases, Option-cases, if◌then◌else◌,
}
use picante.Base.Table
use picante.Base.Table.{Table, AreDistinct}
use picante.Key.{
  Revision, QueryKindId, DynKey, Dep, Hasher, Codec, RoundTrips, dyn_key_eq, dep_key,
  query_kind_beq,
}
use picante.Encoding.{AreEncoded}
use picante.Input.{InputEntry, InputCore}
use picante.Input.Snapshot.{snapshot, new_from_snapshot, new_from_snapshot-snapshot}
use picante.Derived.World.{ErasedState, vacant, running, ready, poisoned}
use picante.Derived.Compute.{Config, Comp, Sort, input, derived, interned}
use picante.Derived.Revalidation.{all_unchanged, is_unchanged}
use picante.Derived.Replay.{replay, replay-same, SameAt}
use picante.Derived.Memo.{IsMemo, IsGood}

-- An input ingredient of a database, as the macros declare it.
pub record InputDecl : Type 1 where
  pub Key : Type 0
  pub codec : Codec Key
  pub kind : QueryKindId
  pub kind_name : String

abbrev pub is_declared : List InputDecl → QueryKindId → Bool
is_declared [] kind = false
is_declared (d ∷ ds) kind = query_kind_beq d.kind kind || is_declared ds kind

module _ {V : Type 0} where
  -- The map of one ingredient.
  unfoldable pub of_kind : QueryKindId → Table DynKey (InputEntry V) → Table DynKey (InputEntry V)
  of_kind kind [] = []
  of_kind kind ((k, e) ∷ t) =
      let rest = of_kind kind t in if query_kind_beq kind k.kind then (k, e) ∷ rest else rest

  abbrev pub core_for : InputDecl → Table DynKey (InputEntry V) → InputCore V
  core_for d t = record { kind = d.kind; kind_name = d.kind_name; entries = of_kind d.kind t }

  -- The ingredients that the snapshot holds: each is made of a snapshot of the database's.
  unfoldable pub snapshot_inputs :
      ⦃h : Hasher⦄ → List InputDecl → Table DynKey (InputEntry V) → Table DynKey (InputEntry V)
  unfolding of_kind snapshot new_from_snapshot
  snapshot_inputs [] t = []
  snapshot_inputs (d ∷ ds) t =
      (new_from_snapshot d.codec d.kind d.kind_name (snapshot d.codec (core_for d t))).entries
      ++ snapshot_inputs ds t

  -- The inputs of a database: keys are distinct encodings of declared ingredients, whose codecs read
  -- back what they write.
  pub record AreInputs ⦃h : Hasher⦄ (ds : List InputDecl) (t : Table DynKey (InputEntry V))
      : Type 1 where
    pub distinct : AreDistinct t
    pub codecs : All (λ (d : InputDecl). RoundTrips d.codec) ds
    pub encoded : All (λ (d : InputDecl). AreEncoded d.codec d.kind (of_kind d.kind t)) ds
    pub declared :
        (k : DynKey) (e : InputEntry V) → Table.get t k ≡ some e → is_declared ds k.kind ≡ true

  get-of_kind :
      (kind : QueryKindId) (t : Table DynKey (InputEntry V)) (k : DynKey)
      → Table.get (of_kind kind t) k ≡ (if query_kind_beq kind k.kind then Table.get t k else none)
  unfolding of_kind Table.get
  get-of_kind kind [] k = ground arith
  get-of_kind kind ((j, e) ∷ t) k = ground (arith, get-of_kind kind t k)

  AreDistinct-of_kind :
      (kind : QueryKindId) (t : Table DynKey (InputEntry V))
      → AreDistinct t
      → AreDistinct (of_kind kind t)
  unfolding of_kind
  AreDistinct-of_kind kind [] d = tt
  AreDistinct-of_kind kind ((j, e) ∷ t) (free, d) = elim (Bool-cases (query_kind_beq kind j.kind)) [
    | inl p ↦
        rw (p, of_kind) (ground (arith, get-of_kind kind t j, free), AreDistinct-of_kind kind t d)
    | inr p ↦ rw (p, of_kind) (AreDistinct-of_kind kind t d)
  ]

  get-append :
      (s t : Table DynKey (InputEntry V)) (k : DynKey)
      → Table.get (s ++ t) k ≡ (elim (Table.get s k) [ none ↦ Table.get t k | some e ↦ some e ])
  unfolding Table.get
  get-append [] t k = refl
  get-append ((j, e) ∷ s) t k = ground (arith, get-append s t k)

  module _ ⦃h : Hasher⦄ where
    get-snapshot_inputs :
        (ds : List InputDecl) (t : Table DynKey (InputEntry V)) (k : DynKey)
        → AreDistinct t
        → All (λ (d : InputDecl). RoundTrips d.codec) ds
        → All (λ (d : InputDecl). AreEncoded d.codec d.kind (of_kind d.kind t)) ds
        → Table.get (snapshot_inputs ds t) k
          ≡ (if is_declared ds k.kind then Table.get t k else none)
    unfolding snapshot_inputs Table.get
    get-snapshot_inputs [] t k u rs es = refl
    get-snapshot_inputs (d ∷ ds) t k u (r, rs) (e, es) =
        let one =
          new_from_snapshot-snapshot d.codec (core_for d t) r
            (record { distinct = AreDistinct-of_kind d.kind t u; encoded = e }) in
        ap (λ (c : InputCore V). Table.get (c.entries ++ snapshot_inputs ds t) k) one
        ∙ get-append (of_kind d.kind t) (snapshot_inputs ds t) k
        ∙ ground (arith, get-of_kind d.kind t k, get-snapshot_inputs ds t k u rs es)

    -- The snapshot's inputs answer every key as the database's do.
    pub snapshot_inputs-get :
        (ds : List InputDecl) (t : Table DynKey (InputEntry V))
        → AreInputs ds t
        → (k : DynKey) → Table.get (snapshot_inputs ds t) k ≡ Table.get t k
    snapshot_inputs-get ds t i k =
        let same = get-snapshot_inputs ds t k i.distinct i.codecs i.encoded in
        elim (Option-cases (Table.get t k)) [
          | inl p ↦ ground (arith, same, p)
          | inr (e, p) ↦ ground (arith, same, p, i.declared k e p)
        ]

-- Inputs that answer alike are alike for queries and for what is remembered of them.
module _ {V : Type 0} (before after : Table DynKey (InputEntry V))
    (same : (k : DynKey) → Table.get after k ≡ Table.get before k) where
  same-All : (deps : List Dep) → All (SameAt before after) deps
  same-All [] = tt
  same-All (d ∷ deps) = (same (dep_key d), same-All deps)

  pub replay-alike : (c : Comp V) → replay after c ≡ replay before c
  replay-alike c = replay-same before after c (same-All (replay before c).1)

  is_unchanged-alike :
      (changed_at : Revision) (d : Dep) (sort : Option Sort)
      → is_unchanged after changed_at d sort ≡ is_unchanged before changed_at d sort
  is_unchanged-alike changed_at d none = refl
  is_unchanged-alike changed_at d (some input) = ground (arith, same (dep_key d))
  is_unchanged-alike changed_at d (some derived) = refl
  is_unchanged-alike changed_at d (some (interned t)) = refl

  all_unchanged-alike :
      (x : Config V) (changed_at : Revision) (deps : List Dep)
      → all_unchanged x after changed_at deps ≡ all_unchanged x before changed_at deps
  all_unchanged-alike x changed_at [] = refl
  all_unchanged-alike x changed_at (d ∷ deps) = ground (
    arith,
    is_unchanged-alike changed_at d (x.ingredient d.kind),
    all_unchanged-alike x changed_at deps,
  )

  module _ (x : Config V) (now : ℕ) where
    pub IsMemo-alike :
        (c : Comp V) (value : V) (verified_at changed_at : Revision) (deps : List Dep)
        → IsMemo x before now c value verified_at changed_at deps
        → IsMemo x after now c value verified_at changed_at deps
    IsMemo-alike c value verified_at changed_at deps m = record {
      verified = m.verified;
      changed = m.changed;
      leaves = m.leaves;
      fresh = λ e. replay-alike c ∙ m.fresh e;
      kept = λ e. replay-alike c ∙ m.kept (sym (all_unchanged-alike x changed_at deps) ∙ e);
    }

    pub IsGood-alike :
        (c : Comp V) (st : ErasedState V) → IsGood x before now c st → IsGood x after now c st
    IsGood-alike c vacant g = tt
    IsGood-alike c (running r) g = g
    IsGood-alike c (ready v a b deps) g = IsMemo-alike c v a b deps g
    IsGood-alike c (poisoned e v) g = (g.0, λ h. ap (λ r. r.0) (replay-alike c) ∙ g.1 h)
