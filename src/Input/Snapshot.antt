-- ===== src/Input/Snapshot.antt =====
-- A snapshot of an input ingredient, and the ingredient that is made of it.
use picante.Base.{
  ◌≡◌, refl, ap, ◌∙◌, sym, none, some, List, [], ◌∷◌, ◌++◌, String, arith, inl, inr, Bool-cases,
}
use mathlib.Core.List.{append_assoc, append-nil}
use picante.Base.Eq.{◌==◌}
use picante.Base.Results.{ok, err}
use picante.Base.Table
use picante.Base.Table.{Table, AreDistinct, get-insert, get-eq}
use picante.Key.{QueryKindId, DynKey, Hasher, Codec, RoundTrips, dyn_key_eq}
use picante.Key.Equality.{dyn_key_refl}
use picante.Encoding.{encode_facet, decode_facet, decode_facet-encode_facet, AreEncoded}
use picante.Input.Defs.{InputEntry, InputCore, new}
use picante.Input.Stored.{IsStored}

module _ {K V : Type 0} ⦃h : Hasher⦄ (c : Codec K) where
  -- The typed entries. A key that does not decode is left out.
  unfoldable pub snapshot_entries : Table DynKey (InputEntry V) → List (K × InputEntry V)
  snapshot_entries [] = []
  snapshot_entries ((k, e) ∷ entries) =
      let rest = snapshot_entries entries in
      elim (decode_facet c k.key) [ ok key ↦ (key, e) ∷ rest | err x ↦ rest ]

  unfoldable pub snapshot : InputCore V → List (K × InputEntry V)
  unfolding snapshot_entries
  snapshot core = snapshot_entries core.entries

  -- A key that does not encode is left out.
  unfoldable pub insert_entries :
      QueryKindId
      → List (K × InputEntry V)
      → Table DynKey (InputEntry V)
      → Table DynKey (InputEntry V)
  insert_entries kind [] t = t
  insert_entries kind ((key, e) ∷ entries) t = elim (encode_facet c key) [
    | ok encoded ↦
        insert_entries kind entries (Table.insert t (record { kind = kind; key = encoded }) e)
    | err x ↦ insert_entries kind entries t
  ]

  unfoldable pub new_from_snapshot : QueryKindId → String → List (K × InputEntry V) → InputCore V
  unfolding insert_entries
  new_from_snapshot kind kind_name entries = record (new kind kind_name) {
    entries = insert_entries kind entries [];
  }

module _ {V : Type 0} where
  insert-free :
      (t : Table DynKey (InputEntry V)) (k : DynKey) (e : InputEntry V)
      → Table.get t k ≡ none
      → Table.insert t k e ≡ t ++ (k, e) ∷ []
  unfolding Table.insert Table.get
  insert-free [] k e h = refl
  insert-free ((j, w) ∷ t) k e h = elim (Bool-cases (j == k)) [
    | inl p ↦ ground (arith, h, p)
    | inr p ↦ rw (p, insert-free t k e (ground (arith, h, p))) refl
  ]

  -- No key of the second table stands in the first.
  abbrev AreApart : Table DynKey (InputEntry V) → Table DynKey (InputEntry V) → Type 0
  AreApart t entries =
      (k : DynKey) (e : InputEntry V) → Table.get entries k ≡ some e → Table.get t k ≡ none

  AreApart-head :
      (t entries : Table DynKey (InputEntry V)) (k : DynKey) (e : InputEntry V)
      → AreApart t ((k, e) ∷ entries)
      → Table.get t k ≡ none
  unfolding Table.get
  AreApart-head t entries k e a = a k e (ground (arith, dyn_key_refl k))

  AreApart-tail :
      (t entries : Table DynKey (InputEntry V)) (k : DynKey) (e : InputEntry V)
      → Table.get entries k ≡ none
      → AreApart t ((k, e) ∷ entries)
      → AreApart (Table.insert t k e) entries
  unfolding Table.get
  AreApart-tail t entries k e free a j e' p = elim (Bool-cases (k == j)) [
    | inl q ↦ ground (arith, p, q, free, get-eq entries k j q)
    | inr q ↦
        let there : Table.get t j ≡ none = a j e' (ground (arith, p, q)) in
        ground (arith, get-insert t k j e, q, there)
  ]

module _ {K V : Type 0} ⦃h : Hasher⦄ (c : Codec K) where
  insert_entries-snapshot_entries :
      (kind : QueryKindId) (entries t : Table DynKey (InputEntry V))
      → RoundTrips c
      → AreDistinct entries
      → AreEncoded c kind entries
      → AreApart t entries
      → insert_entries c kind (snapshot_entries c entries) t ≡ t ++ entries
  unfolding insert_entries snapshot_entries
  insert_entries-snapshot_entries kind [] t r d n a = sym (append-nil t)
  insert_entries-snapshot_entries kind ((k, e) ∷ entries) t r (free, d) ((key, enc, same), n) a =
      let back = decode_facet-encode_facet c r key k.key enc in
      let whole : record { kind = kind; key = k.key } ≡ k =
        ap (λ q. record { kind = q; key = k.key }) (sym same) in
      rw (back, snapshot_entries, enc, insert_entries, whole)
        (insert_entries-snapshot_entries kind entries (Table.insert t k e) r d n
            (AreApart-tail t entries k e free a)
          ∙ ap (λ u. u ++ entries) (insert-free t k e (AreApart-head t entries k e a))
          ∙ append_assoc t ((k, e) ∷ []) entries)

  -- Let the keys of an input be distinct encodings of its kind, with a codec of keys that reads back what
  -- it writes. Then the ingredient that is made of a snapshot of it, under its kind and name, is the same:
  -- every key with its value or its removal and its revision.
  pub new_from_snapshot-snapshot :
      (core : InputCore V)
      → RoundTrips c
      → IsStored c core
      → new_from_snapshot c core.kind core.kind_name (snapshot c core) ≡ core
  unfolding new_from_snapshot snapshot new Table.get
  new_from_snapshot-snapshot core r s =
      ap (λ entries. record core { entries = entries })
        (insert_entries-snapshot_entries core.kind core.entries [] r s.distinct s.encoded
          (λ k e p. refl))
