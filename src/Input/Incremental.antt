-- ===== src/Input/Incremental.antt =====
-- The changes of an input since a revision, applied to an input that stands at that revision.
use picante.Base.{
  ℕ, ◌≤◌, ◌≡◌, refl, ◌∙◌, true, false, none, some, Option, List, [], ◌∷◌, arith, inl, inr, ltb,
  if◌then◌else◌, Bool-cases, Option-cases,
}
use picante.Base.Results.{ok, Result-cases, try_each}
use picante.Base.Table
use picante.Base.Table.{Table, get-insert, get-eq, AreDistinct}
use picante.Key.{QueryKindId, DynKey, Hasher, Codec, RoundTrips, dyn_key_eq}
use picante.Encoding.{encode_facet, decode_facet-encode_facet, AreEncoded}
use picante.Error.{PicanteResult}
use picante.Input.Defs.{InputEntry, InputCore, revision_0}
use picante.Input.Persist.{
  Changed, put, encode_value, decode_value, encode_input_incremental, decode_input_change,
  save_incremental_loop, save_incremental_records_erased, apply_wal_entry_erased,
}
use picante.Input.Stored.{IsStored}

module _ {V : Type 0} (vc : Codec V) where
  decode-encode_value :
      (value : Option V) (bytes : Option (List ℕ))
      → RoundTrips vc
      → encode_value vc value ≡ ok bytes
      → decode_value vc bytes ≡ ok value
  decode-encode_value none bytes r p = let same : none ≡ bytes = ground (arith, p) in rw⁻¹ same refl
  decode-encode_value (some v) bytes r p = elim (Result-cases (vc.to_vec v)) [
    | inr (s, q) ↦ ground (arith, p, q)
    | inl (bs, q) ↦
        let same : some bs ≡ bytes = ground (arith, p, q) in rw⁻¹ same (rw (r.back v bs q) refl)
  ]

module _ {K V : Type 0} ⦃h : Hasher⦄ (c : Codec K) (vc : Codec V) where
  -- `apply_wal_entry` for each change, up to the first error.
  abbrev pub apply_all : List Changed → InputCore V → PicanteResult (Unit {0}) × InputCore V
  apply_all = try_each (apply_wal_entry_erased c vc)

  apply_wal_entry-put :
      (k : DynKey) (e : InputEntry V) (kb : List ℕ) (vb : Option (List ℕ)) (core : InputCore V)
      → decode_input_change c vc core.kind kb vb
        ≡ ok (k, record { value = e.value; changed_at = revision_0 })
      → apply_wal_entry_erased c vc (e.changed_at.num, kb, vb) core ≡ (ok tt, put k e core)
  unfolding apply_wal_entry_erased
  apply_wal_entry-put k e kb vb core h = rw (h, apply_wal_entry_erased) refl

  decode-encode_input_incremental :
      (k : DynKey) (value : Option V) (key : K) (kind : QueryKindId) (key_bytes : List ℕ)
      (value_bytes : Option (List ℕ))
      → RoundTrips c
      → RoundTrips vc
      → encode_facet c key ≡ ok k.key
      → k.kind ≡ kind
      → encode_input_incremental c vc k value ≡ ok (key_bytes, value_bytes)
      → decode_input_change c vc kind key_bytes value_bytes
        ≡ ok (k, record { value = value; changed_at = revision_0 })
  unfolding encode_input_incremental decode_input_change
  decode-encode_input_incremental k value key kind key_bytes value_bytes r rv enc same p =
      let back = decode_facet-encode_facet c r key k.key enc in
      elim (Result-cases (c.to_vec key)) [
        | inr (s, q) ↦ ground (arith, p, back, q)
        | inl (bs, q) ↦ elim (Result-cases (encode_value vc value)) [
          | inr (s, u) ↦ ground (arith, p, back, q, u)
          | inl (vs, u) ↦
              let one : bs ≡ key_bytes = ground (arith, p, back, q, u) in
              let two : vs ≡ value_bytes = ground (arith, p, back, q, u) in
              rw⁻¹ one (
                rw⁻¹ two (
                  ground (arith, r.back key bs q, decode-encode_value vc value vs rv u, enc, same)))
        ]
      ]

module _ {V : Type 0} where
  -- The entries that changed after the revision, and those of the second table under the other keys.
  abbrev newer :
      ℕ → Table DynKey (InputEntry V) → Table DynKey (InputEntry V) → DynKey → Option (InputEntry V)
  newer since t u k = elim (Table.get t k) [
    | none ↦ Table.get u k
    | some e ↦ if ltb since e.changed_at.num then some e else Table.get u k
  ]

  newer-insert :
      (since : ℕ) (t u : Table DynKey (InputEntry V)) (k : DynKey) (e : InputEntry V) (j : DynKey)
      → Table.get t k ≡ none
      → ltb since e.changed_at.num ≡ true
      → newer since t (Table.insert u k e) j ≡ newer since ((k, e) ∷ t) u j
  unfolding Table.get
  newer-insert since t u k e j h n = ground (arith, h, n, get-insert u k j e, get-eq t k j)

  newer-skip :
      (since : ℕ) (t u : Table DynKey (InputEntry V)) (k : DynKey) (e : InputEntry V) (j : DynKey)
      → Table.get t k ≡ none
      → ltb since e.changed_at.num ≡ false
      → newer since t u j ≡ newer since ((k, e) ∷ t) u j
  unfolding Table.get
  newer-skip since t u k e j h n = ground (arith, h, n, get-eq t k j)

module _ {K V : Type 0} ⦃h : Hasher⦄ (c : Codec K) (vc : Codec V) (since : ℕ) where
  apply-save_loop :
      (entries : Table DynKey (InputEntry V)) (base : InputCore V) (changes : List Changed)
      → RoundTrips c
      → RoundTrips vc
      → AreDistinct entries
      → AreEncoded c base.kind entries
      → save_incremental_loop c vc since entries ≡ ok changes
      → ((apply_all c vc changes base).0 ≡ ok tt)
        × ((k : DynKey)
            → Table.get (apply_all c vc changes base).1.entries k
              ≡ newer since entries base.entries k)
  unfolding save_incremental_loop try_each Table.get
  apply-save_loop [] base changes r rv d n p =
      let same : [] ≡ changes = ground (arith, p) in rw⁻¹ same (refl, λ k. refl)
  apply-save_loop ((k, e) ∷ entries) base changes r rv (free, d) ((key, enc, kind), n) p =
      elim (Bool-cases (ltb since e.changed_at.num)) [
        | inr q ↦
            let (a, b) = apply-save_loop entries base changes r rv d n (ground (arith, p, q)) in
            (a, λ j. b j ∙ newer-skip since entries base.entries k e j free q)
        | inl q ↦ elim (Result-cases (encode_input_incremental c vc k e.value)) [
          | inr (s, u) ↦ ground (arith, p, q, u)
          | inl ((kb, vb), u) ↦ elim (Result-cases (save_incremental_loop c vc since entries)) [
            | inr (s, w) ↦ ground (arith, p, q, u, w)
            | inl (rest, w) ↦
                let same : (e.changed_at.num, kb, vb) ∷ rest ≡ changes =
                  ground (arith, p, q, u, w) in
                let one =
                  decode-encode_input_incremental c vc k e.value key base.kind kb vb r rv enc kind
                    u in
                let (a, b) = apply-save_loop entries (put k e base) rest r rv d n w in
                let applied = apply_wal_entry-put c vc k e kb vb base one in
                rw⁻¹ same
                  (rw applied (a, λ j. b j ∙ newer-insert since entries base.entries k e j free q))
          ]
        ]
      ]

  -- The base holds every entry that did not change after the revision, and no other key.
  pub record IsBase (core base : InputCore V) : Type 0 where
    pub old :
        (k : DynKey) (e : InputEntry V)
        → Table.get core.entries k ≡ some e
        → e.changed_at.num ≤ since
        → Table.get base.entries k ≡ some e
    pub absent : (k : DynKey) → Table.get core.entries k ≡ none → Table.get base.entries k ≡ none

  newer-all :
      (core base : InputCore V) (k : DynKey)
      → IsBase core base
      → newer since core.entries base.entries k ≡ Table.get core.entries k
  newer-all core base k b = elim (Option-cases (Table.get core.entries k)) [
    | inl p ↦ ground (arith, p, b.absent k p)
    | inr (e, p) ↦ ground (arith, p, b.old k e p)
  ]

  -- Let the keys of an input be distinct encodings of its kind, and let the codecs of keys and values
  -- read back what they write. If its changes since a revision are collected for the log, applying them
  -- to an ingredient of the kind that holds the entries that are older, whatever it holds for the keys
  -- that changed, succeeds, and gives every key the entry that it had.
  pub apply-save :
      (core base : InputCore V) (changes : List Changed)
      → RoundTrips c
      → RoundTrips vc
      → IsStored c core
      → IsBase core base
      → base.kind ≡ core.kind
      → save_incremental_records_erased c vc since core ≡ ok changes
      → ((apply_all c vc changes base).0 ≡ ok tt)
        × ((k : DynKey)
            → Table.get (apply_all c vc changes base).1.entries k ≡ Table.get core.entries k)
  unfolding save_incremental_records_erased
  apply-save core base changes r rv s b same p =
      let (x, y) =
        apply-save_loop core.entries base changes r rv s.distinct (rw same s.encoded) p in
      (x, λ k. y k ∙ newer-all core base k b)
