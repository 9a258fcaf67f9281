-- ===== src/Input/Stored.antt =====
-- Saving an input's entries as records and loading them again.
use picante.Base.{ℕ, ◌≡◌, refl, ◌∙◌, List, [], ◌∷◌, arith, inl, inr}
use picante.Base.Results.{ok, Result-cases}
use picante.Base.Table
use picante.Base.Table.{Table, AreDistinct, over, over-insert, over_empty}
use picante.Key.{QueryKindId, DynKey, Hasher, Codec, RoundTrips, dyn_key_eq}
use picante.Encoding.{encode_facet, decode_facet-encode_facet, AreEncoded}
use picante.Input.Defs.{InputEntry, InputCore}
use picante.Input.Persist.{
  InputRecord, encode_input_record, decode_input_record, save_records_loop, save_records_erased,
  load_records_erased, clear_entries, put,
}

module _ {K V : Type 0} ⦃h : Hasher⦄ (c : Codec K) where
  pub record IsStored (core : InputCore V) : Type 0 where
    pub distinct : AreDistinct core.entries
    pub encoded : AreEncoded c core.kind core.entries

module _ {K V : Type 0} ⦃h : Hasher⦄ (c : Codec K) (rc : Codec (InputRecord K V)) where
  decode-encode_input_record :
      (k : DynKey) (e : InputEntry V) (key : K) (kind : QueryKindId) (bytes : List ℕ)
      → RoundTrips c
      → RoundTrips rc
      → encode_facet c key ≡ ok k.key
      → k.kind ≡ kind
      → encode_input_record c rc k e ≡ ok bytes
      → decode_input_record c rc kind bytes ≡ ok (k, e)
  unfolding encode_input_record decode_input_record
  decode-encode_input_record k e key kind bytes r rr enc same p =
      let rec : InputRecord K V = record {
        key = key;
        value = e.value;
        changed_at = e.changed_at.num;
      } in
      let back = decode_facet-encode_facet c r key k.key enc in
      elim (Result-cases (rc.to_vec rec)) [
        | inr (s, q) ↦ ground (arith, p, back, q)
        | inl (bs, q) ↦ ground (arith, p, back, q, rr.back rec bs q, enc, same)
      ]

  load-save_loop :
      (entries : Table DynKey (InputEntry V)) (core : InputCore V) (records : List (List ℕ))
      → RoundTrips c
      → RoundTrips rc
      → AreDistinct entries
      → AreEncoded c core.kind entries
      → save_records_loop c rc entries ≡ ok records
      → ((load_records_erased c rc records core).0 ≡ ok tt)
        × ((k : DynKey)
            → Table.get (load_records_erased c rc records core).1.entries k
              ≡ over entries core.entries k)
  unfolding save_records_loop load_records_erased Table.get
  load-save_loop [] core records r rr d n p =
      let same : [] ≡ records = ground (arith, p) in rw⁻¹ same (refl, λ k. refl)
  load-save_loop ((k, e) ∷ entries) core records r rr (free, d) ((key, enc, kind), n) p =
      elim (Result-cases (encode_input_record c rc k e)) [
        | inr (s, q) ↦ ground (arith, p, q)
        | inl (bytes, q) ↦ elim (Result-cases (save_records_loop c rc entries)) [
          | inr (s, u) ↦ ground (arith, p, q, u)
          | inl (rest, u) ↦
              let same : bytes ∷ rest ≡ records = ground (arith, p, q, u) in
              let one = decode-encode_input_record k e key core.kind bytes r rr enc kind q in
              let (a, b) = load-save_loop entries (put k e core) rest r rr d n u in
              rw⁻¹ same (
                rw (one, load_records_erased)
                  (a, λ j. b j ∙ over-insert entries core.entries k e j free))
        ]
      ]

  -- Let the keys of an input be distinct encodings of its kind, and let the codecs of keys and records
  -- read back what they write. Then if its records are saved, loading them into any ingredient of the
  -- kind, once it is cleared, succeeds, and gives every key the entry that it had: its value or its
  -- removal, and the revision.
  pub load-save :
      (core other : InputCore V) (records : List (List ℕ))
      → RoundTrips c
      → RoundTrips rc
      → IsStored c core
      → other.kind ≡ core.kind
      → save_records_erased c rc core ≡ ok records
      → ((load_records_erased c rc records (clear_entries other)).0 ≡ ok tt)
        × ((k : DynKey)
            → Table.get (load_records_erased c rc records (clear_entries other)).1.entries k
              ≡ Table.get core.entries k)
  unfolding save_records_erased clear_entries
  load-save core other records r rr s same p =
      let (a, b) =
        load-save_loop core.entries (clear_entries other) records r rr s.distinct
          (rw same s.encoded) p in
      (a, λ k. b k ∙ over_empty core.entries k)
