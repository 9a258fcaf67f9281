-- ===== src/Encoding.antt =====
-- key.rs: `Key::encode_facet` and `Key::decode_facet`, over the codec of a key type.
use picante.Base.{◌≡◌, ◌↔◌, true, [], ◌∷◌, arith, inl, inr, Bool-cases}
use picante.Base.Eq.{◌==◌}
use picante.Base.Table
use picante.Base.Table.{Table}
use picante.Base.Results.{ok, ◌>>=◌, map_err, Result-cases}
use picante.Key.{
  QueryKindId, DynKey, Hasher, Key, from_bytes, Codec, RoundTrips, key_beq, dyn_key_eq,
}
use picante.Key.Equality.{bytes_beq→eq, bytes_refl}
use picante.Error.{PicanteResult, encode, decode}

module _ {T : Type 0} where
  unfoldable pub encode_facet : ⦃h : Hasher⦄ → Codec T → T → PicanteResult Key
  encode_facet c value = do bytes ← map_err (encode "key") (c.to_vec value); ok (from_bytes bytes)

  unfoldable pub decode_facet : Codec T → Key → PicanteResult T
  decode_facet c k = map_err (decode "key") (c.from_slice k.bytes)

  -- An encoded key decodes to the value that it encodes.
  pub decode_facet-encode_facet :
      ⦃h : Hasher⦄ (c : Codec T) (r : RoundTrips c) (t : T) (k : Key)
      → encode_facet c t ≡ ok k
      → decode_facet c k ≡ ok t
  unfolding encode_facet decode_facet from_bytes
  decode_facet-encode_facet c r t k e = elim (Result-cases (c.to_vec t)) [
    | inl (bytes, p) ↦ ground (arith, r.back t bytes)
    | inr (m, p) ↦ ground arith
  ]

  -- Two values have equal keys exactly when they are one value.
  pub encode_facet-injective :
      ⦃h : Hasher⦄ (c : Codec T) (r : RoundTrips c) (t u : T) (k j : Key)
      → encode_facet c t ≡ ok k
      → encode_facet c u ≡ ok j
      → (key_beq k j ≡ true) ↔ (t ≡ u)
  unfolding encode_facet decode_facet from_bytes
  encode_facet-injective c r t u k j p q = (
    λ e. ground (
      arith,
      decode_facet-encode_facet c r t k p,
      decode_facet-encode_facet c r u j q,
      bytes_beq→eq k.bytes j.bytes e,
    ),
    λ e. ground (arith, bytes_refl k.bytes),
  )

module _ {K W : Type 0} ⦃h : Hasher⦄ (c : Codec K) where
  -- Every key is of the kind, and is the encoding of a key of the ingredient.
  abbrev pub AreEncoded : QueryKindId → Table DynKey W → Type 0
  AreEncoded kind [] = Unit {0}
  AreEncoded kind ((k, e) ∷ t) =
      ((key : K) × (encode_facet c key ≡ ok k.key) × (k.kind ≡ kind)) × AreEncoded kind t

  pub AreEncoded-insert :
      (kind : QueryKindId) (t : Table DynKey W) (k : DynKey) (e : W) (key : K)
      → encode_facet c key ≡ ok k.key
      → k.kind ≡ kind
      → AreEncoded kind t
      → AreEncoded kind (Table.insert t k e)
  unfolding Table.insert
  AreEncoded-insert kind [] k e key enc same n = ((key, enc, same), tt)
  AreEncoded-insert kind ((j, w) ∷ t) k e key enc same (m, n) = elim (Bool-cases (j == k)) [
    | inl p ↦ rw p (m, n)
    | inr p ↦ rw p (m, AreEncoded-insert kind t k e key enc same n)
  ]
