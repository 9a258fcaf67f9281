-- ===== src/Examples/Loads.antt =====
-- Loads of interned records.
use picante.Base.{ℕ, ◌≡◌, refl, [], ◌∷◌, List, some, String, arith}
use picante.Base.Results.{Result, ok, err}
use picante.Base.Eq.{nat_eq}
use picante.Base.Table
use picante.Key.{Codec, key_eq, from_bytes}
use picante.Encoding.{encode_facet}
use picante.Error.{decode}
use picante.Interned.{Interned, InternedRecord, intern, new, load_records}
use picante.Interned.Stability.{IsInterned}
use picante.Interned.Loading.{loaded, load_records-IsInterned, load_records-fails}
use picante.Examples.Data.{small_hasher, byte_codec, kind_a}

abbrev record_of : List ℕ → Result String (InternedRecord ℕ)
record_of (a ∷ b ∷ []) = ok (record { id = a; value = b })
record_of _ = err "bad record"

abbrev record_codec : Codec (InternedRecord ℕ)
record_codec = record { to_vec = λ r. ok (r.id ∷ r.value ∷ []); from_slice = record_of }

abbrev blank : Interned ℕ
blank = new kind_a "a"

abbrev good_records : List (List ℕ)
good_records = (0 ∷ 7 ∷ []) ∷ (3 ∷ 9 ∷ []) ∷ []

load_records_example : IsInterned byte_codec (loaded byte_codec record_codec good_records blank)
unfolding load_records Table.get encode_facet Table.insert from_bytes
load_records_example =
    load_records-IsInterned byte_codec record_codec good_records blank refl (omega arith)

-- The second record is too short; the third is never read.
abbrev one_record : List (List ℕ)
one_record = (0 ∷ 7 ∷ []) ∷ []

abbrev bad_records : List (List ℕ)
bad_records = (0 ∷ 7 ∷ []) ∷ (3 ∷ []) ∷ (4 ∷ 9 ∷ []) ∷ []

load_records-fails_example :
    ((load_records byte_codec record_codec bad_records blank).0
      ≡ err (decode "interned record" "bad record"))
    × ((loaded byte_codec record_codec bad_records blank).by_id
        ≡ (loaded byte_codec record_codec one_record blank).by_id)
    × ((loaded byte_codec record_codec bad_records blank).next_id ≡ 0)
    × ((r : Interned ℕ) × (intern byte_codec 5 (loaded byte_codec record_codec bad_records blank)
          ≡ ok (record { num = 0 }, r))
        × (Table.get r.by_id 0 ≡ some 5))
unfolding load_records Table.get encode_facet Table.insert from_bytes
load_records-fails_example =
    load_records-fails byte_codec record_codec one_record ((4 ∷ 9 ∷ []) ∷ []) (3 ∷ []) blank
      (decode "interned record" "bad record") refl refl 5 _ refl refl
