-- ===== src/Examples/Saves.antt =====
-- Inputs that are saved and loaded.
use picante.Base.{ℕ, ◌≡◌, refl, List, [], ◌∷◌, Option, none, some, String, arith}
use picante.Base.Results.{Result, ok, err}
use picante.Base.Table
use picante.Key.{DynKey, Codec, RoundTrips, dyn_key_eq, from_bytes}
use picante.Encoding.{encode_facet, decode_facet}
use picante.Input.{InputCore, new}
use picante.Input.Persist.{
  InputRecord, save_records_erased, load_records_erased, clear_entries,
  save_incremental_records_erased,
}
use picante.Input.Stored.{IsStored, load-save}
use picante.Input.Incremental.{apply_all, apply-save, IsBase}
use picante.Examples.Data.{small_hasher, byte_codec, byte_codec-RoundTrips, kind_a, a_key, rev_of}

abbrev record_of : List ℕ → Result String (InputRecord ℕ ℕ)
record_of (k ∷ r ∷ v ∷ []) = ok (record { key = k; value = some v; changed_at = r })
record_of (k ∷ r ∷ []) = ok (record { key = k; value = none; changed_at = r })
record_of _ = err "bad record"

abbrev bytes_of : ℕ → Option ℕ → ℕ → List ℕ
bytes_of k none r = k ∷ r ∷ []
bytes_of k (some v) r = k ∷ r ∷ v ∷ []

abbrev pub record_codec : Codec (InputRecord ℕ ℕ)
record_codec = record {
  to_vec = λ r. ok (bytes_of r.key r.value r.changed_at);
  from_slice = record_of;
}

record_of-bytes_of :
    (k : ℕ) (v : Option ℕ) (r : ℕ) (bytes : List ℕ)
    → bytes_of k v r ≡ bytes
    → record_of bytes ≡ ok (record { key = k; value = v; changed_at = r })
record_of-bytes_of k none r bytes e = rw⁻¹ e refl
record_of-bytes_of k (some v) r bytes e = rw⁻¹ e refl

pub record_codec-RoundTrips : RoundTrips record_codec
record_codec-RoundTrips = record {
  back = λ t bytes e. record_of-bytes_of t.key t.value t.changed_at bytes (ground (arith, e));
}

abbrev pub blank : InputCore ℕ
blank = new kind_a "a"

abbrev pub full : InputCore ℕ
full = record blank {
  entries =
      (a_key 1, record { value = some 7; changed_at = rev_of 1 })
      ∷ (a_key 2, record { value = none; changed_at = rev_of 3 })
      ∷ [];
}

pub full-IsStored : IsStored byte_codec full
unfolding encode_facet from_bytes Table.get new
full-IsStored = record {
  distinct = (refl, (refl, tt));
  encoded = ((1, refl, refl), ((2, refl, refl), tt));
}

load-save_example :
    ((load_records_erased byte_codec record_codec
        ((1 ∷ 1 ∷ 7 ∷ []) ∷ (2 ∷ 3 ∷ []) ∷ [])
        (clear_entries full)).0
      ≡ ok tt)
    × ((k : DynKey)
        → Table.get
            (load_records_erased byte_codec record_codec
              ((1 ∷ 1 ∷ 7 ∷ []) ∷ (2 ∷ 3 ∷ []) ∷ [])
              (clear_entries full)).1.entries
            k
          ≡ Table.get full.entries k)
unfolding save_records_erased decode_facet new
load-save_example =
    load-save byte_codec record_codec full full ((1 ∷ 1 ∷ 7 ∷ []) ∷ (2 ∷ 3 ∷ []) ∷ [])
      byte_codec-RoundTrips record_codec-RoundTrips full-IsStored refl refl

-- As it was at revision 1.
abbrev pub base : InputCore ℕ
base = record full {
  entries =
      (a_key 1, record { value = some 7; changed_at = rev_of 1 })
      ∷ (a_key 2, record { value = some 5; changed_at = rev_of 1 })
      ∷ [];
}

pub base-IsBase : IsBase byte_codec byte_codec 1 full base
unfolding Table.get
base-IsBase = record { old = λ k e p q. ground (arith, p, q); absent = λ k p. ground (arith, p) }

apply-save_example :
    ((apply_all byte_codec byte_codec ((3, 2 ∷ [], none) ∷ []) base).0 ≡ ok tt)
    × ((k : DynKey)
        → Table.get (apply_all byte_codec byte_codec ((3, 2 ∷ [], none) ∷ []) base).1.entries k
          ≡ Table.get full.entries k)
unfolding save_incremental_records_erased decode_facet new
apply-save_example =
    apply-save byte_codec byte_codec 1 full base ((3, 2 ∷ [], none) ∷ []) byte_codec-RoundTrips
      byte_codec-RoundTrips full-IsStored base-IsBase refl refl
