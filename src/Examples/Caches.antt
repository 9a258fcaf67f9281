-- ===== src/Examples/Caches.antt =====
-- Derived cells that are saved, loaded, logged and restored.
use picante.Base.{ℕ, ◌≡◌, refl, List, [], ◌∷◌, ◌++◌, some, String, arith}
use picante.Base.Results.{Result, ok, err}
use picante.Base.Table
use picante.Key.{DynKey, dyn_key_eq, from_bytes}
use picante.Encoding.{encode_facet, decode_facet}
use picante.Error.{PicanteError}
use picante.Runtime as Rt
use picante.Runtime.Deps.{IsInverse, new-IsInverse}
use picante.Derived.World.{ready, running}
use picante.Derived.Persist.{
  DerivedCore, DerivedRecord, DepRecord, Change, PeekCodec, ReadsBack, save_records_erased,
  load_records_erased, clear_cells,
}
use picante.Derived.Logged.{save_incremental_records_erased, restore_runtime_state_inner}
use picante.Derived.Stored.{IsStored, only_ready}
use picante.Derived.Saved.{load-save_cells}
use picante.Derived.Changes.{apply-save_changes, apply_changes, newer_or}
use picante.Derived.Restored.{restore_runtime_state_lem, restored}
use picante.Examples.Data.{
  small_hasher, byte_codec, byte_codec-RoundTrips, kind_b, a_dep, b_key, rev_of,
}

abbrev with_dep : List ℕ → List ℕ → Result String (List ℕ)
with_dep front (b ∷ []) = ok (front ++ b ∷ [])
with_dep front _ = err "long key"

-- Records with one dependency at most, whose key is one byte.
abbrev bytes_of : ℕ → ℕ → ℕ → ℕ → List DepRecord → Result String (List ℕ)
bytes_of k v va ca [] = ok (k ∷ v ∷ va ∷ ca ∷ [])
bytes_of k v va ca (d ∷ []) = with_dep (k ∷ v ∷ va ∷ ca ∷ d.kind_id ∷ []) d.key_bytes
bytes_of k v va ca _ = err "many dependencies"

abbrev record_at : List ℕ → Result String (DerivedRecord ℕ ℕ)
record_at (k ∷ v ∷ va ∷ ca ∷ []) =
    ok (record { key = k; value = v; verified_at = va; changed_at = ca; deps = [] })
record_at (k ∷ v ∷ va ∷ ca ∷ i ∷ b ∷ []) = ok (record {
  key = k;
  value = v;
  verified_at = va;
  changed_at = ca;
  deps = record { kind_id = i; key_bytes = b ∷ [] } ∷ [];
})
record_at _ = err "bad record"

-- A heap value is the bytes that it came from.
abbrev pub record_codec : PeekCodec (List ℕ) (DerivedRecord ℕ ℕ)
record_codec = record {
  peek_to_vec = λ r. bytes_of r.key r.value r.verified_at r.changed_at r.deps;
  to_heap_value = λ bytes. ok bytes;
  materialize = record_at;
}

record_at-with_dep :
    (k v va ca i : ℕ) (key_bytes bytes : List ℕ)
    → with_dep (k ∷ v ∷ va ∷ ca ∷ i ∷ []) key_bytes ≡ ok bytes
    → record_at bytes
      ≡ ok (record {
        key = k;
        value = v;
        verified_at = va;
        changed_at = ca;
        deps = record { kind_id = i; key_bytes = key_bytes } ∷ [];
      })
record_at-with_dep k v va ca i [] bytes e = ground (arith, e)
record_at-with_dep k v va ca i (b ∷ []) bytes e =
    let same : k ∷ v ∷ va ∷ ca ∷ i ∷ b ∷ [] ≡ bytes = ground (arith, e) in rw⁻¹ same refl
record_at-with_dep k v va ca i (b ∷ b' ∷ bs) bytes e = ground (arith, e)

record_at-bytes_of :
    (k v va ca : ℕ) (deps : List DepRecord) (bytes : List ℕ)
    → bytes_of k v va ca deps ≡ ok bytes
    → record_at bytes
      ≡ ok (record { key = k; value = v; verified_at = va; changed_at = ca; deps = deps })
record_at-bytes_of k v va ca [] bytes e =
    let same : k ∷ v ∷ va ∷ ca ∷ [] ≡ bytes = ground (arith, e) in rw⁻¹ same refl
record_at-bytes_of k v va ca (d ∷ []) bytes e =
    record_at-with_dep k v va ca d.kind_id d.key_bytes bytes e
record_at-bytes_of k v va ca (d ∷ d' ∷ ds) bytes e = ground (arith, e)

pub record_codec-ReadsBack : ReadsBack record_codec
record_codec-ReadsBack = record {
  back = λ t bytes e. record_at-bytes_of t.key t.value t.verified_at t.changed_at t.deps bytes e;
}

abbrev pub key_codec : PeekCodec (List ℕ) ℕ
key_codec = record {
  peek_to_vec = byte_codec.to_vec;
  to_heap_value = λ bytes. ok bytes;
  materialize = byte_codec.from_slice;
}

pub key_codec-ReadsBack : ReadsBack key_codec
key_codec-ReadsBack = record { back = λ t bytes e. byte_codec-RoundTrips.back t bytes e }

abbrev pub same_error : PicanteError → PicanteError
same_error e = e

-- One cell is ready, one is being computed.
abbrev pub cached : DerivedCore ℕ
cached = record {
  kind = kind_b;
  kind_name = "b";
  cells =
      (b_key 1, ready 6 (rev_of 3) (rev_of 2) (a_dep 1 ∷ [])) ∷ (b_key 2, running (rev_of 3)) ∷ [];
}

pub cached-IsStored : IsStored byte_codec cached
unfolding encode_facet from_bytes Table.get
cached-IsStored = record {
  distinct = (refl, (refl, tt));
  encoded = ((1, refl, refl), ((2, refl, refl), tt));
  hashed = ((refl, tt), (tt, tt));
}

abbrev pub cell_records : List (List ℕ)
cell_records = (1 ∷ 6 ∷ 3 ∷ 2 ∷ 1 ∷ 1 ∷ []) ∷ []

load-save_cells_example :
    ((load_records_erased byte_codec record_codec same_error cell_records (clear_cells cached)).0
      ≡ ok tt)
    × ((k : DynKey)
        → Table.get
            (load_records_erased byte_codec record_codec same_error cell_records
              (clear_cells cached)).1.cells
            k
          ≡ only_ready (Table.get cached.cells k))
unfolding save_records_erased decode_facet
load-save_cells_example =
    load-save_cells byte_codec record_codec same_error cached cached cell_records
      byte_codec-RoundTrips record_codec-ReadsBack cached-IsStored refl refl

-- As it was at revision 1.
abbrev older : DerivedCore ℕ
older = record cached {
  cells =
      (b_key 1, ready 4 (rev_of 1) (rev_of 1) [])
      ∷ (b_key 7, ready 9 (rev_of 1) (rev_of 1) [])
      ∷ [];
}

abbrev cell_changes : List Change
cell_changes = (2, 1 ∷ [], some (1 ∷ 6 ∷ 3 ∷ 2 ∷ 1 ∷ 1 ∷ [])) ∷ []

apply-save_changes_example :
    ((apply_changes byte_codec key_codec record_codec same_error cell_changes older).0 ≡ ok tt)
    × ((k : DynKey)
        → Table.get
            (apply_changes byte_codec key_codec record_codec same_error cell_changes older).1.cells
            k
          ≡ newer_or 1 (Table.get cached.cells k) (Table.get older.cells k))
unfolding save_incremental_records_erased decode_facet
apply-save_changes_example =
    apply-save_changes byte_codec key_codec record_codec same_error 1 cached older cell_changes
      byte_codec-RoundTrips key_codec-ReadsBack record_codec-ReadsBack cached-IsStored refl refl

restore_example :
    IsInverse (restore_runtime_state_inner cached (Rt.new 1).0)
    × ((k : DynKey)
        → Table.get (restore_runtime_state_inner cached (Rt.new 1).0).deps_by_query k
          ≡ restored (Table.get cached.cells k) (Table.get (Rt.new 1).0.deps_by_query k))
restore_example =
    restore_runtime_state_lem cached (Rt.new 1).0 cached-IsStored.distinct (new-IsInverse 1)
