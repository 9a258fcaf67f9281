-- ===== src/Derived/Saved.antt =====
-- What is loaded from the records of a derived ingredient: its ready cells.
use picante.Base.{ℕ, ◌≡◌, refl, ◌∙◌, List, [], ◌∷◌, arith, inl, inr}
use picante.Base.Results.{ok, Result-cases, try_each}
use picante.Base.Table
use picante.Base.Table.{Table, AreDistinct, over, over-insert, over_empty}
use picante.Key.{QueryKindId, DynKey, Hasher, Codec, RoundTrips, dyn_key_eq}
use picante.Encoding.{encode_facet, decode_facet-encode_facet, AreEncoded}
use picante.Error.{PicanteError}
use picante.Derived.World.{ErasedState, vacant, running, ready, poisoned}
use picante.Derived.Persist.{
  DerivedCore, DerivedRecord, ReadyRecord, PeekCodec, ReadsBack, ready_record, new_ready, put_cell,
  encode_record, decode_record, encode_with_peek, save_cells_loop, save_records_erased, load_cell,
  load_records_erased, clear_cells, record_of,
}
use picante.Derived.Stored.{
  ready_cells, only_ready, get-ready_cells, AreHashed, CellsAreHashed, IsStored,
  decode-encode_with_peek, free-ready_cells, dep_of_record-dep_record,
}

module _ {Heap K V : Type 0} ⦃h : Hasher⦄ (c : Codec K) (rc : PeekCodec Heap (DerivedRecord K V))
    (bug : PicanteError → PicanteError) where
  decode-encode_record :
      (k : DynKey) (r : ReadyRecord V) (key : K) (kind : QueryKindId) (bytes : List ℕ)
      → RoundTrips c
      → ReadsBack rc
      → encode_facet c key ≡ ok k.key
      → k.kind ≡ kind
      → AreHashed r.deps
      → encode_record c rc bug k r ≡ ok bytes
      → decode_record c rc bug kind bytes ≡ ok (k, r)
  unfolding encode_record decode_record
  decode-encode_record k r key kind bytes rt rb enc same hashed p =
      let back = decode_facet-encode_facet c rt key k.key enc in
      let rec = record_of c rc bug key r in
      elim (Result-cases (encode_with_peek rc "derived record" rec)) [
        | inr (s, q) ↦ ground (arith, p, back, q)
        | inl (bs, q) ↦
            let one : bs ≡ bytes = ground (arith, p, back, q) in
            rw⁻¹ one (
              rw
                (
                  decode-encode_with_peek rc "derived record" "derived record"
                      "derived record (materialize)" rec bs rb q,
                  enc,
                  dep_of_record-dep_record r.deps hashed,
                  same,
                )
                refl)
      ]

  load_cell-put :
      (k : DynKey) (r : ReadyRecord V) (bytes : List ℕ) (core : DerivedCore V)
      → decode_record c rc bug core.kind bytes ≡ ok (k, r)
      → load_cell c rc bug bytes core ≡ (ok tt, put_cell k (new_ready r) core)
  unfolding load_cell
  load_cell-put k r bytes core p = rw (p, load_cell) refl

  load-save_loop :
      (cells : Table DynKey (ErasedState V)) (core : DerivedCore V) (records : List (List ℕ))
      → RoundTrips c
      → ReadsBack rc
      → AreDistinct cells
      → AreEncoded c core.kind cells
      → CellsAreHashed cells
      → save_cells_loop c rc bug cells ≡ ok records
      → ((load_records_erased c rc bug records core).0 ≡ ok tt)
        × ((k : DynKey)
            → Table.get (load_records_erased c rc bug records core).1.cells k
              ≡ over (ready_cells cells) core.cells k)
  unfolding save_cells_loop load_records_erased try_each Table.get ready_record new_ready
  load-save_loop [] core records rt rb d n hd p =
      let same : [] ≡ records = ground (arith, p) in rw⁻¹ same (refl, λ k. refl)
  load-save_loop ((k, vacant) ∷ cells) core records rt rb (free, d) (e, n) (u, hd) p =
      load-save_loop cells core records rt rb d n hd p
  load-save_loop ((k, running s) ∷ cells) core records rt rb (free, d) (e, n) (u, hd) p =
      load-save_loop cells core records rt rb d n hd p
  load-save_loop ((k, poisoned x s) ∷ cells) core records rt rb (free, d) (e, n) (u, hd) p =
      load-save_loop cells core records rt rb d n hd p
  load-save_loop ((k, ready v a b ds) ∷ cells) core records rt rb (free, d) ((key, enc, kind), n)
        (hashed, hd) p =
      let r : ReadyRecord V = record { value = v; verified_at = a; changed_at = b; deps = ds } in
      elim (Result-cases (encode_record c rc bug k r)) [
        | inr (s, q) ↦ ground (arith, p, q)
        | inl (bytes, q) ↦ elim (Result-cases (save_cells_loop c rc bug cells)) [
          | inr (s, u) ↦ ground (arith, p, q, u)
          | inl (rest, u) ↦
              let same : bytes ∷ rest ≡ records = ground (arith, p, q, u) in
              let one = decode-encode_record k r key core.kind bytes rt rb enc kind hashed q in
              let (x, y) =
                load-save_loop cells (put_cell k (new_ready r) core) rest rt rb d n hd u in
              let gone = free-ready_cells cells k d free in
              rw⁻¹ same (
                rw (load_cell-put k r bytes core one)
                  (x, λ j. y j ∙ over-insert (ready_cells cells) core.cells k (new_ready r) j gone))
        ]
      ]

  -- Let the keys of a derived ingredient be distinct encodings of its kind, let the keys that its
  -- dependencies name carry their hashes, and let the codecs of keys and records read back what they
  -- write. Then if its records are saved, loading them into any ingredient of the kind, once it is
  -- cleared, succeeds, and gives every key that had a ready cell that cell, with its value, its
  -- revisions and its dependencies, and no cell to any other key.
  pub load-save_cells :
      (core other : DerivedCore V) (records : List (List ℕ))
      → RoundTrips c
      → ReadsBack rc
      → IsStored c core
      → other.kind ≡ core.kind
      → save_records_erased c rc bug core ≡ ok records
      → ((load_records_erased c rc bug records (clear_cells other)).0 ≡ ok tt)
        × ((k : DynKey)
            → Table.get (load_records_erased c rc bug records (clear_cells other)).1.cells k
              ≡ only_ready (Table.get core.cells k))
  unfolding save_records_erased clear_cells
  load-save_cells core other records rt rb s same p =
      let (a, b) =
        load-save_loop core.cells (clear_cells other) records rt rb s.distinct (rw same s.encoded)
          s.hashed p in
      (
        a,
        λ k. b k ∙ over_empty (ready_cells core.cells) k ∙ get-ready_cells core.cells k s.distinct,
      )
