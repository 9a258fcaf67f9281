-- ===== src/Derived/Changes.antt =====
-- The changes of a derived ingredient since a revision, applied to another one.
use picante.Base.{
  ℕ, ◌≡◌, refl, ◌∙◌, none, some, Option, List, [], ◌∷◌, arith, inl, inr, Bool-cases, ltb,
  if◌then◌else◌,
}
use picante.Base.Results.{ok, Result-cases, try_each}
use picante.Base.Table
use picante.Base.Table.{Table, AreDistinct, over, over-insert, over_empty, get-eq}
use picante.Key.{QueryKindId, DynKey, Hasher, Codec, RoundTrips, dyn_key_eq}
use picante.Encoding.{encode_facet, decode_facet-encode_facet, AreEncoded}
use picante.Error.{PicanteError, PicanteResult}
use picante.Derived.World.{ErasedState, vacant, running, ready, poisoned}
use picante.Derived.Persist.{
  DerivedCore, DerivedRecord, ReadyRecord, PeekCodec, ReadsBack, ready_record, new_ready, put_cell,
  encode_with_peek, record_of, Change,
}
use picante.Derived.Logged.{
  encode_incremental, save_changes_loop, save_incremental_records_erased, decode_change,
  apply_wal_entry_erased,
}
use picante.Derived.Stored.{
  AreHashed, CellsAreHashed, IsStored, decode-encode_with_peek, dep_of_record-dep_record,
}

module _ {V : Type 0} (since : ℕ) where
  -- The cells that the changes carry.
  abbrev newer_cells : Table DynKey (ErasedState V) → Table DynKey (ErasedState V)
  newer_cells [] = []
  newer_cells ((k, st) ∷ cells) = elim (ready_record st) [
    | none ↦ newer_cells cells
    | some r ↦
        if ltb since r.changed_at.num
        then (k, new_ready r) ∷ newer_cells cells
        else newer_cells cells
  ]

  -- The first cell if it is ready and changed after the revision, else the second.
  abbrev pub newer_or : Option (ErasedState V) → Option (ErasedState V) → Option (ErasedState V)
  newer_or (some (ready value verified_at changed_at deps)) base =
      if ltb since changed_at.num then some (ready value verified_at changed_at deps) else base
  newer_or _ base = base

  over-newer_cells :
      (cells base : Table DynKey (ErasedState V)) (k : DynKey)
      → AreDistinct cells
      → over (newer_cells cells) base k ≡ newer_or (Table.get cells k) (Table.get base k)
  unfolding Table.get ready_record new_ready
  over-newer_cells [] base k d = refl
  over-newer_cells ((j, vacant) ∷ cells) base k (free, d) =
      ground (arith, over-newer_cells cells base k d, get-eq cells j k, free)
  over-newer_cells ((j, running r) ∷ cells) base k (free, d) =
      ground (arith, over-newer_cells cells base k d, get-eq cells j k, free)
  over-newer_cells ((j, poisoned e r) ∷ cells) base k (free, d) =
      ground (arith, over-newer_cells cells base k d, get-eq cells j k, free)
  over-newer_cells ((j, ready v a b ds) ∷ cells) base k (free, d) =
      ground (arith, over-newer_cells cells base k d, get-eq cells j k, free)

  free-newer_cells :
      (cells : Table DynKey (ErasedState V)) (k : DynKey)
      → AreDistinct cells
      → Table.get cells k ≡ none
      → Table.get (newer_cells cells) k ≡ none
  unfolding Table.get
  free-newer_cells cells k d free =
      ground (arith, over-newer_cells cells [] k d, over_empty (newer_cells cells) k, free)

module _ {Heap K V : Type 0} ⦃h : Hasher⦄ (c : Codec K) (kc : PeekCodec Heap K)
    (rc : PeekCodec Heap (DerivedRecord K V)) (bug : PicanteError → PicanteError) where
  decode-encode_incremental :
      (k : DynKey) (r : ReadyRecord V) (key : K) (kind : QueryKindId) (kb vb : List ℕ)
      → RoundTrips c
      → ReadsBack kc
      → ReadsBack rc
      → encode_facet c key ≡ ok k.key
      → k.kind ≡ kind
      → AreHashed r.deps
      → encode_incremental c kc rc bug k r ≡ ok (kb, vb)
      → decode_change c kc rc bug kind kb (some vb) ≡ ok (k, some r)
  unfolding encode_incremental decode_change
  decode-encode_incremental k r key kind kb vb rt rk rb enc same hashed p =
      let back = decode_facet-encode_facet c rt key k.key enc in
      let rec = record_of c rc bug key r in
      elim (Result-cases (encode_with_peek kc "derived key" key)) [
        | inr (s, q) ↦ ground (arith, p, back, q)
        | inl (bs, q) ↦ elim (Result-cases (encode_with_peek rc "derived record" rec)) [
          | inr (s, u) ↦ ground (arith, p, back, q, u)
          | inl (vs, u) ↦
              let one : bs ≡ kb = ground (arith, p, back, q, u) in
              let two : vs ≡ vb = ground (arith, p, back, q, u) in
              rw⁻¹ one (
                rw⁻¹ two (
                  rw
                    (
                      decode-encode_with_peek kc "derived key" "derived key from WAL"
                          "derived key from WAL (materialize)" key bs rk q,
                      enc,
                      decode-encode_with_peek rc "derived record" "derived record from WAL"
                          "derived record from WAL (materialize)" rec vs rb u,
                      dep_of_record-dep_record r.deps hashed,
                      same,
                    )
                    refl))
        ]
      ]

  apply_wal_entry-put :
      (rev : ℕ) (k : DynKey) (r : ReadyRecord V) (kb vb : List ℕ) (core : DerivedCore V)
      → decode_change c kc rc bug core.kind kb (some vb) ≡ ok (k, some r)
      → apply_wal_entry_erased c kc rc bug (rev, kb, some vb) core
        ≡ (ok tt, put_cell k (new_ready r) core)
  unfolding apply_wal_entry_erased
  apply_wal_entry-put rev k r kb vb core p = rw (p, apply_wal_entry_erased) refl

  -- `apply_wal_entry` for each change, up to the first error.
  abbrev pub apply_changes : List Change → DerivedCore V → PicanteResult (Unit {0}) × DerivedCore V
  apply_changes = try_each (apply_wal_entry_erased c kc rc bug)

  apply-save_loop :
      (since : ℕ) (cells : Table DynKey (ErasedState V)) (base : DerivedCore V)
      (changes : List Change)
      → RoundTrips c
      → ReadsBack kc
      → ReadsBack rc
      → AreDistinct cells
      → AreEncoded c base.kind cells
      → CellsAreHashed cells
      → save_changes_loop c kc rc bug since cells ≡ ok changes
      → ((apply_changes changes base).0 ≡ ok tt)
        × ((k : DynKey)
            → Table.get (apply_changes changes base).1.cells k
              ≡ over (newer_cells since cells) base.cells k)
  unfolding save_changes_loop try_each Table.get ready_record new_ready
  apply-save_loop since [] base changes rt rk rb d n hd p =
      let same : [] ≡ changes = ground (arith, p) in rw⁻¹ same (refl, λ k. refl)
  apply-save_loop since ((k, vacant) ∷ cells) base changes rt rk rb (free, d) (e, n) (u, hd) p =
      apply-save_loop since cells base changes rt rk rb d n hd p
  apply-save_loop since ((k, running s) ∷ cells) base changes rt rk rb (free, d) (e, n) (u, hd) p =
      apply-save_loop since cells base changes rt rk rb d n hd p
  apply-save_loop since ((k, poisoned x s) ∷ cells) base changes rt rk rb (free, d) (e, n) (u, hd)
        p =
      apply-save_loop since cells base changes rt rk rb d n hd p
  apply-save_loop since ((k, ready v a b ds) ∷ cells) base changes rt rk rb (free, d)
        ((key, enc, kind), n) (hashed, hd) p =
      let r : ReadyRecord V = record { value = v; verified_at = a; changed_at = b; deps = ds } in
      elim (Bool-cases (ltb since b.num)) [
        | inr q ↦
            let (x, y) =
              apply-save_loop since cells base changes rt rk rb d n hd (ground (arith, p, q)) in
            (x, λ j. y j ∙ rw q refl)
        | inl q ↦ elim (Result-cases (encode_incremental c kc rc bug k r)) [
          | inr (s, u) ↦ ground (arith, p, q, u)
          | inl ((kb, vb), u) ↦ elim (Result-cases (save_changes_loop c kc rc bug since cells)) [
            | inr (s, w) ↦ ground (arith, p, q, u, w)
            | inl (rest, w) ↦
                let same : (b.num, kb, some vb) ∷ rest ≡ changes = ground (arith, p, q, u, w) in
                let one =
                  decode-encode_incremental k r key base.kind kb vb rt rk rb enc kind hashed u in
                let (x, y) =
                  apply-save_loop since cells (put_cell k (new_ready r) base) rest rt rk rb d n hd
                    w in
                let gone = free-newer_cells since cells k d free in
                rw⁻¹ same (
                  rw (apply_wal_entry-put b.num k r kb vb base one, q)
                    (
                      x,
                      λ j.
                          y j
                          ∙ over-insert (newer_cells since cells) base.cells k (new_ready r) j gone,
                    ))
          ]
        ]
      ]

  -- Let the keys of a derived ingredient be distinct encodings of its kind, let the keys that its
  -- dependencies name carry their hashes, and let the codecs of keys and records read back what they
  -- write. If its changes since a revision are collected for the log, applying them to any
  -- ingredient of the kind succeeds, and gives every key whose cell is ready and changed after the
  -- revision that cell; every other key has the cell that it had before.
  pub apply-save_changes :
      (since : ℕ) (core base : DerivedCore V) (changes : List Change)
      → RoundTrips c
      → ReadsBack kc
      → ReadsBack rc
      → IsStored c core
      → base.kind ≡ core.kind
      → save_incremental_records_erased c kc rc bug since core ≡ ok changes
      → ((apply_changes changes base).0 ≡ ok tt)
        × ((k : DynKey)
            → Table.get (apply_changes changes base).1.cells k
              ≡ newer_or since (Table.get core.cells k) (Table.get base.cells k))
  unfolding save_incremental_records_erased
  apply-save_changes since core base changes rt rk rb s same p =
      let (a, b) =
        apply-save_loop since core.cells base changes rt rk rb s.distinct (rw same s.encoded)
          s.hashed p in
      (a, λ k. b k ∙ over-newer_cells since core.cells base.cells k s.distinct)
