-- ===== src/Derived/Stored.antt =====
-- Saving the ready cells of a derived ingredient as records, and loading them again.
use picante.Base.{ℕ, ◌≡◌, refl, none, some, Option, List, [], ◌∷◌, map, String, arith, inl, inr}
use picante.Base.Results.{ok, Result-cases}
use picante.Base.Table
use picante.Base.Table.{Table, AreDistinct, over, get-insert, get-eq}
use picante.Key.{Dep, DynKey, Hasher, Codec, from_bytes, dyn_key_eq}
use picante.Encoding.{AreEncoded}
use picante.Derived.World.{ErasedState, vacant, running, ready, poisoned}
use picante.Derived.Persist.{
  DerivedCore, PeekCodec, ReadsBack, ready_record, new_ready, encode_with_peek, decode_with_heap,
  dep_record, dep_of_record,
}

module _ {V : Type 0} where
  -- The cells that are ready.
  abbrev pub ready_cells : Table DynKey (ErasedState V) → Table DynKey (ErasedState V)
  ready_cells [] = []
  ready_cells ((k, st) ∷ cells) = elim (ready_record st) [
    | none ↦ ready_cells cells
    | some r ↦ (k, new_ready r) ∷ ready_cells cells
  ]

  -- What a reader sees of a cell when only the ready ones are kept.
  abbrev pub only_ready : Option (ErasedState V) → Option (ErasedState V)
  only_ready (some (ready value verified_at changed_at deps)) =
      some (ready value verified_at changed_at deps)
  only_ready _ = none

  pub get-ready_cells :
      (cells : Table DynKey (ErasedState V)) (k : DynKey)
      → AreDistinct cells
      → Table.get (ready_cells cells) k ≡ only_ready (Table.get cells k)
  unfolding Table.get ready_record new_ready
  get-ready_cells [] k d = refl
  get-ready_cells ((j, vacant) ∷ cells) k (free, d) =
      ground (arith, get-ready_cells cells k d, get-eq cells j k, free)
  get-ready_cells ((j, running r) ∷ cells) k (free, d) =
      ground (arith, get-ready_cells cells k d, get-eq cells j k, free)
  get-ready_cells ((j, poisoned e r) ∷ cells) k (free, d) =
      ground (arith, get-ready_cells cells k d, get-eq cells j k, free)
  get-ready_cells ((j, ready v a b ds) ∷ cells) k (free, d) =
      ground (arith, get-ready_cells cells k d, get-eq cells j k, free)

  -- The entry of a key that has none among the cells is not among the ready ones.
  pub free-ready_cells :
      (cells : Table DynKey (ErasedState V)) (k : DynKey)
      → AreDistinct cells
      → Table.get cells k ≡ none
      → Table.get (ready_cells cells) k ≡ none
  free-ready_cells cells k d free = rw (get-ready_cells cells k d, free) refl

module _ ⦃h : Hasher⦄ where
  -- Every key that a dependency names carries the hash of its bytes.
  abbrev pub AreHashed : List Dep → Type 0
  AreHashed [] = Unit {0}
  AreHashed (d ∷ deps) = (d.key ≡ from_bytes d.key.bytes) × AreHashed deps

  pub dep_of_record-dep_record :
      (deps : List Dep) → AreHashed deps → map dep_of_record (map dep_record deps) ≡ deps
  dep_of_record-dep_record [] n = refl
  dep_of_record-dep_record (d ∷ deps) (same, n) =
      rw⁻¹ same (rw (dep_of_record-dep_record deps n) refl)

  abbrev pub CellIsHashed : {V : Type 0} → ErasedState V → Type 0
  CellIsHashed (ready value verified_at changed_at deps) = AreHashed deps
  CellIsHashed _ = Unit {0}

  abbrev pub CellsAreHashed : {V : Type 0} → Table DynKey (ErasedState V) → Type 0
  CellsAreHashed [] = Unit {0}
  CellsAreHashed ((k, st) ∷ cells) = CellIsHashed st × CellsAreHashed cells

module _ {K V : Type 0} ⦃h : Hasher⦄ (c : Codec K) where
  pub record IsStored (core : DerivedCore V) : Type 0 where
    pub distinct : AreDistinct core.cells
    pub encoded : AreEncoded c core.kind core.cells
    pub hashed : CellsAreHashed core.cells

module _ {Heap T : Type 0} (c : PeekCodec Heap T) where
  pub decode-encode_with_peek :
      (what what' what'' : String) (t : T) (bytes : List ℕ)
      → ReadsBack c
      → encode_with_peek c what t ≡ ok bytes
      → decode_with_heap c what' what'' bytes ≡ ok t
  unfolding encode_with_peek decode_with_heap
  decode-encode_with_peek what what' what'' t bytes r p = elim (Result-cases (c.peek_to_vec t)) [
    | inr (s, q) ↦ ground (arith, p, q)
    | inl (bs, q) ↦
        let same : bs ≡ bytes = ground (arith, p, q) in
        let there = r.back t bs q in
        elim (Result-cases (c.to_heap_value bs)) [
          | inr (s, u) ↦ ground (arith, there, u)
          | inl (hv, u) ↦ elim (Result-cases (c.materialize hv)) [
            | inr (s, w) ↦ ground (arith, there, u, w)
            | inl (t', w) ↦ rw⁻¹ same (ground (arith, there, u, w))
          ]
        ]
  ]
