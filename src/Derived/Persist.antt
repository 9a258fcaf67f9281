-- ===== src/Derived/Persist.antt =====
-- The persistence of a derived ingredient: records of a cache file, and changes for the log.
use picante.Base.{ℕ, ◌≡◌, Option, none, some, List, [], ◌∷◌, map, String}
use picante.Base.Results.{Result, ok, err, ◌>>=◌, map_err, try_each}
use picante.Base.Table
use picante.Base.Table.{Table}
use picante.Key.{Revision, QueryKindId, DynKey, Dep, Hasher, Codec, from_bytes, dyn_key_eq}
use picante.Encoding.{encode_facet, decode_facet}
use picante.Error.{PicanteError, PicanteResult, encode, decode}
use picante.Derived.World.{ErasedState, vacant, running, ready, poisoned}

-- One ingredient. The callbacks of the source are the functions below.
pub record DerivedCore (V : Type 0) : Type 0 where
  pub kind : QueryKindId
  pub kind_name : String
  pub cells : Table DynKey (ErasedState V)

pub record DepRecord : Type 0 where
  pub kind_id : ℕ
  pub key_bytes : List ℕ

pub record DerivedRecord (K V : Type 0) : Type 0 where
  pub key : K
  pub value : V
  pub verified_at : ℕ
  pub changed_at : ℕ
  pub deps : List DepRecord

-- `ErasedReadyRecord`, and `ErasedRecordData` without its key.
pub record ReadyRecord (V : Type 0) : Type 0 where
  pub value : V
  pub verified_at : Revision
  pub changed_at : Revision
  pub deps : List Dep

-- The revision, the bytes of the key, and those of the record, or none for a removal.
abbrev pub Change : Type 0
Change = ℕ × List ℕ × Option (List ℕ)

-- facet's reflection at one type: writing a value through `Peek`, reading bytes into a heap value
-- of the type's shape, and materializing that. Their errors are shown as text.
pub record PeekCodec (Heap T : Type 0) : Type 0 where
  pub peek_to_vec : T → Result String (List ℕ)
  pub to_heap_value : List ℕ → Result String Heap
  pub materialize : Heap → Result String T

-- What is written is read into a heap value that materializes to it.
pub record ReadsBack {Heap T : Type 0} (c : PeekCodec Heap T) : Type 0 where
  pub back :
      (t : T) (bytes : List ℕ)
      → c.peek_to_vec t ≡ ok bytes
      → (c.to_heap_value bytes >>= c.materialize) ≡ ok t

module _ {V : Type 0} where
  unfoldable pub new_ready : ReadyRecord V → ErasedState V
  new_ready r = ready r.value r.verified_at r.changed_at r.deps

  unfoldable pub ready_record : ErasedState V → Option (ReadyRecord V)
  ready_record vacant = none
  ready_record (running started_at) = none
  ready_record (ready value verified_at changed_at deps) =
      some
        (record { value = value; verified_at = verified_at; changed_at = changed_at; deps = deps })
  ready_record (poisoned error verified_at) = none

  unfoldable pub clear_cells : DerivedCore V → DerivedCore V
  clear_cells core = record core { cells = [] }

  abbrev pub put_cell : DynKey → ErasedState V → DerivedCore V → DerivedCore V
  put_cell k st core = record core { cells = Table.insert core.cells k st }

  abbrev pub remove_cell : DynKey → DerivedCore V → DerivedCore V
  remove_cell k core = record core { cells = Table.remove core.cells k }

abbrev pub dep_record : Dep → DepRecord
dep_record d = record { kind_id = d.kind.id; key_bytes = d.key.bytes }

abbrev pub dep_of_record : ⦃h : Hasher⦄ → DepRecord → Dep
dep_of_record d = record { kind = record { id = d.kind_id }; key = from_bytes d.key_bytes }

module _ {Heap T : Type 0} (c : PeekCodec Heap T) where
  unfoldable pub encode_with_peek : String → T → PicanteResult (List ℕ)
  encode_with_peek what t = map_err (encode what) (c.peek_to_vec t)

  -- `decode_to_heap_value` and the `materialize` behind it.
  unfoldable pub decode_with_heap : String → String → List ℕ → PicanteResult T
  decode_with_heap what what_materialize bytes = do
    heap_value ← map_err (decode what) (c.to_heap_value bytes)
    map_err (decode what_materialize) (c.materialize heap_value)

-- `bug` is the panic error that the source makes of a key that does not decode.
module _ {Heap K V : Type 0} ⦃h : Hasher⦄ (c : Codec K) (rc : PeekCodec Heap (DerivedRecord K V))
    (bug : PicanteError → PicanteError) where
  abbrev pub record_of : K → ReadyRecord V → DerivedRecord K V
  record_of key r = record {
    key = key;
    value = r.value;
    verified_at = r.verified_at.num;
    changed_at = r.changed_at.num;
    deps = map dep_record r.deps;
  }

  abbrev pub ready_of : DerivedRecord K V → ReadyRecord V
  ready_of rec = record {
    value = rec.value;
    verified_at = record { num = rec.verified_at };
    changed_at = record { num = rec.changed_at };
    deps = map dep_of_record rec.deps;
  }

  -- `make_encode_record`
  unfoldable pub encode_record : DynKey → ReadyRecord V → PicanteResult (List ℕ)
  unfolding encode_with_peek
  encode_record k r = do
    key ← map_err bug (decode_facet c k.key)
    encode_with_peek rc "derived record" (record_of key r)

  -- `make_decode_record`
  unfoldable pub decode_record : QueryKindId → List ℕ → PicanteResult (DynKey × ReadyRecord V)
  unfolding decode_with_heap
  decode_record kind bytes = do
    rec ← decode_with_heap rc "derived record" "derived record (materialize)" bytes
    key ← encode_facet c rec.key
    ok (record { kind = kind; key = key }, ready_of rec)

  unfoldable pub save_cells_loop : Table DynKey (ErasedState V) → PicanteResult (List (List ℕ))
  unfolding encode_record ready_record
  save_cells_loop [] = ok []
  save_cells_loop ((k, st) ∷ cells) =
      let rest = save_cells_loop cells in
      elim (ready_record st) [
        | none ↦ rest
        | some r ↦ do bytes ← encode_record k r; records ← rest; ok (bytes ∷ records)
      ]

  unfoldable pub save_records_erased : DerivedCore V → PicanteResult (List (List ℕ))
  unfolding save_cells_loop
  save_records_erased core = save_cells_loop core.cells

  -- One round of the loop of `load_records_erased`.
  unfoldable pub load_cell : List ℕ → DerivedCore V → PicanteResult (Unit {0}) × DerivedCore V
  unfolding decode_record new_ready
  load_cell bytes core = elim (decode_record core.kind bytes) [
    | err e ↦ (err e, core)
    | ok (k, r) ↦ (ok tt, put_cell k (new_ready r) core)
  ]

  -- The cells before a record that is refused stay.
  unfoldable pub load_records_erased :
      List (List ℕ) → DerivedCore V → PicanteResult (Unit {0}) × DerivedCore V
  unfolding load_cell
  load_records_erased = try_each load_cell
