-- ===== src/Derived/Logged.antt =====
-- The changes of a derived ingredient for the log, their application, and what a load restores in
-- the runtime.
use picante.Base.{ℕ, Option, none, some, List, [], ◌∷◌, ltb, if◌then◌else◌}
use picante.Base.Results.{ok, err, ◌>>=◌, map_err}
use picante.Base.Table
use picante.Base.Table.{Table}
use picante.Key.{QueryKindId, DynKey, Hasher, Codec, dyn_key_eq}
use picante.Encoding.{encode_facet, decode_facet}
use picante.Error.{PicanteError, PicanteResult}
use picante.Runtime.{Runtime, update_query_deps}
use picante.Derived.World.{ErasedState}
use picante.Derived.Persist.{
  DerivedCore, DerivedRecord, ReadyRecord, Change, PeekCodec, ready_record, new_ready, put_cell,
  remove_cell, record_of, ready_of, encode_with_peek, decode_with_heap,
}

module _ {Heap K V : Type 0} ⦃h : Hasher⦄ (c : Codec K) (kc : PeekCodec Heap K)
    (rc : PeekCodec Heap (DerivedRecord K V)) (bug : PicanteError → PicanteError) where
  -- `make_encode_incremental`
  unfoldable pub encode_incremental : DynKey → ReadyRecord V → PicanteResult (List ℕ × List ℕ)
  unfolding encode_with_peek
  encode_incremental k r = do
    key ← map_err bug (decode_facet c k.key)
    key_bytes ← encode_with_peek kc "derived key" key
    value_bytes ← encode_with_peek rc "derived record" (record_of c rc bug key r)
    ok (key_bytes, value_bytes)

  unfoldable pub save_changes_loop : ℕ → Table DynKey (ErasedState V) → PicanteResult (List Change)
  unfolding encode_incremental ready_record
  save_changes_loop since [] = ok []
  save_changes_loop since ((k, st) ∷ cells) =
      let rest = save_changes_loop since cells in
      elim (ready_record st) [
        | none ↦ rest
        | some r ↦
            if ltb since r.changed_at.num
            then (do
              (key_bytes, value_bytes) ← encode_incremental k r
              changes ← rest
              ok ((r.changed_at.num, key_bytes, some value_bytes) ∷ changes))
            else rest
      ]

  unfoldable pub save_incremental_records_erased : ℕ → DerivedCore V → PicanteResult (List Change)
  unfolding save_changes_loop
  save_incremental_records_erased since core = save_changes_loop since core.cells

  abbrev pub decode_cell : Option (List ℕ) → PicanteResult (Option (ReadyRecord V))
  decode_cell none = ok none
  decode_cell (some value_bytes) = do
    rec ←
        decode_with_heap rc "derived record from WAL" "derived record from WAL (materialize)"
          value_bytes
    ok (some (ready_of c rc bug rec))

  -- `make_apply_wal_entry`
  unfoldable pub decode_change :
      QueryKindId → List ℕ → Option (List ℕ) → PicanteResult (DynKey × Option (ReadyRecord V))
  unfolding decode_with_heap
  decode_change kind key_bytes value_bytes = do
    key ← decode_with_heap kc "derived key from WAL" "derived key from WAL (materialize)" key_bytes
    encoded ← encode_facet c key
    cell ← decode_cell value_bytes
    ok (record { kind = kind; key = encoded }, cell)

  -- The revision of the entry is not looked at: the record carries its own.
  unfoldable pub apply_wal_entry_erased :
      Change → DerivedCore V → PicanteResult (Unit {0}) × DerivedCore V
  unfolding decode_change new_ready
  apply_wal_entry_erased (revision, key_bytes, value_bytes) core =
      elim (decode_change core.kind key_bytes value_bytes) [
        | err e ↦ (err e, core)
        | ok (k, none) ↦ (ok tt, remove_cell k core)
        | ok (k, some r) ↦ (ok tt, put_cell k (new_ready r) core)
      ]

module _ {V : Type 0} where
  unfoldable pub restore_loop : Table DynKey (ErasedState V) → Runtime → Runtime
  unfolding ready_record
  restore_loop [] rt = rt
  restore_loop ((k, st) ∷ cells) rt = elim (ready_record st) [
    | none ↦ restore_loop cells rt
    | some r ↦ restore_loop cells (update_query_deps k r.deps rt)
  ]

  unfoldable pub restore_runtime_state_inner : DerivedCore V → Runtime → Runtime
  unfolding restore_loop
  restore_runtime_state_inner core rt = restore_loop core.cells rt

  -- The cells that are ready, for a database snapshot. The others are left out.
  unfoldable pub snapshot_loop :
      Table DynKey (ErasedState V) → Table DynKey (ErasedState V) → Table DynKey (ErasedState V)
  unfolding ready_record new_ready
  snapshot_loop [] result = result
  snapshot_loop ((k, st) ∷ cells) result = elim (ready_record st) [
    | none ↦ snapshot_loop cells result
    | some r ↦ snapshot_loop cells (Table.insert result k (new_ready r))
  ]

  unfoldable pub snapshot_cells_deep_inner : DerivedCore V → Table DynKey (ErasedState V)
  unfolding snapshot_loop
  snapshot_cells_deep_inner core = snapshot_loop core.cells []

  unfoldable pub load_cells : Table DynKey (ErasedState V) → DerivedCore V → DerivedCore V
  load_cells cells core = record core { cells = cells }
