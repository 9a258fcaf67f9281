-- ===== src/Input/Persist.antt =====
-- The persistence of an input ingredient: records of a cache file, and changes for the log.
use picante.Base.{ℕ, Option, none, some, List, [], ◌∷◌, ltb, if◌then◌else◌}
use picante.Base.Results.{ok, err, ◌>>=◌, map_err}
use picante.Base.Table
use picante.Base.Table.{Table}
use picante.Key.{QueryKindId, DynKey, Hasher, Codec, dyn_key_eq}
use picante.Encoding.{encode_facet, decode_facet}
use picante.Error.{PicanteResult, encode, decode}
use picante.Input.Defs.{InputEntry, InputCore, revision_0}

pub record InputRecord (K V : Type 0) : Type 0 where
  pub key : K
  pub value : Option V
  pub changed_at : ℕ

-- The revision, the bytes of the key, and those of the value if there is one.
abbrev pub Changed : Type 0
Changed = ℕ × List ℕ × Option (List ℕ)

module _ {V : Type 0} where
  unfoldable pub clear_entries : InputCore V → InputCore V
  clear_entries core = record core { entries = [] }

  abbrev pub put : DynKey → InputEntry V → InputCore V → InputCore V
  put k e core = record core { entries = Table.insert core.entries k e }

module _ {K V : Type 0} ⦃h : Hasher⦄ (c : Codec K) (rc : Codec (InputRecord K V)) where
  -- `make_encode_input_record`
  unfoldable pub encode_input_record : DynKey → InputEntry V → PicanteResult (List ℕ)
  encode_input_record k e = do
    key ← decode_facet c k.key
    map_err (encode "input record")
        (rc.to_vec (record { key = key; value = e.value; changed_at = e.changed_at.num }))

  unfoldable pub save_records_loop : Table DynKey (InputEntry V) → PicanteResult (List (List ℕ))
  unfolding encode_input_record
  save_records_loop [] = ok []
  save_records_loop ((k, e) ∷ entries) = do
    bytes ← encode_input_record k e
    records ← save_records_loop entries
    ok (bytes ∷ records)

  unfoldable pub save_records_erased : InputCore V → PicanteResult (List (List ℕ))
  unfolding save_records_loop
  save_records_erased core = save_records_loop core.entries

  -- `make_decode_input_record`
  unfoldable pub decode_input_record : QueryKindId → List ℕ → PicanteResult (DynKey × InputEntry V)
  decode_input_record kind bytes = do
    rec ← map_err (decode "input record") (rc.from_slice bytes)
    key ← encode_facet c rec.key
    ok (
      record { kind = kind; key = key },
      record { value = rec.value; changed_at = record { num = rec.changed_at } },
    )

  -- The entries before a record that is refused stay.
  unfoldable pub load_records_erased :
      List (List ℕ) → InputCore V → PicanteResult (Unit {0}) × InputCore V
  unfolding decode_input_record
  load_records_erased [] core = (ok tt, core)
  load_records_erased (bytes ∷ records) core = elim (decode_input_record core.kind bytes) [
    | err e ↦ (err e, core)
    | ok (k, e) ↦ load_records_erased records (put k e core)
  ]

module _ {V : Type 0} (vc : Codec V) where
  abbrev pub encode_value : Option V → PicanteResult (Option (List ℕ))
  encode_value none = ok none
  encode_value (some v) = do bytes ← map_err (encode "input value") (vc.to_vec v); ok (some bytes)

  abbrev pub decode_value : Option (List ℕ) → PicanteResult (Option V)
  decode_value none = ok none
  decode_value (some bytes) = do
    v ← map_err (decode "input value from WAL") (vc.from_slice bytes)
    ok (some v)

module _ {K V : Type 0} ⦃h : Hasher⦄ (c : Codec K) (vc : Codec V) where
  -- `make_encode_input_incremental`
  unfoldable pub encode_input_incremental :
      DynKey → Option V → PicanteResult (List ℕ × Option (List ℕ))
  encode_input_incremental k value = do
    key ← decode_facet c k.key
    key_bytes ← map_err (encode "input key") (c.to_vec key)
    value_bytes ← encode_value vc value
    ok (key_bytes, value_bytes)

  unfoldable pub save_incremental_loop :
      ℕ → Table DynKey (InputEntry V) → PicanteResult (List Changed)
  unfolding encode_input_incremental
  save_incremental_loop since [] = ok []
  save_incremental_loop since ((k, e) ∷ entries) =
      let rest = save_incremental_loop since entries in
      if ltb since e.changed_at.num
      then (do
        (key_bytes, value_bytes) ← encode_input_incremental k e.value
        changes ← rest
        ok ((e.changed_at.num, key_bytes, value_bytes) ∷ changes))
      else rest

  unfoldable pub save_incremental_records_erased : ℕ → InputCore V → PicanteResult (List Changed)
  unfolding save_incremental_loop
  save_incremental_records_erased since core = save_incremental_loop since core.entries

  -- `make_apply_input_wal_entry`
  unfoldable pub decode_input_change :
      QueryKindId → List ℕ → Option (List ℕ) → PicanteResult (DynKey × InputEntry V)
  decode_input_change kind key_bytes value_bytes = do
    key ← map_err (decode "input key from WAL") (c.from_slice key_bytes)
    value ← decode_value vc value_bytes
    encoded ← encode_facet c key
    ok (record { kind = kind; key = encoded }, record { value = value; changed_at = revision_0 })

  unfoldable pub apply_wal_entry_erased :
      Changed → InputCore V → PicanteResult (Unit {0}) × InputCore V
  unfolding decode_input_change
  apply_wal_entry_erased (revision, key_bytes, value_bytes) core =
      elim (decode_input_change core.kind key_bytes value_bytes) [
        | err e ↦ (err e, core)
        | ok (k, e) ↦ (ok tt, put k (record e { changed_at = record { num = revision } }) core)
      ]
