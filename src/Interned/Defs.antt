-- ===== src/Interned/Defs.antt =====
-- The state of an interned ingredient and its operations. The two maps and the counter are plain
-- fields: `intern` holds the entry of its key in `by_value` throughout.
use Prim.Native.Nat.{max, min}
use picante.Base.{
  ℕ, ◌+◌, ◌-◌, ◌%◌, ◌^◌, Option, none, some, String, List, [], ◌∷◌, leb, if◌then◌else◌,
}
use picante.Base.Eq.{nat_eq}
use picante.Base.Results.{ok, err, ◌>>=◌, map_err, ok_or}
use picante.Base.Table
use picante.Base.Table.{Table}
use picante.Key.{Revision, QueryKindId, Key, Hasher, Codec, key_eq}
use picante.Encoding.{encode_facet, decode_facet}
use picante.Error.{PicanteResult, missing_interned_value, cache, encode, decode}
use picante.Frame.{Stack, has_active_frame, record_dep}

pub record InternId : Type 0 where
  pub num : ℕ

pub record Interned (K : Type 0) : Type 0 where
  pub kind : QueryKindId
  pub kind_name : String
  pub next_id : ℕ
  pub by_value : Table Key InternId
  pub by_id : Table ℕ K

pub record InternedRecord (K : Type 0) : Type 0 where
  pub id : ℕ
  pub value : K

unfoldable pub new : {K : Type 0} → QueryKindId → String → Interned K
new kind kind_name = record {
  kind = kind;
  kind_name = kind_name;
  next_id = 0;
  by_value = [];
  by_id = [];
}

module _ {K : Type 0} ⦃h : Hasher⦄ (c : Codec K) where
  -- `fetch_add` on `u32` wraps.
  unfoldable pub intern_at : Key → K → Interned K → InternId × Interned K
  intern_at key value t = elim (Table.get t.by_value key) [
    | some id ↦ (id, t)
    | none ↦
        let id : InternId = record { num = t.next_id } in
        (
          id,
          record t {
            next_id = (t.next_id + 1) % 2 ^ 32;
            by_value = Table.insert t.by_value key id;
            by_id = Table.insert t.by_id id.num value;
          },
        )
  ]

  unfoldable pub intern : K → Interned K → PicanteResult (InternId × Interned K)
  unfolding intern_at
  intern value t = do key ← encode_facet c value; ok (intern_at key value t)

module _ {K : Type 0} ⦃h : Hasher⦄ (id_codec : Codec InternId) where
  -- The read under an active frame records a dependency, whose key is the encoded id.
  unfoldable pub get : InternId → Interned K → Stack → PicanteResult K × Stack
  get id t stack =
      let found = ok_or (Table.get t.by_id id.num) (missing_interned_value t.kind id.num) in
      if has_active_frame stack
      then (elim (encode_facet id_codec id) [
        | err e ↦ (err e, stack)
        | ok key ↦ (found, record_dep (record { kind = t.kind; key = key }) stack)
      ])
      else (found, stack)

  -- `DynIngredient::touch`
  unfoldable pub touch : Key → Interned K → PicanteResult Revision
  touch key t = do
    id ← decode_facet id_codec key
    elim (Table.get t.by_id id.num) [
      | none ↦ err (missing_interned_value t.kind id.num)
      | some v ↦ ok (record { num = 0 })
    ]

module _ {K : Type 0} where
  unfoldable pub clear : Interned K → Interned K
  clear t = record t { next_id = 0; by_value = []; by_id = [] }

  -- `sort_by_key(|(id, _)| id.0)`
  unfoldable pub insert_sorted :
      InternedRecord K → List (InternedRecord K) → List (InternedRecord K)
  insert_sorted r [] = r ∷ []
  insert_sorted r (s ∷ rs) = if leb r.id s.id then r ∷ s ∷ rs else s ∷ insert_sorted r rs

  unfoldable pub sort_by_id : List (InternedRecord K) → List (InternedRecord K)
  unfolding insert_sorted
  sort_by_id [] = []
  sort_by_id (r ∷ rs) = insert_sorted r (sort_by_id rs)

  abbrev pub records_of : Table ℕ K → List (InternedRecord K)
  records_of [] = []
  records_of ((id, value) ∷ t) = record { id = id; value = value } ∷ records_of t

  unfoldable pub encode_records :
      Codec (InternedRecord K) → List (InternedRecord K) → PicanteResult (List (List ℕ))
  encode_records rc [] = ok []
  encode_records rc (r ∷ rs) = do
    bytes ← map_err (encode "interned record") (rc.to_vec r)
    rest ← encode_records rc rs
    ok (bytes ∷ rest)

  unfoldable pub save_records :
      Codec (InternedRecord K) → Interned K → PicanteResult (List (List ℕ))
  unfolding encode_records sort_by_id
  save_records rc t = encode_records rc (sort_by_id (records_of t.by_id))

module _ {K : Type 0} ⦃h : Hasher⦄ (c : Codec K) (rc : Codec (InternedRecord K)) where
  -- One round of the loop of `load_records`, with the largest id so far. What was written before an
  -- error stays written. The messages of the two refusals name the ids and the ingredient; here they
  -- are fixed texts.
  unfoldable pub load_value : Key → ℕ → InternedRecord K → Interned K → PicanteResult ℕ × Interned K
  load_value key max_id rec t =
      let t' = record t { by_value = Table.insert t.by_value key (record { num = rec.id }) } in
      elim (Table.get t.by_value key) [
        | some existing ↦ (err (cache "duplicate interned value"), t')
        | none ↦ (ok max_id, record t' { by_id = Table.insert t.by_id rec.id rec.value })
      ]

  unfoldable pub load_decoded : ℕ → InternedRecord K → Interned K → PicanteResult ℕ × Interned K
  unfolding load_value
  load_decoded max_id rec t = elim (Table.get t.by_id rec.id) [
    | some v ↦ (err (cache "duplicate interned id"), t)
    | none ↦ elim (encode_facet c rec.value) [
      | err e ↦ (err e, t)
      | ok key ↦ load_value key (max max_id rec.id) rec t
    ]
  ]

  unfoldable pub load_one : List ℕ → ℕ → Interned K → PicanteResult ℕ × Interned K
  unfolding load_decoded
  load_one bytes max_id t = elim (rc.from_slice bytes) [
    | err message ↦ (err (decode "interned record" message), t)
    | ok rec ↦ load_decoded max_id rec t
  ]

  abbrev pub then_load :
      (ℕ → Interned K → PicanteResult ℕ × Interned K)
      → PicanteResult ℕ × Interned K
      → PicanteResult ℕ × Interned K
  then_load rest (ok max_id, t) = rest max_id t
  then_load rest (err e, t) = (err e, t)

  unfoldable pub load_loop : List (List ℕ) → ℕ → Interned K → PicanteResult ℕ × Interned K
  unfolding load_one
  load_loop [] max_id t = (ok max_id, t)
  load_loop (bytes ∷ rest) max_id t = then_load (load_loop rest) (load_one bytes max_id t)

  -- `next_id.store(max_id.saturating_add(1))`, on `u32`.
  abbrev pub load_end : PicanteResult ℕ × Interned K → PicanteResult (Unit {0}) × Interned K
  load_end (ok max_id, t) = (ok tt, record t { next_id = min (max_id + 1) (2 ^ 32 - 1) })
  load_end (err e, t) = (err e, t)

  unfoldable pub load_records : List (List ℕ) → Interned K → PicanteResult (Unit {0}) × Interned K
  unfolding load_loop clear
  load_records records t = load_end (load_loop records 0 (clear t))

  -- An entry with no value, a deletion, is ignored.
  unfoldable pub apply_wal_entry : Option (List ℕ) → Interned K → PicanteResult (Interned K)
  apply_wal_entry none t = ok t
  apply_wal_entry (some bytes) t = do
    rec ← map_err (decode "interned record from WAL") (rc.from_slice bytes)
    key ← encode_facet c rec.value
    ok (record t {
      by_id = Table.insert t.by_id rec.id rec.value;
      by_value = Table.insert t.by_value key (record { num = rec.id });
      next_id = (if leb t.next_id rec.id then min (rec.id + 1) (2 ^ 32 - 1) else t.next_id);
    })
