-- ===== src/Persist/Logging.antt =====
-- `append_to_wal` and `replay_wal`: the changes of the ingredients, written to a log and applied again.
use picante.Base.{ℕ, ◌+◌, Option, none, some, List, [], ◌∷◌, length, ltb, ◌==◌, not, if◌then◌else◌}
use picante.Base.Results.{ok, err}
use picante.Key.{Codec, as_u32}
use picante.Error.{PicanteResult, cache}
use picante.Runtime.{Runtime, set_current_revision}
use picante.Wal.{
  WalHeader, WalEntry, WalOperation, set, delete, WalWriter, WalReader, append, open_wal,
  read_entries,
}
use picante.Persist.Ingredients.{Ingredient, Db, with_kind, apply_to, restore_all}
use picante.Persist.Files.{FileSystem, found, not_found, unreadable}

abbrev pub Change : Type 0
Change = ℕ × List ℕ × Option (List ℕ)

abbrev pub operation_of : List ℕ → Option (List ℕ) → WalOperation
operation_of key none = delete key
operation_of key (some value) = set key value

abbrev pub entry_of : ℕ → Change → WalEntry
entry_of kind_id (changed_revision, key, value) = record {
  revision = changed_revision;
  kind_id = kind_id;
  operation = operation_of key value;
}

module _ (ec : Codec WalEntry) where
  -- What was appended before an error stays in the writer.
  unfoldable pub append_changes : ℕ → List Change → ℕ → WalWriter → PicanteResult ℕ × WalWriter
  append_changes kind_id [] entry_count wal = (ok entry_count, wal)
  append_changes kind_id (change ∷ changes) entry_count wal =
      elim (append ec (entry_of kind_id change) wal) [
        | err e ↦ (err e, wal)
        | ok wal' ↦ append_changes kind_id changes (entry_count + 1) wal'
      ]

  abbrev pub then_append :
      (ℕ → WalWriter → PicanteResult ℕ × WalWriter)
      → PicanteResult ℕ × WalWriter
      → PicanteResult ℕ × WalWriter
  then_append next (ok entry_count, wal) = next entry_count wal
  then_append next (err e, wal) = (err e, wal)

  unfoldable pub append_ingredients :
      ℕ → List Ingredient → ℕ → WalWriter → PicanteResult ℕ × WalWriter
  unfolding append_changes
  append_ingredients since [] entry_count wal = (ok entry_count, wal)
  append_ingredients since (i ∷ is) entry_count wal =
      elim (i.save_incremental_records since i.state) [
        | err e ↦ (err e, wal)
        | ok changes ↦
            then_append (append_ingredients since is)
              (append_changes (as_u32 i.kind) changes entry_count wal)
      ]

  unfoldable pub append_to_wal : WalWriter → Db → PicanteResult ℕ × WalWriter
  unfolding append_ingredients
  append_to_wal wal db = append_ingredients wal.base_revision db.ingredients 0 wal

abbrev pub change_of : WalEntry → Change
change_of entry = elim entry.operation [
  | set key value ↦ (entry.revision, key, some value)
  | delete key ↦ (entry.revision, key, none)
]

abbrev pub max : ℕ → ℕ → ℕ
max a b = if ltb a b then b else a

-- `max_revision` and `entry_count`
abbrev pub Progress : Type 0
Progress = ℕ × ℕ

abbrev pub then_replay :
    (List Ingredient → PicanteResult Progress × List Ingredient)
    → PicanteResult (Unit {0}) × List Ingredient
    → PicanteResult Progress × List Ingredient
then_replay next (ok u, is) = next is
then_replay next (err e, is) = (err e, is)

-- Entries of no ingredient are skipped and not counted.
unfoldable pub replay_entries :
    List WalEntry → Progress → List Ingredient → PicanteResult Progress × List Ingredient
unfolding with_kind
replay_entries [] progress is = (ok progress, is)
replay_entries (entry ∷ entries) (max_revision, entry_count) is =
    elim (with_kind entry.kind_id (apply_to (change_of entry)) is) [
      | none ↦ replay_entries entries (max_revision, entry_count) is
      | some done ↦
          then_replay (replay_entries entries (max max_revision entry.revision, entry_count + 1))
            done
    ]

-- The revision of the runtime after the entries.
unfoldable pub catch_up : ℕ → ℕ → Runtime → Runtime
unfolding set_current_revision
catch_up base_revision max_revision rt =
    if ltb base_revision max_revision
    then set_current_revision (record { num = max_revision }) rt
    else rt

abbrev pub restored_db :
    ℕ → List Ingredient → PicanteResult (Unit {0}) × Runtime → PicanteResult ℕ × Db
restored_db entry_count is (ok u, rt) = (ok entry_count, record { runtime = rt; ingredients = is })
restored_db entry_count is (err e, rt) = (err e, record { runtime = rt; ingredients = is })

-- What follows the entries, which end with the end of the file or an error of the reader.
abbrev pub finish_replay :
    ℕ
    → Runtime
    → PicanteResult (Unit {0})
    → PicanteResult Progress × List Ingredient
    → PicanteResult ℕ × Db
finish_replay base_revision rt end (err e, is) = (err e, record { runtime = rt; ingredients = is })
finish_replay base_revision rt (err e) (ok progress, is) =
    (err e, record { runtime = rt; ingredients = is })
finish_replay base_revision rt (ok u) (ok (max_revision, entry_count), is) =
    restored_db entry_count is (restore_all is (catch_up base_revision max_revision rt))

module _ (hc : Codec WalHeader) (ec : Codec WalEntry) where
  unfoldable pub replay_reader : WalReader → Db → PicanteResult ℕ × Db
  unfolding replay_entries read_entries catch_up restore_all
  replay_reader reader db =
      let base_revision = reader.header.base_revision in
      if not (db.runtime.current == base_revision)
      then (err (cache "WAL base revision does not match snapshot revision"), db)
      else (let (entries, end) = read_entries ec (length reader.rest + 1) reader.rest in
          finish_replay base_revision db.runtime end
            (replay_entries entries (base_revision, 0) db.ingredients))

  abbrev pub replay_opened : PicanteResult WalReader → Db → PicanteResult ℕ × Db
  replay_opened (err e) db = (err e, db)
  replay_opened (ok reader) db = replay_reader reader db

  -- The metadata of a file are taken to be there exactly if it can be found.
  unfoldable pub replay_wal :
      {FilePath Fs : Type 0} → FileSystem FilePath Fs → FilePath → Db → Fs → PicanteResult ℕ × Db
  unfolding replay_reader open_wal
  replay_wal f path db fs = elim (f.read path fs) [
    | not_found ↦ (ok 0, db)
    | unreadable e ↦ (err (cache "Failed to open WAL file"), db)
    | found bytes ↦ replay_opened (open_wal hc bytes) db
  ]
