-- ===== src/Examples/Databases.antt =====
-- A database of an input and a query that is saved, loaded, logged and replayed.

use picante.Base.{ℕ, ◌≡◌, ◌⊎◌, refl, true, List, [], ◌∷◌, none, some, arith, All}
use picante.Base.Eq.{nat_eq}
use picante.Base.Table
use picante.Base.Set
use picante.Base.Table.{Table, get-insert}
use picante.Base.Results.{ok, err}
use picante.Error.{PicanteError}
use picante.Persist.{CacheFile}
use picante.Persist.Files.{found}
use picante.Persist.Ingredients.{
  Ingredient, Db, load_into, cleared, restore_all, default_restore, with_state,
}
use picante.Persist.Saving.{save_cache_with_options, save_cache, default_save_options, cache_of}
use picante.Persist.Loading.{load_cache}
use picante.Persist.Atomic.{save_cache_with_options_lem}
use picante.Persist.RoundTrip.{AllReload, all_reloaded, reload_one, load_cache-save_cache}
use picante.Persist.Instances.{
  input_ingredient, derived_ingredient, input_ingredient-Reloads, derived_ingredient-Reloads,
}
use picante.Persist.Instances.{input_ingredient-CatchesUp}
use picante.Persist.Logging.{append_to_wal, replay_wal, catch_up}
use picante.Persist.Replay.{AllCatchUp, all_caught_up, catch_up_one, replay_wal-append_to_wal}
use picante.Wal.{
  WalWriter, WalEntry, delete, drop_writer, create_with_threshold, flush, append_bytes, append,
}
use picante.Wal.Framing.{IsReadable}
use picante.Wal.RoundTrip.{HasShortHeader}
use picante.Input.Incremental.{apply_all}
use picante.Examples.Logs.{
  header_codec, header_codec-RoundTrips, entry_codec, entry_codec-RoundTrips,
}
use picante.Encoding.{encode_facet, decode_facet}
use picante.Key.{from_bytes, dyn_key_eq}
use picante.Runtime as Rt
use picante.Input.{InputCore, new}
use picante.Input.Persist as Input
use picante.Input.Stored.{IsStored}
use picante.Derived.Persist as Derived
use picante.Derived.Persist.{DerivedCore}
use picante.Examples.Data.{small_hasher, byte_codec, byte_codec-RoundTrips, a_key, rev_of}
use picante.Examples.Saves.{
  record_codec, record_codec-RoundTrips, blank, full, full-IsStored, base, base-IsBase,
}
use picante.Examples.Caches as Caches
use picante.Examples.Caches.{
  record_codec-ReadsBack, key_codec, same_error, cached, cached-IsStored, cell_records,
}
use picante.Examples.Storage.{files, files-Behaves, cache_codec, cache_codec-RoundTrips}

-- The input has one entry.
abbrev one_entry : InputCore ℕ
one_entry = record blank {
  entries = (a_key 1, record { value = some 7; changed_at = rev_of 1 }) ∷ [];
}

one_entry-IsStored : IsStored byte_codec one_entry
unfolding encode_facet from_bytes Table.get new
one_entry-IsStored = record { distinct = (refl, tt); encoded = ((1, refl, refl), tt) }

abbrev the_input : InputCore ℕ → Ingredient
the_input = input_ingredient byte_codec record_codec byte_codec

abbrev the_query : DerivedCore ℕ → Ingredient
the_query = derived_ingredient byte_codec key_codec Caches.record_codec same_error

abbrev pub saved_db : Db
saved_db = record {
  runtime = (Rt.bump_revision (Rt.new 1).0).1;
  ingredients = the_input one_entry ∷ the_query cached ∷ [];
}

-- It holds an entry that the load removes.
abbrev loading_db : Db
loading_db = record {
  runtime = (Rt.new 1).0;
  ingredients = the_input full ∷ the_query (record cached { cells = [] }) ∷ [];
}

abbrev input_records : List (List ℕ)
input_records = (1 ∷ 1 ∷ 7 ∷ []) ∷ []

abbrev loaded_input : Ingredient
loaded_input = (load_into input_records (cleared (the_input full))).1

abbrev loaded_query : Ingredient
loaded_query = (load_into cell_records (cleared (the_query (record cached { cells = [] })))).1

two_reload :
    AllReload saved_db.ingredients loading_db.ingredients (loaded_input ∷ loaded_query ∷ [])
unfolding Input.save_records_erased Derived.save_records_erased decode_facet new
two_reload =
    reload_one _ _ _ _ _ _
      (input_ingredient-Reloads byte_codec record_codec byte_codec one_entry full input_records
        byte_codec-RoundTrips record_codec-RoundTrips one_entry-IsStored refl refl refl)
      (reload_one _ _ _ _ _ _
        (derived_ingredient-Reloads byte_codec key_codec Caches.record_codec same_error cached
          (record cached { cells = [] }) cell_records byte_codec-RoundTrips record_codec-ReadsBack
          cached-IsStored refl refl refl)
        all_reloaded)

save_example :
    let (r, fs) = save_cache_with_options files cache_codec 3 saved_db default_save_options [] in
    ((r ≡ ok tt)
      × (file : CacheFile) × (bytes : List ℕ) × (cache_of cache_codec default_save_options saved_db
          ≡ ok file)
      × (cache_codec.to_vec file ≡ ok bytes)
      × (files.read 3 fs ≡ found bytes))
    ⊎ ((e : PicanteError) × (r ≡ err e) × (files.read 3 fs ≡ files.read 3 []))
save_example =
    save_cache_with_options_lem files files-Behaves cache_codec 3 saved_db default_save_options []
      (omega arith)

load_cache-save_cache_example :
    load_cache cache_codec files 3 loading_db (save_cache files cache_codec 3 saved_db []).1 ≡ (
      ok true,
      record {
        runtime =
            Rt.set_current_revision
              (record { num = 1 })
              (restore_all
                (loaded_input ∷ loaded_query ∷ [])
                (Rt.clear_dependency_graph loading_db.runtime)).1;
        ingredients = loaded_input ∷ loaded_query ∷ [];
      },
      (save_cache files cache_codec 3 saved_db []).1,
    )
unfolding save_cache restore_all default_restore Input.save_records_erased
    Derived.save_records_erased decode_facet new Rt.bump_revision Rt.new Rt.current_revision
    Set.contains Set.insert Table.get Table.insert
load_cache-save_cache_example =
    load_cache-save_cache files cache_codec 3 saved_db loading_db (loaded_input ∷ loaded_query ∷ [])
      (restore_all (loaded_input ∷ loaded_query ∷ [])
        (Rt.clear_dependency_graph loading_db.runtime)).1
      [] files-Behaves (omega arith) cache_codec-RoundTrips refl two_reload refl

-- The removal at revision 3 is logged after revision 1, and the other database stands there.
abbrev logging_db : Db
logging_db = record { runtime = (Rt.new 1).0; ingredients = the_input full ∷ [] }

abbrev older_db : Db
older_db = record { runtime = (Rt.bump_revision (Rt.new 1).0).1; ingredients = the_input base ∷ [] }

abbrev begun : WalWriter
begun = record {
  flushed = 80 ∷ 73 ∷ 67 ∷ 65 ∷ 78 ∷ 84 ∷ 69 ∷ 0 ∷ 2 ∷ 0 ∷ 0 ∷ 0 ∷ 1 ∷ 1 ∷ [];
  buffered = [];
  base_revision = 1;
  entries_since_flush = 0;
  auto_flush_threshold = 5;
}

abbrev appended : WalWriter
appended = (append_to_wal entry_codec begun logging_db).1

abbrev pub log_file : List ℕ
log_file = drop_writer appended

abbrev removal : WalEntry
removal = record { revision = 3; kind_id = 1; operation = delete (2 ∷ []) }

removal-IsReadable : All (IsReadable entry_codec) (removal ∷ [])
removal-IsReadable = (
  λ bytes e. let same : 3 ∷ 1 ∷ 2 ∷ [] ≡ bytes = ground (arith, e) in rw⁻¹ same (omega arith),
  tt,
)

HasShortHeader-1 : HasShortHeader header_codec 1
HasShortHeader-1 bytes e =
    let same : 1 ∷ 1 ∷ [] ≡ bytes = ground (arith, e) in rw⁻¹ same (omega arith)

abbrev caught_up : Ingredient
caught_up =
    with_state (the_input base) (apply_all byte_codec byte_codec ((3, 2 ∷ [], none) ∷ []) base).1

input_catches_up : AllCatchUp 1 logging_db.ingredients older_db.ingredients (caught_up ∷ [])
unfolding Input.save_incremental_records_erased decode_facet new
input_catches_up =
    catch_up_one _ _ _ _ _ _
      (input_ingredient-CatchesUp byte_codec record_codec byte_codec 1 full base
        ((3, 2 ∷ [], none) ∷ []) byte_codec-RoundTrips byte_codec-RoundTrips full-IsStored
        base-IsBase refl refl)
      all_caught_up

replay_wal-append_to_wal_example :
    replay_wal header_codec entry_codec files 4 older_db ((4, log_file) ∷ []) ≡ (
      ok 1,
      record {
        runtime = Rt.set_current_revision (record { num = 3 }) older_db.runtime;
        ingredients = caught_up ∷ [];
      },
    )
unfolding create_with_threshold flush append_to_wal append_bytes restore_all default_restore
    Input.save_incremental_records_erased decode_facet new Rt.bump_revision Rt.new Table.get
    Set.distinct Set.contains catch_up append
replay_wal-append_to_wal_example =
    replay_wal-append_to_wal files header_codec entry_codec 1 5 1 begun appended 4
      ((4, log_file) ∷ []) logging_db older_db (caught_up ∷ []) (removal ∷ [])
      (Rt.set_current_revision (record { num = 3 }) older_db.runtime) header_codec-RoundTrips
      entry_codec-RoundTrips HasShortHeader-1 refl refl refl refl removal-IsReadable refl refl
      input_catches_up refl
