-- ===== src/Examples/Compactions.antt =====
-- The database of an input and a query whose cache file and log are compacted.
use picante.Base.{◌≡◌, ◌⊎◌, refl, true, [], ◌∷◌, arith}
use picante.Base.Table
use picante.Base.Results.{ok, err}
use picante.Error.{PicanteError}
use picante.Runtime as Rt
use picante.Persist.Files.{found}
use picante.Persist.Saving.{default_save_options}
use picante.Persist.Compacting.{compact_wal}
use picante.Persist.Compaction.{Holds, compact_wal_lem}
use picante.Persist.NewLog.{LogIs}
use picante.Examples.Logs.{header_codec}
use picante.Examples.Storage.{files, files-Behaves, files-KeepsOthers, cache_codec, Files}
use picante.Examples.Databases.{saved_db, log_file}

-- The cache file is 3, the log 4, and the temporary files are 5 and 6.
abbrev logged : Files
logged = (4, log_file) ∷ []

compact_wal_example :
    let (r, fs) =
      compact_wal files cache_codec header_codec 3 4 saved_db default_save_options true logged in
    ((r ≡ ok 1)
      × Holds files cache_codec default_save_options saved_db 3 fs
      × LogIs files header_codec true 4 1 fs)
    ⊎ ((e : PicanteError) × (r ≡ err e)
        × ((files.read 4 fs ≡ found log_file)
            ⊎ Holds files cache_codec default_save_options saved_db 3 fs))
unfolding Rt.new Rt.bump_revision Rt.current_revision Table.get
compact_wal_example =
    compact_wal_lem files files-Behaves files-KeepsOthers cache_codec header_codec 3 4 4 saved_db
      default_save_options true logged log_file (omega arith) (omega arith) (omega arith)
      (omega arith) refl
