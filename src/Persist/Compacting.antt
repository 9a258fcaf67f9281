-- ===== src/Persist/Compacting.antt =====
-- `compact_wal`: a new cache file in place of the old one and its log.
use picante.Base.{ℕ, Bool, true, false, String, if◌then◌else◌}
use picante.Base.Results.{Result, ok, err}
use picante.Key.{Codec}
use picante.Error.{PicanteResult, cache}
use picante.Runtime.{current_revision}
use picante.Wal.{WalHeader, WalWriter, wal_magic, create, drop_writer}
use picante.Persist.Defs.{CacheFile}
use picante.Persist.Ingredients.{Db}
use picante.Persist.Files.{FileSystem}
use picante.Persist.Saving.{CacheSaveOptions, io_error, and_then, save_cache_with_options}

module _ {FilePath Fs : Type 0} (f : FileSystem FilePath Fs) where
  -- If the rename fails, the temporary file is removed, as far as that can be done.
  abbrev pub renamed : FilePath → Result String (Unit {0}) × Fs → PicanteResult (Unit {0}) × Fs
  renamed tmp (ok u, fs) = (ok tt, fs)
  renamed tmp (err e, fs) = (err (cache "rename temporary snapshot"), (f.remove_file tmp fs).1)

  unfoldable pub install_snapshot : FilePath → Fs → PicanteResult (Unit {0}) × Fs
  install_snapshot cache_path fs =
      renamed (f.compact_tmp cache_path) (f.rename (f.compact_tmp cache_path) cache_path fs)

  unfoldable pub delete_old_wal : FilePath → Fs → PicanteResult (Unit {0}) × Fs
  delete_old_wal wal_path fs =
      let (r, fs') = f.remove_file wal_path fs in
      if f.exists wal_path fs then (io_error f "delete old WAL" r, fs') else (ok tt, fs)

  module _ (c : Codec CacheFile) (hc : Codec WalHeader) where
    -- The file that the dropped writer leaves: after an error of the codec, the magic bytes.
    abbrev pub write_new_wal :
        FilePath → PicanteResult WalWriter → Fs → PicanteResult (Unit {0}) × Fs
    write_new_wal wal_path (ok w) fs =
        let (r, fs') = f.write wal_path (drop_writer w) fs in (io_error f "create WAL file" r, fs')
    write_new_wal wal_path (err e) fs = (err e, (f.write wal_path wal_magic fs).1)

    abbrev pub create_wal_if : Bool → FilePath → ℕ → Fs → PicanteResult (Unit {0}) × Fs
    create_wal_if true wal_path new_revision fs = write_new_wal wal_path (create hc new_revision) fs
    create_wal_if false wal_path new_revision fs = (ok tt, fs)

    abbrev pub with_revision : ℕ → PicanteResult (Unit {0}) × Fs → PicanteResult ℕ × Fs
    with_revision new_revision (ok u, fs) = (ok new_revision, fs)
    with_revision new_revision (err e, fs) = (err e, fs)

    unfoldable pub compact_wal :
        FilePath → FilePath → Db → CacheSaveOptions → Bool → Fs → PicanteResult ℕ × Fs
    unfolding save_cache_with_options install_snapshot delete_old_wal create drop_writer
    compact_wal cache_path wal_path db options create_new_wal fs =
        let new_revision = (current_revision db.runtime).num in
        with_revision new_revision (
          and_then f
            (λ fs1.
              and_then f
                (λ fs2.
                  and_then f (create_wal_if create_new_wal wal_path new_revision)
                    (delete_old_wal wal_path fs2))
                (install_snapshot cache_path fs1))
            (save_cache_with_options f c (f.compact_tmp cache_path) db options fs))
