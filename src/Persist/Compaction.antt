-- ===== src/Persist/Compaction.antt =====
-- What a compaction leaves in the cache file and in the log.
use picante.Base.{ℕ, ◌≡◌, ◌≢◌, ◌⊎◌, refl, ap, ◌∙◌, Bool, List, inl, inr}
use picante.Base.Results.{ok, err, Result-cases}
use picante.Key.{Codec}
use picante.Error.{PicanteError, PicanteResult}
use picante.Runtime.{current_revision}
use picante.Wal.{WalHeader}
use picante.Persist.Defs.{CacheFile}
use picante.Persist.Ingredients.{Db}
use picante.Persist.Files.{FileSystem, Behaves, found}
use picante.Persist.Saving.{CacheSaveOptions, cache_of, and_then, save_cache_with_options}
use picante.Persist.Atomic.{save_cache_with_options_lem}
use picante.Persist.Compacting.{
  install_snapshot, delete_old_wal, create_wal_if, with_revision, compact_wal,
}
use picante.Persist.Untouched.{KeepsOthers, save-found}
use picante.Persist.NewLog.{LogIs, LogDone, log-LogDone}

module _ {FilePath Fs : Type 0} (f : FileSystem FilePath Fs) (c : Codec CacheFile) where
  -- The cache file holds the whole encoding of the database.
  abbrev pub Holds : CacheSaveOptions → Db → FilePath → Fs → Type 0
  Holds options db cache_path fs =
      (file : CacheFile) × (content : List ℕ) × (cache_of c options db ≡ ok file)
      × (c.to_vec file ≡ ok content)
      × (f.read cache_path fs ≡ found content)

module _ {FilePath Fs : Type 0} (f : FileSystem FilePath Fs) (b : Behaves f)
    (o : KeepsOthers f) where
  module _ (c : Codec CacheFile) (hc : Codec WalHeader) where
    finish-LogDone :
        (create_new_wal : Bool) (wal_path cache_path : FilePath) (revision : ℕ) (content : List ℕ)
        (done : PicanteResult (Unit {0}) × Fs)
        → LogDone f hc create_new_wal wal_path cache_path revision content done
        → let (r, fs) = with_revision f c hc revision done in
          (f.read cache_path fs ≡ found content)
          × (((r ≡ ok revision) × LogIs f hc create_new_wal wal_path revision fs)
              ⊎ ((e : PicanteError) × (r ≡ err e)))
    finish-LogDone create_new_wal wal_path cache_path revision content (ok u, fs) (h, inl (p, l)) =
        (h, inl (refl, l))
    finish-LogDone create_new_wal wal_path cache_path revision content (ok u, fs) (h, inr (e, p)) =
        (h, inr (e, absurd (ok_ne_err p)))
      where
        ok_ne_err : ok u ≡ err e → ⊥
        ok_ne_err q = cc
    finish-LogDone create_new_wal wal_path cache_path revision content (err e, fs) (h, l) =
        (h, inr (e, refl))

    -- After a save of the temporary file that wrote its content.
    install-done :
        (create_new_wal : Bool) (wal_path cache_path q : FilePath) (revision : ℕ)
        (content bytes : List ℕ) (fs : Fs)
        → wal_path ≢ cache_path
        → f.compact_tmp cache_path ≢ q
        → f.read (f.compact_tmp cache_path) fs ≡ found content
        → f.read q fs ≡ found bytes
        → let done =
            and_then f
              (λ fs2.
                and_then f
                  (create_wal_if f c hc create_new_wal wal_path revision)
                  (delete_old_wal f wal_path fs2))
              (install_snapshot f cache_path fs) in
          LogDone f hc create_new_wal wal_path cache_path revision content done
          ⊎ ((e : PicanteError) × (done.0 ≡ err e) × (f.read q done.1 ≡ found bytes))
    unfolding install_snapshot
    install-done create_new_wal wal_path cache_path q revision content bytes fs ne not_tmp h k =
        let tmp = f.compact_tmp cache_path in
        elim (Result-cases (f.rename tmp cache_path fs).0) [
          | inr (e, p) ↦ rw p (
              inr (
                _,
                refl,
                o.remove_other tmp q (f.rename tmp cache_path fs).1 not_tmp
                    ∙ b.rename_failed tmp cache_path q fs e p
                    ∙ k,
              ))
          | inl (u, p) ↦ rw p (
              inl (
                log-LogDone f b o c hc create_new_wal wal_path cache_path revision content
                  (f.rename tmp cache_path fs).1 ne (b.read-rename tmp cache_path fs p ∙ h)))
        ]

    with_revision-err :
        (revision : ℕ) (q : FilePath) (done : PicanteResult (Unit {0}) × Fs) (e : PicanteError)
        (bytes : List ℕ)
        → done.0 ≡ err e
        → f.read q done.1 ≡ found bytes
        → let (r, fs) = with_revision f c hc revision done in
          (r ≡ err e) × (f.read q fs ≡ found bytes)
    with_revision-err revision q (ok u, fs) e bytes p k = absurd (ok_ne_err p)
      where
        ok_ne_err : ok u ≡ err e → ⊥
        ok_ne_err h = cc
    with_revision-err revision q (err d, fs) e bytes p k =
        (ap (λ r. (with_revision f c hc revision (r, fs)).0) p, k)

    -- The two ways in which a compaction ends.
    abbrev Ends :
        CacheSaveOptions
        → Db
        → FilePath
        → FilePath
        → Bool
        → FilePath
        → List ℕ
        → PicanteResult ℕ × Fs
        → Type 0
    Ends options db cache_path wal_path create_new_wal q bytes (r, fs) =
        let revision = (current_revision db.runtime).num in
        ((r ≡ ok revision)
          × Holds f c options db cache_path fs
          × LogIs f hc create_new_wal wal_path revision fs)
        ⊎ ((e : PicanteError) × (r ≡ err e)
            × ((f.read q fs ≡ found bytes) ⊎ Holds f c options db cache_path fs))

    -- What follows the save of the temporary file.
    after_save-Ends :
        (cache_path wal_path q : FilePath) (db : Db) (options : CacheSaveOptions)
        (create_new_wal : Bool) (bytes : List ℕ) (saved : PicanteResult (Unit {0}) × Fs)
        → wal_path ≢ cache_path
        → f.compact_tmp cache_path ≢ q
        → f.read q saved.1 ≡ found bytes
        → ((saved.0 ≡ ok tt) × Holds f c options db (f.compact_tmp cache_path) saved.1)
          ⊎ ((e : PicanteError) × (saved.0 ≡ err e))
        → Ends options db cache_path wal_path create_new_wal q bytes (
            with_revision f c hc (current_revision db.runtime).num (
              and_then f
                (λ fs1.
                  and_then f
                    (λ fs2.
                      and_then f
                        (create_wal_if f c hc create_new_wal wal_path
                          (current_revision db.runtime).num)
                        (delete_old_wal f wal_path fs2))
                    (install_snapshot f cache_path fs1))
                saved))
    after_save-Ends cache_path wal_path q db options create_new_wal bytes (err e, fs) ne not_tmp k
          s =
        inr (e, refl, inl k)
    after_save-Ends cache_path wal_path q db options create_new_wal bytes (ok u, fs) ne not_tmp k
          (inr (e, p)) =
        absurd (ok_ne_err p)
      where
        ok_ne_err : ok u ≡ err e → ⊥
        ok_ne_err h = cc
    after_save-Ends cache_path wal_path q db options create_new_wal bytes (ok u, fs) ne not_tmp k
          (inl (p, (file, content, made, enc, there))) =
        let revision = (current_revision db.runtime).num in
        elim (install-done create_new_wal wal_path cache_path q revision content bytes fs ne not_tmp
          there k) [
            | inl done ↦
                let (h, log) =
                  finish-LogDone create_new_wal wal_path cache_path revision content _ done in
                elim log [
                  | inl (good, new_log) ↦ inl (good, (file, content, made, enc, h), new_log)
                  | inr (e, bad) ↦ inr (e, bad, inr (file, content, made, enc, h))
                ]
            | inr (e, bad, kept) ↦
                let (bad', kept') = with_revision-err revision q _ e bytes bad kept in
                inr (e, bad', inl kept')
          ]

    -- Let the file system behave, let the log be another file than the cache file, and the temporary
    -- files be two, and let `q` be any other file that is there. A compaction that returns no error
    -- answers the revision of the database; the cache file holds the whole encoding of the database,
    -- and the log is that of a writer created at the revision, or is gone, as was asked. After one that
    -- returns an error, `q` holds what it held, or the cache file holds the whole encoding.
    pub compact_wal_lem :
        (cache_path wal_path q : FilePath) (db : Db) (options : CacheSaveOptions)
        (create_new_wal : Bool) (fs : Fs) (bytes : List ℕ)
        → f.with_extension_tmp (f.compact_tmp cache_path) ≢ f.compact_tmp cache_path
        → wal_path ≢ cache_path
        → f.with_extension_tmp (f.compact_tmp cache_path) ≢ q
        → f.compact_tmp cache_path ≢ q
        → f.read q fs ≡ found bytes
        → let revision = (current_revision db.runtime).num in
          let (r, fs') = compact_wal f c hc cache_path wal_path db options create_new_wal fs in
          ((r ≡ ok revision)
            × Holds f c options db cache_path fs'
            × LogIs f hc create_new_wal wal_path revision fs')
          ⊎ ((e : PicanteError) × (r ≡ err e)
              × ((f.read q fs' ≡ found bytes) ⊎ Holds f c options db cache_path fs'))
    unfolding compact_wal
    compact_wal_lem cache_path wal_path q db options create_new_wal fs bytes two ne not_tmp2 not_tmp
          k =
        let tmp = f.compact_tmp cache_path in
        after_save-Ends cache_path wal_path q db options create_new_wal bytes
          (save_cache_with_options f c tmp db options fs) ne not_tmp
          (save-found f b o c tmp q db options fs bytes not_tmp2 not_tmp k)
          (elim (save_cache_with_options_lem f b c tmp db options fs two) [
            | inl (p, file, content, made, enc, there) ↦ inl (p, (file, content, made, enc, there))
            | inr (e, p, same) ↦ inr (e, p)
          ])
