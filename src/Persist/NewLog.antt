-- ===== src/Persist/NewLog.antt =====
-- The log after the old one was deleted, and a new one created if that was asked.
use picante.Base.{ℕ, ◌≡◌, ◌≢◌, ◌⊎◌, refl, ◌∙◌, Bool, true, false, List, inl, inr, Bool-cases}
use picante.Base.Results.{ok, err, Result-cases}
use picante.Key.{Codec}
use picante.Error.{PicanteError, PicanteResult}
use picante.Wal.{WalHeader, WalWriter, create, drop_writer, wal_magic}
use picante.Persist.Defs.{CacheFile}
use picante.Persist.Files.{FileSystem, Behaves, found}
use picante.Persist.Saving.{and_then}
use picante.Persist.Compacting.{delete_old_wal, create_wal_if}
use picante.Persist.Untouched.{KeepsOthers}

module _ {FilePath Fs : Type 0} (f : FileSystem FilePath Fs) (hc : Codec WalHeader) where
  -- What is asked of the log: that it is the one of a writer created at the revision, or is gone.
  abbrev pub LogIs : Bool → FilePath → ℕ → Fs → Type 0
  LogIs true wal_path revision fs =
      (w : WalWriter) × (create hc revision ≡ ok w) × (f.read wal_path fs ≡ found (drop_writer w))
  LogIs false wal_path revision fs = f.exists wal_path fs ≡ false

  -- A step on the log ends well with the log as asked, or with an error; the cache file stays.
  abbrev pub LogDone :
      Bool → FilePath → FilePath → ℕ → List ℕ → PicanteResult (Unit {0}) × Fs → Type 0
  LogDone create_new_wal wal_path cache_path revision content (r, fs) =
      (f.read cache_path fs ≡ found content)
      × (((r ≡ ok tt) × LogIs create_new_wal wal_path revision fs)
          ⊎ ((e : PicanteError) × (r ≡ err e)))

module _ {FilePath Fs : Type 0} (f : FileSystem FilePath Fs) (b : Behaves f)
    (o : KeepsOthers f) where
  module _ (c : Codec CacheFile) (hc : Codec WalHeader) where
    create_wal_if-LogDone :
        (create_new_wal : Bool) (wal_path cache_path : FilePath) (revision : ℕ) (content : List ℕ)
        (fs : Fs)
        → wal_path ≢ cache_path
        → f.read cache_path fs ≡ found content
        → f.exists wal_path fs ≡ false
        → LogDone f hc create_new_wal wal_path cache_path revision content
            (create_wal_if f c hc create_new_wal wal_path revision fs)
    create_wal_if-LogDone false wal_path cache_path revision content fs ne h gone =
        (h, inl (refl, gone))
    create_wal_if-LogDone true wal_path cache_path revision content fs ne h gone =
        elim (Result-cases (create hc revision)) [
          | inr (e, p) ↦ rw p (b.write_other wal_path cache_path wal_magic fs ne ∙ h, inr (_, refl))
          | inl (w, p) ↦
              let kept = b.write_other wal_path cache_path (drop_writer w) fs ne ∙ h in
              elim (Result-cases (f.write wal_path (drop_writer w) fs).0) [
                | inr (e, q) ↦ rw (p, q) (kept, inr (_, refl))
                | inl (u, q) ↦
                    rw (p, q)
                      (kept, inl (refl, (w, refl, b.read-write wal_path (drop_writer w) fs q)))
              ]
        ]

    pub log-LogDone :
        (create_new_wal : Bool) (wal_path cache_path : FilePath) (revision : ℕ) (content : List ℕ)
        (fs : Fs)
        → wal_path ≢ cache_path
        → f.read cache_path fs ≡ found content
        → LogDone f hc create_new_wal wal_path cache_path revision content (
            and_then f
              (create_wal_if f c hc create_new_wal wal_path revision)
              (delete_old_wal f wal_path fs))
    unfolding delete_old_wal
    log-LogDone create_new_wal wal_path cache_path revision content fs ne h =
        let kept = o.remove_other wal_path cache_path fs ne ∙ h in
        elim (Bool-cases (f.exists wal_path fs)) [
          | inr gone ↦
              rw (gone, delete_old_wal)
                (create_wal_if-LogDone create_new_wal wal_path cache_path revision content fs ne h
                  gone)
          | inl there ↦ elim (Result-cases (f.remove_file wal_path fs).0) [
            | inr (e, p) ↦ rw (there, delete_old_wal, p) (kept, inr (_, refl))
            | inl (u, p) ↦
                rw (there, delete_old_wal, p)
                  (create_wal_if-LogDone create_new_wal wal_path cache_path revision content
                    (f.remove_file wal_path fs).1 ne kept (o.exists-remove wal_path fs p))
          ]
        ]
