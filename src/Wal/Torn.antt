-- ===== src/Wal/Torn.antt =====
-- A log that a crash cut off in the middle of an entry.
use mathlib.Core.List.{append-nil}
use picante.Base.{ℕ, ◌+◌, ◌%◌, ◌^◌, ◌<◌, ◌≤◌, ◌≡◌, ap, ◌∙◌, List, ◌++◌, length, All}
use picante.Base.Results.{ok, err}
use picante.Key.{Codec, RoundTrips}
use picante.Error.{cache}
use picante.Wal.Defs.{
  WalHeader, WalEntry, WalWriter, WalReader, max_entry_len, to_le_bytes, drop_writer,
  create_with_threshold, open_wal, read_entries,
}
use picante.Wal.Framing.{IsReadable, read_entries-no_length, read_entries-no_bytes}
use picante.Wal.RoundTrip.{HasShortHeader, append_all, log-more}

module _ (hc : Codec WalHeader) (ec : Codec WalEntry) where
  -- Let a log be created and given entries with no error, with any threshold, let no entry and no
  -- header be over the reader's limits, and let both codecs read back what they write. If the file goes
  -- on with less than four bytes, as a crash in the middle of a length leaves it, it reads as the
  -- entries before, to the end, with no error.
  pub log_cut_in_length :
      (base threshold : ℕ) (entries : List WalEntry) (w w' : WalWriter) (torn : List ℕ)
      → RoundTrips hc
      → RoundTrips ec
      → HasShortHeader hc base
      → All (IsReadable ec) entries
      → create_with_threshold hc base threshold ≡ ok w
      → append_all ec entries w ≡ ok w'
      → length torn < 4
      → (r : WalReader) × (open_wal hc (drop_writer w' ++ torn) ≡ ok r)
        × (r.header.base_revision ≡ base)
        × (read_entries ec (length entries + 1) r.rest ≡ (entries, ok tt))
  log_cut_in_length base threshold entries w w' torn rh re short small e a t =
      let (r, o, b, h) = log-more hc ec base threshold entries w w' torn rh re short small e a in
      (
        r,
        o,
        b,
        h ∙ rw (read_entries-no_length ec 0 torn t) (ap (λ es. (es, ok tt)) (append-nil entries)),
      )

  -- Let a log be created and given entries with no error, with any threshold, let no entry and no
  -- header be over the reader's limits, and let both codecs read back what they write. If the file goes
  -- on with the length of an entry within the limits and fewer bytes than that, as a crash in the
  -- middle of an entry leaves it, then the entries before are read, and the reader ends with an error in
  -- place of the end of the file.
  pub log_cut_in_entry :
      (base threshold : ℕ) (entries : List WalEntry) (w w' : WalWriter) (bytes part : List ℕ)
      → RoundTrips hc
      → RoundTrips ec
      → HasShortHeader hc base
      → All (IsReadable ec) entries
      → create_with_threshold hc base threshold ≡ ok w
      → append_all ec entries w ≡ ok w'
      → length bytes ≤ max_entry_len
      → length part < length bytes
      → (r : WalReader) × (open_wal hc
            (drop_writer w' ++ (to_le_bytes (length bytes % 2 ^ 32) ++ part))
          ≡ ok r)
        × (r.header.base_revision ≡ base)
        × (read_entries ec (length entries + 1) r.rest
            ≡ (entries, err (cache "Failed to read WAL entry")))
  log_cut_in_entry base threshold entries w w' bytes part rh re short small e a l t =
      let torn = to_le_bytes (length bytes % 2 ^ 32) ++ part in
      let (r, o, b, h) = log-more hc ec base threshold entries w w' torn rh re short small e a in
      (
        r,
        o,
        b,
        h
            ∙ rw (read_entries-no_bytes ec 0 bytes part l t)
                (ap (λ es. (es, err (cache "Failed to read WAL entry"))) (append-nil entries)),
      )
