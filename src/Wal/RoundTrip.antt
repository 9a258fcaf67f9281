-- ===== src/Wal/RoundTrip.antt =====
-- A log that is written and read back, whole or cut off in the middle of an entry.
use mathlib.Core.List.{append_assoc, append-nil}
use picante.Base.{
  ℕ, suc, ◌+◌, ◌-◌, length-append, ◌≤◌, ◌≡◌, refl, ap, ◌∙◌, sym, List, [], ◌∷◌, ◌++◌, arith, length,
  All, leb, inl, inr, Bool-cases,
}
use picante.Base.Results.{ok, ◌>>=◌, Result-cases}
use picante.Key.{Codec, RoundTrips}
use picante.Error.{PicanteResult}
use picante.Wal.Defs.{
  WalHeader, WalEntry, WalWriter, WalReader, wal_format_version, wal_magic, max_header_len,
  read_exact, to_le_bytes, framed, flush, drop_writer, create_with_threshold, append_bytes, append,
  read_header, check_header, after_magic, open_wal, read_entries,
}
use picante.Wal.Framing.{
  AreFrames, IsReadable, length_bytes, read_exact-append, read_entries-frames,
  read_entries-no_length,
}

-- All that a writer was given.
abbrev content : WalWriter → List ℕ
content w = w.flushed ++ w.buffered

content-append_bytes :
    (bytes : List ℕ) (w : WalWriter) → content (append_bytes bytes w) ≡ content w ++ framed bytes
unfolding append_bytes flush
content-append_bytes bytes w =
    elim (Bool-cases (leb w.auto_flush_threshold (w.entries_since_flush + 1))) [
      | inl p ↦
          rw (p, append_bytes, append-nil, append_assoc w.flushed w.buffered (framed bytes)) refl
      | inr p ↦ rw (p, append_bytes, append_assoc w.flushed w.buffered (framed bytes)) refl
    ]

module _ (ec : Codec WalEntry) where
  -- One call of `append` for each entry.
  unfoldable pub append_all : List WalEntry → WalWriter → PicanteResult WalWriter
  append_all [] w = ok w
  append_all (entry ∷ entries) w = do w' ← append ec entry w; append_all entries w'

  append_all-frames :
      (entries : List WalEntry) (w w' : WalWriter)
      → append_all entries w ≡ ok w'
      → (tail : List ℕ) × (content w' ≡ content w ++ tail) × AreFrames ec entries tail
  unfolding append_all append
  append_all-frames [] w w' h =
      let same : w ≡ w' = ground (arith, h) in
      ([], ap content (sym same) ∙ sym (append-nil (content w)), refl)
  append_all-frames (entry ∷ entries) w w' h = elim (Result-cases (ec.to_vec entry)) [
    | inr (e, p) ↦ ground (arith, h, p)
    | inl (bytes, p) ↦
        let (tail, c, f) =
          append_all-frames entries (append_bytes bytes w) w' (ground (arith, h, p)) in
        (
          framed bytes ++ tail,
          c
              ∙ ap (λ l. l ++ tail) (content-append_bytes bytes w)
              ∙ append_assoc (content w) (framed bytes) tail,
          (bytes, tail, p, refl, f),
        )
  ]

abbrev header_at : ℕ → WalHeader
header_at base = record { format_version = wal_format_version; base_revision = base }

module _ (hc : Codec WalHeader) where
  -- The header of this base revision is not over the reader's limit.
  abbrev pub HasShortHeader : ℕ → Type 0
  HasShortHeader base =
      (bytes : List ℕ) → hc.to_vec (header_at base) ≡ ok bytes → length bytes ≤ max_header_len

  open_wal-header :
      (base : ℕ) (bytes rest : List ℕ)
      → RoundTrips hc
      → hc.to_vec (header_at base) ≡ ok bytes
      → length bytes ≤ max_header_len
      → open_wal hc ((wal_magic ++ framed bytes) ++ rest)
        ≡ ok (record { rest = rest; header = header_at base })
  unfolding open_wal after_magic read_header check_header read_exact framed to_le_bytes
  open_wal-header base bytes rest r e small =
      ap (λ n. read_header hc n (bytes ++ rest)) (length_bytes bytes (omega (arith, small)))
      ∙ ground
          (arith, read_exact-append bytes rest (length bytes) refl, r.back (header_at base) bytes e)

  open_wal-created :
      (base threshold : ℕ) (w : WalWriter) (tail : List ℕ)
      → RoundTrips hc
      → HasShortHeader base
      → create_with_threshold hc base threshold ≡ ok w
      → open_wal hc (content w ++ tail) ≡ ok (record { rest = tail; header = header_at base })
  unfolding create_with_threshold flush
  open_wal-created base threshold w tail r short e =
      elim (Result-cases (hc.to_vec (header_at base))) [
        | inr (s, p) ↦ ground (arith, e, p)
        | inl (bytes, p) ↦
            let first : WalWriter = flush (record {
              flushed = [];
              buffered = wal_magic ++ framed bytes;
              base_revision = base;
              entries_since_flush = 0;
              auto_flush_threshold = threshold;
            }) in
            let made : first ≡ w = ground (arith, e, p) in
            let same : content w ≡ wal_magic ++ framed bytes =
              ap content (sym made) ∙ append-nil (wal_magic ++ framed bytes) in
            rw same (open_wal-header base bytes tail r p (short bytes p))
      ]

-- What the log of a writer reads as, after more bytes were written behind it: the writer was created for
-- a base revision and given entries, and none of them is over the reader's limits.
module _ (hc : Codec WalHeader) (ec : Codec WalEntry) where
  log-open :
      (base threshold : ℕ) (entries : List WalEntry) (w w' : WalWriter) (more : List ℕ)
      → RoundTrips hc
      → HasShortHeader hc base
      → create_with_threshold hc base threshold ≡ ok w
      → append_all ec entries w ≡ ok w'
      → (tail : List ℕ) × (open_wal hc (drop_writer w' ++ more)
          ≡ ok (record { rest = tail ++ more; header = header_at base }))
        × AreFrames ec entries tail
  unfolding drop_writer flush
  log-open base threshold entries w w' more r short e a =
      let (tail, c, f) = append_all-frames ec entries w w' a in
      (
        tail,
        rw (c, append_assoc (content w) tail more)
            (open_wal-created hc base threshold w (tail ++ more) r short e),
        f,
      )

  pub log-more :
      (base threshold : ℕ) (entries : List WalEntry) (w w' : WalWriter) (more : List ℕ)
      → RoundTrips hc
      → RoundTrips ec
      → HasShortHeader hc base
      → All (IsReadable ec) entries
      → create_with_threshold hc base threshold ≡ ok w
      → append_all ec entries w ≡ ok w'
      → (r : WalReader) × (open_wal hc (drop_writer w' ++ more) ≡ ok r)
        × (r.header.base_revision ≡ base)
        × (read_entries ec (length entries + 1) r.rest
            ≡ (entries ++ (read_entries ec 1 more).0, (read_entries ec 1 more).1))
  log-more base threshold entries w w' more rh re short small e a =
      let (tail, o, f) = log-open base threshold entries w w' more rh short e a in
      (
        record { rest = tail ++ more; header = header_at base },
        o,
        refl,
        read_entries-frames ec entries tail more 1 (length entries + 1) re small f refl,
      )

  -- Let a log be created and entries be appended with no error, with any threshold of the automatic
  -- flush, let no entry and no header be over the reader's limits, and let both codecs read back what
  -- they write. Then the file that the dropped writer leaves opens with the base revision, and reads as
  -- exactly the entries, in order, to the end.
  pub log_roundtrip :
      (base threshold : ℕ) (entries : List WalEntry) (w w' : WalWriter)
      → RoundTrips hc
      → RoundTrips ec
      → HasShortHeader hc base
      → All (IsReadable ec) entries
      → create_with_threshold hc base threshold ≡ ok w
      → append_all ec entries w ≡ ok w'
      → (r : WalReader) × (open_wal hc (drop_writer w') ≡ ok r)
        × (r.header.base_revision ≡ base)
        × (read_entries ec (length entries + 1) r.rest ≡ (entries, ok tt))
  log_roundtrip base threshold entries w w' rh re short small e a =
      let (r, o, b, h) = log-more base threshold entries w w' [] rh re short small e a in
      (
        r,
        ap (open_wal hc) (sym (append-nil (drop_writer w'))) ∙ o,
        b,
        h
            ∙ rw (read_entries-no_length ec 0 [] (omega arith))
                (ap (λ es. (es, ok tt)) (append-nil entries)),
      )

  AreFrames-length :
      (entries : List WalEntry) (file : List ℕ)
      → AreFrames ec entries file
      → length entries ≤ length file
  unfolding framed to_le_bytes
  AreFrames-length [] file f = omega arith
  AreFrames-length (entry ∷ entries) file (bytes, rest, e, same, fs) =
      rw same (omega (arith, length-append bytes rest, AreFrames-length entries rest fs))

  -- The entries of such a log, read with the fuel of its length.
  pub log_whole :
      (base threshold : ℕ) (entries : List WalEntry) (w w' : WalWriter)
      → RoundTrips hc
      → RoundTrips ec
      → HasShortHeader hc base
      → All (IsReadable ec) entries
      → create_with_threshold hc base threshold ≡ ok w
      → append_all ec entries w ≡ ok w'
      → (r : WalReader) × (open_wal hc (drop_writer w') ≡ ok r)
        × (r.header.base_revision ≡ base)
        × (read_entries ec (length r.rest + 1) r.rest ≡ (entries, ok tt))
  log_whole base threshold entries w w' rh re short small e a =
      let (tail, o, f) = log-open base threshold entries w w' [] rh short e a in
      let left = length (tail ++ []) - length entries in
      let enough : length (tail ++ []) + 1 ≡ length entries + suc left =
        omega (arith, AreFrames-length entries tail f, length-append tail []) in
      (
        record { rest = tail ++ []; header = header_at base },
        ap (open_wal hc) (sym (append-nil (drop_writer w'))) ∙ o,
        refl,
        read_entries-frames ec entries tail [] (suc left) (length (tail ++ []) + 1) re small f
              enough
            ∙ rw (read_entries-no_length ec left [] (omega arith))
                (ap (λ es. (es, ok tt)) (append-nil entries)),
      )

pub create_with_threshold-base :
    (hc : Codec WalHeader) (base threshold : ℕ) (w : WalWriter)
    → create_with_threshold hc base threshold ≡ ok w
    → w.base_revision ≡ base
unfolding create_with_threshold flush
create_with_threshold-base hc base threshold w h =
    elim (Result-cases (hc.to_vec (header_at base))) [
      | inr (s, p) ↦ ground (arith, h, p)
      | inl (bytes, p) ↦ ground (arith, h, p)
    ]
