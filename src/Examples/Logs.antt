-- ===== src/Examples/Logs.antt =====
-- A small log, whole and torn.
use picante.Base.{ℕ, ◌≡◌, refl, List, [], ◌∷◌, ◌++◌, String, arith, All}
use picante.Base.Results.{Result, ok, err}
use picante.Key.{Codec, RoundTrips}
use picante.Error.{cache}
use picante.Wal.{
  WalHeader, WalOperation, set, delete, WalEntry, WalWriter, WalReader, to_le_bytes, drop_writer,
  create_with_threshold, append_bytes, append, open_wal, read_entries, flush,
}
use picante.Wal.Framing.{IsReadable}
use picante.Wal.RoundTrip.{HasShortHeader, append_all, log_roundtrip}
use picante.Wal.Torn.{log_cut_in_entry}

abbrev header_of : List ℕ → Result String WalHeader
header_of (v ∷ b ∷ []) = ok (record { format_version = v; base_revision = b })
header_of _ = err "bad header"

abbrev pub header_codec : Codec WalHeader
header_codec = record {
  to_vec = λ h. ok (h.format_version ∷ h.base_revision ∷ []);
  from_slice = header_of;
}

pub header_codec-RoundTrips : RoundTrips header_codec
header_codec-RoundTrips = record { back = λ t bytes e. ground arith }

-- Keys and values of one byte.
abbrev bytes_of : ℕ → ℕ → WalOperation → Result String (List ℕ)
bytes_of r k (set (a ∷ []) (b ∷ [])) = ok (r ∷ k ∷ a ∷ b ∷ [])
bytes_of r k (delete (a ∷ [])) = ok (r ∷ k ∷ a ∷ [])
bytes_of r k _ = err "too long"

abbrev entry_of : List ℕ → Result String WalEntry
entry_of (r ∷ k ∷ a ∷ b ∷ []) =
    ok (record { revision = r; kind_id = k; operation = set (a ∷ []) (b ∷ []) })
entry_of (r ∷ k ∷ a ∷ []) = ok (record { revision = r; kind_id = k; operation = delete (a ∷ []) })
entry_of _ = err "bad entry"

abbrev pub entry_codec : Codec WalEntry
entry_codec = record {
  to_vec = λ e. bytes_of e.revision e.kind_id e.operation;
  from_slice = entry_of;
}

entry_codec-back :
    (r k : ℕ) (op : WalOperation) (bytes : List ℕ)
    → bytes_of r k op ≡ ok bytes
    → entry_of bytes ≡ ok (record { revision = r; kind_id = k; operation = op })
entry_codec-back r k (set [] b) bytes e = ground (arith, e)
entry_codec-back r k (set (a ∷ []) []) bytes e = ground (arith, e)
entry_codec-back r k (set (a ∷ []) (b ∷ [])) bytes e =
    let same : r ∷ k ∷ a ∷ b ∷ [] ≡ bytes = ground (arith, e) in rw⁻¹ same refl
entry_codec-back r k (set (a ∷ []) (b ∷ c ∷ d)) bytes e = ground (arith, e)
entry_codec-back r k (set (a ∷ c ∷ d) b) bytes e = ground (arith, e)
entry_codec-back r k (delete []) bytes e = ground (arith, e)
entry_codec-back r k (delete (a ∷ [])) bytes e =
    let same : r ∷ k ∷ a ∷ [] ≡ bytes = ground (arith, e) in rw⁻¹ same refl
entry_codec-back r k (delete (a ∷ b ∷ c)) bytes e = ground (arith, e)

pub entry_codec-RoundTrips : RoundTrips entry_codec
entry_codec-RoundTrips = record {
  back = λ t bytes e. entry_codec-back t.revision t.kind_id t.operation bytes e;
}

abbrev entries : List WalEntry
entries =
    record { revision = 4; kind_id = 1; operation = set (7 ∷ []) (8 ∷ []) }
    ∷ record { revision = 5; kind_id = 1; operation = delete (7 ∷ []) }
    ∷ []

entries-IsReadable : All (IsReadable entry_codec) entries
entries-IsReadable = (
  λ bytes e. let same : 4 ∷ 1 ∷ 7 ∷ 8 ∷ [] ≡ bytes = ground (arith, e) in rw⁻¹ same (omega arith),
  (λ bytes e. let same : 5 ∷ 1 ∷ 7 ∷ [] ≡ bytes = ground (arith, e) in rw⁻¹ same (omega arith), tt),
)

HasShortHeader-3 : HasShortHeader header_codec 3
HasShortHeader-3 bytes e =
    let same : 1 ∷ 3 ∷ [] ≡ bytes = ground (arith, e) in rw⁻¹ same (omega arith)

-- Flushed after every entry.
abbrev begun : WalWriter
begun = record {
  flushed = 80 ∷ 73 ∷ 67 ∷ 65 ∷ 78 ∷ 84 ∷ 69 ∷ 0 ∷ 2 ∷ 0 ∷ 0 ∷ 0 ∷ 1 ∷ 3 ∷ [];
  buffered = [];
  base_revision = 3;
  entries_since_flush = 0;
  auto_flush_threshold = 1;
}

abbrev ended : WalWriter
ended = record begun {
  flushed =
      begun.flushed ++ (4 ∷ 0 ∷ 0 ∷ 0 ∷ 4 ∷ 1 ∷ 7 ∷ 8 ∷ []) ++ (3 ∷ 0 ∷ 0 ∷ 0 ∷ 5 ∷ 1 ∷ 7 ∷ []);
}

log_roundtrip_example :
    (r : WalReader) × (open_wal header_codec (drop_writer ended) ≡ ok r)
    × (r.header.base_revision ≡ 3)
    × (read_entries entry_codec 3 r.rest ≡ (entries, ok tt))
unfolding create_with_threshold append_all append append_bytes flush
log_roundtrip_example =
    log_roundtrip header_codec entry_codec 3 1 entries begun ended header_codec-RoundTrips
      entry_codec-RoundTrips HasShortHeader-3 entries-IsReadable refl refl

log_cut_in_entry_example :
    (r : WalReader) × (open_wal header_codec (drop_writer ended ++ (to_le_bytes 3 ++ 6 ∷ []))
      ≡ ok r)
    × (r.header.base_revision ≡ 3)
    × (read_entries entry_codec 3 r.rest ≡ (entries, err (cache "Failed to read WAL entry")))
unfolding create_with_threshold append_all append append_bytes flush
log_cut_in_entry_example =
    log_cut_in_entry header_codec entry_codec 3 1 entries begun ended (6 ∷ 1 ∷ 7 ∷ []) (6 ∷ [])
      header_codec-RoundTrips entry_codec-RoundTrips HasShortHeader-3 entries-IsReadable refl refl
      (omega arith) (omega arith)
