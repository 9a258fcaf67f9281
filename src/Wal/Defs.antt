-- ===== src/Wal/Defs.antt =====
-- The writer and the reader of a log file.
use picante.Base.{
  ℕ, zero, suc, ◌+◌, ◌*◌, ◌/◌, ◌%◌, ◌^◌, Option, none, some, List, [], ◌∷◌, ◌++◌, ltb, leb, ◌==◌,
  length, if◌then◌else◌, String,
}
use picante.Base.Eq.{nat_eq}
use picante.Base.Results.{ok, err, ◌>>=◌, map_err}
use picante.Key.{Codec, bytes_beq}
use picante.Error.{PicanteResult, cache, encode, decode}

pub record WalHeader : Type 0 where
  pub format_version : ℕ
  pub base_revision : ℕ

pub data WalOperation : Type 0 where
  set : (key value : List ℕ) → WalOperation
  delete : (key : List ℕ) → WalOperation

pub record WalEntry : Type 0 where
  pub revision : ℕ
  pub kind_id : ℕ
  pub operation : WalOperation

abbrev pub wal_format_version : ℕ
wal_format_version = 1

-- `b"PICANTE\0"`
abbrev pub wal_magic : List ℕ
wal_magic = 80 ∷ 73 ∷ 67 ∷ 65 ∷ 78 ∷ 84 ∷ 69 ∷ 0 ∷ []

abbrev pub max_header_len : ℕ
max_header_len = 1000000

abbrev pub max_entry_len : ℕ
max_entry_len = 100000000

-- `to_le_bytes` and `from_le_bytes` of `u32`.
unfoldable pub to_le_bytes : ℕ → List ℕ
to_le_bytes n = n % 256 ∷ n / 256 % 256 ∷ n / 65536 % 256 ∷ n / 16777216 % 256 ∷ []

unfoldable pub from_le_bytes : List ℕ → ℕ
from_le_bytes [] = 0
from_le_bytes (b ∷ bs) = let rest = from_le_bytes bs in b + 256 * rest

-- `len as u32`, and the bytes behind it.
unfoldable pub framed : List ℕ → List ℕ
unfolding to_le_bytes
framed bytes = to_le_bytes (length bytes % 2 ^ 32) ++ bytes

-- `flushed` is what has reached the file, `buffered` what the buffer of the writer holds.
pub record WalWriter : Type 0 where
  pub flushed : List ℕ
  pub buffered : List ℕ
  pub base_revision : ℕ
  pub entries_since_flush : ℕ
  pub auto_flush_threshold : ℕ

abbrev pub default_auto_flush_threshold : ℕ
default_auto_flush_threshold = 100

unfoldable pub flush : WalWriter → WalWriter
flush w = record w { flushed = w.flushed ++ w.buffered; buffered = []; entries_since_flush = 0 }

-- What the file holds after the writer is dropped.
unfoldable pub drop_writer : WalWriter → List ℕ
unfolding flush
drop_writer w = (flush w).flushed

module _ (hc : Codec WalHeader) where
  -- The file is truncated first.
  unfoldable pub create_with_threshold : ℕ → ℕ → PicanteResult WalWriter
  unfolding framed flush
  create_with_threshold base_revision auto_flush_threshold = do
    header_bytes ←
        map_err (encode "WAL header") (
          hc.to_vec (record { format_version = wal_format_version; base_revision = base_revision }))
    ok (
        flush (record {
          flushed = [];
          buffered = wal_magic ++ framed header_bytes;
          base_revision = base_revision;
          entries_since_flush = 0;
          auto_flush_threshold = auto_flush_threshold;
        }))

  unfoldable pub create : ℕ → PicanteResult WalWriter
  unfolding create_with_threshold
  create base_revision = create_with_threshold base_revision default_auto_flush_threshold

-- What `append` does with the bytes of an entry.
unfoldable pub append_bytes : List ℕ → WalWriter → WalWriter
unfolding framed flush
append_bytes entry_bytes w =
    let w' : WalWriter = record w {
      buffered = w.buffered ++ framed entry_bytes;
      entries_since_flush = w.entries_since_flush + 1;
    } in
    if leb w.auto_flush_threshold w'.entries_since_flush then flush w' else w'

-- On an error nothing was written.
unfoldable pub append : Codec WalEntry → WalEntry → WalWriter → PicanteResult WalWriter
unfolding append_bytes
append ec entry w = do
  entry_bytes ← map_err (encode "WAL entry") (ec.to_vec entry)
  ok (append_bytes entry_bytes w)

pub record WalReader : Type 0 where
  pub rest : List ℕ
  pub header : WalHeader

-- `read_exact`: the bytes and what is behind them, or `none` at an unexpected end of the file.
unfoldable pub read_exact : ℕ → List ℕ → Option (List ℕ × List ℕ)
read_exact zero bytes = some ([], bytes)
read_exact (suc n) [] = none
read_exact (suc n) (b ∷ bytes) = elim (read_exact n bytes) [
  | none ↦ none
  | some (taken, rest) ↦ some (b ∷ taken, rest)
]

-- `read_exact(..).map_err(..)?`
abbrev pub read_or : String → ℕ → List ℕ → PicanteResult (List ℕ × List ℕ)
read_or message n bytes = elim (read_exact n bytes) [ none ↦ err (cache message) | some r ↦ ok r ]

-- The texts of the errors leave out the sizes and versions that the source shows.
module _ (hc : Codec WalHeader) where
  unfoldable pub check_header : WalHeader → List ℕ → PicanteResult WalReader
  check_header header rest =
      if header.format_version == wal_format_version
      then ok (record { rest = rest; header = header })
      else err (cache "Unsupported WAL format version")

  unfoldable pub read_header : ℕ → List ℕ → PicanteResult WalReader
  unfolding read_exact check_header
  read_header header_len bytes =
      if ltb max_header_len header_len
      then err (cache "WAL header length exceeds maximum allowed")
      else (do
        (header_bytes, rest) ← read_or "Failed to read WAL header" header_len bytes
        header ← map_err (decode "WAL header") (hc.from_slice header_bytes)
        check_header header rest)

  unfoldable pub after_magic : List ℕ → List ℕ → PicanteResult WalReader
  unfolding read_header from_le_bytes
  after_magic magic bytes =
      if bytes_beq magic wal_magic
      then (do
        (header_len_bytes, rest) ← read_or "Failed to read WAL header length" 4 bytes
        read_header (from_le_bytes header_len_bytes) rest)
      else err (cache "Invalid WAL magic bytes")

  -- `WalReader::open`
  unfoldable pub open_wal : List ℕ → PicanteResult WalReader
  unfolding after_magic
  open_wal file = do
    (magic, rest) ← read_or "Failed to read WAL magic bytes" 8 file
    after_magic magic rest

module _ (ec : Codec WalEntry) where
  -- The body of an entry of a length, and what is left of the file.
  unfoldable pub read_body : ℕ → List ℕ → PicanteResult (Option WalEntry) × List ℕ
  unfolding read_exact
  read_body entry_len rest =
      if ltb max_entry_len entry_len
      then (err (cache "WAL entry length exceeds maximum allowed"), rest)
      else (elim (read_exact entry_len rest) [
        | none ↦ (err (cache "Failed to read WAL entry"), [])
        | some (entry_bytes, rest') ↦ elim (ec.from_slice entry_bytes) [
          | err message ↦ (err (decode "WAL entry" message), rest')
          | ok entry ↦ (ok (some entry), rest')
        ]
      ])

  -- `Ok(None)` at the end of the file.
  unfoldable pub next_bytes : List ℕ → PicanteResult (Option WalEntry) × List ℕ
  unfolding read_body read_exact from_le_bytes
  next_bytes bytes = elim (read_exact 4 bytes) [
    | none ↦ (ok none, [])
    | some (entry_len_bytes, rest) ↦ read_body (from_le_bytes entry_len_bytes) rest
  ]

  unfoldable pub next_entry : WalReader → PicanteResult (Option WalEntry) × WalReader
  unfolding next_bytes
  next_entry r = let (result, rest) = next_bytes r.rest in (result, record r { rest = rest })

  -- `for entry in reader.entries() { let entry = entry?; .. }`: the entries before the end or the
  -- first error, and that error. Each entry takes four bytes at least, so the file's length is fuel
  -- enough.
  unfoldable pub read_entries : ℕ → List ℕ → List WalEntry × PicanteResult (Unit {0})
  unfolding next_bytes
  read_entries zero bytes = ([], ok tt)
  read_entries (suc n) bytes =
      let (result, rest) = next_bytes bytes in
      let (entries, end) = read_entries n rest in
      elim result [
        | err e ↦ ([], err e)
        | ok none ↦ ([], ok tt)
        | ok (some entry) ↦ (entry ∷ entries, end)
      ]
