-- ===== src/Wal/Framing.antt =====
-- Frames: a length of four bytes and the bytes behind it, written and read back.
use mathlib.Core.List.{append_assoc}
use picante.Base.{
  ℕ, zero, suc, ◌+◌, ◌%◌, ◌^◌, ◌<◌, ◌≤◌, ◌≡◌, refl, ap, ◌∙◌, none, some, List, [], ◌∷◌, ◌++◌, arith,
  length, All,
}
use picante.Base.Results.{ok, err}
use picante.Key.{Codec, RoundTrips}
use picante.Error.{cache}
use picante.Wal.Defs.{
  WalEntry, read_exact, to_le_bytes, from_le_bytes, framed, next_bytes, read_body, read_entries,
  max_entry_len,
}

pub read_exact-append :
    (xs ys : List ℕ) (n : ℕ) → length xs ≡ n → read_exact n (xs ++ ys) ≡ some (xs, ys)
unfolding read_exact
read_exact-append [] ys n h = rw⁻¹ h refl
read_exact-append (x ∷ xs) ys zero h = absurd (omega (arith, h))
read_exact-append (x ∷ xs) ys (suc n) h = rw (read_exact-append xs ys n (omega (arith, h))) refl

pub read_exact-short : (n : ℕ) (bytes : List ℕ) → length bytes < n → read_exact n bytes ≡ none
unfolding read_exact
read_exact-short zero bytes h = absurd (omega (arith, h))
read_exact-short (suc n) [] h = refl
read_exact-short (suc n) (b ∷ bytes) h = rw (read_exact-short n bytes (omega (arith, h))) refl

-- A length below the range of `u32` is read back.
pub from_le_bytes-to_le_bytes : (n : ℕ) → n < 2 ^ 32 → from_le_bytes (to_le_bytes n) ≡ n
unfolding from_le_bytes to_le_bytes
from_le_bytes-to_le_bytes n h = omega (arith, h)

pub length_bytes :
    (bytes : List ℕ)
    → length bytes < 2 ^ 32
    → from_le_bytes (to_le_bytes (length bytes % 2 ^ 32)) ≡ length bytes
length_bytes bytes h =
    from_le_bytes-to_le_bytes (length bytes % 2 ^ 32) (omega arith) ∙ omega (arith, h)

module _ (ec : Codec WalEntry) where
  -- What the reader makes of a frame.
  next_bytes-framed :
      (bytes rest : List ℕ)
      → length bytes < 2 ^ 32
      → next_bytes ec (framed bytes ++ rest) ≡ read_body ec (length bytes) (bytes ++ rest)
  unfolding next_bytes framed
  next_bytes-framed bytes rest small =
      ap (λ n. read_body ec n (bytes ++ rest)) (length_bytes bytes small)

  read_body-entry :
      (entry : WalEntry) (bytes rest : List ℕ)
      → RoundTrips ec
      → ec.to_vec entry ≡ ok bytes
      → length bytes ≤ max_entry_len
      → read_body ec (length bytes) (bytes ++ rest) ≡ (ok (some entry), rest)
  unfolding read_body
  read_body-entry entry bytes rest r e small =
      ground (arith, read_exact-append bytes rest (length bytes) refl, r.back entry bytes e)

  -- A part of a file that holds these entries, one frame for each.
  abbrev pub AreFrames : List WalEntry → List ℕ → Type 0
  AreFrames [] file = file ≡ []
  AreFrames (entry ∷ entries) file =
      (bytes : List ℕ) × (rest : List ℕ) × (ec.to_vec entry ≡ ok bytes)
      × (file ≡ framed bytes ++ rest)
      × AreFrames entries rest

  -- An entry that the reader takes: its bytes are not over the reader's limit.
  abbrev pub IsReadable : WalEntry → Type 0
  IsReadable entry = (bytes : List ℕ) → ec.to_vec entry ≡ ok bytes → length bytes ≤ max_entry_len

  -- Entries before anything else are read first.
  pub read_entries-frames :
      (entries : List WalEntry) (file more : List ℕ) (n m : ℕ)
      → RoundTrips ec
      → All IsReadable entries
      → AreFrames entries file
      → m ≡ length entries + n
      → read_entries ec m (file ++ more)
        ≡ (entries ++ (read_entries ec n more).0, (read_entries ec n more).1)
  unfolding read_entries
  read_entries-frames [] file more n m r a f e =
      let same : m ≡ n = omega (arith, e) in rw (f, same) refl
  read_entries-frames (entry ∷ entries) file more n zero r a f e = absurd (omega (arith, e))
  read_entries-frames (entry ∷ entries) file more n (suc m) r (a, others) (bytes, rest, e, f, fs)
        k =
      let small : length bytes ≤ max_entry_len = a bytes e in
      let step : next_bytes ec (file ++ more) ≡ (ok (some entry), rest ++ more) =
        rw (f, append_assoc (framed bytes) rest more)
          (next_bytes-framed bytes (rest ++ more) (omega (arith, small))
            ∙ read_body-entry entry bytes (rest ++ more) r e small) in
      let later = read_entries-frames entries rest more n m r others fs (omega (arith, k)) in
      rw (ap (λ p. p.0) step, read_entries, ap (λ p. read_entries ec m p.1) step ∙ later) refl

  -- A file that ends in the length of an entry ends there for the reader.
  pub read_entries-no_length :
      (n : ℕ) (torn : List ℕ) → length torn < 4 → read_entries ec (suc n) torn ≡ ([], ok tt)
  unfolding read_entries next_bytes
  read_entries-no_length n torn h = rw (read_exact-short 4 torn h, read_entries, next_bytes) refl

  next_bytes-torn :
      (bytes part : List ℕ)
      → length bytes ≤ max_entry_len
      → length part < length bytes
      → next_bytes ec (to_le_bytes (length bytes % 2 ^ 32) ++ part)
        ≡ (err (cache "Failed to read WAL entry"), [])
  unfolding next_bytes read_body to_le_bytes
  next_bytes-torn bytes part small h =
      ap (λ n. read_body ec n part) (length_bytes bytes (omega (arith, small)))
      ∙ ground (arith, read_exact-short (length bytes) part h)

  -- One that ends within the bytes of an entry is refused there.
  pub read_entries-no_bytes :
      (n : ℕ) (bytes part : List ℕ)
      → length bytes ≤ max_entry_len
      → length part < length bytes
      → read_entries ec (suc n) (to_le_bytes (length bytes % 2 ^ 32) ++ part)
        ≡ ([], err (cache "Failed to read WAL entry"))
  unfolding read_entries
  read_entries-no_bytes n bytes part small h =
      rw (next_bytes-torn bytes part small h, read_entries) refl
