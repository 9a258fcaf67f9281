-- ===== src/Key/Defs.antt =====
-- The types of key.rs and revision.rs, and what they take from outside.
use Prim.Native.Nat.{bit_xor}
use picante.Base.{
  ℕ, ◌*◌, ◌%◌, ◌^◌, ◌≡◌, String, Bool, false, true, ◌&&◌, List, [], ◌∷◌, ◌==◌, length,
}
use picante.Base.Results.{Result, ok}

-- `u64`; the bump in the runtime wraps.
pub record Revision : Type 0 where
  pub num : ℕ

pub record QueryKindId : Type 0 where
  pub id : ℕ

abbrev pub as_u32 : QueryKindId → ℕ
as_u32 k = k.id

abbrev pub fnv_offset : ℕ
fnv_offset = 0x811c9dc5

abbrev pub fnv_prime : ℕ
fnv_prime = 0x01000193

-- The body of the loop: xor with a byte, then `wrapping_mul` on `u32`.
unfoldable pub fnv_step : ℕ → ℕ → ℕ
fnv_step hash byte = (bit_xor hash byte * fnv_prime) % 2 ^ 32

unfoldable pub fnv_loop : ℕ → List ℕ → ℕ
fnv_loop hash [] = hash
fnv_loop hash (byte ∷ rest) = fnv_loop (fnv_step hash byte) rest

unfoldable pub from_str : List ℕ → QueryKindId
from_str bytes = record { id = fnv_loop fnv_offset bytes }

-- The standard library's `DefaultHasher` run over a slice of bytes.
pub record Hasher : Type 0 where
  pub finish : List ℕ → ℕ

unfoldable pub stable_hash : ⦃h : Hasher⦄ → List ℕ → ℕ
stable_hash ⦃h⦄ bytes = h.finish bytes

pub record Key : Type 0 where
  pub bytes : List ℕ
  pub hash : ℕ

unfoldable pub from_bytes : ⦃h : Hasher⦄ → List ℕ → Key
unfolding stable_hash
from_bytes bytes = record { bytes = bytes; hash = stable_hash bytes }

unfoldable pub len : Key → ℕ
len k = length k.bytes

unfoldable pub is_empty : Key → Bool
is_empty k = length k.bytes == 0

pub record DynKey : Type 0 where
  pub kind : QueryKindId
  pub key : Key

pub record Dep : Type 0 where
  pub kind : QueryKindId
  pub key : Key

-- The comparisons that the source derives or writes: a key is its bytes, not its hash.
abbrev pub bytes_beq : List ℕ → List ℕ → Bool
bytes_beq [] [] = true
bytes_beq (x ∷ xs) (y ∷ ys) = x == y && bytes_beq xs ys
bytes_beq _ _ = false

abbrev pub query_kind_beq : QueryKindId → QueryKindId → Bool
query_kind_beq a b = a.id == b.id

abbrev pub key_beq : Key → Key → Bool
key_beq a b = bytes_beq a.bytes b.bytes

abbrev pub dyn_key_beq : DynKey → DynKey → Bool
dyn_key_beq a b = query_kind_beq a.kind b.kind && key_beq a.key b.key

abbrev pub dep_beq : Dep → Dep → Bool
dep_beq a b = query_kind_beq a.kind b.kind && key_beq a.key b.key

-- The `DynKey` that a dependency names.
abbrev pub dep_key : Dep → DynKey
dep_key d = record { kind = d.kind; key = d.key }

-- `facet_postcard::to_vec` and `from_slice` at one type; their errors are shown as text.
pub record Codec (T : Type 0) : Type 0 where
  pub to_vec : T → Result String (List ℕ)
  pub from_slice : List ℕ → Result String T

-- What the code relies on: a value that is encoded is read back.
pub record RoundTrips {T : Type 0} (c : Codec T) : Type 0 where
  pub back : (t : T) (bytes : List ℕ) → c.to_vec t ≡ ok bytes → c.from_slice bytes ≡ ok t
