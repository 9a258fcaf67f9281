-- ===== src/Examples/Data.antt =====
-- Kinds, keys and codecs small enough to compute with.
use picante.Base.{ℕ, List, [], ◌∷◌, ◌+◌, String, arith}
use picante.Base.Results.{Result, ok, err}
use picante.Key.{Revision, QueryKindId, Key, DynKey, Dep, Hasher, Codec, RoundTrips}

-- A hash that tells short keys apart.
instance abbrev pub small_hasher : Hasher
small_hasher = record { finish = sum }
  where
    sum : List ℕ → ℕ
    sum [] = 0
    sum (b ∷ bs) = b + sum bs

-- Numbers below 256 as one byte each.
abbrev pub byte_of : List ℕ → Result String ℕ
byte_of (b ∷ []) = ok b
byte_of _ = err "bad length"

abbrev pub byte_codec : Codec ℕ
byte_codec = record { to_vec = λ n. ok (n ∷ []); from_slice = byte_of }

pub byte_codec-RoundTrips : RoundTrips byte_codec
byte_codec-RoundTrips = record { back = λ t bytes e. ground arith }

abbrev pub kind_a : QueryKindId
kind_a = record { id = 1 }

abbrev pub kind_b : QueryKindId
kind_b = record { id = 2 }

abbrev pub key_of : ℕ → Key
key_of n = record { bytes = n ∷ []; hash = n }

abbrev pub a_key : ℕ → DynKey
a_key n = record { kind = kind_a; key = key_of n }

abbrev pub b_key : ℕ → DynKey
b_key n = record { kind = kind_b; key = key_of n }

abbrev pub a_dep : ℕ → Dep
a_dep n = record { kind = kind_a; key = key_of n }

abbrev pub rev_of : ℕ → Revision
rev_of n = record { num = n }
