-- ===== src/Key/KindId.antt =====
-- Kind ids: the FNV-1a hash of a name, in `u32`.
use picante.Base.{ℕ, ◌^◌, ◌<◌, List, [], ◌∷◌, arith, ◌≡◌, refl}
use picante.Key.Defs.{fnv_step, fnv_loop, from_str, fnv_offset}

fnv_loop-lt : (hash : ℕ) (bytes : List ℕ) → hash < 2 ^ 32 → fnv_loop hash bytes < 2 ^ 32
unfolding fnv_loop fnv_step
fnv_loop-lt hash [] h = h
fnv_loop-lt hash (b ∷ bs) h = fnv_loop-lt (fnv_step hash b) bs (omega arith)

-- Every kind id made from a string fits in 32 bits.
pub from_str-lt : (bytes : List ℕ) → (from_str bytes).id < 2 ^ 32
unfolding from_str
from_str-lt bytes = fnv_loop-lt fnv_offset bytes (omega arith)

from_str_hello : (from_str (b'h' ∷ b'e' ∷ b'l' ∷ b'l' ∷ b'o' ∷ [])).id ≡ 0x4f9f2cab
unfolding from_str fnv_loop fnv_step
from_str_hello = refl
