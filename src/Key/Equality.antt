-- ===== src/Key/Equality.antt =====
-- The comparisons of key.rs are equivalences, and equal keys have equal hashes.
use picante.Base.{ℕ, ◌≡◌, refl, ◌↔◌, true, List, [], ◌∷◌, arith}
use picante.Base.Eq.{Eq}
use picante.Key.Defs.{
  QueryKindId, Hasher, Key, DynKey, Dep, from_bytes, bytes_beq, query_kind_beq, key_beq,
  dyn_key_beq, dep_beq,
}

pub bytes_beq→eq : (xs ys : List ℕ) → bytes_beq xs ys ≡ true → xs ≡ ys
bytes_beq→eq [] [] h = refl
bytes_beq→eq [] (y ∷ ys) h = ground arith
bytes_beq→eq (x ∷ xs) [] h = ground arith
bytes_beq→eq (x ∷ xs) (y ∷ ys) h = ground (arith, bytes_beq→eq xs ys)

pub bytes_refl : (xs : List ℕ) → bytes_beq xs xs ≡ true
bytes_refl [] = refl
bytes_refl (x ∷ xs) = ground (arith, bytes_refl xs)

bytes_sym : (xs ys : List ℕ) → bytes_beq xs ys ≡ true → bytes_beq ys xs ≡ true
bytes_sym xs ys h = rw (bytes_beq→eq xs ys h) (bytes_refl ys)

bytes_trans :
    (xs ys zs : List ℕ) → bytes_beq xs ys ≡ true → bytes_beq ys zs ≡ true → bytes_beq xs zs ≡ true
bytes_trans xs ys zs h k = rw (bytes_beq→eq xs ys h) k

pub key_refl : (a : Key) → key_beq a a ≡ true
key_refl a = bytes_refl a.bytes

pub key_sym : (a b : Key) → key_beq a b ≡ true → key_beq b a ≡ true
key_sym a b = bytes_sym a.bytes b.bytes

pub key_trans : (a b c : Key) → key_beq a b ≡ true → key_beq b c ≡ true → key_beq a c ≡ true
key_trans a b c = bytes_trans a.bytes b.bytes c.bytes

instance abbrev pub key_eq : Eq Key
key_eq = record { beq = key_beq; beq_refl = key_refl; beq_sym = key_sym; beq_trans = key_trans }

pub query_kind_refl : (a : QueryKindId) → query_kind_beq a a ≡ true
query_kind_refl a = ground arith

pub query_kind_sym : (a b : QueryKindId) → query_kind_beq a b ≡ true → query_kind_beq b a ≡ true
query_kind_sym a b h = ground arith

pub query_kind_trans :
    (a b c : QueryKindId)
    → query_kind_beq a b ≡ true
    → query_kind_beq b c ≡ true
    → query_kind_beq a c ≡ true
query_kind_trans a b c h k = ground arith

instance abbrev pub query_kind_eq : Eq QueryKindId
query_kind_eq = record {
  beq = query_kind_beq;
  beq_refl = query_kind_refl;
  beq_sym = query_kind_sym;
  beq_trans = query_kind_trans;
}

pub dyn_key_refl : (a : DynKey) → dyn_key_beq a a ≡ true
dyn_key_refl a = ground (arith, query_kind_refl a.kind, key_refl a.key)

pub dyn_key_sym : (a b : DynKey) → dyn_key_beq a b ≡ true → dyn_key_beq b a ≡ true
dyn_key_sym a b h = ground (arith, query_kind_sym a.kind b.kind, key_sym a.key b.key)

pub dyn_key_trans :
    (a b c : DynKey) → dyn_key_beq a b ≡ true → dyn_key_beq b c ≡ true → dyn_key_beq a c ≡ true
dyn_key_trans a b c h k =
    ground (arith, query_kind_trans a.kind b.kind c.kind, key_trans a.key b.key c.key)

instance abbrev pub dyn_key_eq : Eq DynKey
dyn_key_eq = record {
  beq = dyn_key_beq;
  beq_refl = dyn_key_refl;
  beq_sym = dyn_key_sym;
  beq_trans = dyn_key_trans;
}

pub dep_refl : (a : Dep) → dep_beq a a ≡ true
dep_refl a = ground (arith, query_kind_refl a.kind, key_refl a.key)

pub dep_sym : (a b : Dep) → dep_beq a b ≡ true → dep_beq b a ≡ true
dep_sym a b h = ground (arith, query_kind_sym a.kind b.kind, key_sym a.key b.key)

pub dep_trans : (a b c : Dep) → dep_beq a b ≡ true → dep_beq b c ≡ true → dep_beq a c ≡ true
dep_trans a b c h k =
    ground (arith, query_kind_trans a.kind b.kind c.kind, key_trans a.key b.key c.key)

instance abbrev pub dep_eq : Eq Dep
dep_eq = record { beq = dep_beq; beq_refl = dep_refl; beq_sym = dep_sym; beq_trans = dep_trans }

-- Keys made from bytes are equal exactly when the bytes are.
pub key_beq_iff :
    ⦃h : Hasher⦄ (xs ys : List ℕ) → (key_beq (from_bytes xs) (from_bytes ys) ≡ true) ↔ (xs ≡ ys)
unfolding from_bytes
key_beq_iff xs ys = (bytes_beq→eq xs ys, λ e. rw e (bytes_refl ys))
