-- ===== src/Inflight/SharedCache.antt =====
-- The shared cache of inflight.rs: the statics `SHARED_CACHE`, `SHARED_CACHE_ORDER`, the two
-- settings and the insertion counter as one record. Each function is one call of one thread.
use Prim.Native.Nat.{max}
use picante.Base.{
  ℕ, ◌+◌, ◌%◌, ◌^◌, ◌≡◌, Bool, true, false, ◌&&◌, Option, none, some, List, [], ◌∷◌, ◌++◌, arith,
  ltb, length, ◌==◌, if◌then◌else◌,
}
use picante.Base.Eq.{Eq}
use picante.Base.Table
use picante.Base.Table.{Table}
use picante.Key.{Revision, QueryKindId, Key, Dep, query_kind_beq, key_beq}
use picante.Key.Equality.{
  query_kind_refl, query_kind_sym, query_kind_trans, key_refl, key_sym, key_trans,
}
use picante.Runtime.{RuntimeId}

pub record SharedCacheRecord {ℓ} (V : Type ℓ) : Type ℓ where
  pub value : V
  pub deps : List Dep
  pub changed_at : Revision
  pub verified_at : Revision
  pub insert_id : ℕ

-- There is no revision in the key.
pub record SharedCacheKey : Type 0 where
  pub runtime_id : RuntimeId
  pub kind : QueryKindId
  pub key : Key

abbrev pub shared_key_beq : SharedCacheKey → SharedCacheKey → Bool
shared_key_beq a b =
    a.runtime_id.num == b.runtime_id.num && (query_kind_beq a.kind b.kind && key_beq a.key b.key)

pub shared_key_refl : (a : SharedCacheKey) → shared_key_beq a a ≡ true
shared_key_refl a = ground (arith, query_kind_refl a.kind, key_refl a.key)

pub shared_key_sym : (a b : SharedCacheKey) → shared_key_beq a b ≡ true → shared_key_beq b a ≡ true
shared_key_sym a b h = ground (arith, query_kind_sym a.kind b.kind, key_sym a.key b.key)

pub shared_key_trans :
    (a b c : SharedCacheKey)
    → shared_key_beq a b ≡ true
    → shared_key_beq b c ≡ true
    → shared_key_beq a c ≡ true
shared_key_trans a b c h k =
    ground (arith, query_kind_trans a.kind b.kind c.kind, key_trans a.key b.key c.key)

instance abbrev pub shared_key_eq : Eq SharedCacheKey
shared_key_eq = record {
  beq = shared_key_beq;
  beq_refl = shared_key_refl;
  beq_sym = shared_key_sym;
  beq_trans = shared_key_trans;
}

pub record SharedCache {ℓ} (V : Type ℓ) : Type ℓ where
  pub entries : Table SharedCacheKey (SharedCacheRecord V)
  pub order : List (SharedCacheKey × ℕ)
  pub max_entries : ℕ
  pub overridden : Bool
  pub next_insert_id : ℕ

abbrev pub Entries {ℓ} : Type ℓ → Type ℓ
Entries V = Table SharedCacheKey (SharedCacheRecord V)

module _ {ℓ} {V : Type ℓ} where
  unfoldable pub empty : SharedCache V
  empty = record {
    entries = [];
    order = [];
    max_entries = 20000;
    overridden = false;
    next_insert_id = 1;
  }

  -- `env` is the environment variable, where it is set and parses as a number.
  unfoldable pub shared_cache_max_entries : Option ℕ → SharedCache V → ℕ
  shared_cache_max_entries env c =
      if c.overridden then c.max_entries else elim env [ none ↦ c.max_entries | some n ↦ n ]

  unfoldable pub shared_cache_get :
      RuntimeId → QueryKindId → Key → SharedCache V → Option (SharedCacheRecord V)
  shared_cache_get runtime_id kind key c =
      Table.get c.entries (record { runtime_id = runtime_id; kind = kind; key = key })

  -- The entry of the oldest insertion goes, unless a later insertion has replaced it.
  unfoldable pub evict_one : SharedCacheKey → ℕ → Entries V → Entries V
  evict_one old_key old_id entries = elim (Table.get entries old_key) [
    | none ↦ entries
    | some v ↦ if v.insert_id == old_id then Table.remove entries old_key else entries
  ]

  -- The `while` loop, with the queue that is left.
  unfoldable pub evict :
      ℕ → List (SharedCacheKey × ℕ) → Entries V → List (SharedCacheKey × ℕ) × Entries V
  unfolding evict_one
  evict limit [] entries = ([], entries)
  evict limit ((old_key, old_id) ∷ order) entries =
      let rest = evict limit order (evict_one old_key old_id entries) in
      if ltb limit (length entries) then rest else ((old_key, old_id) ∷ order, entries)

  unfoldable pub shared_cache_put :
      Option ℕ → RuntimeId → QueryKindId → Key → SharedCacheRecord V → SharedCache V → SharedCache V
  shared_cache_put env runtime_id kind key rec c =
      let k : SharedCacheKey = record { runtime_id = runtime_id; kind = kind; key = key } in
      let limit = shared_cache_max_entries env c in
      let insert_id = c.next_insert_id in
      let (order, entries) = evict limit (c.order ++ (k, insert_id) ∷ []) c.entries in
      record c {
        entries = Table.insert entries k (record rec { insert_id = insert_id });
        order = order;
        next_insert_id = (insert_id + 1) % 2 ^ 64;
      }

  -- `__test_shared_cache_clear`
  unfoldable pub shared_cache_clear : SharedCache V → SharedCache V
  shared_cache_clear c = record c { entries = []; order = [] }

  -- `__test_shared_cache_set_max_entries`
  unfoldable pub shared_cache_set_max_entries : ℕ → SharedCache V → SharedCache V
  shared_cache_set_max_entries n c = record c { max_entries = max n 1; overridden = true }
