-- ===== src/Inflight/Eviction.antt =====
-- Eviction keeps the shared cache within its limit, and never alters a record that it keeps.
use picante.Base.{
  ℕ, ◌+◌, ◌≤◌, ◌<◌, ◌≡◌, refl, Bool, true, false, ◌&&◌, ◌||◌, none, some, List, [], ◌∷◌, ◌++◌,
  arith, length, ◌⊎◌, inl, ◌==◌,
}
use picante.Base.Eq.{eq_sym, eq_congr}
use picante.Base.Table
use picante.Base.Table.{Table, get-insert, get-remove, get-eq}
use picante.Inflight.SharedCache.{
  SharedCacheRecord, SharedCacheKey, Entries, shared_key_beq, shared_key_eq, shared_key_refl,
  evict_one, evict,
}

-- Whether an insertion is in the queue.
abbrev pub listed : List (SharedCacheKey × ℕ) → SharedCacheKey → ℕ → Bool
listed [] k id = false
listed ((j, i) ∷ order) k id = (shared_key_beq j k && i == id) || listed order k id

pub listed-append :
    (xs ys : List (SharedCacheKey × ℕ)) (k : SharedCacheKey) (id : ℕ)
    → listed (xs ++ ys) k id ≡ (listed xs k id || listed ys k id)
listed-append [] ys k id = refl
listed-append ((j, i) ∷ xs) ys k id = ground (arith, listed-append xs ys k id)

module _ {ℓ} {V : Type ℓ} where
  -- The insertion of every record is in the queue.
  abbrev pub IsListed : List (SharedCacheKey × ℕ) → Entries V → Type ℓ
  IsListed order entries =
      (k : SharedCacheKey) (r : SharedCacheRecord V)
      → Table.get entries k ≡ some r
      → listed order k r.insert_id ≡ true

  get-evict_one :
      (old_key : SharedCacheKey) (old_id : ℕ) (entries : Entries V) (k : SharedCacheKey)
      → (Table.get (evict_one old_key old_id entries) k ≡ Table.get entries k)
        ⊎ (Table.get (evict_one old_key old_id entries) k ≡ none)
  unfolding evict_one
  get-evict_one old_key old_id entries k =
      ground (arith, get-remove entries old_key k, get-eq entries old_key k)

  -- Within the limit nothing is evicted.
  pub evict_idle :
      (limit : ℕ) (order : List (SharedCacheKey × ℕ)) (entries : Entries V)
      → length entries ≤ limit
      → evict limit order entries ≡ (order, entries)
  unfolding evict
  evict_idle limit [] entries h = refl
  evict_idle limit ((j, i) ∷ order) entries h = ground arith

  -- A record that is left is the record that was there.
  pub get-evict :
      (limit : ℕ) (order : List (SharedCacheKey × ℕ)) (entries : Entries V) (k : SharedCacheKey)
      → (Table.get (evict limit order entries).1 k ≡ Table.get entries k)
        ⊎ (Table.get (evict limit order entries).1 k ≡ none)
  unfolding evict
  get-evict limit [] entries k = inl refl
  get-evict limit ((j, i) ∷ order) entries k =
      ground (arith, get-evict limit order (evict_one j i entries) k, get-evict_one j i entries k)

  -- Popping an insertion from the queue and evicting its record leaves the others listed.
  evict_one-IsListed :
      (j : SharedCacheKey) (i : ℕ) (order : List (SharedCacheKey × ℕ)) (entries : Entries V)
      → IsListed ((j, i) ∷ order) entries
      → IsListed order (evict_one j i entries)
  unfolding evict_one
  evict_one-IsListed j i order entries h k r p =
      ground (arith, h k r, get-remove entries j k, get-eq entries j k)

  unlisted_empty : (entries : Entries V) → IsListed [] entries → length entries ≡ 0
  unlisted_empty [] h = refl
  unlisted_empty ((k, r) ∷ entries) h =
      absurd (
        omega (arith, ground_false (h k r (unfold Table.get in ground (arith, shared_key_refl k)))))
    where
      ground_false : false ≡ true → 1 ≤ 0
      ground_false e = cc

  -- The loop brings the cache down to the limit.
  pub length-evict :
      (limit : ℕ) (order : List (SharedCacheKey × ℕ)) (entries : Entries V)
      → IsListed order entries
      → length (evict limit order entries).1 ≤ limit
  unfolding evict
  length-evict limit [] entries h = omega (arith, unlisted_empty entries h)
  length-evict limit ((j, i) ∷ order) entries h = ground (
    arith,
    length-evict limit order (evict_one j i entries) (evict_one-IsListed j i order entries h),
  )

  pub evict-IsListed :
      (limit : ℕ) (order : List (SharedCacheKey × ℕ)) (entries : Entries V)
      → IsListed order entries
      → IsListed (evict limit order entries).0 (evict limit order entries).1
  unfolding evict
  evict-IsListed limit [] entries h k r p = h k r p
  evict-IsListed limit ((j, i) ∷ order) entries h k r p = ground (
    arith,
    evict-IsListed limit order (evict_one j i entries) (evict_one-IsListed j i order entries h) k r,
    h k r,
  )

  -- Every record was inserted before.
  abbrev pub AreBelow : ℕ → Entries V → Type ℓ
  AreBelow id entries =
      (k : SharedCacheKey) (r : SharedCacheRecord V)
      → Table.get entries k ≡ some r
      → r.insert_id < id

  evict_one-AreBelow :
      (j : SharedCacheKey) (i id : ℕ) (entries : Entries V)
      → AreBelow id entries
      → AreBelow id (evict_one j i entries)
  evict_one-AreBelow j i id entries h k r p = ground (arith, h k r, get-evict_one j i entries k)

  only_new_empty :
      (k : SharedCacheKey) (id : ℕ) (entries : Entries V)
      → IsListed ((k, id) ∷ []) entries
      → AreBelow id entries
      → length entries ≡ 0
  only_new_empty k id [] h b = refl
  only_new_empty k id ((j, r) ∷ entries) h b =
      let p : Table.get ((j, r) ∷ entries) j ≡ some r =
        unfold Table.get in ground (arith, shared_key_refl j) in
      ground (arith, h j r p, b j r p)

  -- The insertion that has just been queued is never popped by its own call.
  pub listed-evict :
      (limit : ℕ) (before : List (SharedCacheKey × ℕ)) (k : SharedCacheKey) (id : ℕ)
      (entries : Entries V)
      → IsListed (before ++ (k, id) ∷ []) entries
      → AreBelow id entries
      → listed (evict limit (before ++ (k, id) ∷ []) entries).0 k id ≡ true
  unfolding evict
  listed-evict limit [] k id entries h b =
      ground (arith, only_new_empty k id entries h b, shared_key_refl k)
  listed-evict limit ((j, i) ∷ before) k id entries h b = ground (
    arith,
    listed-evict limit before k id (evict_one j i entries)
        (evict_one-IsListed j i (before ++ (k, id) ∷ []) entries h)
        (evict_one-AreBelow j i id entries b),
    listed-append before ((k, id) ∷ []) k id,
    shared_key_refl k,
  )

  pub length-insert :
      (entries : Entries V) (k : SharedCacheKey) (r : SharedCacheRecord V)
      → length (Table.insert entries k r) ≤ length entries + 1
  unfolding Table.insert
  length-insert [] k r = omega arith
  length-insert ((j, s) ∷ entries) k r = ground (arith, length-insert entries k r)

  pub length-insert_new :
      (entries : Entries V) (k : SharedCacheKey) (r : SharedCacheRecord V)
      → Table.get entries k ≡ none
      → length (Table.insert entries k r) ≡ length entries + 1
  unfolding Table.insert Table.get
  length-insert_new [] k r h = omega arith
  length-insert_new ((j, s) ∷ entries) k r h = ground (arith, length-insert_new entries k r)

pub listed-eq :
    (order : List (SharedCacheKey × ℕ)) (j k : SharedCacheKey) (id : ℕ)
    → shared_key_beq j k ≡ true
    → listed order j id ≡ listed order k id
listed-eq [] j k id h = refl
listed-eq ((i, n) ∷ order) j k id h =
    ground (arith, eq_congr j k i h, eq_sym i j, eq_sym i k, listed-eq order j k id h)
