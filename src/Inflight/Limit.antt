-- ===== src/Inflight/Limit.antt =====
-- What `shared_cache_put` promises: the record is found, others are found as before or are gone, and
-- the cache holds at most one record more than its limit.
use picante.Base.{
  ℕ, ◌+◌, ◌≤◌, ◌<◌, ◌^◌, ◌≡◌, false, Option, none, some, [], ◌∷◌, ◌++◌, arith, length,
  if◌then◌else◌, ◌⊎◌,
}
use picante.Base.Table.{get-insert}
use picante.Key.{QueryKindId, Key}
use picante.Runtime.{RuntimeId}
use picante.Inflight.SharedCache.{
  SharedCache, SharedCacheRecord, SharedCacheKey, shared_key_beq, shared_key_eq, shared_cache_get,
  shared_cache_put, shared_cache_max_entries, evict,
}
use picante.Inflight.Eviction.{
  listed-append, IsListed, AreBelow, get-evict, length-evict, evict-IsListed, listed-evict,
  length-insert, length-insert_new, listed-eq, evict_idle,
}

-- Each record's insertion is queued, and its id was handed out before.
pub record IsCache {ℓ} {V : Type ℓ} (c : SharedCache V) : Type ℓ where
  pub is_listed : IsListed c.order c.entries
  pub are_below : AreBelow c.next_insert_id c.entries

abbrev at : RuntimeId → QueryKindId → Key → SharedCacheKey
at id kind key = record { runtime_id = id; kind = kind; key = key }

module _ {ℓ} {V : Type ℓ} (env : Option ℕ) (id : RuntimeId) (kind : QueryKindId) (key : Key) where
  queued-IsListed :
      (c : SharedCache V)
      → IsCache c
      → IsListed (c.order ++ ((at id kind key), c.next_insert_id) ∷ []) c.entries
  queued-IsListed c h k r p = ground (
    arith,
    listed-append c.order (((at id kind key), c.next_insert_id) ∷ []) k r.insert_id,
    h.is_listed k r p,
  )

  -- After a put the key's record is the one put, under a new insertion id, and the record of any
  -- other key is as it was or evicted.
  pub shared_cache_get-put :
      (r : SharedCacheRecord V) (c : SharedCache V) (id' : RuntimeId) (kind' : QueryKindId)
      (key' : Key)
      → let c' = shared_cache_put env id kind key r c in
        let k : SharedCacheKey = record { runtime_id = id'; kind = kind'; key = key' } in
        (shared_cache_get id' kind' key' c' ≡ (
          if shared_key_beq (at id kind key) k
          then some (record r { insert_id = c.next_insert_id })
          else shared_cache_get id' kind' key' c))
        ⊎ ((shared_key_beq (at id kind key) k ≡ false)
            × (shared_cache_get id' kind' key' c' ≡ none))
  unfolding shared_cache_get shared_cache_put
  shared_cache_get-put r c id' kind' key' =
      let k : SharedCacheKey = record { runtime_id = id'; kind = kind'; key = key' } in
      let limit = shared_cache_max_entries env c in
      let order = c.order ++ ((at id kind key), c.next_insert_id) ∷ [] in
      ground (
        arith,
        get-insert (evict limit order c.entries).1 (at id kind key) k
            (record r { insert_id = c.next_insert_id }),
        get-evict limit order c.entries k,
      )

  -- A put keeps the queue complete, so that no record can escape eviction, and leaves at most one
  -- record more than the limit.
  pub put-IsCache :
      (r : SharedCacheRecord V) (c : SharedCache V)
      → IsCache c
      → c.next_insert_id + 1 < 2 ^ 64
      → IsCache (shared_cache_put env id kind key r c)
        × (length (shared_cache_put env id kind key r c).entries
            ≤ shared_cache_max_entries env c + 1)
  unfolding shared_cache_put
  put-IsCache r c h small =
      let limit = shared_cache_max_entries env c in
      let order = c.order ++ ((at id kind key), c.next_insert_id) ∷ [] in
      let r' : SharedCacheRecord V = record r { insert_id = c.next_insert_id } in
      let (order', entries') = evict limit order c.entries in
      let q = queued-IsListed c h in
      (
        record {
          is_listed = λ k s p. ground (
            arith,
            get-insert entries' (at id kind key) k r',
            evict-IsListed limit order c.entries q k s,
            listed-evict limit c.order (at id kind key) c.next_insert_id c.entries q h.are_below,
            listed-eq order' (at id kind key) k c.next_insert_id,
          );
          are_below = λ k s p. ground (
            arith,
            get-insert entries' (at id kind key) k r',
            get-evict limit order c.entries k,
            h.are_below k s,
          );
        },
        omega (
          arith,
          length-insert entries' (at id kind key) r',
          length-evict limit order c.entries q,
        ),
      )

  -- On a cache that holds exactly its limit, the put of a new key leaves one record too many.
  pub put_over_limit :
      (r : SharedCacheRecord V) (c : SharedCache V)
      → length c.entries ≡ shared_cache_max_entries env c
      → shared_cache_get id kind key c ≡ none
      → length (shared_cache_put env id kind key r c).entries ≡ shared_cache_max_entries env c + 1
  unfolding shared_cache_put shared_cache_get
  put_over_limit r c full new =
      let limit = shared_cache_max_entries env c in
      let order = c.order ++ ((at id kind key), c.next_insert_id) ∷ [] in
      rw (evict_idle limit order c.entries (omega arith)) (
        omega (
          arith,
          length-insert_new c.entries (at id kind key) (record r { insert_id = c.next_insert_id })
              new,
        ))
