-- ===== src/Interned/Stability.antt =====
-- Interning gives equal values one id and different values different ids, and an id keeps its value.
use picante.Base.{
  ℕ, ◌+◌, ◌<◌, ◌^◌, ◌≡◌, ap, subst, ◌≤◌, ◌↔◌, true, some, arith, String, inl, inr, Option-cases,
  Bool-cases,
}
use picante.Base.Eq.{nat_eq}
use picante.Base.Results.{ok, Result-cases}
use picante.Base.Table
use picante.Base.Table.{get-insert, get-eq}
use picante.Key.{Key, Hasher, Codec, RoundTrips, key_eq, key_beq, QueryKindId}
use picante.Key.Equality.{key_refl, key_sym}
use picante.Encoding.{encode_facet, encode_facet-injective}
use picante.Interned.Defs.{InternId, Interned, intern, intern_at, get, new}

-- The id that is listed under a key has a value with that key, and the ids with a value are below the
-- counter.
pub record IsInterned {K : Type 0} ⦃h : Hasher⦄ (c : Codec K) (t : Interned K) : Type 0 where
  pub valued :
      (k : Key) (id : InternId)
      → Table.get t.by_value k ≡ some id
      → (v : K) × (j : Key) × (Table.get t.by_id id.num ≡ some v)
        × (encode_facet c v ≡ ok j)
        × (key_beq j k ≡ true)
  pub below : (id : ℕ) (v : K) → Table.get t.by_id id ≡ some v → id < t.next_id

module _ {K : Type 0} ⦃h : Hasher⦄ (c : Codec K) where
  intern_at-IsInterned :
      (k : Key) (v : K) (t : Interned K)
      → IsInterned c t
      → encode_facet c v ≡ ok k
      → t.next_id + 1 < 2 ^ 32
      → IsInterned c (intern_at c k v t).1
  unfolding intern_at
  intern_at-IsInterned k v t i e small = elim (Option-cases (Table.get t.by_value k)) [
    | inr (id, p) ↦ rw (p, intern_at) i
    | inl p ↦
        rw (p, intern_at)
          (record {
            valued = λ k' id q. elim (Bool-cases (key_beq k k')) [
              | inl same ↦ (
                v,
                k,
                ground (
                  arith,
                  get-insert t.by_value k k' (record { num = t.next_id }),
                  get-insert t.by_id t.next_id id.num v,
                ),
                e,
                same,
              )
              | inr other ↦
                  let (w, j, a, b, d) =
                    i.valued k' id
                      (ground (arith, get-insert t.by_value k k' (record { num = t.next_id }))) in
                  (
                    w,
                    j,
                    ground (arith, get-insert t.by_id t.next_id id.num v, i.below id.num w a),
                    b,
                    d,
                  )
            ];
            below = λ id w q. ground (arith, get-insert t.by_id t.next_id id v, i.below id w);
          })
  ]

  intern-ok :
      (v : K) (t : Interned K) (id : InternId) (t' : Interned K)
      → intern c v t ≡ ok (id, t')
      → (k : Key) × (encode_facet c v ≡ ok k) × (intern_at c k v t ≡ (id, t'))
  unfolding intern
  intern-ok v t id t' e = elim (Result-cases (encode_facet c v)) [
    | inl (k, p) ↦ (k, p, ground arith)
    | inr (m, p) ↦ ground arith
  ]

  -- Short of the end of `u32`, interning keeps every id in `by_value` under the key of its value, and
  -- every id in `by_id` below the counter.
  pub intern-IsInterned :
      (v : K) (t : Interned K) (id : InternId) (t' : Interned K)
      → IsInterned c t
      → intern c v t ≡ ok (id, t')
      → t.next_id + 1 < 2 ^ 32
      → IsInterned c t'
  intern-IsInterned v t id t' i e small =
      let (k, p, q) = intern-ok v t id t' e in
      subst (λ (r : InternId × Interned K). IsInterned c r.1) q
        (intern_at-IsInterned k v t i p small)

  intern_at-stable :
      (k : Key) (v : K) (t : Interned K) (n : ℕ) (u : K)
      → IsInterned c t
      → Table.get t.by_id n ≡ some u
      → Table.get (intern_at c k v t).1.by_id n ≡ some u
  unfolding intern_at
  intern_at-stable k v t n u i p = ground (arith, get-insert t.by_id t.next_id n v, i.below n u p)

  -- The value under an id never changes.
  pub intern-stable :
      (v : K) (t : Interned K) (id : InternId) (t' : Interned K) (n : ℕ) (u : K)
      → IsInterned c t
      → intern c v t ≡ ok (id, t')
      → Table.get t.by_id n ≡ some u
      → Table.get t'.by_id n ≡ some u
  intern-stable v t id t' n u i e p =
      let (k, _, q) = intern-ok v t id t' e in
      subst (λ (r : InternId × Interned K). Table.get r.1.by_id n ≡ some u) q
        (intern_at-stable k v t n u i p)

  intern_at-found :
      (k : Key) (v : K) (t : Interned K)
      → Table.get (intern_at c k v t).1.by_value k ≡ some (intern_at c k v t).0
  unfolding intern_at
  intern_at-found k v t =
      ground (arith, get-insert t.by_value k k (record { num = t.next_id }), key_refl k)

  intern_at_known :
      (k : Key) (v : K) (t : Interned K) (id : InternId)
      → Table.get t.by_value k ≡ some id
      → intern_at c k v t ≡ (id, t)
  unfolding intern_at
  intern_at_known k v t id p = rw (p, intern_at)

  -- The id that interning returns has the value, and interning it again changes nothing.
  intern-found :
      (r : RoundTrips c) (v : K) (t : Interned K) (id : InternId) (t' : Interned K)
      → IsInterned c t
      → intern c v t ≡ ok (id, t')
      → t.next_id + 1 < 2 ^ 32
      → (Table.get t'.by_id id.num ≡ some v) × (intern c v t' ≡ ok (id, t'))
  unfolding intern
  intern-found r v t id t' i e small =
      let (k, p, q) = intern-ok v t id t' e in
      let found : Table.get t'.by_value k ≡ some id =
        subst (λ (s : InternId × Interned K). Table.get s.1.by_value k ≡ some s.0) q
          (intern_at-found k v t) in
      let (w, j, a, b, d) = (intern-IsInterned v t id t' i e small).valued k id found in
      (
        rw ((encode_facet-injective c r v w k j p b).0 (key_sym j k d)) a,
        rw (p, intern_at_known k v t' id found),
      )

  next_id-intern_at :
      (k : Key) (v : K) (t : Interned K)
      → t.next_id + 1 < 2 ^ 32
      → (intern_at c k v t).1.next_id ≤ t.next_id + 1
  unfolding intern_at
  next_id-intern_at k v t small = ground arith

  -- Two values interned one after the other have one id exactly when they are one value.
  intern-injective :
      (r : RoundTrips c) (v w : K) (t t1 t2 : Interned K) (id id' : InternId)
      → IsInterned c t
      → t.next_id + 2 < 2 ^ 32
      → intern c v t ≡ ok (id, t1)
      → intern c w t1 ≡ ok (id', t2)
      → (id ≡ id') ↔ (v ≡ w)
  intern-injective r v w t t1 t2 id id' i small e f =
      let (k, _, q) = intern-ok v t id t1 e in
      let small' : t1.next_id + 1 < 2 ^ 32 = omega (
        arith,
        next_id-intern_at k v t (omega arith),
        ap (λ (s : InternId × Interned K). s.1.next_id) q,
      ) in
      let i' = intern-IsInterned v t id t1 i e (omega arith) in
      let first = intern-found r v t id t1 i e (omega arith) in
      let second = intern-found r w t1 id' t2 i' f small' in
      let kept = intern-stable w t1 id' t2 id.num v i' f first.0 in
      (
        λ p. ground (arith, kept, second.0, ap (λ (n : InternId). Table.get t2.by_id n.num) p),
        λ p. ground (arith, first.1, f, ap (λ u. intern c u t1) p),
      )

pub new-IsInterned :
    {K : Type 0} ⦃h : Hasher⦄ (c : Codec K) (kind : QueryKindId) (name : String)
    → IsInterned c (new {K = K} kind name)
unfolding new Table.get
new-IsInterned c kind name = record { valued = λ k id p. cc; below = λ id v p. cc }
