-- ===== src/Interned/Loading.antt =====
-- Loading interned values from records: what a load that succeeds leaves, and one that fails.
use Prim.Native.Nat.{max}
use picante.Base.{
  ℕ, ◌+◌, ◌<◌, ◌^◌, ◌≡◌, refl, sym, ap, ◌∙◌, subst, ◌≤◌, true, none, some, List, [], ◌∷◌, ◌++◌,
  arith, inl, inr, Option-cases, Bool-cases,
}
use picante.Base.Eq.{nat_eq}
use picante.Base.Results.{ok, err, Result-cases}
use picante.Base.Table
use picante.Base.Table.{get-insert, get-eq}
use picante.Key.{Key, Hasher, Codec, key_eq, key_beq}
use picante.Error.{PicanteError, PicanteResult}
use picante.Encoding.{encode_facet}
use picante.Interned.Defs.{
  InternId, Interned, InternedRecord, intern, intern_at, load_value, load_decoded, load_one,
  load_loop, load_records, clear, then_load, load_end,
}
use picante.Interned.Stability.{IsInterned}

module _ {K : Type 0} ⦃h : Hasher⦄ (c : Codec K) (rc : Codec (InternedRecord K)) where
  -- The loop never moves the counter.
  next_id-load_one :
      (bytes : List ℕ) (max_id : ℕ) (t : Interned K)
      → (load_one c rc bytes max_id t).1.next_id ≡ t.next_id
  unfolding load_one load_decoded load_value
  next_id-load_one bytes max_id t = ground arith

  next_id-load_loop :
      (records : List (List ℕ)) (max_id : ℕ) (t : Interned K)
      → (load_loop c rc records max_id t).1.next_id ≡ t.next_id
  unfolding load_loop
  next_id-load_loop [] max_id t = refl
  next_id-load_loop (bytes ∷ rest) max_id t =
      let t' = (load_one c rc bytes max_id t).1 in
      elim (Result-cases (load_one c rc bytes max_id t).0) [
        | inl (m, p) ↦
            ground (arith, p, next_id-load_loop rest m t', next_id-load_one bytes max_id t)
        | inr (e, p) ↦ ground (arith, p, next_id-load_one bytes max_id t)
      ]

  -- What the loop keeps: ids are listed under the keys of their values, up to the largest one.
  record IsLoaded (max_id : ℕ) (t : Interned K) : Type 0 where
    valued :
        (k : Key) (id : InternId)
        → Table.get t.by_value k ≡ some id
        → (v : K) × (j : Key) × (Table.get t.by_id id.num ≡ some v)
          × (encode_facet c v ≡ ok j)
          × (key_beq j k ≡ true)
    bound : (id : ℕ) (v : K) → Table.get t.by_id id ≡ some v → id ≤ max_id

  IsLoaded-value :
      (key : Key) (max_id : ℕ) (rec : InternedRecord K) (t : Interned K) (m : ℕ)
      → IsLoaded max_id t
      → Table.get t.by_id rec.id ≡ none
      → encode_facet c rec.value ≡ ok key
      → (load_value c rc key (max max_id rec.id) rec t).0 ≡ ok m
      → IsLoaded m (load_value c rc key (max max_id rec.id) rec t).1
  unfolding load_value
  IsLoaded-value key max_id rec t m l free e p = elim (Option-cases (Table.get t.by_value key)) [
    | inr (id, q) ↦ ground (arith, q)
    | inl q ↦
        let bigger : m ≡ max max_id rec.id = ground (arith, q) in
        rw (q, load_value)
          (record {
            valued = λ k' id u. elim (Bool-cases (key_beq key k')) [
              | inl same ↦ (
                rec.value,
                key,
                ground (
                  arith,
                  get-insert t.by_value key k' (record { num = rec.id }),
                  get-insert t.by_id rec.id id.num rec.value,
                ),
                e,
                same,
              )
              | inr other ↦
                  let (w, j, a, b, d) =
                    l.valued k' id
                      (ground (arith, get-insert t.by_value key k' (record { num = rec.id }))) in
                  (w, j, ground (arith, get-insert t.by_id rec.id id.num rec.value, a, free), b, d)
            ];
            bound = λ id w u.
                ground (arith, get-insert t.by_id rec.id id rec.value, l.bound id w, bigger);
          })
  ]

  IsLoaded-one :
      (bytes : List ℕ) (max_id : ℕ) (t : Interned K) (m : ℕ)
      → IsLoaded max_id t
      → (load_one c rc bytes max_id t).0 ≡ ok m
      → IsLoaded m (load_one c rc bytes max_id t).1
  unfolding load_one load_decoded
  IsLoaded-one bytes max_id t m l p = elim (Result-cases (rc.from_slice bytes)) [
    | inr (s, q) ↦ ground (arith, q)
    | inl (rec, q) ↦ elim (Option-cases (Table.get t.by_id rec.id)) [
      | inr (v, u) ↦ ground (arith, q, u)
      | inl u ↦ elim (Result-cases (encode_facet c rec.value)) [
        | inr (s, b) ↦ ground (arith, q, u, b)
        | inl (key, b) ↦
            rw (q, u, b, load_one, load_decoded)
              (IsLoaded-value key max_id rec t m l u b (ground (arith, p, q, u, b)))
      ]
    ]
  ]

  IsLoaded-then :
      (rest : ℕ → Interned K → PicanteResult ℕ × Interned K) (r : PicanteResult ℕ) (t : Interned K)
      (m : ℕ)
      → ((n : ℕ) → r ≡ ok n → IsLoaded n t)
      → ((n : ℕ) → IsLoaded n t → (rest n t).0 ≡ ok m → IsLoaded m (rest n t).1)
      → (then_load c rc rest (r, t)).0 ≡ ok m
      → IsLoaded m (then_load c rc rest (r, t)).1
  IsLoaded-then rest (ok n) t m h ih p = ih n (h n refl) p
  IsLoaded-then rest (err e) t m h ih p = ground (arith, p)

  IsLoaded-loop :
      (records : List (List ℕ)) (max_id : ℕ) (t : Interned K) (m : ℕ)
      → IsLoaded max_id t
      → (load_loop c rc records max_id t).0 ≡ ok m
      → IsLoaded m (load_loop c rc records max_id t).1
  unfolding load_loop
  IsLoaded-loop [] max_id t m l p =
      let same : max_id ≡ m = ground (arith, p) in subst (λ n. IsLoaded n t) same l
  IsLoaded-loop (bytes ∷ rest) max_id t m l p =
      IsLoaded-then (load_loop c rc rest) (load_one c rc bytes max_id t).0
        (load_one c rc bytes max_id t).1 m (λ n q. IsLoaded-one bytes max_id t n l q)
        (λ n. IsLoaded-loop rest n (load_one c rc bytes max_id t).1 m) p

  load_end-IsInterned :
      (r : PicanteResult ℕ) (t : Interned K)
      → ((m : ℕ) → r ≡ ok m → IsLoaded m t)
      → (load_end c rc (r, t)).0 ≡ ok tt
      → (load_end c rc (r, t)).1.next_id + 1 < 2 ^ 32
      → IsInterned c (load_end c rc (r, t)).1
  load_end-IsInterned (ok m) t l p small = record {
    valued = (l m refl).valued;
    below = λ id v u. ground (arith, (l m refl).bound id v u, small);
  }
  load_end-IsInterned (err e) t l p small = ground (arith, p)

  -- What a load leaves.
  abbrev pub loaded : List (List ℕ) → Interned K → Interned K
  loaded records t = (load_records c rc records t).1

  -- A load that succeeds, with a counter that is not at the end of `u32`, leaves every id in `by_value`
  -- under the key of its value and every id below the counter, whatever was there before.
  pub load_records-IsInterned :
      (records : List (List ℕ)) (t : Interned K)
      → (load_records c rc records t).0 ≡ ok tt
      → (loaded records t).next_id + 1 < 2 ^ 32
      → IsInterned c (loaded records t)
  unfolding load_records clear Table.get
  load_records-IsInterned records t p small =
      load_end-IsInterned (load_loop c rc records 0 (clear t)).0
        (load_loop c rc records 0 (clear t)).1
        (λ m.
          IsLoaded-loop records 0 (clear t) m
            (record { valued = λ k id u. cc; bound = λ id v u. cc }))
        p small

  then_load-ok :
      (rest : ℕ → Interned K → PicanteResult ℕ × Interned K) (o : PicanteResult ℕ × Interned K)
      (m : ℕ)
      → (then_load c rc rest o).0 ≡ ok m
      → (n : ℕ) × (o.0 ≡ ok n) × ((rest n o.1).0 ≡ ok m) × (then_load c rc rest o ≡ rest n o.1)
  then_load-ok rest (ok n, t) m h = (n, refl, h, refl)
  then_load-ok rest (err e, t) m h = ground (arith, h)

  -- A loop that loads some records goes on with the others.
  load_loop-append :
      (before rest : List (List ℕ)) (max_id m : ℕ) (t : Interned K)
      → (load_loop c rc before max_id t).0 ≡ ok m
      → load_loop c rc (before ++ rest) max_id t
        ≡ load_loop c rc rest m (load_loop c rc before max_id t).1
  unfolding load_loop
  load_loop-append [] rest max_id m t h =
      let same : max_id ≡ m = ground (arith, h) in ap (λ n. load_loop c rc rest n t) same
  load_loop-append (bytes ∷ before) rest max_id m t h =
      let one = load_one c rc bytes max_id t in
      let (n, first, later, opened) = then_load-ok (load_loop c rc before) one m h in
      ap (λ r. then_load c rc (load_loop c rc (before ++ rest)) (r, one.1)) first
      ∙ load_loop-append before rest n m one.1 later
      ∙ ap (λ p. load_loop c rc rest m p.1) (sym opened)

  -- A record that is refused leaves the values as they were.
  by_id-load_one :
      (bytes : List ℕ) (max_id : ℕ) (t : Interned K) (e : PicanteError)
      → (load_one c rc bytes max_id t).0 ≡ err e
      → (load_one c rc bytes max_id t).1.by_id ≡ t.by_id
  unfolding load_one load_decoded load_value
  by_id-load_one bytes max_id t e p = ground (arith, p)

  then_load-err :
      (rest : ℕ → Interned K → PicanteResult ℕ × Interned K) (o : PicanteResult ℕ × Interned K)
      (e : PicanteError)
      → o.0 ≡ err e
      → then_load c rc rest o ≡ (err e, o.1)
  then_load-err rest (ok n, t) e h = ground (arith, h)
  then_load-err rest (err d, t) e h = ap (λ r. (r, t)) h

  load_end-ok :
      (o : PicanteResult ℕ × Interned K)
      → (load_end c rc o).0 ≡ ok tt
      → (m : ℕ) × (o.0 ≡ ok m) × ((load_end c rc o).1.by_id ≡ o.1.by_id)
  load_end-ok (ok m, t) h = (m, refl, refl)
  load_end-ok (err e, t) h = ground (arith, h)

  -- One record alone.
  load_loop-one :
      (bytes : List ℕ) (m : ℕ) (t : Interned K) (e : PicanteError)
      → (load_end c rc (load_loop c rc (bytes ∷ []) m t)).0 ≡ err e
      → (load_one c rc bytes m t).0 ≡ err e
  unfolding load_loop
  load_loop-one bytes m t e h = elim (Result-cases (load_one c rc bytes m t).0) [
    | inl (n, p) ↦ ground (arith, h, p)
    | inr (d, p) ↦ ground (arith, h, p)
  ]

  -- Let the records before a bad one load on their own, and let the load fail at the bad one. Then the
  -- load of the whole list answers that error, whatever comes behind; the values of the records before
  -- are in the table, under their ids, but the counter is zero. So the next value that is interned, if
  -- its key was not loaded, gets id zero, and takes it over from a value that was loaded with it.
  pub load_records-fails :
      (before after : List (List ℕ)) (bad : List ℕ) (t : Interned K) (e : PicanteError)
      → (load_records c rc before t).0 ≡ ok tt
      → (load_records c rc (before ++ bad ∷ []) t).0 ≡ err e
      → (w : K) (k : Key) → encode_facet c w ≡ ok k
      → Table.get (loaded (before ++ bad ∷ after) t).by_value k ≡ none
      → ((load_records c rc (before ++ bad ∷ after) t).0 ≡ err e)
        × ((loaded (before ++ bad ∷ after) t).by_id ≡ (loaded before t).by_id)
        × ((loaded (before ++ bad ∷ after) t).next_id ≡ 0)
        × ((r : Interned K) × (intern c w (loaded (before ++ bad ∷ after) t)
              ≡ ok (record { num = 0 }, r))
            × (Table.get r.by_id 0 ≡ some w))
  unfolding load_records clear intern intern_at
  load_records-fails before after bad t e good fails w k enc free =
      let first = load_loop c rc before 0 (clear t) in
      let (m, p, kept) = load_end-ok first good in
      let refused : (load_one c rc bad m first.1).0 ≡ err e = load_loop-one bad m first.1 e (
        ap (λ o. (load_end c rc o).0) (sym (load_loop-append before (bad ∷ []) 0 m (clear t) p))
        ∙ fails) in
      let ended : load_loop c rc (before ++ bad ∷ after) 0 (clear t)
          ≡ (err e, (load_one c rc bad m first.1).1) =
        load_loop-append before (bad ∷ after) 0 m (clear t) p
        ∙ unfold load_loop in
          then_load-err (load_loop c rc after) (load_one c rc bad m first.1) e refused in
      let whole : load_records c rc (before ++ bad ∷ after) t
          ≡ (err e, (load_one c rc bad m first.1).1) =
        ap (load_end c rc) ended in
      let zero_id : (loaded (before ++ bad ∷ after) t).next_id ≡ 0 =
        ap (λ o. o.1.next_id) whole
        ∙ next_id-load_one bad m first.1
        ∙ next_id-load_loop before 0 (clear t) in
      let t' = loaded (before ++ bad ∷ after) t in
      (
        ap (λ o. o.0) whole,
        ap (λ o. o.1.by_id) whole ∙ by_id-load_one bad m first.1 e refused ∙ sym kept,
        zero_id,
        (
          (intern_at c k w t').1,
          ground (arith, enc, free, zero_id),
          ground (arith, free, zero_id, get-insert t'.by_id t'.next_id 0 w),
        ),
      )
