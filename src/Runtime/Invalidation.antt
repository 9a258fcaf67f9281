-- ===== src/Runtime/Invalidation.antt =====
-- `propagate_invalidation` reaches exactly the transitive dependents of the changed key.
use picante.Base.{
  ℕ, zero, suc, ◌<◌, ◌≡◌, refl, ap, ◌↔◌, true, false, ◌||◌, ◌⊎◌, some, List, [], ◌∷◌, ◌++◌, map,
  arith, length, inl, inr, Bool-cases,
}
use picante.Base.Eq.{◌==◌}
use picante.Base.Table
use picante.Base.Table.{get-eq}
use picante.Base.Set.{contains, contains-append, distinct, missing-le}
use picante.Key.{DynKey, Revision, dyn_key_eq}
use picante.Key.Equality.{dyn_key_refl}
use picante.Runtime.Defs.{Runtime, Reverse, dependents_of}
use picante.Runtime.Propagation.{
  Walk, visit, walk, start_walk, edges, invalidation_fuel, invalidated, propagate_invalidation,
}
use picante.Runtime.Walks.{
  IsOnce, IsOnce-visit, contains_seen-visit, contains_sent-visit, contains_queue-visit, remaining,
  remaining-visit,
}

-- The keys that depend on the source, directly or through others.
pub data Reaches (rev : Reverse) (source : DynKey) : DynKey → Type 0 where
  here : (k : DynKey) → (source == k) ≡ true → Reaches rev source k
  next :
      (k d : DynKey)
      → Reaches rev source k
      → contains (dependents_of rev k) d ≡ true
      → Reaches rev source d

pub record IsWalk (rev : Reverse) (source : DynKey) (w : Walk) : Type 0 where
  pub reached : (y : DynKey) → contains w.seen y ≡ true → Reaches rev source y
  pub parts : (y : DynKey) → contains w.seen y ≡ (source == y || contains w.sent y)
  pub fresh : (y : DynKey) → contains w.sent y ≡ true → (source == y) ≡ false
  pub queued : (y : DynKey) → contains w.queue y ≡ true → contains w.seen y ≡ true
  pub closed :
      (x y : DynKey)
      → contains w.seen x ≡ true
      → contains w.queue x ≡ false
      → contains (dependents_of rev x) y ≡ true
      → contains w.seen y ≡ true
  pub once : IsOnce w

dependents_of-eq :
    (rev : Reverse) (a b : DynKey) → (a == b) ≡ true → dependents_of rev a ≡ dependents_of rev b
dependents_of-eq rev a b h = ground (arith, get-eq rev a b h)

contains-edges :
    (rev : Reverse) (x y : DynKey)
    → contains (dependents_of rev x) y ≡ true
    → contains (edges rev) y ≡ true
unfolding edges contains Table.get
contains-edges [] x y h = ground arith
contains-edges ((k, set) ∷ rev) x y h =
    ground (arith, contains-append set (edges rev) y, contains-edges rev x y)

module _ (rev : Reverse) (source : DynKey) where
  start_walk-IsWalk : IsWalk rev source (start_walk source)
  unfolding start_walk contains distinct
  start_walk-IsWalk = record {
    reached = λ y h. here y (ground arith);
    parts = λ y. refl;
    fresh = λ y h. ground arith;
    queued = λ y h. h;
    closed = λ x y p q r. ground arith;
    once = record { once = refl; sent_seen = λ y h. ground arith };
  }

  -- One round of the loop.
  advance : DynKey → List DynKey → Walk → Walk
  advance node rest w = visit (dependents_of rev node) (record w { queue = rest })

  advance-IsWalk :
      (node : DynKey) (rest : List DynKey) (w : Walk)
      → w.queue ≡ node ∷ rest
      → IsWalk rev source w
      → IsWalk rev source (advance node rest w)
  unfolding advance contains
  advance-IsWalk node rest w e h =
      let ds = dependents_of rev node in
      let w' : Walk = record w { queue = rest } in
      let front : (y : DynKey) → contains w.queue y ≡ (node == y || contains rest y) = λ y. rw e in
      let node_seen : contains w.seen node ≡ true =
        h.queued node (ground (arith, front node, dyn_key_refl node)) in
      record {
        reached = λ y p. elim (Bool-cases (contains w.seen y)) [
          | inl old ↦ h.reached y old
          | inr new ↦
              next node y (h.reached node node_seen) (ground (arith, contains_seen-visit ds w' y))
        ];
        parts = λ y.
            ground (arith, contains_seen-visit ds w' y, contains_sent-visit ds w' y, h.parts y);
        fresh = λ y p. ground (arith, contains_sent-visit ds w' y, h.parts y, h.fresh y);
        queued = λ y p.
            ground (
              arith,
              contains_queue-visit ds w' y,
              contains_seen-visit ds w' y,
              h.queued y,
              front y,
            );
        closed = λ x y p q r. ground (
          arith,
          contains_seen-visit ds w' x,
          contains_seen-visit ds w' y,
          contains_queue-visit ds w' x,
          front x,
          dependents_of-eq rev node x,
          h.closed x y,
        );
        once = IsOnce-visit ds w' (record { once = h.once.once; sent_seen = h.once.sent_seen });
      }

  advance-remaining :
      (node : DynKey) (rest : List DynKey) (w : Walk)
      → w.queue ≡ node ∷ rest
      → remaining (edges rev) (advance node rest w) < remaining (edges rev) w
  unfolding advance
  advance-remaining node rest w e = omega (
    arith,
    remaining-visit (edges rev) (dependents_of rev node) (record w { queue = rest })
        (λ y p. contains-edges rev node y p),
    ap length e,
  )

  List-cases : (q : List DynKey) → (q ≡ []) ⊎ ((n : DynKey) × (r : List DynKey) × (q ≡ n ∷ r))
  List-cases [] = inl refl
  List-cases (n ∷ r) = inr (n, r, refl)

  -- The fuel is enough, and the loop ends with its invariant and an empty queue.
  pub walk-total :
      (fuel : ℕ) (w : Walk)
      → remaining (edges rev) w < fuel
      → IsWalk rev source w
      → (w' : Walk) × (walk fuel rev w ≡ some w') × IsWalk rev source w' × (w'.queue ≡ [])
  unfolding walk advance
  walk-total zero w m h = absurd (omega arith)
  walk-total (suc fuel) w m h = elim (List-cases w.queue) [
    | inl e ↦ (w, ground arith, h, e)
    | inr (node, rest, e) ↦
        let (w', p, i, d) =
          walk-total fuel (advance node rest w) (omega (arith, advance-remaining node rest w e))
            (advance-IsWalk node rest w e h) in
        (w', rw (e, walk) p, i, d)
  ]

  seen-Reaches :
      (w : Walk) (k : DynKey)
      → IsWalk rev source w
      → w.queue ≡ []
      → Reaches rev source k
      → contains w.seen k ≡ true
  seen-Reaches w k i e (here _ p) = ground (arith, i.parts k)
  seen-Reaches w k i e (next j _ r p) =
      i.closed j k (seen-Reaches w j i e r) (rw e (unfold contains in refl)) p

  walk_source :
      (w : Walk) × (walk (invalidation_fuel rev) rev (start_walk source) ≡ some w)
      × IsWalk rev source w
      × (w.queue ≡ [])
  walk_source =
      walk-total (invalidation_fuel rev) (start_walk source)
        (unfold start_walk in omega (arith, missing-le (edges rev) (source ∷ []))) start_walk-IsWalk

-- The loop ends, and an invalidation event is sent for a key exactly when the key is not the source
-- and reaches it through dependencies; no key is sent twice, and nothing else of the runtime changes.
pub propagate_invalidation_lem :
    (revision : Revision) (source : DynKey) (rt : Runtime)
    → (ks : List DynKey) × (propagate_invalidation revision source rt
        ≡ record rt { events = map (invalidated revision source) ks ++ rt.events })
      × (distinct ks ≡ true)
      × ((k : DynKey)
          → (contains ks k ≡ true) ↔ (Reaches rt.reverse_deps source k × ((source == k) ≡ false)))
unfolding propagate_invalidation
propagate_invalidation_lem revision source rt =
    let (w, p, i, e) = walk_source rt.reverse_deps source in
    (
      w.sent,
      rw (p, propagate_invalidation),
      i.once.once,
      λ k. (
        λ h. (i.reached k (i.once.sent_seen k h), i.fresh k h),
        λ h. ground (arith, seen-Reaches rt.reverse_deps source w k i e h.0, i.parts k, h.1),
      ),
    )
