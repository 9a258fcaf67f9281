-- ===== src/Persist/Dropping.antt =====
-- The rounds of the loops of persist.rs that drop records.
use picante.Base.{
  ℕ, zero, suc, ◌+◌, ◌<◌, ◌≤◌, ◌≡◌, refl, Option, none, some, List, [], ◌∷◌, arith, length, ltb,
  ◌⊎◌, inl, inr, Bool-cases, Option-cases,
}
use picante.Persist.Defs.{
  Section, SectionType, input, derived, interned, section_type_beq, last_len, pop, better,
  best_section, pop_at, drop_one_record, drop_any, drop_loop, count,
}

length-pop :
    (rs : List (List ℕ)) (len : ℕ) → last_len rs ≡ some len → length (pop rs) + 1 ≡ length rs
unfolding last_len pop
length-pop [] len h = ground (arith, h)
length-pop (r ∷ []) len h = refl
length-pop (r ∷ s ∷ rs) len h = omega (arith, length-pop (s ∷ rs) len h)

better_lem :
    (ty : SectionType) (idx : ℕ) (s : Section) (best : Option (ℕ × ℕ))
    → (better ty idx s best ≡ best)
      ⊎ ((len : ℕ) × (better ty idx s best ≡ some (idx, len)) × (last_len s.records ≡ some len))
unfolding better
better_lem ty idx s best = elim (Bool-cases (section_type_beq s.section_type ty)) [
  | inr p ↦ inl (rw (p, better) refl)
  | inl p ↦ elim (Option-cases (last_len s.records)) [
    | inl q ↦ inl (rw (p, q, better) refl)
    | inr (len, q) ↦ elim (Option-cases best) [
      | inl u ↦ inr (len, rw (p, q, u, better) refl, q)
      | inr ((i, best_len), u) ↦ elim (Bool-cases (ltb best_len len)) [
        | inl v ↦ inr (len, rw (p, q, u, better, v) refl, q)
        | inr v ↦ inl (rw (p, q, u, better, v) refl)
      ]
    ]
  ]
]

-- The section that the search finds has a record to drop.
count-best_section :
    (ty : SectionType) (idx : ℕ) (ss : List Section) (best : Option (ℕ × ℕ)) (i len : ℕ)
    → best_section ty idx ss best ≡ some (i, len)
    → (best ≡ some (i, len)) ⊎ ((k : ℕ) × (i ≡ idx + k) × (count (pop_at k ss) + 1 ≡ count ss))
unfolding best_section count pop_at
count-best_section ty idx [] best i len h = inl h
count-best_section ty idx (s ∷ ss) best i len h =
    elim (count-best_section ty (idx + 1) ss (better ty idx s best) i len h) [
      | inr (k, e, c) ↦ inr (suc k, omega (arith, e), omega (arith, c))
      | inl p ↦ elim (better_lem ty idx s best) [
        | inl q ↦ inl (ground (arith, p, q))
        | inr (l, q, u) ↦ inr (zero, ground (arith, p, q), omega (arith, length-pop s.records l u))
      ]
    ]

count-drop_one :
    (ty : SectionType) (ss ss' : List Section) (current current' : ℕ)
    → drop_one_record ty ss current ≡ some (ss', current')
    → count ss' + 1 ≡ count ss
unfolding drop_one_record
count-drop_one ty ss ss' current current' h = elim (Option-cases (best_section ty 0 ss none)) [
  | inl p ↦ ground (arith, h, p)
  | inr ((idx, len), p) ↦
      let same : pop_at idx ss ≡ ss' = ground (arith, h, p) in
      elim (count-best_section ty 0 ss none idx len p) [
        | inl q ↦ ground (arith, q)
        | inr (k, e, c) ↦ let at : idx ≡ k = omega (arith, e) in rw⁻¹ same (rw at c)
      ]
]

count-drop_any :
    (ss ss' : List Section) (current current' : ℕ)
    → drop_any ss current ≡ some (ss', current')
    → count ss' + 1 ≡ count ss
unfolding drop_any
count-drop_any ss ss' current current' h =
    elim (Option-cases (drop_one_record derived ss current)) [
      | inr (r, p) ↦ count-drop_one derived ss ss' current current' (ground (arith, h, p))
      | inl p ↦ elim (Option-cases (drop_one_record input ss current)) [
        | inr (r, q) ↦ count-drop_one input ss ss' current current' (ground (arith, h, p, q))
        | inl q ↦ count-drop_one interned ss ss' current current' (ground (arith, h, p, q))
      ]
    ]

-- The rounds of the loop: each starts over the budget and drops a record.
pub data Rounds (budget : ℕ) : List Section → ℕ → List Section → ℕ → Type 0 where
  no_round : (ss : List Section) (current : ℕ) → Rounds budget ss current ss current
  one_round :
      (ss ss1 ss2 : List Section) (current current1 current2 : ℕ)
      → budget < current
      → drop_any ss current ≡ some (ss1, current1)
      → count ss1 + 1 ≡ count ss
      → Rounds budget ss1 current1 ss2 current2
      → Rounds budget ss current ss2 current2

-- With more fuel than there are records, the loop makes rounds that each drop one record, and ends by
-- a condition of its own: the records are within the budget, or no section has one to drop.
pub drop_loop-ends :
    (n budget : ℕ) (ss : List Section) (current : ℕ)
    → count ss < n
    → (left : ℕ) × Rounds budget ss current (drop_loop n budget ss current) left
      × ((left ≤ budget) ⊎ (drop_any (drop_loop n budget ss current) left ≡ none))
unfolding drop_loop
drop_loop-ends zero budget ss current h = absurd (omega (arith, h))
drop_loop-ends (suc n) budget ss current h = elim (Bool-cases (ltb budget current)) [
  | inr p ↦ rw (p, drop_loop) (current, no_round ss current, inl (ground (arith, p)))
  | inl p ↦ elim (Option-cases (drop_any ss current)) [
    | inl q ↦ rw (p, q, drop_loop) (current, no_round ss current, inr q)
    | inr ((ss', current'), q) ↦
        let fewer = count-drop_any ss ss' current current' q in
        let (left, rounds, ends) = drop_loop-ends n budget ss' current' (omega (arith, h, fewer)) in
        rw (p, q, drop_loop)
          (left, one_round ss ss' _ current current' left (ground (arith, p)) q fewer rounds, ends)
  ]
]
