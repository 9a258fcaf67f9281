-- ===== src/Persist/Shrinking.antt =====
-- What dropping records to make a cache file fit does to the file.
use picante.Base.{
  ℕ, zero, suc, ◌+◌, ◌≤◌, ◌≡◌, refl, ◌∙◌, Bool, true, false, none, some, List, [], ◌∷◌, arith,
  length, ltb, leb, ◌⊎◌, inl, inr, if◌then◌else◌, Bool-cases, Option-cases,
}
use picante.Persist.Defs.{
  Section, SectionType, input, derived, interned, insert_by_len, sort_by_len, sort_sections, pop,
  pop_at, best_section, drop_one_record, drop_any, drop_loop,
}

abbrev pub IsIn : List ℕ → List (List ℕ) → Type 0
IsIn r [] = ⊥
IsIn r (s ∷ rs) = (r ≡ s) ⊎ IsIn r rs

-- Records of the one list are records of the other, which is no shorter.
pub record AreFrom (after before : List (List ℕ)) : Type 0 where
  pub among : (r : List ℕ) → IsIn r after → IsIn r before
  pub fewer : length after ≤ length before

IsIn-branch :
    (b : Bool) (r q s : List ℕ) (rs rest : List (List ℕ))
    → (IsIn q rest → (q ≡ r) ⊎ IsIn q rs)
    → IsIn q (if b then r ∷ s ∷ rs else s ∷ rest)
    → (q ≡ r) ⊎ IsIn q (s ∷ rs)
IsIn-branch true r q s rs rest h i = i
IsIn-branch false r q s rs rest h (inl e) = inr (inl e)
IsIn-branch false r q s rs rest h (inr i) = elim (h i) [ inl e ↦ inl e | inr j ↦ inr (inr j) ]

insert-IsIn :
    (r q : List ℕ) (rs : List (List ℕ)) → IsIn q (insert_by_len r rs) → (q ≡ r) ⊎ IsIn q rs
unfolding insert_by_len
insert-IsIn r q [] i = i
insert-IsIn r q (s ∷ rs) i =
    IsIn-branch (leb (length r) (length s)) r q s rs (insert_by_len r rs) (insert-IsIn r q rs) i

insert_length : (r : List ℕ) (rs : List (List ℕ)) → length (insert_by_len r rs) ≡ length rs + 1
unfolding insert_by_len
insert_length r [] = refl
insert_length r (s ∷ rs) = ground (arith, insert_length r rs)

sort-AreFrom : (rs : List (List ℕ)) → AreFrom (sort_by_len rs) rs
unfolding sort_by_len
sort-AreFrom [] = record { among = λ q i. i; fewer = omega arith }
sort-AreFrom (r ∷ rs) =
    let f = sort-AreFrom rs in
    record {
      among = λ q i. elim (insert-IsIn r q (sort_by_len rs) i) [
        | inl e ↦ inl e
        | inr j ↦ inr (f.among q j)
      ];
      fewer = omega (arith, insert_length r (sort_by_len rs), f.fewer);
    }

pop-AreFrom : (rs : List (List ℕ)) → AreFrom (pop rs) rs
unfolding pop
pop-AreFrom [] = record { among = λ q i. i; fewer = omega arith }
pop-AreFrom (r ∷ []) = record { among = λ q i. absurd i; fewer = omega arith }
pop-AreFrom (r ∷ s ∷ rs) =
    let f = pop-AreFrom (s ∷ rs) in
    record {
      among = λ q i. elim i [ inl e ↦ inl e | inr j ↦ inr (f.among q j) ];
      fewer = omega (arith, f.fewer);
    }

-- The same section, but for records that were dropped or moved.
pub record IsPart (after before : Section) : Type 0 where
  pub same_id : after.kind_id ≡ before.kind_id
  pub same_name : after.kind_name ≡ before.kind_name
  pub same_type : after.section_type ≡ before.section_type
  pub from : AreFrom after.records before.records

abbrev pub AreParts : List Section → List Section → Type 0
AreParts [] [] = Unit {0}
AreParts (s ∷ ss) (t ∷ ts) = IsPart s t × AreParts ss ts
AreParts _ _ = ⊥

AreFrom-refl : (rs : List (List ℕ)) → AreFrom rs rs
AreFrom-refl rs = record { among = λ q i. i; fewer = omega arith }

IsPart-refl : (s : Section) → IsPart s s
IsPart-refl s = record {
  same_id = refl;
  same_name = refl;
  same_type = refl;
  from = AreFrom-refl s.records;
}

pub AreParts-refl : (ss : List Section) → AreParts ss ss
AreParts-refl [] = tt
AreParts-refl (s ∷ ss) = (IsPart-refl s, AreParts-refl ss)

pub AreParts-trans : (a b c : List Section) → AreParts a b → AreParts b c → AreParts a c
AreParts-trans [] [] [] p q = tt
AreParts-trans [] [] (z ∷ c) p q = absurd q
AreParts-trans [] (y ∷ b) c p q = absurd p
AreParts-trans (x ∷ a) [] c p q = absurd p
AreParts-trans (x ∷ a) (y ∷ b) [] p q = absurd q
AreParts-trans (x ∷ a) (y ∷ b) (z ∷ c) (p, ps) (q, qs) = (
  record {
    same_id = p.same_id ∙ q.same_id;
    same_name = p.same_name ∙ q.same_name;
    same_type = p.same_type ∙ q.same_type;
    from = record {
      among = λ r i. q.from.among r (p.from.among r i);
      fewer = omega (arith, p.from.fewer, q.from.fewer);
    };
  },
  AreParts-trans a b c ps qs,
)

pub sort_sections-AreParts : (ss : List Section) → AreParts (sort_sections ss) ss
unfolding sort_sections
sort_sections-AreParts [] = tt
sort_sections-AreParts (s ∷ ss) = (
  record { same_id = refl; same_name = refl; same_type = refl; from = sort-AreFrom s.records },
  sort_sections-AreParts ss,
)

pop_at-AreParts : (n : ℕ) (ss : List Section) → AreParts (pop_at n ss) ss
unfolding pop_at
pop_at-AreParts n [] = tt
pop_at-AreParts zero (s ∷ ss) = (
  record { same_id = refl; same_name = refl; same_type = refl; from = pop-AreFrom s.records },
  AreParts-refl ss,
)
pop_at-AreParts (suc n) (s ∷ ss) = (IsPart-refl s, pop_at-AreParts n ss)

drop_one-AreParts :
    (ty : SectionType) (ss ss' : List Section) (current current' : ℕ)
    → drop_one_record ty ss current ≡ some (ss', current')
    → AreParts ss' ss
unfolding drop_one_record
drop_one-AreParts ty ss ss' current current' h = elim (Option-cases (best_section ty 0 ss none)) [
  | inl p ↦ ground (arith, h, p)
  | inr ((idx, len), p) ↦
      let same : pop_at idx ss ≡ ss' = ground (arith, h, p) in rw⁻¹ same (pop_at-AreParts idx ss)
]

drop_any-AreParts :
    (ss ss' : List Section) (current current' : ℕ)
    → drop_any ss current ≡ some (ss', current')
    → AreParts ss' ss
unfolding drop_any
drop_any-AreParts ss ss' current current' h =
    elim (Option-cases (drop_one_record derived ss current)) [
      | inr (r, p) ↦ drop_one-AreParts derived ss ss' current current' (ground (arith, h, p))
      | inl p ↦ elim (Option-cases (drop_one_record input ss current)) [
        | inr (r, q) ↦ drop_one-AreParts input ss ss' current current' (ground (arith, h, p, q))
        | inl q ↦ drop_one-AreParts interned ss ss' current current' (ground (arith, h, p, q))
      ]
    ]

pub drop_loop-AreParts :
    (n budget : ℕ) (ss : List Section) (current : ℕ) → AreParts (drop_loop n budget ss current) ss
unfolding drop_loop
drop_loop-AreParts zero budget ss current = AreParts-refl ss
drop_loop-AreParts (suc n) budget ss current = elim (Bool-cases (ltb budget current)) [
  | inr p ↦ rw (p, drop_loop) (AreParts-refl ss)
  | inl p ↦ elim (Option-cases (drop_any ss current)) [
    | inl q ↦ rw (p, q, drop_loop) (AreParts-refl ss)
    | inr ((ss', current'), q) ↦
        rw (p, q, drop_loop)
          (AreParts-trans (drop_loop n budget ss' current') ss' ss
            (drop_loop-AreParts n budget ss' current')
            (drop_any-AreParts ss ss' current current' q))
  ]
]
