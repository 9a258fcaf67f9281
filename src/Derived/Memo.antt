-- ===== src/Derived/Memo.antt =====
-- When what a database remembers of a query is right: for its cells and for the records of the
-- shared cache. Queries here read inputs only.
use picante.Base.{
  ℕ, ◌+◌, ◌≤◌, ◌≡◌, refl, ◌∙◌, true, Option, some, List, [], ◌∷◌, arith, All, if◌then◌else◌,
}
use picante.Base.Results.{ok, err}
use picante.Base.Table
use picante.Base.Table.{Table}
use picante.Key.{Revision, DynKey, Dep, dep_key, dyn_key_eq, dyn_key_beq}
use picante.Input.{InputEntry}
use picante.Derived.World.{ErasedState, vacant, running, ready, poisoned}
use picante.Derived.Compute.{Comp, Config, Sort, input}
use picante.Derived.Revalidation.{all_unchanged, is_unchanged}
use picante.Derived.Replay.{replay, replay-same, SameAt}

module _ {V : Type 0} (x : Config V) where
  -- A remembered value: what it was verified for holds now, and it is what a run from scratch gives
  -- if it was verified at the current revision, or if none of its dependencies changed after it.
  pub record IsMemo (inputs : Table DynKey (InputEntry V)) (now : ℕ) (c : Comp V) (value : V)
      (verified_at changed_at : Revision) (deps : List Dep) : Type 0 where
    pub verified : verified_at.num ≤ now
    pub changed : changed_at.num ≤ now
    pub leaves : All (λ d. x.ingredient d.kind ≡ some input) deps
    pub fresh : verified_at.num ≡ now → replay inputs c ≡ (ok value, deps)
    pub kept : all_unchanged x inputs changed_at deps ≡ true → replay inputs c ≡ (ok value, deps)

  abbrev pub IsGood : Table DynKey (InputEntry V) → ℕ → Comp V → ErasedState V → Type 0
  IsGood inputs now c vacant = Unit {0}
  IsGood inputs now c (running started_at) = ⊥
  IsGood inputs now c (ready value verified_at changed_at deps) =
      IsMemo inputs now c value verified_at changed_at deps
  IsGood inputs now c (poisoned error verified_at) =
      (verified_at.num ≤ now) × (verified_at.num ≡ now → (replay inputs c).0 ≡ err error)

  -- One entry of the inputs is written, at the next revision.
  pub record Writes (before after : Table DynKey (InputEntry V)) (k : DynKey) (now : ℕ)
      : Type 0 where
    pub entry : InputEntry V
    pub next : entry.changed_at.num ≡ now + 1
    pub written :
        (j : DynKey)
        → Table.get after j ≡ (if dyn_key_beq k j then some entry else Table.get before j)

  unchanged_dep :
      (before after : Table DynKey (InputEntry V)) (k : DynKey) (now : ℕ) (changed_at : Revision)
      (d : Dep) (s : Option Sort)
      → Writes before after k now
      → changed_at.num ≤ now
      → s ≡ some input
      → is_unchanged after changed_at d s ≡ true
      → SameAt before after d × (is_unchanged before changed_at d s ≡ true)
  unchanged_dep before after k now changed_at d s w c e h =
      ground (arith, w.written (dep_key d), w.next)

  -- Dependencies that are unchanged after a write were not written.
  unchanged_deps :
      (before after : Table DynKey (InputEntry V)) (k : DynKey) (now : ℕ) (changed_at : Revision)
      (deps : List Dep)
      → Writes before after k now
      → changed_at.num ≤ now
      → All (λ d. x.ingredient d.kind ≡ some input) deps
      → all_unchanged x after changed_at deps ≡ true
      → All (SameAt before after) deps × (all_unchanged x before changed_at deps ≡ true)
  unchanged_deps before after k now changed_at [] w c l h = (tt, refl)
  unchanged_deps before after k now changed_at (d ∷ deps) w c (l, ls) h =
      let one = unchanged_dep before after k now changed_at d (x.ingredient d.kind) w c l in
      let rest = unchanged_deps before after k now changed_at deps w c ls in
      let a : is_unchanged after changed_at d (x.ingredient d.kind) ≡ true = ground arith in
      let b : all_unchanged x after changed_at deps ≡ true = ground arith in
      (((one a).0, (rest b).0), ground (arith, (one a).1, (rest b).1))

  -- A write at the next revision keeps every remembered value right.
  pub IsMemo-write :
      (before after : Table DynKey (InputEntry V)) (k : DynKey) (now : ℕ) (c : Comp V) (value : V)
      (verified_at changed_at : Revision) (deps : List Dep)
      → Writes before after k now
      → IsMemo before now c value verified_at changed_at deps
      → IsMemo after (now + 1) c value verified_at changed_at deps
  IsMemo-write before after k now c value verified_at changed_at deps w m = record {
    verified = omega (arith, m.verified);
    changed = omega (arith, m.changed);
    leaves = m.leaves;
    fresh = λ e. absurd (omega (arith, m.verified, e));
    kept = λ h.
        let (same, before_too) =
          unchanged_deps before after k now changed_at deps w m.changed m.leaves h in
        let run = m.kept before_too in replay-same before after c (rw run same) ∙ run;
  }

  pub IsGood-write :
      (before after : Table DynKey (InputEntry V)) (k : DynKey) (now : ℕ) (c : Comp V)
      (st : ErasedState V)
      → Writes before after k now
      → IsGood before now c st
      → IsGood after (now + 1) c st
  IsGood-write before after k now c vacant w g = tt
  IsGood-write before after k now c (running r) w g = g
  IsGood-write before after k now c (ready value v ch deps) w g =
      IsMemo-write before after k now c value v ch deps w g
  IsGood-write before after k now c (poisoned e v) w g =
      (omega (arith, g.0), λ h. absurd (omega (arith, g.0, h)))
