-- ===== src/Derived/Revalidation.antt =====
-- `try_revalidate` on dependencies that are not derived queries, against a description of what a
-- value's dependencies must be for it to stay valid.
use picante.Base.{
  ◌≡◌, refl, ap, ◌∙◌, Bool, true, false, ◌&&◌, Option, none, some, List, [], ◌∷◌, arith, not, ltb,
  All, if◌then◌else◌,
}
use picante.Base.Results.{ok, err}
use picante.Base.Table
use picante.Key.{Revision, DynKey, Dep, dyn_key_eq}
use picante.Frame.{ActiveFrame, Stack, new_frame, push_frame, pop_frame}
use picante.Input.{InputEntry, revision_0}
use picante.Derived.World.{World, M, guarded, returned, pure, with_frame, ◌>>=◌, set_stack}
use picante.Derived.Compute.{Config, Sort, input, derived, interned}
use picante.Derived.Rounds.{Access, touch_deps, touch_dep, try_revalidate}

-- A dependency is a leaf if asking for its revision runs no query and fails with no error.
abbrev pub is_leaf : Dep → Option Sort → Bool
is_leaf d none = true
is_leaf d (some input) = true
is_leaf d (some derived) = false
is_leaf d (some (interned t)) = elim (t d.key) [ ok r ↦ true | err e ↦ false ]

pub pop_push : (f : ActiveFrame) (s : Stack) → pop_frame (push_frame f s) ≡ s
unfolding push_frame pop_frame
pop_push f none = refl
pop_push f (some fs) = refl

module _ {V : Type 0} where
  abbrev input_revision : Table.Table DynKey (InputEntry V) → Dep → Revision
  input_revision inputs d = elim (Table.get inputs (record { kind = d.kind; key = d.key })) [
    | none ↦ revision_0
    | some e ↦ e.changed_at
  ]

  -- A leaf is unchanged if its ingredient is there and its revision is not after the value's.
  abbrev pub is_unchanged : Table.Table DynKey (InputEntry V) → Revision → Dep → Option Sort → Bool
  is_unchanged inputs self_changed_at d none = false
  is_unchanged inputs self_changed_at d (some input) =
      not (ltb self_changed_at.num (input_revision inputs d).num)
  is_unchanged inputs self_changed_at d (some derived) = false
  is_unchanged inputs self_changed_at d (some (interned t)) = elim (t d.key) [
    | ok r ↦ not (ltb self_changed_at.num r.num)
    | err e ↦ false
  ]

  -- Every one of the dependencies is unchanged.
  abbrev pub all_unchanged :
      Config V → Table.Table DynKey (InputEntry V) → Revision → List Dep → Bool
  all_unchanged x inputs self_changed_at [] = true
  all_unchanged x inputs self_changed_at (d ∷ deps) =
      is_unchanged inputs self_changed_at d (x.ingredient d.kind)
      && all_unchanged x inputs self_changed_at deps

module _ {V : Type 0} (x : Config V) (access : Access V) (self_changed_at : Revision)
    (w : World V) where
  abbrev pub after_touch : Dep → Option Sort → M V Bool → M V Bool
  after_touch d s rest = elim s [
    | none ↦ pure false
    | some i ↦ touch_dep access i d >>= λ changed_at.
        if ltb self_changed_at.num changed_at.num then pure false else rest
  ]

  -- One dependency, before what is done for the others.
  touch_dep-leaf :
      (d : Dep) (s : Option Sort) (rest : M V Bool) (b : Bool)
      → is_leaf d s ≡ true
      → rest w ≡ (returned b, w)
      → after_touch d s rest w ≡ (returned (is_unchanged w.inputs self_changed_at d s && b), w)
  unfolding touch_dep
  touch_dep-leaf d none rest b l h = refl
  touch_dep-leaf d (some input) rest b l h = ground (arith, h)
  touch_dep-leaf d (some derived) rest b l h = ground arith
  touch_dep-leaf d (some (interned t)) rest b l h = ground (arith, h)

  pub touch_deps-leaves :
      (deps : List Dep)
      → All (λ d. is_leaf d (x.ingredient d.kind) ≡ true) deps
      → touch_deps x access self_changed_at deps w
        ≡ (returned (all_unchanged x w.inputs self_changed_at deps), w)
  unfolding touch_deps
  touch_deps-leaves [] l = refl
  touch_deps-leaves (d ∷ deps) (l, ls) =
      touch_dep-leaf d (x.ingredient d.kind) (touch_deps x access self_changed_at deps)
        (all_unchanged x w.inputs self_changed_at deps) l (touch_deps-leaves deps ls)

module _ {V : Type 0} (x : Config V) (access : Access V) where
  -- Let no dependency of a value be a derived query, and no interned one be unknown to its ingredient.
  -- Then revalidation answers whether each of them has an ingredient and a revision that is not after
  -- the one at which the value changed. It leaves the world as it was, the stack included.
  pub try_revalidate-leaves :
      (requested : DynKey) (rev : Revision) (deps : List Dep) (self_changed_at : Revision)
      (w : World V)
      → All (λ d. is_leaf d (x.ingredient d.kind) ≡ true) deps
      → try_revalidate x access requested rev deps self_changed_at w
        ≡ (returned (all_unchanged x w.inputs self_changed_at deps), w)
  unfolding try_revalidate with_frame
  try_revalidate-leaves requested rev deps self_changed_at w l =
      ap (guarded (λ w'. set_stack (pop_frame w'.stack) w')) (
        touch_deps-leaves x access self_changed_at
          (set_stack (push_frame (new_frame requested rev) w.stack) w) deps l)
      ∙ ap (λ s. (returned (all_unchanged x w.inputs self_changed_at deps), set_stack s w))
          (pop_push (new_frame requested rev) w.stack)
