-- ===== src/Derived/Stuck.antt =====
-- A shared record whose revalidation fails with an error, and the cell that this leaves.
use picante.Base.{
  ℕ, suc, ◌≡◌, refl, ap, ◌∙◌, Bool, true, false, Option, none, some, List, [], ◌∷◌, ◌++◌, arith,
  ◌==◌, All,
}
use picante.Base.Results.{err}
use picante.Base.Table
use picante.Base.Table.{get-insert}
use picante.Key.{Revision, DynKey, Dep, Key, dyn_key_eq}
use picante.Key.Equality.{dyn_key_refl}
use picante.Error.{PicanteError, PicanteResult}
use picante.Frame.{new_frame, push_frame, pop_frame, find_cycle}
use picante.Runtime.{cache_scope_id, current_revision}
use picante.Inflight.SharedCache.{SharedCacheRecord, shared_cache_get}
use picante.Derived.World.{
  World, M, failed, vacant, running, set_stack, current, with_frame, guarded, blocked, bind, pure,
}
use picante.Derived.Compute.{Config, Sort, input, derived, interned}
use picante.Derived.Cell.{cell_at, set_cell, ensure_cell, try_start, observe}
use picante.Derived.Rounds.{Access, try_revalidate, touch_deps, touch_dep}
use picante.Derived.Revalidation.{pop_push, is_leaf, is_unchanged, all_unchanged, after_touch}
use picante.Derived.Access.{
  adopt_or_compute, start_round, by_observed, round, rounds, access_scoped,
}
use picante.Derived.Outcomes.{access_scoped-running}
use picante.Derived.Consistency.{access_scoped-loop, at}

module _ {V : Type 0} (x : Config V) (requested : DynKey) (want_value : Bool)
    (r : SharedCacheRecord V) (before : List Dep) (d : Dep) (deps : List Dep)
    (touch : Key → PicanteResult Revision) (e : PicanteError) where
  touch_deps-refused :
      (access : Access V) (w : World V)
      → x.ingredient d.kind ≡ some (interned touch)
      → touch d.key ≡ err e
      → touch_deps x access r.changed_at (d ∷ deps) w ≡ (failed e, w)
  unfolding touch_deps touch_dep
  touch_deps-refused access w i f = rw (i, touch_deps, touch_dep, f) refl

  -- One dependency that is unchanged, before the others.
  after_unchanged :
      (access : Access V) (w : World V) (b : Dep) (s : Option Sort) (rest : M V Bool)
      → is_leaf b s ≡ true
      → is_unchanged w.inputs r.changed_at b s ≡ true
      → rest w ≡ (failed e, w)
      → after_touch x access r.changed_at w b s rest w ≡ (failed e, w)
  unfolding touch_dep
  after_unchanged access w b none rest l u h = ground (arith, u)
  after_unchanged access w b (some input) rest l u h = ground (arith, u, h)
  after_unchanged access w b (some derived) rest l u h = ground (arith, l)
  after_unchanged access w b (some (interned t)) rest l u h = ground (arith, l, u, h)

  touch_deps-fails :
      (access : Access V) (w : World V) (bs : List Dep)
      → All (λ b. is_leaf b (x.ingredient b.kind) ≡ true) bs
      → all_unchanged x w.inputs r.changed_at bs ≡ true
      → x.ingredient d.kind ≡ some (interned touch)
      → touch d.key ≡ err e
      → touch_deps x access r.changed_at (bs ++ d ∷ deps) w ≡ (failed e, w)
  unfolding touch_deps
  touch_deps-fails access w [] l u i f = unfold touch_deps in touch_deps-refused access w i f
  touch_deps-fails access w (b ∷ bs) (l, ls) u i f =
      after_unchanged access w b (x.ingredient b.kind)
        (touch_deps x access r.changed_at (bs ++ d ∷ deps)) l (ground (arith, u))
        (touch_deps-fails access w bs ls (ground (arith, u)) i f)

  try_revalidate-fails :
      (access : Access V) (rev : Revision) (w : World V)
      → All (λ b. is_leaf b (x.ingredient b.kind) ≡ true) before
      → all_unchanged x w.inputs r.changed_at before ≡ true
      → x.ingredient d.kind ≡ some (interned touch)
      → touch d.key ≡ err e
      → try_revalidate x access requested rev (before ++ d ∷ deps) r.changed_at w ≡ (failed e, w)
  unfolding try_revalidate with_frame
  try_revalidate-fails access rev w l u i f =
      ap (guarded (λ w'. set_stack (pop_frame w'.stack) w')) (
        touch_deps-fails access (set_stack (push_frame (new_frame requested rev) w.stack) w) before
          l u i f)
      ∙ ap (λ s. (failed e, set_stack s w)) (pop_push (new_frame requested rev) w.stack)

  round-fails :
      (access : Access V) (w : World V)
      → cell_at requested w ≡ vacant
      → shared_cache_get (cache_scope_id w.runtime) requested.kind requested.key w.shared ≡ some r
      → r.deps ≡ before ++ d ∷ deps
      → (r.verified_at.num == w.runtime.current) ≡ false
      → All (λ b. is_leaf b (x.ingredient b.kind) ≡ true) before
      → all_unchanged x w.inputs r.changed_at before ≡ true
      → x.ingredient d.kind ≡ some (interned touch)
      → touch d.key ≡ err e
      → round x access requested want_value w
        ≡ (failed e, set_cell requested (running (current w)) w)
  unfolding round by_observed start_round adopt_or_compute observe try_start current
      current_revision set_cell
  round-fails access w c p ds v l u i f =
      let w' = set_cell requested (running (current w)) w in
      let asked = try_revalidate-fails access (current w) w' l u i f in
      let computed : adopt_or_compute x access requested want_value (current w) none w'
          ≡ (failed e, w') =
        rw (p, v, adopt_or_compute, ds, asked) refl in
      let started : start_round x access requested want_value (current w) w
          ≡ adopt_or_compute x access requested want_value (current w) none w' =
        rw (c, start_round, try_start) refl in
      rw (c, round, by_observed, observe) (started ∙ computed)

  rounds-fails :
      (access : Access V) (n : ℕ) (w w' : World V)
      → round x access requested want_value w ≡ (failed e, w')
      → rounds x access requested want_value (suc n) w ≡ (failed e, w')
  unfolding rounds
  rounds-fails access n w w' h =
      ap
        (λ p.
          bind p
            (λ a. elim a [ some res ↦ pure res | none ↦ rounds x access requested want_value n ]))
        h

  -- Let a database, outside every query, have no cell for a key, and let the shared cache have a record
  -- for it in the database's scope that was not verified at the database's revision. Let one of the
  -- record's dependencies be an interned one that its ingredient refuses, and let those before it run no
  -- query and be unchanged. Then an access fails with the ingredient's error. Every later access of
  -- the key, as long as its cell is what this access left, by a task whose stack does not hold the key,
  -- waits, at any revision and whatever else has changed.
  pub access_scoped-stuck :
      (n m : ℕ) (later_wants : Bool) (w w2 : World V)
      → Table.get w.cells requested ≡ none
      → shared_cache_get (cache_scope_id w.runtime) requested.kind requested.key w.shared ≡ some r
      → r.deps ≡ before ++ d ∷ deps
      → (r.verified_at.num == w.runtime.current) ≡ false
      → All (λ b. is_leaf b (x.ingredient b.kind) ≡ true) before
      → all_unchanged x w.inputs r.changed_at before ≡ true
      → x.ingredient d.kind ≡ some (interned touch)
      → touch d.key ≡ err e
      → Table.get w2.cells requested
        ≡ Table.get (access_scoped x (suc (suc n)) requested want_value (at w)).1.cells requested
      → find_cycle requested w2.stack ≡ none
      → ((access_scoped x (suc (suc n)) requested want_value (at w)).0 ≡ failed e)
        × ((access_scoped x (suc (suc m)) requested later_wants w2).0 ≡ blocked)
  unfolding ensure_cell cell_at set_cell current current_revision
  access_scoped-stuck n m later_wants w w2 c p ds v l u i f same free =
      let access = access_scoped x (suc n) in
      let w' = at (set_cell requested vacant w) in
      let made : at (ensure_cell requested w) ≡ w' = rw (c, ensure_cell) refl in
      let found : cell_at requested w' ≡ vacant =
        ground (arith, get-insert w.cells requested requested vacant, dyn_key_refl requested) in
      let w'' = set_cell requested (running (current w)) w' in
      let done : access_scoped x (suc (suc n)) requested want_value (at w) ≡ (failed e, w'') =
        access_scoped-loop x requested want_value n w
        ∙ rw made (rounds-fails access n w' w'' (round-fails access w' found p ds v l u i f)) in
      let kept : Table.get w2.cells requested ≡ some (running (current w)) =
        same
        ∙ ap (λ a. Table.get a.1.cells requested) done
        ∙ ground (
          arith,
          get-insert w'.cells requested requested (running (current w)),
          dyn_key_refl requested,
        ) in
      (
        ap (λ a. a.0) done,
        ap (λ a. a.0) (access_scoped-running x m requested later_wants w2 (current w) free kept),
      )
