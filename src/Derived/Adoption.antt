-- ===== src/Derived/Adoption.antt =====
-- The adoption of a record that another database of the family left in the shared cache.
use picante.Base.{
  ℕ, suc, ◌≡◌, refl, ap, ◌∙◌, Bool, true, false, none, some, Option, arith, All, ◌==◌,
}
use picante.Base.Table
use picante.Base.Table.{get-insert}
use picante.Key.{Revision, DynKey, dyn_key_eq}
use picante.Key.Equality.{dyn_key_refl}
use picante.Runtime.{cache_scope_id, current_revision}
use picante.Inflight.SharedCache.{SharedCacheRecord, shared_cache_get}
use picante.Derived.World.{World, Outcome, returned, vacant, running, current, M, bind, pure}
use picante.Derived.Compute.{Config, input}
use picante.Derived.Cell.{AccessResult, cell_at, set_cell, ensure_cell, try_start, observe}
use picante.Derived.Ends.{adopt_lem, adopted}
use picante.Derived.Rounds.{Access, result}
use picante.Derived.Revalidation.{all_unchanged, try_revalidate-leaves}
use picante.Derived.Access.{
  adopt_or_compute, start_round, by_observed, round, rounds, access_scoped,
}
use picante.Derived.Answers.{input-is_leaf}
use picante.Derived.Consistency.{access_scoped-loop, at}

module _ {V : Type 0} where
  pub bind-returned :
      (o : Outcome (Option (AccessResult V))) (w : World V) (again : M V (AccessResult V))
      (res : AccessResult V)
      → o ≡ returned (some res)
      → (bind (o, w) (λ r. elim r [ some s ↦ pure s | none ↦ again ])).0 ≡ returned res
  bind-returned o w again res h = rw h refl

module _ {V : Type 0} (x : Config V) (requested : DynKey) (want_value : Bool)
    (r : SharedCacheRecord V) where
  adopt_or_compute-adopts :
      (access : Access V) (rev : Revision) (prev : Option (V × Revision)) (w : World V)
      → w.runtime.current ≡ rev.num
      → shared_cache_get (cache_scope_id w.runtime) requested.kind requested.key w.shared ≡ some r
      → (r.verified_at.num == rev.num) ≡ false
      → All (λ d. x.ingredient d.kind ≡ some input) r.deps
      → all_unchanged x w.inputs r.changed_at r.deps ≡ true
      → adopt_or_compute x access requested want_value rev prev w ≡ (
        returned (some (result want_value r.value r.changed_at)),
        adopted x requested want_value rev r w,
      )
  unfolding adopt_or_compute
  adopt_or_compute-adopts access rev prev w n p v l u =
      let asked =
        try_revalidate-leaves x access requested rev r.deps r.changed_at w
          (input-is_leaf x r.deps l) in
      rw (p, v, adopt_or_compute, asked, u) (adopt_lem x requested want_value rev r w n)

  round-adopts :
      (access : Access V) (w : World V)
      → cell_at requested w ≡ vacant
      → shared_cache_get (cache_scope_id w.runtime) requested.kind requested.key w.shared ≡ some r
      → (r.verified_at.num == w.runtime.current) ≡ false
      → All (λ d. x.ingredient d.kind ≡ some input) r.deps
      → all_unchanged x w.inputs r.changed_at r.deps ≡ true
      → (round x access requested want_value w).0
        ≡ returned (some (result want_value r.value r.changed_at))
  unfolding round by_observed start_round observe try_start current current_revision set_cell
  round-adopts access w c p v l u =
      let started : start_round x access requested want_value (current w) w
          ≡ adopt_or_compute x access requested want_value (current w) none
              (set_cell requested (running (current w)) w) =
        rw (c, start_round, try_start) refl in
      rw (c, round, by_observed, observe)
        (ap (λ a. a.0) started
          ∙ ap (λ a. a.0)
              (adopt_or_compute-adopts access (current w) none
                (set_cell requested (running (current w)) w) refl p v l u))

  rounds-last :
      (access : Access V) (n : ℕ) (w : World V) (res : AccessResult V)
      → (round x access requested want_value w).0 ≡ returned (some res)
      → (rounds x access requested want_value (suc n) w).0 ≡ returned res
  unfolding rounds
  rounds-last access n w res h =
      bind-returned (round x access requested want_value w).0
        (round x access requested want_value w).1 (rounds x access requested want_value n) res h

  -- Let a database, outside every query, have no cell for a key, and let the shared cache have a record
  -- for it in the database's scope that was not verified at the database's revision. If the
  -- dependencies of the record are inputs and none has a later revision in the database than the record,
  -- an access returns the value of the record, with its revision. Nothing asks that the record
  -- is not from a later revision than the database's, so that a snapshot is given what newer inputs gave.
  pub access_scoped-adopts :
      (n : ℕ) (w : World V)
      → Table.get w.cells requested ≡ none
      → shared_cache_get (cache_scope_id w.runtime) requested.kind requested.key w.shared ≡ some r
      → (r.verified_at.num == w.runtime.current) ≡ false
      → All (λ d. x.ingredient d.kind ≡ some input) r.deps
      → all_unchanged x w.inputs r.changed_at r.deps ≡ true
      → (access_scoped x (suc (suc n)) requested want_value (at w)).0
        ≡ returned (result want_value r.value r.changed_at)
  unfolding ensure_cell cell_at set_cell
  access_scoped-adopts n w c p v l u =
      let w' = at (set_cell requested vacant w) in
      let made : at (ensure_cell requested w) ≡ w' = rw (c, ensure_cell) refl in
      let found : cell_at requested w' ≡ vacant =
        ground (arith, get-insert w.cells requested requested vacant, dyn_key_refl requested) in
      ap (λ a. a.0) (access_scoped-loop x requested want_value n w)
      ∙ rw made (
          rounds-last (access_scoped x (suc n)) n w' (result want_value r.value r.changed_at)
            (round-adopts (access_scoped x (suc n)) w' found p v l u))
