-- ===== src/Input/Isolation.antt =====
-- The changes of inputs on a snapshot, and the scope under which its results are shared.
use picante.Base.{
  ℕ, ◌<◌, ◌≡◌, ◌≢◌, ◌⊎◌, refl, sym, ap, ◌∙◌, subst, Bool, true, List, [], ◌∷◌, arith, inl, inr,
  Option-cases, if◌then◌else◌, ◌==◌,
}
use picante.Base.Table
use picante.Key.{Revision, DynKey, dyn_key_eq}
use picante.Runtime.{
  Runtime, cache_scope_id, mark_divergent, bump_revision, propagate_invalidation, notify_input_set,
  notify_input_removed,
}
use picante.Runtime.Invalidation.{propagate_invalidation_lem}
use picante.Runtime.Revisions.{IdsBelow}
use picante.Input.Defs.{InputCore, Host, advance, unchanged, set_at, already_removed, remove_at}
use picante.Input.Reads.{Change, sets, removes, perform}
use picante.Input.History.{run}

-- What decides the scope of a runtime.
abbrev HasScope : Bool → ℕ → Runtime → Type 0
HasScope is_snapshot scope rt = (rt.is_snapshot ≡ is_snapshot) × (rt.divergent_scope ≡ scope)

propagate-HasScope :
    (rev : Revision) (source : DynKey) (rt : Runtime) (scope : ℕ)
    → HasScope true scope rt
    → HasScope true scope (propagate_invalidation rev source rt)
propagate-HasScope rev source rt scope h =
    let (ks, e, d, i) = propagate_invalidation_lem rev source rt in rw e h

-- The first advance of a snapshot gives it the counter as its scope, and later ones leave it.
advance-HasScope :
    (host : Host) (scope : ℕ)
    → HasScope true scope host.runtime
    → HasScope true (if scope == 0 then host.counter else scope) (advance host).1.runtime
unfolding advance bump_revision mark_divergent
advance-HasScope host scope (snap, div) = (ground (arith, snap, div), ground (arith, snap, div))

module _ {ℓ} {V : Type ℓ} (facet_eq : V → V → Bool) where
  -- One change: nothing is done, or the runtime was advanced.
  perform-HasScope :
      (op : Change V) (core : InputCore V) (host : Host) (scope : ℕ)
      → HasScope true scope host.runtime
      → let (rev, core', host') = perform facet_eq op core host in
        ((core' ≡ core) × (host' ≡ host))
        ⊎ HasScope true (if scope == 0 then host.counter else scope) host'.runtime
  unfolding perform set_at remove_at notify_input_set notify_input_removed
  perform-HasScope (sets k v) core host scope h =
      elim (Option-cases (unchanged facet_eq (Table.get core.entries k) v)) [
        | inr (rev, p) ↦ rw (p, perform, set_at) (inl (refl, refl))
        | inl p ↦
            rw (p, perform, set_at)
              (inr (propagate-HasScope _ _ _ _ (advance-HasScope host scope h)))
      ]
  perform-HasScope (removes k) core host scope h =
      elim (Option-cases (already_removed (Table.get core.entries k))) [
        | inr (rev, p) ↦ rw (p, perform, remove_at) (inl (refl, refl))
        | inl p ↦
            rw (p, perform, remove_at)
              (inr (propagate-HasScope _ _ _ _ (advance-HasScope host scope h)))
      ]

  run-HasScope :
      (ops : List (Change V)) (core : InputCore V) (host : Host) (scope : ℕ)
      → 0 < scope
      → HasScope true scope host.runtime
      → HasScope true scope (run facet_eq ops core host).1.runtime
  unfolding run
  run-HasScope [] core host scope z h = h
  run-HasScope (op ∷ ops) core host scope z h =
      let (rev, core', host') = perform facet_eq op core host in
      let stays : (if scope == 0 then host.counter else scope) ≡ scope = ground (arith, z) in
      run-HasScope ops core' host' scope z (elim (perform-HasScope op core host scope h) [
        | inl (_, same) ↦ subst (λ e. HasScope true scope e.runtime) (sym same) h
        | inr done ↦ subst (λ n. HasScope true n host'.runtime) stays done
      ])

  -- Let a snapshot, with no change so far, go through any history of sets and removals of an input.
  -- Either none of them changed anything, and the input and the runtime are as they were, or the scope of
  -- its results is another one than that of any runtime whose ids the counter had given out before:
  -- its database, and all other snapshots of it.
  pub run-isolates :
      (ops : List (Change V)) (core : InputCore V) (host : Host) (other : Runtime)
      → host.runtime.is_snapshot ≡ true
      → host.runtime.divergent_scope ≡ 0
      → 0 < host.counter
      → IdsBelow host.counter other
      → let (core', host') = run facet_eq ops core host in
        (run facet_eq ops core host ≡ (core, host))
        ⊎ (cache_scope_id host'.runtime ≢ cache_scope_id other)
  unfolding run cache_scope_id
  run-isolates [] core host other snap div z b = inl refl
  run-isolates (op ∷ ops) core host other snap div z b =
      let (rev, core', host') = perform facet_eq op core host in
      elim (perform-HasScope op core host 0 (snap, div)) [
        | inl (same_core, same_host) ↦
            let opened : run facet_eq (op ∷ ops) core host ≡ run facet_eq ops core host =
              ap (λ c. run facet_eq ops c host') same_core
              ∙ ap (λ e. run facet_eq ops core e) same_host in
            subst
              (λ (r : InputCore V × Host).
                (r ≡ (core, host)) ⊎ (cache_scope_id r.1.runtime ≢ cache_scope_id other))
              (sym opened) (run-isolates ops core host other snap div z b)
        | inr done ↦
            let (_, own) = run-HasScope ops core' host' host.counter z done in
            inr (λ e. ground (arith, own, z, e, b.id_below, b.scope_below))
      ]
