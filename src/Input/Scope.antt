-- ===== src/Input/Scope.antt =====
-- The changes of an input keep a live runtime live, and keep its cache scope.
use picante.Base.{◌≡◌, false, Bool, arith, inl, inr, Option-cases}
use picante.Base.Table
use picante.Key.{Revision, QueryKindId, Key, DynKey, dyn_key_eq}
use picante.Runtime.{
  Runtime, RuntimeId, cache_scope_id, bump_revision, mark_divergent, notify_input_set,
  notify_input_removed, propagate_invalidation,
}
use picante.Runtime.Invalidation.{propagate_invalidation_lem}
use picante.Input.Defs.{InputCore, Host, advance, unchanged, set_at, already_removed, remove_at}

-- The cache scope of a database, and whether it is a snapshot.
pub record Scope : Type 0 where
  pub id : RuntimeId
  pub is_snapshot : Bool

pub record InScope (scope : Scope) (rt : Runtime) : Type 0 where
  pub mode : rt.is_snapshot ≡ scope.is_snapshot
  pub scoped : cache_scope_id rt ≡ scope.id

module _ (scope : Scope) where
  propagate-InScope :
      (rev : Revision) (source : DynKey) (rt : Runtime)
      → InScope scope rt
      → InScope scope (propagate_invalidation rev source rt)
  unfolding cache_scope_id
  propagate-InScope rev source rt h =
      let (ks, e, d, i) = propagate_invalidation_lem rev source rt in
      rw e (record { mode = h.mode; scoped = h.scoped })

  advance-InScope :
      (host : Host)
      → scope.is_snapshot ≡ false
      → InScope scope host.runtime
      → InScope scope (advance host).1.runtime
  unfolding advance bump_revision mark_divergent cache_scope_id
  advance-InScope host live h = ground (arith, live)

  notify_input_set-InScope :
      (rev : Revision) (kind : QueryKindId) (key : Key) (rt : Runtime)
      → InScope scope rt
      → InScope scope (notify_input_set rev kind key rt)
  unfolding notify_input_set cache_scope_id
  notify_input_set-InScope rev kind key rt h =
      propagate-InScope rev _ _ (record { mode = h.mode; scoped = h.scoped })

  notify_input_removed-InScope :
      (rev : Revision) (kind : QueryKindId) (key : Key) (rt : Runtime)
      → InScope scope rt
      → InScope scope (notify_input_removed rev kind key rt)
  unfolding notify_input_removed cache_scope_id
  notify_input_removed-InScope rev kind key rt h =
      propagate-InScope rev _ _ (record { mode = h.mode; scoped = h.scoped })

  module _ {ℓ} {V : Type ℓ} where
    pub set_at-InScope :
        (facet_eq : V → V → Bool) (k : DynKey) (value : V) (core : InputCore V) (host : Host)
        → scope.is_snapshot ≡ false
        → InScope scope host.runtime
        → InScope scope (set_at facet_eq k value core host).2.runtime
    unfolding set_at
    set_at-InScope facet_eq k value core host live h =
        elim (Option-cases (unchanged facet_eq (Table.get core.entries k) value)) [
          | inr (rev, p) ↦ rw (p, set_at) h
          | inl p ↦
              rw (p, set_at)
                (notify_input_set-InScope (advance host).0 core.kind k.key (advance host).1.runtime
                  (advance-InScope host live h))
        ]

    pub remove_at-InScope :
        (k : DynKey) (core : InputCore V) (host : Host)
        → scope.is_snapshot ≡ false
        → InScope scope host.runtime
        → InScope scope (remove_at k core host).2.runtime
    unfolding remove_at
    remove_at-InScope k core host live h =
        elim (Option-cases (already_removed (Table.get core.entries k))) [
          | inr (rev, p) ↦ rw (p, remove_at) h
          | inl p ↦
              rw (p, remove_at)
                (notify_input_removed-InScope (advance host).0 core.kind k.key
                  (advance host).1.runtime (advance-InScope host live h))
        ]
