-- ===== src/Derived/Ends.antt =====
-- What the three ends of a round leave: an adopted record, a computed value, an error.
use picante.Base.{ℕ, ◌≡◌, refl, ◌∙◌, Bool, none, some, Option, List, arith, ◌==◌, if◌then◌else◌}
use picante.Base.Table
use picante.Key.{Revision, DynKey, Dep, dyn_key_eq}
use picante.Error.{PicanteError}
use picante.Runtime.{
  Runtime, cache_scope_id, current_revision, update_query_deps, notify_query_changed,
}
use picante.Input.Scope.{Scope, InScope}
use picante.Inflight.SharedCache.{SharedCacheRecord, shared_cache_put}
use picante.Inflight.Registry.{InFlightGuard, complete, fail}
use picante.Derived.World.{World, returned, failed, ready, poisoned, current}
use picante.Derived.Compute.{Config}
use picante.Derived.Cell.{AccessResult, cutoff, set_cell}
use picante.Derived.Rounds.{
  settle, settle_err, put_shared, update_deps, notify_if_changed, result, adopt, finish_ok,
  finish_err,
}

module _ (requested : DynKey) where
  -- The runtime after a value was stored.
  abbrev pub informed : List Dep → Revision → Revision → Runtime → Runtime
  informed deps changed_at rev rt =
      if changed_at.num == rev.num
      then notify_query_changed rev requested (update_query_deps requested deps rt)
      else update_query_deps requested deps rt

  pub current-informed :
      (deps : List Dep) (changed_at rev : Revision) (rt : Runtime)
      → (informed deps changed_at rev rt).current ≡ rt.current
  unfolding notify_query_changed update_query_deps
  current-informed deps changed_at rev rt = ground arith

  pub informed-InScope :
      (scope : Scope) (deps : List Dep) (changed_at rev : Revision) (rt : Runtime)
      → InScope scope rt
      → InScope scope (informed deps changed_at rev rt)
  unfolding notify_query_changed update_query_deps cache_scope_id
  informed-InScope scope deps changed_at rev rt h = ground arith

  pub update_query_deps-InScope :
      (scope : Scope) (deps : List Dep) (rt : Runtime)
      → InScope scope rt
      → InScope scope (update_query_deps requested deps rt)
        × ((update_query_deps requested deps rt).current ≡ rt.current)
  unfolding update_query_deps cache_scope_id
  update_query_deps-InScope scope deps rt h = (record { mode = h.mode; scoped = h.scoped }, refl)

module _ {V : Type 0} where
  abbrev pub shared_record : V → List Dep → Revision → Revision → SharedCacheRecord V
  shared_record value deps changed_at rev = record {
    value = value;
    deps = deps;
    changed_at = changed_at;
    verified_at = rev;
    insert_id = 0;
  }

  notify_if_changed-informed :
      (requested : DynKey) (deps : List Dep) (changed_at rev : Revision) (w : World V)
      → notify_if_changed requested changed_at rev (update_deps requested deps w)
        ≡ record w { runtime = informed requested deps changed_at rev w.runtime }
  unfolding notify_if_changed update_deps
  notify_if_changed-informed requested deps changed_at rev w = ground arith

  same_revision : (n : ℕ) (r : AccessResult V) → (if n == n then some r else none) ≡ some r
  same_revision n r = ground arith

  pub settle_err-current :
      (e : PicanteError) (w : World V) (rev : Revision)
      → w.runtime.current ≡ rev.num
      → settle_err rev e w ≡ (failed e, w)
  unfolding settle_err current current_revision
  settle_err-current e w rev h = ground (arith, h)

  pub settle-now :
      (r : AccessResult V) (w : World V) (rev : Revision)
      → w.runtime.current ≡ rev.num
      → settle rev r w ≡ (returned (some r), w)
  unfolding settle current current_revision
  settle-now r w rev h = ground (arith, h)

module _ {V : Type 0} (x : Config V) (requested : DynKey) (want_value : Bool) (rev : Revision) where
  -- The world that a stored value leaves, but for the registry.
  abbrev pub stored : V → List Dep → Revision → World V → World V
  stored value deps changed_at w =
      let rt = informed requested deps changed_at rev w.runtime in
      record w {
        runtime = rt;
        cells = Table.insert w.cells requested (ready value rev changed_at deps);
        shared =
            shared_cache_put x.env (cache_scope_id rt) requested.kind requested.key
              (shared_record value deps changed_at rev) w.shared;
      }

  pub finish_ok_lem :
      (g : InFlightGuard) (prev : Option (V × Revision)) (deps : List Dep) (out : V) (w : World V)
      → w.runtime.current ≡ rev.num
      → let changed_at = cutoff x.ptr_eq x.eq_erased rev prev out in
        finish_ok x requested want_value rev g prev deps out w ≡ (
          returned (some (result want_value out changed_at)),
          record (stored out deps changed_at w) {
            inflight = complete out deps changed_at g w.inflight;
          },
        )
  unfolding finish_ok put_shared set_cell
  finish_ok_lem g prev deps out w h =
      let ch = cutoff x.ptr_eq x.eq_erased rev prev out in
      rw (finish_ok, notify_if_changed-informed requested deps ch rev w)
        (settle-now (result want_value out ch)
          (record (stored out deps ch w) { inflight = complete out deps ch g w.inflight }) rev
          (current-informed requested deps ch rev w.runtime ∙ h))

  pub finish_err_lem :
      (g : InFlightGuard) (error : PicanteError) (w : World V)
      → w.runtime.current ≡ rev.num
      → finish_err x requested want_value rev g error w ≡ (
        failed error,
        record w {
          cells = Table.insert w.cells requested (poisoned error rev);
          inflight = fail error g w.inflight;
        },
      )
  unfolding finish_err set_cell
  finish_err_lem g error w h = settle_err-current error _ rev h

  -- The world that an adoption leaves.
  abbrev pub adopted : SharedCacheRecord V → World V → World V
  adopted r w =
      let rt = update_query_deps requested r.deps w.runtime in
      record w {
        runtime = rt;
        cells = Table.insert w.cells requested (ready r.value rev r.changed_at r.deps);
        shared =
            shared_cache_put x.env (cache_scope_id rt) requested.kind requested.key
              (shared_record r.value r.deps r.changed_at rev) w.shared;
      }

  pub adopt_lem :
      (r : SharedCacheRecord V) (w : World V)
      → w.runtime.current ≡ rev.num
      → adopt x requested want_value rev r w
        ≡ (returned (some (result want_value r.value r.changed_at)), adopted r w)
  unfolding adopt update_deps put_shared set_cell update_query_deps
  adopt_lem r w h = settle-now (result want_value r.value r.changed_at) (adopted r w) rev h
