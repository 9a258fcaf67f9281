-- ===== src/Runtime/Revisions.antt =====
-- Cache scopes: what the first mutation of a snapshot, and each later one, does to the scope.
use picante.Base.{ℕ, ◌+◌, ◌^◌, ◌<◌, ◌≡◌, ◌&&◌, arith, ◌==◌, if◌then◌else◌}
use picante.Runtime.Defs.{Runtime, mark_divergent, cache_scope_id}

-- The ids that a runtime uses were handed out by the counter.
pub record IdsBelow (counter : ℕ) (rt : Runtime) : Type 0 where
  pub id_below : rt.id.num < counter
  pub scope_below : rt.divergent_scope < counter

-- A second mark keeps the scope and the counter, a live database keeps its family's scope, and
-- every id in use stays below the counter.
pub mark_divergent-stable :
    (rt other : Runtime) (counter : ℕ)
    → IdsBelow counter rt
    → IdsBelow counter other
    → 0 < counter
    → counter + 1 < 2 ^ 64
    → let (rt', counter') = mark_divergent rt counter in
      (mark_divergent rt' counter' ≡ (rt', counter'))
      × (cache_scope_id rt' ≡ (
          if rt.is_snapshot && rt.divergent_scope == 0
          then record { num = counter }
          else cache_scope_id rt))
      × IdsBelow counter' rt'
      × IdsBelow counter' other
unfolding mark_divergent cache_scope_id
mark_divergent-stable rt other counter b c z h =
    (ground arith, ground arith, ground arith, ground arith)
