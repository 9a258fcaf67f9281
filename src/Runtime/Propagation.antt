-- ===== src/Runtime/Propagation.antt =====
-- `propagate_invalidation` of runtime.rs, and the two notifications that call it.
use picante.Base.{ℕ, zero, suc, Option, none, some, List, [], ◌∷◌, ◌++◌, map, length, if◌then◌else◌}
use picante.Base.Set
use picante.Key.{Revision, QueryKindId, Key, DynKey, dyn_key_eq}
use picante.Runtime.Defs.{
  Runtime, RuntimeEvent, query_invalidated, input_set, input_removed, send, Reverse, dependents_of,
}

-- The loop's variables: the work queue, oldest first, what was seen, and what was sent.
pub record Walk : Type 0 where
  pub queue : List DynKey
  pub seen : List DynKey
  pub sent : List DynKey

-- One round of the inner loop: a dependent that was not seen is sent and queued.
unfoldable pub visit_one : DynKey → Walk → Walk
visit_one d w =
    if Set.contains w.seen d
    then w
    else record { queue = w.queue ++ d ∷ []; seen = d ∷ w.seen; sent = d ∷ w.sent }

-- The inner loop, over the dependents of one node.
unfoldable pub visit : List DynKey → Walk → Walk
unfolding visit_one
visit [] w = w
visit (d ∷ ds) w = visit ds (visit_one d w)

-- The `while let` loop; `none` if the fuel runs out.
unfoldable pub walk : ℕ → Reverse → Walk → Option Walk
walk zero rev w = none
walk (suc fuel) rev w = elim w.queue [
  | [] ↦ some w
  | node ∷ rest ↦ walk fuel rev (visit (dependents_of rev node) (record w { queue = rest }))
]

unfoldable pub start_walk : DynKey → Walk
start_walk source = record { queue = source ∷ []; seen = source ∷ []; sent = [] }

-- How often a node can be queued: the source, and each member of a set in the reverse map.
unfoldable pub edges : Reverse → List DynKey
edges [] = []
edges ((_, set) ∷ rev) = set ++ edges rev

abbrev pub invalidation_fuel : Reverse → ℕ
invalidation_fuel rev = suc (suc (length (edges rev)))

-- The event for one dependent.
abbrev pub invalidated : Revision → DynKey → DynKey → RuntimeEvent
invalidated revision source d =
    query_invalidated revision d.kind d.key.hash d.key source.kind source.key.hash source.key

unfoldable pub propagate_invalidation : Revision → DynKey → Runtime → Runtime
propagate_invalidation revision source rt =
    elim (walk (invalidation_fuel rt.reverse_deps) rt.reverse_deps (start_walk source)) [
      | none ↦ rt
      | some w ↦ record rt { events = map (invalidated revision source) w.sent ++ rt.events }
    ]

unfoldable pub notify_input_set : Revision → QueryKindId → Key → Runtime → Runtime
unfolding send
notify_input_set revision kind key rt =
    propagate_invalidation revision (record { kind = kind; key = key })
      (send (input_set revision kind key.hash key) rt)

unfoldable pub notify_input_removed : Revision → QueryKindId → Key → Runtime → Runtime
unfolding send
notify_input_removed revision kind key rt =
    propagate_invalidation revision (record { kind = kind; key = key })
      (send (input_removed revision kind key.hash key) rt)
