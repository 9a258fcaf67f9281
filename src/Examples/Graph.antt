-- ===== src/Examples/Graph.antt =====
-- The dependency graph and the frame stack on small runtimes.
use picante.Base.{
  ◌<◌, length, ◌≡◌, ◌↔◌, refl, true, false, List, [], ◌∷◌, ◌++◌, map, none, some, if◌then◌else◌,
}
use picante.Base.Table
use picante.Base.Set
use picante.Base.Set.{distinct, contains}
use picante.Key.{DynKey, Dep, dyn_key_eq}
use picante.Runtime.{
  Runtime, RuntimeId, update_query_deps, new, new_for_snapshot, propagate_invalidation,
  mark_divergent, cache_scope_id, current_revision,
}
use picante.Runtime.{invalidated}
use picante.Runtime.Deps.{IsInverse, update_query_deps-IsInverse, new-IsInverse}
use picante.Runtime.Invalidation.{propagate_invalidation_lem, Reaches}
use picante.Frame.{ActiveFrame, new_frame, find_cycle, stack_keys}
use picante.Frame.Laws.{keys_of, find_cycle_lem}
use picante.Debug.{from_runtime, leaf_queries, root_queries, find_paths}
use picante.Debug.Distinct.{HasDistinctKeys, update_query_deps-HasDistinctKeys, new-HasDistinctKeys}
use picante.Debug.Leaves.{leaf_queries-root_queries}
use picante.Debug.Routes.{IsMember, IsRoute, find_paths_lem}
use picante.Examples.Data.{a_key, b_key, a_dep, rev_of}

-- `b 1` reads `a 1`.
abbrev pub one_query : Runtime
one_query = update_query_deps (b_key 1) (a_dep 1 ∷ []) (new 1).0

propagate_invalidation_example :
    (ks : List DynKey) × (propagate_invalidation (rev_of 1) (a_key 1) one_query
      ≡ record one_query { events = map (invalidated (rev_of 1) (a_key 1)) ks ++ one_query.events })
    × (distinct ks ≡ true)
    × ((k : DynKey)
        → (contains ks k ≡ true)
          ↔ (Reaches one_query.reverse_deps (a_key 1) k × ((dyn_key_eq.beq (a_key 1) k) ≡ false)))
propagate_invalidation_example = propagate_invalidation_lem (rev_of 1) (a_key 1) one_query

update_query_deps_example : IsInverse one_query
update_query_deps_example =
    update_query_deps-IsInverse (b_key 1) (a_dep 1 ∷ []) (new 1).0 (new-IsInverse 1)

abbrev two_frames : List ActiveFrame
two_frames = new_frame (b_key 2) (rev_of 1) ∷ new_frame (b_key 1) (rev_of 1) ∷ []

find_cycle_example :
    find_cycle (b_key 1) (some two_frames)
    ≡ (if contains (keys_of two_frames) (b_key 1) then some (stack_keys two_frames) else none)
find_cycle_example = find_cycle_lem (b_key 1) two_frames

abbrev b_dep : Dep
b_dep = record { kind = (b_key 1).kind; key = (b_key 1).key }

-- `b 2` reads `a 1` and `b 1`, which reads `a 1`.
abbrev two_queries : Runtime
two_queries = update_query_deps (b_key 2) (a_dep 1 ∷ b_dep ∷ []) one_query

two_queries-IsInverse : IsInverse two_queries
two_queries-IsInverse =
    update_query_deps-IsInverse (b_key 2) (a_dep 1 ∷ b_dep ∷ []) one_query update_query_deps_example

two_queries-HasDistinctKeys : HasDistinctKeys two_queries
two_queries-HasDistinctKeys =
    update_query_deps-HasDistinctKeys (b_key 2) (a_dep 1 ∷ b_dep ∷ []) one_query
      (update_query_deps-HasDistinctKeys (b_key 1) (a_dep 1 ∷ []) (new 1).0 (new-HasDistinctKeys 1))

-- Nothing depends on `b 2`, and it is no leaf query.
leaf_queries_example :
    contains (leaf_queries (from_runtime two_queries)) (b_key 2)
    ≡ contains (root_queries (from_runtime two_queries)) (b_key 2)
leaf_queries_example =
    leaf_queries-root_queries two_queries two_queries-IsInverse two_queries-HasDistinctKeys
      (b_key 2)

find_paths_example :
    IsMember (b_dep ∷ a_dep 1 ∷ []) (find_paths (from_runtime two_queries) (b_key 2) (a_key 1)) ↔ (
      IsRoute (from_runtime two_queries).forward_deps (a_key 1) [] (b_key 2) (b_dep ∷ a_dep 1 ∷ [])
      × (length (b_dep ∷ a_dep 1 ∷ []) < 1000))
find_paths_example =
    find_paths_lem (from_runtime two_queries) (b_key 2) (a_key 1) (b_dep ∷ a_dep 1 ∷ [])

leaf_of_two_queries : leaf_queries (from_runtime two_queries) ≡ []
unfolding leaf_queries from_runtime update_query_deps new picante.Runtime.add_edges Set.of_list
    Set.insert contains Table.insert picante.Runtime.remove_edges Set.difference Table.get
    Set.remove
leaf_of_two_queries = refl

paths_of_two_queries :
    find_paths (from_runtime two_queries) (b_key 2) (a_key 1)
    ≡ (a_dep 1 ∷ []) ∷ (b_dep ∷ a_dep 1 ∷ []) ∷ []
unfolding find_paths from_runtime update_query_deps new contains Table.get Table.insert Set.insert
paths_of_two_queries = refl
