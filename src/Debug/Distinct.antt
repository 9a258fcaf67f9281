-- ===== src/Debug/Distinct.antt =====
-- No key stands twice in a map of the dependency graph: what an iteration over its entries needs.
use picante.Base.{ℕ, List, [], ◌∷◌, arith, inl, inr, Bool-cases, Option-cases}
use picante.Base.Eq.{◌==◌}
use picante.Base.Table
use picante.Base.Table.{AreDistinct, get-remove, AreDistinct-insert}
use picante.Base.Set
use picante.Key.{DynKey, Dep, dep_key, dyn_key_eq, dep_eq}
use picante.Runtime.{
  Runtime, Reverse, dependents_of, deps_of, remove_edge, add_edge, remove_edges, add_edges,
  update_query_deps, new,
}

AreDistinct-remove : (t : Reverse) (k : DynKey) → AreDistinct t → AreDistinct (Table.remove t k)
unfolding Table.remove
AreDistinct-remove [] k d = tt
AreDistinct-remove ((j, set) ∷ t) k (free, d) = elim (Bool-cases (j == k)) [
  | inl same ↦ rw (same, Table.remove) (AreDistinct-remove t k d)
  | inr other ↦
      rw (other, Table.remove) (ground (arith, get-remove t k j, free), AreDistinct-remove t k d)
]

remove_edge-AreDistinct :
    (query : DynKey) (dep : Dep) (rev : Reverse)
    → AreDistinct rev
    → AreDistinct (remove_edge query dep rev)
unfolding remove_edge
remove_edge-AreDistinct query dep rev d = elim (Option-cases (Table.get rev (dep_key dep))) [
  | inl e ↦ rw (e, remove_edge) d
  | inr (set, e) ↦ elim (Bool-cases (Set.is_empty (Set.remove set query))) [
    | inl empty ↦ rw (e, remove_edge, empty) (AreDistinct-remove rev (dep_key dep) d)
    | inr full ↦
        rw (e, remove_edge, full) (AreDistinct-insert rev (dep_key dep) (Set.remove set query) d)
  ]
]

remove_edges-AreDistinct :
    (query : DynKey) (deps : List Dep) (rev : Reverse)
    → AreDistinct rev
    → AreDistinct (remove_edges query deps rev)
unfolding remove_edges
remove_edges-AreDistinct query [] rev d = d
remove_edges-AreDistinct query (dep ∷ deps) rev d =
    remove_edges-AreDistinct query deps (remove_edge query dep rev)
      (remove_edge-AreDistinct query dep rev d)

add_edges-AreDistinct :
    (query : DynKey) (deps : List Dep) (rev : Reverse)
    → AreDistinct rev
    → AreDistinct (add_edges query deps rev)
unfolding add_edges add_edge
add_edges-AreDistinct query [] rev d = d
add_edges-AreDistinct query (dep ∷ deps) rev d =
    add_edges-AreDistinct query deps (add_edge query dep rev)
      (AreDistinct-insert rev (dep_key dep) (Set.insert (dependents_of rev (dep_key dep)) query) d)

-- Both maps of the graph have each key once.
pub record HasDistinctKeys (rt : Runtime) : Type 0 where
  pub forward_distinct : AreDistinct rt.deps_by_query
  pub reverse_distinct : AreDistinct rt.reverse_deps

pub update_query_deps-HasDistinctKeys :
    (query : DynKey) (deps : List Dep) (rt : Runtime)
    → HasDistinctKeys rt
    → HasDistinctKeys (update_query_deps query deps rt)
unfolding update_query_deps
update_query_deps-HasDistinctKeys query deps rt d =
    let old = deps_of rt.deps_by_query query in
    let gone = Set.difference (Set.of_list old) (Set.of_list deps) in
    record {
      forward_distinct = AreDistinct-insert rt.deps_by_query query deps d.forward_distinct;
      reverse_distinct =
          add_edges-AreDistinct query (Set.of_list deps) (remove_edges query gone rt.reverse_deps)
            (remove_edges-AreDistinct query gone rt.reverse_deps d.reverse_distinct);
    }

pub new-HasDistinctKeys : (counter : ℕ) → HasDistinctKeys (new counter).0
unfolding new
new-HasDistinctKeys counter = record { forward_distinct = tt; reverse_distinct = tt }
