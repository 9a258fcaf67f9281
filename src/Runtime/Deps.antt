-- ===== src/Runtime/Deps.antt =====
-- The two directions of the dependency graph stay inverse to one another.
use picante.Base.{
  ℕ, ◌≡◌, refl, Bool, true, ◌&&◌, ◌||◌, not, List, [], ◌∷◌, arith, inl, inr, Bool-cases,
  Option-cases, if◌then◌else◌,
}
use picante.Base.Eq.{◌==◌}
use picante.Base.Table
use picante.Base.Table.{Table, get-insert, get-remove, get-eq}
use picante.Base.Set
use picante.Base.Set.{
  contains, contains-insert, contains-remove, contains-of_list, contains-difference, contains_empty,
}
use picante.Key.{DynKey, Dep, dep_key, dyn_key_eq, dep_eq}
use picante.Runtime.Defs.{
  Runtime, Reverse, dependents_of, deps_of, remove_edge, add_edge, remove_edges, add_edges,
  update_query_deps, clear_dependency_graph, new,
}

-- Whether `q` is listed as a dependent of `d`.
abbrev pub has_dependent : Reverse → DynKey → DynKey → Bool
has_dependent rev d q = contains (dependents_of rev d) q

-- Whether one of the dependencies names `d`.
abbrev pub names : List Dep → DynKey → Bool
names deps d = contains deps (record { kind = d.kind; key = d.key })

-- The dependents of a key are those queries whose list names it.
pub record IsInverse (rt : Runtime) : Type 0 where
  pub inverse :
      (d q : DynKey) → has_dependent rt.reverse_deps d q ≡ names (deps_of rt.deps_by_query q) d

has_dependent-remove_edge :
    (query : DynKey) (dep : Dep) (rev : Reverse) (d q : DynKey)
    → has_dependent (remove_edge query dep rev) d q
      ≡ (has_dependent rev d q && not (dep_key dep == d && query == q))
unfolding remove_edge contains
has_dependent-remove_edge query dep rev d q = elim (Option-cases (Table.get rev (dep_key dep))) [
  | inl e ↦ ground (arith, e, get-eq rev (dep_key dep) d)
  | inr (set, e) ↦ ground (
    arith,
    e,
    get-eq rev (dep_key dep) d,
    get-insert rev (dep_key dep) d (Set.remove set query),
    get-remove rev (dep_key dep) d,
    contains-remove set query q,
    contains_empty (Set.remove set query) q,
  )
]

has_dependent-add_edge :
    (query : DynKey) (dep : Dep) (rev : Reverse) (d q : DynKey)
    → has_dependent (add_edge query dep rev) d q
      ≡ ((dep_key dep == d && query == q) || has_dependent rev d q)
unfolding add_edge contains
has_dependent-add_edge query dep rev d q = ground (
  arith,
  get-eq rev (dep_key dep) d,
  get-insert rev (dep_key dep) d (Set.insert (dependents_of rev (dep_key dep)) query),
  contains-insert (dependents_of rev (dep_key dep)) query q,
)

has_dependent-remove_edges :
    (query : DynKey) (deps : List Dep) (rev : Reverse) (d q : DynKey)
    → has_dependent (remove_edges query deps rev) d q
      ≡ (has_dependent rev d q && not (names deps d && query == q))
unfolding remove_edges contains
has_dependent-remove_edges query [] rev d q = ground arith
has_dependent-remove_edges query (dep ∷ deps) rev d q = ground (
  arith,
  has_dependent-remove_edges query deps (remove_edge query dep rev) d q,
  has_dependent-remove_edge query dep rev d q,
)

has_dependent-add_edges :
    (query : DynKey) (deps : List Dep) (rev : Reverse) (d q : DynKey)
    → has_dependent (add_edges query deps rev) d q
      ≡ ((names deps d && query == q) || has_dependent rev d q)
unfolding add_edges contains
has_dependent-add_edges query [] rev d q = ground arith
has_dependent-add_edges query (dep ∷ deps) rev d q = ground (
  arith,
  has_dependent-add_edges query deps (add_edge query dep rev) d q,
  has_dependent-add_edge query dep rev d q,
)

-- A table with one more entry lists the new dependencies for its key, and the old for others.
deps_of-insert :
    (fwd : Table DynKey (List Dep)) (query q : DynKey) (deps : List Dep)
    → deps_of (Table.insert fwd query deps) q ≡ (if query == q then deps else deps_of fwd q)
deps_of-insert fwd query q deps = ground (arith, get-insert fwd query q deps)

deps_of-eq :
    (fwd : Table DynKey (List Dep)) (query q : DynKey)
    → (query == q) ≡ true
    → deps_of fwd query ≡ deps_of fwd q
deps_of-eq fwd query q h = ground (arith, get-eq fwd query q h)

-- After an update the query is a dependent of exactly the keys that its new list names, and every
-- other pair of keys is as it was: the two maps stay inverse.
pub update_query_deps-IsInverse :
    (query : DynKey) (deps : List Dep) (rt : Runtime)
    → IsInverse rt
    → IsInverse (update_query_deps query deps rt)
unfolding update_query_deps
update_query_deps-IsInverse query deps rt inv = record {
  inverse = λ d q.
      let old = deps_of rt.deps_by_query query in
      let gone = Set.difference (Set.of_list old) (Set.of_list deps) in
      let dep : Dep = record { kind = d.kind; key = d.key } in
      rw
        (
          has_dependent-add_edges query (Set.of_list deps) (remove_edges query gone rt.reverse_deps)
              d q,
          has_dependent-remove_edges query gone rt.reverse_deps d q,
          contains-difference (Set.of_list old) (Set.of_list deps) dep,
          contains-of_list old dep,
          contains-of_list deps dep,
          inv.inverse d q,
          deps_of-insert rt.deps_by_query query q deps,
        )
        (elim (Bool-cases (query == q)) [
          | inl same ↦ rw (same, deps_of-eq rt.deps_by_query query q same) (ground arith)
          | inr other ↦ rw other (ground arith)
        ]);
}

pub clear_dependency_graph-IsInverse : (rt : Runtime) → IsInverse (clear_dependency_graph rt)
unfolding clear_dependency_graph contains Table.get
clear_dependency_graph-IsInverse rt = record { inverse = λ d q. refl }

pub new-IsInverse : (counter : ℕ) → IsInverse (new counter).0
unfolding new contains Table.get
new-IsInverse counter = record { inverse = λ d q. refl }
