-- ===== src/Debug/Defs.antt =====
-- `DependencyGraph` and `CacheStats` in debug.rs.
use picante.Base.{
  ℕ, zero, suc, ◌+◌, Bool, true, false, none, some, List, [], ◌∷◌, ◌++◌, map, length, if◌then◌else◌,
}
use picante.Base.Eq.{◌==◌, nat_eq}
use picante.Base.Table
use picante.Base.Table.{Table}
use picante.Base.Set
use picante.Key.{DynKey, Dep, dep_key, dyn_key_eq}
use picante.Runtime.{Runtime, deps_of}

pub record DependencyGraph : Type 0 where
  pub forward_deps : Table DynKey (List Dep)
  pub reverse_deps : Table DynKey (List DynKey)

-- Copies of the two maps.
unfoldable pub deps_by_query_snapshot : Runtime → Table DynKey (List Dep)
deps_by_query_snapshot rt = rt.deps_by_query

unfoldable pub reverse_deps_snapshot : Runtime → Table DynKey (List DynKey)
reverse_deps_snapshot rt = rt.reverse_deps

unfoldable pub from_runtime : Runtime → DependencyGraph
unfolding deps_by_query_snapshot reverse_deps_snapshot
from_runtime rt = record {
  forward_deps = deps_by_query_snapshot rt;
  reverse_deps = reverse_deps_snapshot rt;
}

-- `deps.is_empty()`
abbrev pub has_none : List Dep → Bool
has_none [] = true
has_none (dep ∷ deps) = false

-- `filter` and `map` over the entries.
unfoldable pub keys_with_none : Table DynKey (List Dep) → List DynKey
keys_with_none [] = []
keys_with_none ((k, deps) ∷ t) =
    let rest = keys_with_none t in if has_none deps then k ∷ rest else rest

unfoldable pub root_queries : DependencyGraph → List DynKey
unfolding keys_with_none
root_queries g = keys_with_none g.forward_deps

-- The two loops that take dependents out of the set of queries.
unfoldable pub remove_all : List DynKey → List DynKey → List DynKey
remove_all queries [] = queries
remove_all queries (dependent ∷ rest) = remove_all (Set.remove queries dependent) rest

unfoldable pub remove_dependents : List DynKey → Table DynKey (List DynKey) → List DynKey
unfolding remove_all
remove_dependents queries [] = queries
remove_dependents queries ((k, dependents) ∷ t) =
    remove_dependents (remove_all queries dependents) t

unfoldable pub leaf_queries : DependencyGraph → List DynKey
unfolding remove_dependents
leaf_queries g =
    remove_dependents (Set.of_list (map (λ entry. entry.0) g.forward_deps)) g.reverse_deps

-- What the search shares between its calls.
pub record Search : Type 0 where
  pub visited : List DynKey
  pub results : List (List Dep)

abbrev pub max_depth : ℕ
max_depth = 1000

-- The loop over the dependencies, with the call for one of them as an argument.
unfoldable pub each_dep :
    (DynKey → List Dep → Search → Search) → List Dep → List Dep → Search → Search
each_dep visit [] path s = s
each_dep visit (dep ∷ deps) path s =
    each_dep visit deps path (visit (dep_key dep) (path ++ dep ∷ []) s)

-- The first argument is `MAX_DEPTH - depth`, so that `depth >= MAX_DEPTH` where it is zero.
-- A `pop` of the path restores what the caller passed.
unfoldable pub find_paths_recursive :
    ℕ → DependencyGraph → DynKey → DynKey → List Dep → Search → Search
unfolding each_dep
find_paths_recursive zero g end current path s = s
find_paths_recursive (suc n) g end current path s = elim (current == end) [
  | true ↦ record s { results = s.results ++ path ∷ [] }
  | false ↦ elim (Set.contains s.visited current) [
    | true ↦ s
    | false ↦
        let s' =
          each_dep (λ key path' s''. find_paths_recursive n g end key path' s'')
            (deps_of g.forward_deps current) path
            (record s { visited = Set.insert s.visited current }) in
        record s' { visited = Set.remove s'.visited current }
  ]
]

unfoldable pub find_paths : DependencyGraph → DynKey → DynKey → List (List Dep)
unfolding find_paths_recursive
find_paths g start end =
    (find_paths_recursive max_depth g end start [] (record { visited = []; results = [] })).results

pub record CacheStats : Type 0 where
  pub forward_deps_count : ℕ
  pub reverse_deps_count : ℕ
  pub total_dependency_edges : ℕ
  pub root_query_count : ℕ
  pub dep_count_histogram : Table ℕ ℕ

unfoldable pub sum_lengths : Table DynKey (List Dep) → ℕ
sum_lengths [] = 0
sum_lengths ((k, deps) ∷ t) = length deps + sum_lengths t

unfoldable pub count_none : Table DynKey (List Dep) → ℕ
count_none [] = 0
count_none ((k, deps) ∷ t) = (if has_none deps then 1 else 0) + count_none t

-- `entry(n).or_insert(0)`
abbrev pub entry_or_zero : Table ℕ ℕ → ℕ → ℕ
entry_or_zero t n = elim (Table.get t n) [ none ↦ 0 | some count ↦ count ]

unfoldable pub histogram_loop : Table ℕ ℕ → Table DynKey (List Dep) → Table ℕ ℕ
histogram_loop hist [] = hist
histogram_loop hist ((k, deps) ∷ t) =
    histogram_loop (Table.insert hist (length deps) (suc (entry_or_zero hist (length deps)))) t

unfoldable pub collect : Runtime → CacheStats
unfolding sum_lengths count_none histogram_loop deps_by_query_snapshot reverse_deps_snapshot
collect rt =
    let forward = deps_by_query_snapshot rt in
    let reverse = reverse_deps_snapshot rt in
    record {
      forward_deps_count = length forward;
      reverse_deps_count = length reverse;
      total_dependency_edges = sum_lengths forward;
      root_query_count = count_none forward;
      dep_count_histogram = histogram_loop [] forward;
    }
