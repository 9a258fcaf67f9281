-- ===== src/Debug/Counts.antt =====
-- The statistics of the graph against the graph.
use picante.Base.{ℕ, suc, ◌+◌, ◌≡◌, refl, List, [], ◌∷◌, length, arith, if◌then◌else◌}
use picante.Base.Eq.{◌==◌, nat_eq}
use picante.Base.Table
use picante.Base.Table.{Table, get-insert}
use picante.Key.{DynKey, Dep}
use picante.Runtime.{Runtime}
use picante.Debug.Defs.{
  collect, count_none, entry_or_zero, histogram_loop, root_queries, keys_with_none, from_runtime,
}

-- How many queries of the table have `n` dependencies.
abbrev pub with_length : Table DynKey (List Dep) → ℕ → ℕ
with_length [] n = 0
with_length ((k, deps) ∷ t) n = (if length deps == n then 1 else 0) + with_length t n

pub histogram_loop_lem :
    (hist : Table ℕ ℕ) (t : Table DynKey (List Dep)) (n : ℕ)
    → entry_or_zero (histogram_loop hist t) n ≡ entry_or_zero hist n + with_length t n
unfolding histogram_loop
histogram_loop_lem hist [] n = omega arith
histogram_loop_lem hist ((k, deps) ∷ t) n =
    let count = suc (entry_or_zero hist (length deps)) in
    ground (
      arith,
      histogram_loop_lem (Table.insert hist (length deps) count) t n,
      get-insert hist (length deps) n count,
    )

count_none-with_length : (t : Table DynKey (List Dep)) → count_none t ≡ with_length t 0
unfolding count_none
count_none-with_length [] = refl
count_none-with_length ((k, []) ∷ t) = ground (arith, count_none-with_length t)
count_none-with_length ((k, dep ∷ deps) ∷ t) = ground (arith, count_none-with_length t)

count_none-length : (t : Table DynKey (List Dep)) → count_none t ≡ length (keys_with_none t)
unfolding count_none keys_with_none
count_none-length [] = refl
count_none-length ((k, []) ∷ t) = ground (arith, count_none-length t)
count_none-length ((k, dep ∷ deps) ∷ t) = ground (arith, count_none-length t)

-- The histogram gives at each number how many recorded queries have that many dependencies, and
-- the count of roots is the histogram at zero and the length of the list of roots.
pub collect_lem :
    (rt : Runtime)
    → let stats = collect rt in
      ((n : ℕ) → entry_or_zero stats.dep_count_histogram n ≡ with_length rt.deps_by_query n)
      × (stats.root_query_count ≡ entry_or_zero stats.dep_count_histogram 0)
      × (stats.root_query_count ≡ length (root_queries (from_runtime rt)))
unfolding collect root_queries from_runtime Table.get
collect_lem rt =
    let t = rt.deps_by_query in
    (
      (λ n. omega (arith, histogram_loop_lem [] t n)),
      omega (arith, histogram_loop_lem [] t 0, count_none-with_length t),
      count_none-length t,
    )
