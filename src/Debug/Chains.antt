-- ===== src/Debug/Chains.antt =====
-- The search for chains of dependencies as a list of chains, with neither path nor search handed on.
use mathlib.Core.List.{append-nil, append_assoc}
use picante.Base.{
  ℕ, zero, suc, ◌≡◌, refl, sym, ap, ◌∙◌, Bool, true, false, List, [], ◌∷◌, ◌++◌, map, arith, inl,
  inr, Bool-cases,
}
use picante.Base.Eq.{◌==◌, nat_eq}
use picante.Base.Table.{Table}
use picante.Base.Set
use picante.Base.Set.{contains}
use picante.Key.{DynKey, Dep, dep_key, dyn_key_eq}
use picante.Runtime.{deps_of}
use picante.Debug.Defs.{DependencyGraph, Search, each_dep, find_paths_recursive}

-- The chains by their steps.
unfoldable pub routes_by : (DynKey → List (List Dep)) → List Dep → List (List Dep)
routes_by next [] = []
routes_by next (dep ∷ deps) = map (λ path. dep ∷ path) (next (dep_key dep)) ++ routes_by next deps

-- The empty chain at the end, none at a visited key, those through the dependencies elsewhere.
abbrev pub choose : Bool → Bool → List (List Dep) → List (List Dep)
choose true seen rest = [] ∷ []
choose false true rest = []
choose false false rest = rest

unfoldable pub routes :
    ℕ → Table DynKey (List Dep) → DynKey → List DynKey → DynKey → List (List Dep)
routes zero fwd end visited current = []
routes (suc n) fwd end visited current =
    choose (current == end) (contains visited current)
      (routes_by (λ key. routes n fwd end (Set.insert visited current) key) (deps_of fwd current))

abbrev close : DynKey → Search → Search
close current s = record s { visited = Set.remove s.visited current }

-- The search with the chains added, each after the path that leads to its start.
abbrev pub found : List Dep → Search → List (List Dep) → Search
found path s rest = record s { results = s.results ++ map (λ p. path ++ p) rest }

map-steps :
    (path : List Dep) (dep : Dep) (ps qs : List (List Dep))
    → map (λ p. (path ++ dep ∷ []) ++ p) ps ++ map (λ p. path ++ p) qs
      ≡ map (λ p. path ++ p) (map (λ p. dep ∷ p) ps ++ qs)
map-steps path dep [] qs = refl
map-steps path dep (p ∷ ps) qs = rw (append_assoc path (dep ∷ []) p, map-steps path dep ps qs) refl

found-found :
    (path : List Dep) (dep : Dep) (s : Search) (ps qs : List (List Dep))
    → found path (found (path ++ dep ∷ []) s ps) qs ≡ found path s (map (λ p. dep ∷ p) ps ++ qs)
found-found path dep s ps qs =
    ap (λ rs. record s { results = rs })
      (append_assoc s.results (map (λ p. (path ++ dep ∷ []) ++ p) ps) (map (λ p. path ++ p) qs)
        ∙ ap (λ rs. s.results ++ rs) (map-steps path dep ps qs))

each_dep_lem :
    (visit : DynKey → List Dep → Search → Search) (next : List DynKey → DynKey → List (List Dep))
    → ((key : DynKey) (path : List Dep) (s : Search)
        → visit key path s ≡ found path s (next s.visited key))
    → (deps path : List Dep) (s : Search)
    → each_dep visit deps path s ≡ found path s (routes_by (next s.visited) deps)
unfolding each_dep routes_by
each_dep_lem visit next same [] path s =
    ap (λ rs. record s { results = rs }) (sym (append-nil s.results))
each_dep_lem visit next same (dep ∷ deps) path s =
    let path' = path ++ dep ∷ [] in
    rw (same (dep_key dep) path' s) (
      each_dep_lem visit next same deps path (found path' s (next s.visited (dep_key dep)))
      ∙ found-found path dep s (next s.visited (dep_key dep)) (routes_by (next s.visited) deps))

remove_absent : (xs : List DynKey) (k : DynKey) → contains xs k ≡ false → Set.remove xs k ≡ xs
unfolding contains Set.remove
remove_absent [] k h = refl
remove_absent (x ∷ xs) k h = elim (Bool-cases (x == k)) [
  | inl same ↦ absurd (true_ne_false (ground (arith, h, same)))
  | inr other ↦ rw (other, remove_absent xs k (ground (arith, h, other))) refl
]
  where
    true_ne_false : true ≡ false → ⊥
    true_ne_false p = cc

remove-insert :
    (xs : List DynKey) (k : DynKey) → contains xs k ≡ false → Set.remove (Set.insert xs k) k ≡ xs
unfolding Set.insert Set.remove
remove-insert xs k h = rw (h, dyn_key_eq.beq_refl k) (remove_absent xs k h)

-- The search adds to its results the routes from where it stands, and leaves the visited keys as
-- they were.
pub find_paths_recursive_lem :
    (n : ℕ) (g : DependencyGraph) (end current : DynKey) (path : List Dep) (s : Search)
    → find_paths_recursive n g end current path s
      ≡ found path s (routes n g.forward_deps end s.visited current)
unfolding find_paths_recursive routes
find_paths_recursive_lem zero g end current path s =
    ap (λ rs. record s { results = rs }) (sym (append-nil s.results))
find_paths_recursive_lem (suc n) g end current path s =
    let rest =
      routes_by (λ key. routes n g.forward_deps end (Set.insert s.visited current) key)
        (deps_of g.forward_deps current) in
    elim (Bool-cases (current == end)) [
      | inl here ↦ rw (here, find_paths_recursive, routes, append-nil path) refl
      | inr away ↦
          rw (away, find_paths_recursive, routes)
            (elim (Bool-cases (contains s.visited current)) [
              | inl seen ↦
                  rw seen (ap (λ rs. record s { results = rs }) (sym (append-nil s.results)))
              | inr new ↦ rw new (
                  ap (close current) (
                    each_dep_lem (λ key path' s''. find_paths_recursive n g end key path' s'')
                      (λ visited key. routes n g.forward_deps end visited key)
                      (λ key path' s''. find_paths_recursive_lem n g end key path' s'')
                      (deps_of g.forward_deps current) path
                      (record s { visited = Set.insert s.visited current }))
                  ∙ ap (λ visited. record (found path s rest) { visited = visited })
                      (remove-insert s.visited current new))
            ])
    ]
