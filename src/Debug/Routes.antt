-- ===== src/Debug/Routes.antt =====
-- The search for chains of dependencies finds every chain that it ought to, and no other.
use picante.Base.{
  ℕ, zero, suc, ◌<◌, ◌≡◌, ◌↔◌, ◌⊎◌, refl, sym, ap, ◌∙◌, subst, Bool, true, false, List, [], ◌∷◌,
  ◌++◌, map, length, arith, inl, inr,
}
use picante.Base.Eq.{◌==◌}
use picante.Base.Table.{Table}
use picante.Base.Set
use picante.Base.Set.{contains}
use picante.Key.{DynKey, Dep, dep_key, dyn_key_eq}
use picante.Runtime.{deps_of}
use picante.Debug.Defs.{DependencyGraph, max_depth, find_paths}
use picante.Debug.Chains.{routes_by, choose, routes, find_paths_recursive_lem}

module _ {A : Type 0} where
  abbrev pub IsMember : A → List A → Type 0
  IsMember a [] = ⊥
  IsMember a (x ∷ xs) = (x ≡ a) ⊎ IsMember a xs

  IsMember-left : (a : A) (xs ys : List A) → IsMember a xs → IsMember a (xs ++ ys)
  IsMember-left a [] ys m = absurd m
  IsMember-left a (x ∷ xs) ys (inl same) = inl same
  IsMember-left a (x ∷ xs) ys (inr m) = inr (IsMember-left a xs ys m)

  IsMember-right : (a : A) (xs ys : List A) → IsMember a ys → IsMember a (xs ++ ys)
  IsMember-right a [] ys m = m
  IsMember-right a (x ∷ xs) ys m = inr (IsMember-right a xs ys m)

  IsMember-append : (a : A) (xs ys : List A) → IsMember a (xs ++ ys) → IsMember a xs ⊎ IsMember a ys
  IsMember-append a [] ys m = inr m
  IsMember-append a (x ∷ xs) ys (inl same) = inl (inl same)
  IsMember-append a (x ∷ xs) ys (inr m) = elim (IsMember-append a xs ys m) [
    | inl l ↦ inl (inr l)
    | inr r ↦ inr r
  ]

-- A chain from `current` to `end`, each step a recorded dependency of the key before it. No key of
-- it but the last is `end`, in `visited`, or there twice.
abbrev pub IsRoute : Table DynKey (List Dep) → DynKey → List DynKey → DynKey → List Dep → Type 0
IsRoute fwd end visited current [] = (current == end) ≡ true
IsRoute fwd end visited current (dep ∷ path) =
    ((current == end) ≡ false)
    × (contains visited current ≡ false)
    × IsMember dep (deps_of fwd current)
    × IsRoute fwd end (Set.insert visited current) (dep_key dep) path

map-cons-IsMember :
    (dep : Dep) (p : List Dep) (ps : List (List Dep))
    → IsMember p ps
    → IsMember (dep ∷ p) (map (λ path. dep ∷ path) ps)
map-cons-IsMember dep p [] m = absurd m
map-cons-IsMember dep p (q ∷ ps) (inl same) = inl (ap (λ path. dep ∷ path) same)
map-cons-IsMember dep p (q ∷ ps) (inr m) = inr (map-cons-IsMember dep p ps m)

IsMember-map-cons :
    (dep : Dep) (q : List Dep) (ps : List (List Dep))
    → IsMember q (map (λ path. dep ∷ path) ps)
    → (p : List Dep) × ((dep ∷ p) ≡ q) × IsMember p ps
IsMember-map-cons dep q [] m = absurd m
IsMember-map-cons dep q (p ∷ ps) (inl same) = (p, same, inl refl)
IsMember-map-cons dep q (p ∷ ps) (inr m) =
    let (p', same, m') = IsMember-map-cons dep q ps m in (p', same, inr m')

routes_by-IsMember :
    (next : DynKey → List (List Dep)) (deps : List Dep) (dep : Dep) (p : List Dep)
    → IsMember dep deps
    → IsMember p (next (dep_key dep))
    → IsMember (dep ∷ p) (routes_by next deps)
unfolding routes_by
routes_by-IsMember next [] dep p m mp = absurd m
routes_by-IsMember next (d ∷ deps) dep p (inl same) mp =
    subst (λ e. IsMember (e ∷ p) (routes_by next (d ∷ deps))) same
      (IsMember-left (d ∷ p) (map (λ path. d ∷ path) (next (dep_key d))) (routes_by next deps) (
        map-cons-IsMember d p (next (dep_key d))
          (subst (λ e. IsMember p (next (dep_key e))) (sym same) mp)))
routes_by-IsMember next (d ∷ deps) dep p (inr m) mp =
    IsMember-right (dep ∷ p) (map (λ path. d ∷ path) (next (dep_key d))) (routes_by next deps)
      (routes_by-IsMember next deps dep p m mp)

IsMember-routes_by :
    (next : DynKey → List (List Dep)) (deps : List Dep) (q : List Dep)
    → IsMember q (routes_by next deps)
    → (dep : Dep) × (p : List Dep) × ((dep ∷ p) ≡ q)
      × IsMember dep deps
      × IsMember p (next (dep_key dep))
unfolding routes_by
IsMember-routes_by next [] q m = absurd m
IsMember-routes_by next (d ∷ deps) q m =
    elim (IsMember-append q (map (λ path. d ∷ path) (next (dep_key d))) (routes_by next deps) m) [
      | inl l ↦
          let (p, same, mp) = IsMember-map-cons d q (next (dep_key d)) l in
          (d, p, same, inl refl, mp)
      | inr r ↦
          let (dep, p, same, md, mp) = IsMember-routes_by next deps q r in
          (dep, p, same, inr md, mp)
    ]

IsMember-choose :
    (here seen : Bool) (rest : List (List Dep)) (p : List Dep)
    → IsMember p (choose here seen rest)
    → ((here ≡ true) × ([] ≡ p)) ⊎ ((here ≡ false) × (seen ≡ false) × IsMember p rest)
IsMember-choose true seen rest p (inl same) = inl (refl, same)
IsMember-choose true seen rest p (inr m) = absurd m
IsMember-choose false true rest p m = absurd m
IsMember-choose false false rest p m = inr (refl, refl, m)

module _ (fwd : Table DynKey (List Dep)) (end : DynKey) where
  routes-IsRoute :
      (n : ℕ) (visited : List DynKey) (current : DynKey) (q : List Dep)
      → IsMember q (routes n fwd end visited current)
      → IsRoute fwd end visited current q × (length q < n)
  unfolding routes
  routes-IsRoute zero visited current q m = absurd m
  routes-IsRoute (suc n) visited current q m =
      let next : DynKey → List (List Dep) =
        λ key. routes n fwd end (Set.insert visited current) key in
      let deps = deps_of fwd current in
      elim (IsMember-choose (current == end) (contains visited current) (routes_by next deps) q m) [
        | inl (here, same) ↦
            subst (λ p. IsRoute fwd end visited current p × (length p < suc n)) same
              (here, omega arith)
        | inr (away, new, m') ↦
            let (dep, p, same, md, mp) = IsMember-routes_by next deps q m' in
            let (route, short) = routes-IsRoute n (Set.insert visited current) (dep_key dep) p mp in
            subst (λ p'. IsRoute fwd end visited current p' × (length p' < suc n)) same
              ((away, new, md, route), omega arith)
      ]

  route-IsMember :
      (n : ℕ) (visited : List DynKey) (current : DynKey) (q : List Dep)
      → IsRoute fwd end visited current q
      → length q < n
      → IsMember q (routes n fwd end visited current)
  unfolding routes
  route-IsMember zero visited current q r l = absurd (omega arith)
  route-IsMember (suc n) visited current [] here l = rw (here, routes) (inl refl)
  route-IsMember (suc n) visited current (dep ∷ p) (away, new, md, r) l =
      rw (away, new, routes)
        (routes_by-IsMember (λ key. routes n fwd end (Set.insert visited current) key)
          (deps_of fwd current) dep p md
          (route-IsMember n (Set.insert visited current) (dep_key dep) p r (omega arith)))

map-nil-append : (ps : List (List Dep)) → map (λ p. [] ++ p) ps ≡ ps
map-nil-append [] = refl
map-nil-append (p ∷ ps) = ap (λ qs. p ∷ qs) (map-nil-append ps)

-- The result of `find_paths` is the routes, up to the greatest depth.
find_paths-routes :
    (g : DependencyGraph) (start end : DynKey)
    → find_paths g start end ≡ routes max_depth g.forward_deps end [] start
unfolding find_paths
find_paths-routes g start end =
    ap (λ s. s.results)
      (find_paths_recursive_lem max_depth g end start [] (record { visited = []; results = [] }))
    ∙ map-nil-append (routes max_depth g.forward_deps end [] start)

-- `find_paths` gives exactly the chains of recorded dependencies from `start` to `end` that have
-- fewer than 1000 steps, come to `end` at their last key only, and meet no key twice.
pub find_paths_lem :
    (g : DependencyGraph) (start end : DynKey) (path : List Dep)
    → IsMember path (find_paths g start end)
      ↔ (IsRoute g.forward_deps end [] start path × (length path < 1000))
find_paths_lem g start end path =
    subst
      (λ ps. IsMember path ps ↔ (IsRoute g.forward_deps end [] start path × (length path < 1000)))
      (sym (find_paths-routes g start end))
      (
        (λ m. routes-IsRoute g.forward_deps end 1000 [] start path m),
        λ (route, short). route-IsMember g.forward_deps end 1000 [] start path route short,
      )
