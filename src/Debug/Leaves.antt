-- ===== src/Debug/Leaves.antt =====
-- What `leaf_queries` keeps, against `root_queries`.
use picante.Base.{
  ◌≡◌, refl, Bool, true, false, ◌&&◌, not, Option, none, some, List, [], ◌∷◌, map, any, arith, inl,
  inr, Bool-cases,
}
use picante.Base.Table
use picante.Base.Table.{Table, AreDistinct, get-eq}
use picante.Base.Set
use picante.Base.Set.{contains, contains-remove, contains-of_list, contains-eq}
use picante.Key.{DynKey, Dep, dep_key, dyn_key_eq, dep_eq}
use picante.Runtime.{Runtime, Reverse, deps_of, dependents_of}
use picante.Runtime.Deps.{IsInverse, names}
use picante.Debug.Distinct.{HasDistinctKeys}
use picante.Debug.Defs.{
  from_runtime, has_none, keys_with_none, root_queries, remove_all, remove_dependents, leaf_queries,
}

-- Whether some entry lists `k` as a dependent.
abbrev is_listed : Reverse → DynKey → Bool
is_listed t k = any (λ entry. contains entry.1 k) t

contains-remove_all :
    (queries dependents : List DynKey) (k : DynKey)
    → contains (remove_all queries dependents) k
      ≡ (contains queries k && not (contains dependents k))
unfolding remove_all contains
contains-remove_all queries [] k = ground arith
contains-remove_all queries (d ∷ rest) k =
    ground (arith, contains-remove_all (Set.remove queries d) rest k, contains-remove queries d k)

contains-remove_dependents :
    (queries : List DynKey) (t : Reverse) (k : DynKey)
    → contains (remove_dependents queries t) k ≡ (contains queries k && not (is_listed t k))
unfolding remove_dependents
contains-remove_dependents queries [] k = ground arith
contains-remove_dependents queries ((j, dependents) ∷ t) k = ground (
  arith,
  contains-remove_dependents (remove_all queries dependents) t k,
  contains-remove_all queries dependents k,
)

-- The tests of a recorded list, with their answer for a key that is not recorded.
abbrev is_recorded : Option (List Dep) → Bool
is_recorded none = false
is_recorded (some deps) = true

abbrev is_root : Option (List Dep) → Bool
is_root none = false
is_root (some deps) = has_none deps

contains-keys :
    (t : Table DynKey (List Dep)) (k : DynKey)
    → contains (map (λ entry. entry.0) t) k ≡ is_recorded (Table.get t k)
unfolding contains Table.get
contains-keys [] k = refl
contains-keys ((j, deps) ∷ t) k = ground (arith, contains-keys t k)

contains-keys_with_none :
    (t : Table DynKey (List Dep)) (k : DynKey)
    → AreDistinct t
    → contains (keys_with_none t) k ≡ is_root (Table.get t k)
unfolding contains Table.get keys_with_none
contains-keys_with_none [] k h = refl
contains-keys_with_none ((j, []) ∷ t) k (free, h) =
    ground (arith, contains-keys_with_none t k h, get-eq t j k, free)
contains-keys_with_none ((j, dep ∷ deps) ∷ t) k (free, h) =
    ground (arith, contains-keys_with_none t k h, get-eq t j k, free)

-- An entry under a key that the table has not hides none of its dependents.
dependents_of-skip :
    (t : Reverse) (j : DynKey) (set : List DynKey) (d k : DynKey)
    → Table.get t j ≡ none
    → contains (dependents_of t d) k ≡ true
    → contains (dependents_of ((j, set) ∷ t) d) k ≡ true
unfolding Table.get contains
dependents_of-skip t j set d k free there = ground (arith, free, there, get-eq t j d)

-- An entry that lists `k` is the one that its key looks up.
listed-dependents_of :
    (t : Reverse) (k : DynKey)
    → AreDistinct t
    → is_listed t k ≡ true
    → (d : DynKey) × (contains (dependents_of t d) k ≡ true)
unfolding Table.get
listed-dependents_of [] k h listed = absurd (false_ne_true listed)
  where
    false_ne_true : false ≡ true → ⊥
    false_ne_true p = cc
listed-dependents_of ((j, set) ∷ t) k (free, h) listed = elim (Bool-cases (contains set k)) [
  | inl here ↦ (j, ground (arith, dyn_key_eq.beq_refl j, here))
  | inr out ↦
      let (d, there) = listed-dependents_of t k h (ground (arith, listed, out)) in
      (d, dependents_of-skip t j set d k free there)
]

dependents_of-listed :
    (t : Reverse) (d k : DynKey) → contains (dependents_of t d) k ≡ true → is_listed t k ≡ true
unfolding Table.get contains
dependents_of-listed [] d k h = ground arith
dependents_of-listed ((j, set) ∷ t) d k h = ground (arith, dependents_of-listed t d k)

-- A key whose list has a member is listed by some entry, and only such a key is.
is_listed-names :
    (t : Reverse) (k : DynKey) (deps : List Dep)
    → AreDistinct t
    → ((d : DynKey) → contains (dependents_of t d) k ≡ names deps d)
    → is_listed t k ≡ not (has_none deps)
unfolding contains
is_listed-names t k [] h same = elim (Bool-cases (is_listed t k)) [
  | inl listed ↦ let (d, there) = listed-dependents_of t k h listed in ground (arith, there, same d)
  | inr out ↦ out
]
is_listed-names t k (dep ∷ deps) h same =
    dependents_of-listed t (dep_key dep) k (ground (arith, same (dep_key dep), dep_eq.beq_refl dep))

-- Where the two maps are inverse and no key stands twice in either, the leaf queries are the root
-- queries: those that are recorded with no dependency, whatever depends on them.
pub leaf_queries-root_queries :
    (rt : Runtime)
    → IsInverse rt
    → HasDistinctKeys rt
    → (k : DynKey)
    → contains (leaf_queries (from_runtime rt)) k ≡ contains (root_queries (from_runtime rt)) k
unfolding leaf_queries root_queries from_runtime
leaf_queries-root_queries rt inv distinct k =
    let t = rt.deps_by_query in
    let keys = map (λ entry. entry.0) t in
    ground (
      arith,
      contains-remove_dependents (Set.of_list keys) rt.reverse_deps k,
      contains-of_list keys k,
      contains-keys t k,
      contains-keys_with_none t k distinct.forward_distinct,
      is_listed-names rt.reverse_deps k (deps_of t k) distinct.reverse_distinct
          (λ d. inv.inverse d k),
    )
