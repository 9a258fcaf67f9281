-- ===== src/Base/Table.antt =====
-- Hash maps (`HashMap`, `DashMap`, `im::HashMap`) as association lists over `Eq` keys. A key
-- stands at most once; the order of entries is that of insertion, which no statement depends on.
use mathlib.Core.Path.{◌≡◌, refl}
use mathlib.Core.Bool.{true}
use mathlib.Core.List.{List, [], ◌∷◌}
use mathlib.Core.Option.{Option, none, some}
use native.Mathlib.Omega.{arith}
use mathlib.Core.Logic.{inl, inr}
use picante.Base.Tests.{if◌then◌else◌, Bool-cases}
use picante.Base.Eq.{Eq, ◌==◌, eq_sym, eq_congr}

abbrev pub Table {ℓ κ} : Type κ → Type ℓ → Type (ℓ ⊔ κ)
Table K V = List (K × V)

module _ {ℓ κ} {K : Type κ} {V : Type ℓ} ⦃e : Eq K⦄ where
  unfoldable pub get : Table K V → K → Option V
  get [] k = none
  get ((j, v) ∷ t) k = if j == k then some v else get t k

  unfoldable pub insert : Table K V → K → V → Table K V
  insert [] k v = (k, v) ∷ []
  insert ((j, w) ∷ t) k v = if j == k then (j, v) ∷ t else (j, w) ∷ insert t k v

  unfoldable pub remove : Table K V → K → Table K V
  remove [] k = []
  remove ((j, w) ∷ t) k = let rest = remove t k in if j == k then rest else (j, w) ∷ rest

  pub get-eq : (t : Table K V) (k j : K) → (k == j) ≡ true → get t k ≡ get t j
  unfolding get
  get-eq [] k j h = refl
  get-eq ((i, w) ∷ t) k j h =
      ground (arith, eq_sym i k, eq_sym i j, eq_congr k j i h, get-eq t k j h)

  pub get-insert :
      (t : Table K V) (k j : K) (v : V)
      → get (insert t k v) j ≡ (if k == j then some v else get t j)
  unfolding get insert
  get-insert [] k j v = refl
  get-insert ((i, w) ∷ t) k j v =
      ground (arith, get-insert t k j v, eq_congr i k j, eq_congr k j i, eq_sym i k, eq_sym i j)

  pub get-remove :
      (t : Table K V) (k j : K) → get (remove t k) j ≡ (if k == j then none else get t j)
  unfolding get remove
  get-remove [] k j = ground arith
  get-remove ((i, w) ∷ t) k j =
      ground (arith, get-remove t k j, eq_congr i k j, eq_congr k j i, eq_sym i k, eq_sym i j)

pub ruleset table_laws = (get-insert, get-remove)

module _ {ℓ κ} {K : Type κ} {V : Type ℓ} ⦃e : Eq K⦄ where
  -- No key stands twice.
  abbrev pub AreDistinct : Table K V → Type ℓ
  AreDistinct [] = Unit {ℓ}
  AreDistinct ((k, v) ∷ t) = (get t k ≡ none) × AreDistinct t

  -- The entries of the first table, and those of the second under the other keys.
  abbrev pub over : Table K V → Table K V → K → Option V
  over t u k = elim (get t k) [ none ↦ get u k | some v ↦ some v ]

  pub over-insert :
      (t u : Table K V) (k : K) (v : V) (j : K)
      → get t k ≡ none
      → over t (insert u k v) j ≡ over ((k, v) ∷ t) u j
  unfolding get
  over-insert t u k v j h = ground (arith, h, get-insert u k j v, get-eq t k j)

  pub over_empty : (t : Table K V) (k : K) → over t [] k ≡ get t k
  unfolding get
  over_empty t k = ground arith

  pub AreDistinct-insert :
      (t : Table K V) (k : K) (v : V) → AreDistinct t → AreDistinct (insert t k v)
  unfolding insert get
  AreDistinct-insert [] k v d = (refl, tt)
  AreDistinct-insert ((j, w) ∷ t) k v (free, d) = elim (Bool-cases (j == k)) [
    | inl p ↦ rw p (free, d)
    | inr p ↦
        rw p (ground (arith, get-insert t k j v, eq_sym k j, free), AreDistinct-insert t k v d)
  ]
