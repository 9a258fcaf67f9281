-- ===== src/Base/Set.antt =====
-- Hash sets (`HashSet`, `DashSet`) as lists over `Eq` members, seen through `contains`.
use mathlib.Core.Path.{◌≡◌, refl}
use mathlib.Core.Bool.{Bool, true, false, ◌&&◌, ◌||◌, not}
use mathlib.Core.List.{List, [], ◌∷◌, ◌++◌}
use Prim.Native.Nat.{ℕ, ◌+◌, ◌≤◌, ◌<◌}
use picante.Base.Lists.{length}
use native.Mathlib.Omega.{arith}
use picante.Base.Tests.{if◌then◌else◌}
use picante.Base.Eq.{Eq, ◌==◌, eq_sym, eq_congr}

module _ {ℓ} {A : Type ℓ} ⦃e : Eq A⦄ where
  unfoldable pub contains : List A → A → Bool
  contains [] a = false
  contains (x ∷ xs) a = x == a || contains xs a

  unfoldable pub insert : List A → A → List A
  insert xs a = if contains xs a then xs else a ∷ xs

  unfoldable pub remove : List A → A → List A
  remove [] a = []
  remove (x ∷ xs) a = let rest = remove xs a in if x == a then rest else x ∷ rest

  unfoldable pub is_empty : List A → Bool
  is_empty [] = true
  is_empty (x ∷ xs) = false

  -- `collect` into a set
  unfoldable pub of_list : List A → List A
  of_list [] = []
  of_list (x ∷ xs) = insert (of_list xs) x

  -- `xs.difference(&ys)`
  unfoldable pub difference : List A → List A → List A
  difference [] ys = []
  difference (x ∷ xs) ys = let rest = difference xs ys in if contains ys x then rest else x ∷ rest

  pub contains-eq : (xs : List A) (a b : A) → (a == b) ≡ true → contains xs a ≡ contains xs b
  unfolding contains
  contains-eq [] a b h = refl
  contains-eq (x ∷ xs) a b h =
      ground (arith, eq_congr a b x h, eq_sym x a, eq_sym x b, contains-eq xs a b h)

  pub contains-insert :
      (xs : List A) (a b : A) → contains (insert xs a) b ≡ (a == b || contains xs b)
  unfolding contains insert
  contains-insert xs a b = ground (arith, contains-eq xs a b)

  pub contains-remove :
      (xs : List A) (a b : A) → contains (remove xs a) b ≡ (not (a == b) && contains xs b)
  unfolding contains remove
  contains-remove [] a b = ground arith
  contains-remove (x ∷ xs) a b =
      ground (arith, contains-remove xs a b, eq_congr x a b, eq_congr a b x, eq_sym x a, eq_sym x b)

  pub contains-of_list : (xs : List A) (a : A) → contains (of_list xs) a ≡ contains xs a
  unfolding contains of_list
  contains-of_list [] a = refl
  contains-of_list (x ∷ xs) a =
      ground (arith, contains-insert (of_list xs) x a, contains-of_list xs a)

  pub contains-difference :
      (xs ys : List A) (a : A)
      → contains (difference xs ys) a ≡ (contains xs a && not (contains ys a))
  unfolding contains difference
  contains-difference [] ys a = refl
  contains-difference (x ∷ xs) ys a =
      ground (arith, contains-difference xs ys a, contains-eq ys x a)

  pub contains_empty : (xs : List A) (a : A) → is_empty xs ≡ true → contains xs a ≡ false
  unfolding contains is_empty
  contains_empty [] a h = refl
  contains_empty (x ∷ xs) a h = ground arith

pub ruleset set_laws = (contains-insert, contains-remove, contains-of_list, contains-difference)

module _ {ℓ} {A : Type ℓ} ⦃e : Eq A⦄ where
  pub contains-append :
      (xs ys : List A) (a : A) → contains (xs ++ ys) a ≡ (contains xs a || contains ys a)
  unfolding contains
  contains-append [] ys a = refl
  contains-append (x ∷ xs) ys a = ground (arith, contains-append xs ys a)

  -- No member stands twice.
  unfoldable pub distinct : List A → Bool
  distinct [] = true
  distinct (x ∷ xs) = not (contains xs x) && distinct xs

  -- How many of the list are not in the set.
  abbrev pub missing : List A → List A → ℕ
  missing [] seen = 0
  missing (x ∷ xs) seen = (if contains seen x then 0 else 1) + missing xs seen

  pub missing-le : (xs seen : List A) → missing xs seen ≤ length xs
  missing-le [] seen = omega arith
  missing-le (x ∷ xs) seen = ground (arith, missing-le xs seen)

  pub missing_mono : (xs seen : List A) (a : A) → missing xs (a ∷ seen) ≤ missing xs seen
  unfolding contains
  missing_mono [] seen a = omega arith
  missing_mono (x ∷ xs) seen a = ground (arith, missing_mono xs seen a)

  -- A member that is seen for the first time is missing no more.
  pub missing-lt :
      (xs seen : List A) (a : A)
      → contains xs a ≡ true
      → contains seen a ≡ false
      → missing xs (a ∷ seen) < missing xs seen
  unfolding contains
  missing-lt [] seen a h k = ground arith
  missing-lt (x ∷ xs) seen a h k =
      ground (arith, missing-lt xs seen a, missing_mono xs seen a, contains-eq seen x a, eq_sym x a)
