-- ===== src/Base/Eq.antt =====
-- Rust's `Eq`: a Boolean test that is an equivalence. It need not be the path equality: two keys
-- are equal by their bytes alone.
use Prim.Native.Nat.{ℕ}
use mathlib.Core.Path.{◌≡◌}
use mathlib.Core.Bool.{Bool, true}
use native.Mathlib.Omega.{arith}
use picante.Base.Tests.{◌==◌ as nat_beq}

pub record Eq {ℓ} (A : Type ℓ) : Type ℓ where
  pub beq : A → A → Bool
  pub beq_refl : (a : A) → beq a a ≡ true
  pub beq_sym : (a b : A) → beq a b ≡ true → beq b a ≡ true
  pub beq_trans : (a b c : A) → beq a b ≡ true → beq b c ≡ true → beq a c ≡ true

infix 50 ◌==◌
abbrev pub ◌==◌ {ℓ} : {A : Type ℓ} ⦃e : Eq A⦄ → A → A → Bool
◌==◌ ⦃e⦄ = e.beq

module _ {ℓ} {A : Type ℓ} ⦃e : Eq A⦄ where
  pub eq_sym : (a b : A) → (a == b) ≡ (b == a)
  eq_sym a b = ground (arith, e.beq_sym a b, e.beq_sym b a)

  -- Equal keys are told apart from nothing.
  pub eq_congr : (a b c : A) → (a == b) ≡ true → (a == c) ≡ (b == c)
  eq_congr a b c h = ground (arith, e.beq_sym a b, e.beq_trans b a c, e.beq_trans a b c)

pub nat_refl : (a : ℕ) → nat_beq a a ≡ true
nat_refl a = ground arith

pub nat_sym : (a b : ℕ) → nat_beq a b ≡ true → nat_beq b a ≡ true
nat_sym a b h = ground arith

pub nat_trans : (a b c : ℕ) → nat_beq a b ≡ true → nat_beq b c ≡ true → nat_beq a c ≡ true
nat_trans a b c h k = ground arith

instance abbrev pub nat_eq : Eq ℕ
nat_eq = record { beq = nat_beq; beq_refl = nat_refl; beq_sym = nat_sym; beq_trans = nat_trans }
