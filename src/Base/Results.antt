-- ===== src/Base/Results.antt =====
-- Rust's `Result`, with the bind that `?` stands for.
use mathlib.Core.Path.{◌≡◌, refl, ap}
use mathlib.Core.Logic.{◌⊎◌, inl, inr}
use mathlib.Core.Option.{Option, none, some}
use mathlib.Core.List.{List, [], ◌∷◌}

pub data Result {ℓ κ} (E : Type κ) (A : Type ℓ) : Type (ℓ ⊔ κ) where
  ok : A → Result E A
  err : E → Result E A

infixl 5 ◌>>=◌ ◌>>◌
abbrev pub ◌>>=◌ {ℓ κ μ} :
    {E : Type κ} {A : Type ℓ} {B : Type μ} → Result E A → (A → Result E B) → Result E B
ok a >>= f = f a
err e >>= f = err e

abbrev pub ◌>>◌ {ℓ κ} : {E : Type κ} {B : Type ℓ} → Result E (Unit {0}) → Result E B → Result E B
m >> k = m >>= λ _. k

-- `map_err`
abbrev pub map_err {ℓ κ μ} :
    {E : Type κ} {F : Type μ} {A : Type ℓ} → (E → F) → Result E A → Result F A
map_err f (ok a) = ok a
map_err f (err e) = err (f e)

-- `ok_or`
abbrev pub ok_or {ℓ κ} : {E : Type κ} {A : Type ℓ} → Option A → E → Result E A
ok_or none e = err e
ok_or (some a) e = ok a

-- `Result::ok`
abbrev pub to_option {ℓ κ} : {E : Type κ} {A : Type ℓ} → Result E A → Option A
to_option (ok a) = some a
to_option (err e) = none

-- To split on a computed result and keep the equation.
pub Result-cases {ℓ κ} :
    {E : Type κ} {A : Type ℓ} (r : Result E A) → ((a : A) × (r ≡ ok a)) ⊎ ((e : E) × (r ≡ err e))
Result-cases (ok a) = inl (a, refl)
Result-cases (err e) = inr (e, refl)

-- A loop that stops with `?` at the first error. What was done before it stays done.
abbrev pub after_ok {ℓ κ μ} :
    {E : Type κ} {S : Type ℓ} {A : Type μ}
    → (S → Result E A × S)
    → Result E (Unit {0}) × S
    → Result E A × S
after_ok next (ok u, s) = next s
after_ok next (err e, s) = (err e, s)

unfoldable pub try_each {ℓ κ μ} :
    {E : Type κ} {S : Type ℓ} {A : Type μ}
    → (A → S → Result E (Unit {0}) × S)
    → List A
    → S
    → Result E (Unit {0}) × S
try_each step [] s = (ok tt, s)
try_each step (a ∷ rest) s = after_ok (try_each step rest) (step a s)

-- A step that let the loop go on was a success.
pub after_ok-ok {ℓ κ μ} :
    {E : Type κ} {S : Type ℓ} {A : Type μ} (next : S → Result E A × S) (o : Result E (Unit {0}) × S)
    (a : A) (s' : S)
    → after_ok next o ≡ (ok a, s')
    → (s : S) × (o ≡ (ok tt, s)) × (next s ≡ (ok a, s'))
after_ok-ok next (ok u, s) a s' h = (s, refl, h)
after_ok-ok next (err e, s) a s' h = absurd (err_ne_ok (ap (λ r. r.0) h))
  where
    err_ne_ok : err e ≡ ok a → ⊥
    err_ne_ok p = cc
