-- ===== src/Prelude/Results.antt =====
-- What a Go function with an error result returns, where the value counts only without an error.
use mathlib.Core.Logic.{◌⊎◌, inl, inr}
use mathlib.Core.Option.{Option, some}
use mathlib.Core.Path.{◌≡◌, refl}

pub data Result {ℓ} (E A : Type ℓ) : Type ℓ where
  ok : A → Result E A
  err : E → Result E A

infixl 5 ◌>>=◌
abbrev pub ◌>>=◌ {ℓ} : {E A B : Type ℓ} → Result E A → (A → Result E B) → Result E B
ok a >>= f = f a
err e >>= f = err e

-- return fmt.Errorf("…: %w", err)
abbrev pub wrap {ℓ} : {E A : Type ℓ} → (E → E) → Result E A → Result E A
wrap f (ok a) = ok a
wrap f (err e) = err (f e)

module _ {ℓ} {E A : Type ℓ} where
  pub ok-injective : {a b : A} → ◌≡◌ {A = Result E A} (ok a) (ok b) → a ≡ b
  ok-injective e = cc

  pub some-ok-injective :
      {a b : A} → ◌≡◌ {A = Option (Result E A)} (some (ok a)) (some (ok b)) → a ≡ b
  some-ok-injective e = cc

  pub wrap-eq-ok : (f : E → E) (r : Result E A) {a : A} → wrap f r ≡ ok a → r ≡ ok a
  wrap-eq-ok f (ok b) e = e
  wrap-eq-ok f (err x) e = cc

-- Inversion of a successful bind.
pub >>=-eq-ok {ℓ} :
    {E A B : Type ℓ} (r : Result E A) (f : A → Result E B) {b : B}
    → (r >>= f) ≡ ok b
    → (a : A) × (r ≡ ok a) × (f a ≡ ok b)
>>=-eq-ok (ok a) f h = (a, refl, h)
>>=-eq-ok (err e) f h = cc

pub Result-cases {ℓ} :
    {E A : Type ℓ} → (r : Result E A) → ((a : A) × (r ≡ ok a)) ⊎ ((e : E) × (r ≡ err e))
Result-cases (ok a) = inl (a, refl)
Result-cases (err e) = inr (e, refl)
