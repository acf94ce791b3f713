-- ===== src/Common/Outcome.antt =====
-- Rust's `Result`: an error is passed on by `?`, here a bind.
use mathlib.Core.Path.{◌≡◌, refl}
use mathlib.Core.Option.{Option, none, some}

pub data Result {ℓ} (E A : Type ℓ) : Type ℓ where
  err : E → Result E A
  ok : A → Result E A

module _ {ℓ} {E A : Type ℓ} where
  abbrev pub ok_or : E → Option A → Result E A
  ok_or failure none = err failure
  ok_or failure (some found) = ok found

  pub ok-injective : {a b : A} {r : Result E A} → r ≡ ok a → r ≡ ok b → a ≡ b
  ok-injective h g = cc

module _ {ℓ} {E A B : Type ℓ} where
  infixl 5 ◌>>=◌
  abbrev pub ◌>>=◌ : Result E A → (A → Result E B) → Result E B
  ◌>>=◌ (err failure) next = err failure
  ◌>>=◌ (ok value) next = next value

  -- a chain that succeeds has succeeded at each step
  pub >>=-eq-ok :
      (first : Result E A) (next : A → Result E B) {last : B}
      → (first >>= next) ≡ ok last
      → (value : A) × (first ≡ ok value) × (next value ≡ ok last)
  >>=-eq-ok (err failure) next made = cc
  >>=-eq-ok (ok value) next made = (value, refl, made)
