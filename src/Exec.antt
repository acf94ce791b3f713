-- ===== src/Exec.antt =====
-- Fallible methods over a state. What was written before an error stays written, so the state comes
-- back beside the error too.
pub mod Runs
use desktop_wallet.Common.{Option, none, some, List, [], ◌∷◌, ◌++◌}
use desktop_wallet.Common.Outcome.{Result, ok, err}

abbrev pub Exec {ℓ} : Type ℓ → Type ℓ → Type ℓ → Type ℓ
Exec W E A = W → Result E A × W

module _ {ℓ} {W E A : Type ℓ} where
  unfoldable pub return : A → Exec W E A
  return a w = (ok a, w)

  unfoldable pub fail : E → Exec W E A
  fail e w = (err e, w)

  -- a step that reads nothing and writes nothing
  unfoldable pub lift : Result E A → Exec W E A
  lift r w = (r, w)

  -- a read of the state
  unfoldable pub gets : (W → A) → Exec W E A
  gets f w = (ok (f w), w)

module _ {ℓ} {W E : Type ℓ} where
  -- a write of the state
  unfoldable pub modify : (W → W) → Exec W E Unit
  modify f w = (ok tt, f w)

module _ {ℓ} {W E A B : Type ℓ} where
  abbrev pub resume : (A → Exec W E B) → Result E A × W → Result E B × W
  resume f (ok a, w) = f a w
  resume f (err e, w) = (err e, w)

  infixl 5 ◌>>=◌ ◌>>◌
  unfoldable pub ◌>>=◌ : Exec W E A → (A → Exec W E B) → Exec W E B
  unfolding return fail lift gets modify
  ◌>>=◌ m f w = resume f (m w)

  abbrev pub ◌>>◌ : Exec W E A → Exec W E B → Exec W E B
  m >> n = m >>= λ _. n

module _ {ℓ} {W E A : Type ℓ} where
  -- `for x in xs { body(x)?; }`
  unfoldable pub each : (A → Exec W E Unit) → List A → Exec W E Unit
  unfolding return
  each body [] = return tt
  each body (x ∷ xs) = body x >> each body xs

module _ {ℓ} {W E A B : Type ℓ} where
  -- `for x in xs { out.push(body(x)?); }`
  unfoldable pub collect : (A → Exec W E B) → List A → Exec W E (List B)
  unfolding return
  collect body [] = return []
  collect body (x ∷ xs) = body x >>= λ y. collect body xs >>= λ ys. return (y ∷ ys)

  -- `for x in xs { out.extend(body(x)?); }`
  unfoldable pub gather : (A → Exec W E (List B)) → List A → Exec W E (List B)
  unfolding return
  gather body [] = return []
  gather body (x ∷ xs) = body x >>= λ ys. gather body xs >>= λ zs. return (ys ++ zs)
