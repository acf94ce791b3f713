-- ===== src/Exec/Runs.antt =====
-- What an action does from a state with `P`: it succeeds with a value and a state that `Q` relates,
-- or fails in a state with `R`.
use desktop_wallet.Common.{◌≡◌, refl, Bool, true, false, List, [], ◌∷◌, if◌then◌else◌}
use desktop_wallet.Common.Outcome.{Result, ok, err}
use desktop_wallet.Exec.{Exec, return, fail, lift, gets, modify, resume, each, gather, ◌>>=◌}

abbrev pub Post {ℓ κ} : {W E A : Type ℓ} → (A → W → Type κ) → (W → Type κ) → Result E A × W → Type κ
Post Q R (ok a, w) = Q a w
Post Q R (err e, w) = R w

pub record Runs {ℓ κ} {W E A : Type ℓ} (P : W → Type κ) (m : Exec W E A) (Q : A → W → Type κ)
    (R : W → Type κ) : Type (ℓ ⊔ κ) where
  pub at : (w : W) → P w → Post Q R (m w)

module _ {ℓ κ} {W E A : Type ℓ} {Q : A → W → Type κ} {R : W → Type κ} where
  Post-weaken :
      {Q' : A → W → Type κ} {R' : W → Type κ}
      → ((a : A) (w : W) → Q a w → Q' a w)
      → ((w : W) → R w → R' w)
      → (o : Result E A × W) → Post Q R o
      → Post Q' R' o
  Post-weaken q r (ok a, w) h = q a w h
  Post-weaken q r (err e, w) h = r w h

module _ {ℓ κ} {W E A : Type ℓ} {P : W → Type κ} {Q : A → W → Type κ} {R : W → Type κ} where
  pub Runs-gets : (f : W → A) → ((w : W) → P w → Q (f w) w) → Runs P (gets {E = E} f) Q R
  unfolding gets
  Runs-gets f h = record { at = h }

  pub Runs-fail : (e : E) → ((w : W) → P w → R w) → Runs P (fail {A = A} e) Q R
  unfolding fail
  Runs-fail e h = record { at = h }

  pub Runs-return : (a : A) → ((w : W) → P w → Q a w) → Runs P (return {E = E} a) Q R
  unfolding return
  Runs-return a h = record { at = h }

  pub Runs-lift :
      (r : Result E A)
      → ((w : W) → P w → R w)
      → ((a : A) → r ≡ ok a → (w : W) → P w → Q a w)
      → Runs P (lift r) Q R
  unfolding lift
  Runs-lift (ok a) bad good = record { at = good a refl }
  Runs-lift (err e) bad good = record { at = bad }

  -- a stronger condition before, weaker ones after
  pub Runs-weaken :
      {P' : W → Type κ} {Q' : A → W → Type κ} {R' : W → Type κ} {m : Exec W E A}
      → ((w : W) → P' w → P w)
      → ((a : A) (w : W) → Q a w → Q' a w)
      → ((w : W) → R w → R' w)
      → Runs P m Q R
      → Runs P' m Q' R'
  Runs-weaken {m = m} p q r run = record { at = λ w h. Post-weaken q r (m w) (run.at w (p w h)) }

module _ {ℓ κ} {W E A B : Type ℓ} {Q : A → W → Type κ} {S : B → W → Type κ} {R : W → Type κ} where
  Post-resume :
      (f : A → Exec W E B)
      → ((a : A) → Runs (Q a) (f a) S R)
      → (o : Result E A × W) → Post Q R o
      → Post S R (resume f o)
  Post-resume f rest (ok a, w) h = (rest a).at w h
  Post-resume f rest (err e, w) h = h

module _ {ℓ κ} {W E A B : Type ℓ} {P : W → Type κ} {Q : A → W → Type κ} {S : B → W → Type κ}
    {R : W → Type κ} where
  pub Runs-bind :
      (m : Exec W E A) (f : A → Exec W E B)
      → Runs P m Q R
      → ((a : A) → Runs (Q a) (f a) S R)
      → Runs P (m >>= f) S R
  unfolding ◌>>=◌
  Runs-bind m f first rest = record { at = λ w h. Post-resume f rest (m w) (first.at w h) }

module _ {ℓ κ} {W E A : Type ℓ} {P : W → Type κ} where
  -- an invariant of each pass is one of the loop
  pub Runs-each :
      (body : A → Exec W E Unit) (xs : List A)
      → ((x : A) → Runs P (body x) (λ _. P) P)
      → Runs P (each body xs) (λ _. P) P
  unfolding each
  Runs-each body [] h = Runs-return tt (λ w p. p)
  Runs-each body (x ∷ xs) h = Runs-bind _ _ (h x) (λ _. Runs-each body xs h)

module _ {ℓ κ} {W E : Type ℓ} {P Q R : W → Type κ} where
  pub Runs-modify : (f : W → W) → ((w : W) → P w → Q (f w)) → Runs P (modify {E = E} f) (λ _. Q) R
  unfolding modify
  Runs-modify f h = record { at = h }

module _ {ℓ κ} {W E A : Type ℓ} {P : W → Type κ} {Q : A → W → Type κ} {R : W → Type κ} where
  pub Runs-if :
      (b : Bool) (m n : Exec W E A) → Runs P m Q R → Runs P n Q R → Runs P (if b then m else n) Q R
  Runs-if true m n run _ = run
  Runs-if false m n _ run = run

module _ {ℓ κ} {W E A B : Type ℓ} {P : W → Type κ} where
  pub Runs-gather :
      (body : A → Exec W E (List B)) (xs : List A)
      → ((x : A) → Runs P (body x) (λ _. P) P)
      → Runs P (gather body xs) (λ _. P) P
  unfolding gather
  Runs-gather body [] h = Runs-return _ (λ w p. p)
  Runs-gather body (x ∷ xs) h =
      Runs-bind _ _ (h x)
        (λ ys. Runs-bind _ _ (Runs-gather body xs h) (λ zs. Runs-return _ (λ w p. p)))

module _ {ℓ κ} {W E A : Type ℓ} {P : W → Type κ} {Q : A → W → Type κ} {R : W → Type κ} where
  -- a fact that the state does not enter
  pub Runs-given : {F : Type κ} {m : Exec W E A} → (F → Runs P m Q R) → Runs (λ w. F × P w) m Q R
  Runs-given run = record { at = λ w h. (run h.0).at w h.1 }

module _ {ℓ κ} {W E A : Type ℓ} {P : W → Type κ} {Q : A → W → Type κ} {R : W → Type κ} where
  -- a test, of which each branch knows the answer
  pub Runs-test :
      (b : Bool) (m n : Exec W E A)
      → (b ≡ true → Runs P m Q R)
      → (b ≡ false → Runs P n Q R)
      → Runs P (if b then m else n) Q R
  Runs-test true m n yes' no' = yes' refl
  Runs-test false m n yes' no' = no' refl

module _ {ℓ κ} {W E A : Type ℓ} (Q S : W → Type κ) where
  Post-and :
      (o : Result E A × W)
      → Post (λ _. Q) Q o
      → Post (λ _. S) S o
      → Post (λ _ w. Q w × S w) (λ w. Q w × S w) o
  Post-and (ok a, w) g h = (g, h)
  Post-and (err e, w) g h = (g, h)

module _ {ℓ κ} {W E A : Type ℓ} {P Q R S : W → Type κ} where
  pub Runs-and :
      {m : Exec W E A}
      → Runs P m (λ _. Q) Q
      → Runs R m (λ _. S) S
      → Runs (λ w. P w × R w) m (λ _ w. Q w × S w) (λ w. Q w × S w)
  Runs-and {m = m} first second = record {
    at = λ w h. Post-and Q S (m w) (first.at w h.0) (second.at w h.1);
  }
