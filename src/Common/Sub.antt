-- ===== src/Common/Sub.antt =====
-- Sub-sequences: `Sub t xs` says that `t` is `xs` with some elements left out.
use Prim.Native.Nat.{ℕ, zero, suc, ◌≤◌}
use mathlib.Core.Path.{◌≡◌, refl, ap}
use mathlib.Core.List.{List, [], ◌∷◌, ◌++◌, Perm, perm_middle}
use mathlib.Core.List.Perm
use mathlib.Core.Bool.{Bool, true}
use mathlib.Core.Logic.{inl, inr}
use native.Mathlib.Omega.{arith}
use desktop_wallet.Common.Lists.{All, length, keep, take, drop, take-append-drop}
use desktop_wallet.Common.Tests.{Bool-cases}

pub data Sub {ℓ} {A : Type ℓ} : List A → List A → Type ℓ where
  done : Sub [] []
  skip : {x : A} {t xs : List A} → Sub t xs → Sub t (x ∷ xs)
  pick : {x : A} {t xs : List A} → Sub t xs → Sub (x ∷ t) (x ∷ xs)

module _ {ℓ} {A : Type ℓ} where
  pub Sub-nil : (xs : List A) → Sub [] xs
  Sub-nil [] = done
  Sub-nil (x ∷ xs) = skip (Sub-nil xs)

  pub Sub-refl : (xs : List A) → Sub xs xs
  Sub-refl [] = done
  Sub-refl (x ∷ xs) = pick (Sub-refl xs)

  pub Sub-append : {t u xs ys : List A} → Sub t xs → Sub u ys → Sub (t ++ u) (xs ++ ys)
  Sub-append done k = k
  Sub-append (skip h) k = skip (Sub-append h k)
  Sub-append (pick h) k = pick (Sub-append h k)

  pub Sub-take : (n : ℕ) (xs : List A) → Sub (take n xs) xs
  Sub-take zero xs = Sub-nil xs
  Sub-take (suc n) [] = done
  Sub-take (suc n) (x ∷ xs) = pick (Sub-take n xs)

  pub length-Sub-le : {t xs : List A} → Sub t xs → length t ≤ length xs
  length-Sub-le done = omega arith
  length-Sub-le (skip h) = omega (arith, length-Sub-le h)
  length-Sub-le (pick h) = omega (arith, length-Sub-le h)

  pub Sub-All {κ} : (P : A → Type κ) {t xs : List A} → Sub t xs → All P xs → All P t
  Sub-All P done h = tt
  Sub-All P (skip s) h = Sub-All P s h.1
  Sub-All P (pick s) h = (h.0, Sub-All P s h.1)

  -- a sub-sequence of two lists in a row is one of each
  pub Sub-split :
      (xs ys : List A) {t : List A}
      → Sub t (xs ++ ys)
      → (u : List A) × (v : List A) × (t ≡ u ++ v) × Sub u xs × Sub v ys
  Sub-split [] ys {t} h = ([], t, refl, done, h)
  Sub-split (x ∷ xs) ys (skip h) =
      let (u, v, e, hu, hv) = Sub-split xs ys h in (u, v, e, skip hu, hv)
  Sub-split (x ∷ xs) ys (pick h) =
      let (u, v, e, hu, hv) = Sub-split xs ys h in (x ∷ u, v, ap (◌∷◌ x) e, pick hu, hv)

  pub Sub-cut :
      (n : ℕ) (xs : List A) {t : List A}
      → Sub t xs
      → (u : List A) × (v : List A) × (t ≡ u ++ v) × Sub u (take n xs) × Sub v (drop n xs)
  Sub-cut n xs {t} h = Sub-split (take n xs) (drop n xs) (rw take-append-drop h)

  -- a filter keeps a sub-sequence of what passes its test
  pub Sub-keep :
      (p : A → Bool) {t xs : List A} → Sub t xs → All (λ x. p x ≡ true) t → Sub t (keep p xs)
  Sub-keep p done h = done
  Sub-keep p (skip {x = x} s) h = elim (Bool-cases (p x)) [
    | inl e ↦ rw e (skip (Sub-keep p s h))
    | inr e ↦ rw e (Sub-keep p s h)
  ]
  Sub-keep p (pick s) h = rw h.0 (pick (Sub-keep p s h.1))

  pub keep-Sub : (p : A → Bool) (xs : List A) → Sub (keep p xs) xs
  keep-Sub p [] = done
  keep-Sub p (x ∷ xs) = elim (Bool-cases (p x)) [
    | inl e ↦ rw e (pick (keep-Sub p xs))
    | inr e ↦ rw e (skip (keep-Sub p xs))
  ]

  pub Sub-trans : {u xs : List A} → Sub u xs → {t : List A} → Sub t u → Sub t xs
  Sub-trans done s = s
  Sub-trans (skip h) s = skip (Sub-trans h s)
  Sub-trans (pick h) (skip s) = skip (Sub-trans h s)
  Sub-trans (pick h) (pick s) = pick (Sub-trans h s)

  -- what a sub-sequence leaves out completes it to the whole list
  pub Sub-Perm : {t xs : List A} → Sub t xs → (rest : List A) × Perm (t ++ rest) xs
  Sub-Perm done = ([], Perm.refl [])
  Sub-Perm {t} (skip {x = x} s) =
      let (rest, p) = Sub-Perm s in (x ∷ rest, Perm.trans (perm_middle t rest) (Perm.cons x p))
  Sub-Perm (pick {x = x} s) = let (rest, p) = Sub-Perm s in (rest, Perm.cons x p)

  -- a prefix of a list, and a sub-sequence of what is left beyond it
  pub Sub-take-drop :
      {n m : ℕ} (xs : List A) {u : List A} → n ≤ m → Sub u (drop m xs) → Sub (take n xs ++ u) xs
  Sub-take-drop {n = zero} {m = zero} xs le s = s
  Sub-take-drop {n = zero} {m = suc m} [] le s = s
  Sub-take-drop {n = zero} {m = suc m} (x ∷ xs) le s =
      skip (Sub-take-drop {n = zero} {m = m} xs (omega arith) s)
  Sub-take-drop {n = suc n} {m = zero} xs le s = absurd (omega arith)
  Sub-take-drop {n = suc n} {m = suc m} [] le s = s
  Sub-take-drop {n = suc n} {m = suc m} (x ∷ xs) le s =
      pick (Sub-take-drop {n = n} {m = m} xs (omega arith) s)
