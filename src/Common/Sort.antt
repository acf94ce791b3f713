-- ===== src/Common/Sort.antt =====
-- `sort_by_key(|x| Reverse(key(x)))` as an insertion sort: stable, largest key first.
use Prim.Native.Nat.{ℕ, zero, suc, ◌+◌, ◌*◌, ◌≤◌}
use mathlib.Core.Path.{◌≡◌, refl}
use mathlib.Core.List.{List, [], ◌∷◌, Perm}
use mathlib.Core.List.Perm
use mathlib.Core.Logic.{inl, inr}
use native.Mathlib.Omega.{arith}
use desktop_wallet.Common.Tests.{leb, if◌then◌else◌, Bool-cases}
use desktop_wallet.Common.Lists.{length, total, drop, All, All-map}
use desktop_wallet.Common.Sub.{Sub, done, skip, pick}

module _ {ℓ} {A : Type ℓ} (key : A → ℕ) where
  unfoldable pub insert_desc : A → List A → List A
  insert_desc x [] = x ∷ []
  insert_desc x (y ∷ ys) = if leb (key y) (key x) then x ∷ y ∷ ys else y ∷ insert_desc x ys

  unfoldable pub sort_desc : List A → List A
  unfolding insert_desc
  sort_desc [] = []
  sort_desc (x ∷ xs) = insert_desc x (sort_desc xs)

  -- largest first
  abbrev pub IsSorted : List A → Type ℓ
  IsSorted [] = Unit
  IsSorted (x ∷ xs) = All (λ y. key y ≤ key x) xs × IsSorted xs

  pub drop-IsSorted : (n : ℕ) (xs : List A) → IsSorted xs → IsSorted (drop n xs)
  drop-IsSorted zero xs h = h
  drop-IsSorted (suc n) [] h = h
  drop-IsSorted (suc n) (x ∷ xs) h = drop-IsSorted n xs h.1

  pub total-Sub-le : {t xs : List A} → Sub t xs → total key t ≤ total key xs
  total-Sub-le done = omega arith
  total-Sub-le (skip s) = omega (arith, total-Sub-le s)
  total-Sub-le (pick s) = omega (arith, total-Sub-le s)

  pub total-bounded : (d : ℕ) (xs : List A) → All (λ y. key y ≤ d) xs → total key xs ≤ d * length xs
  total-bounded d [] h = omega arith
  total-bounded d (x ∷ xs) h = grind (arith, total-bounded d xs h.1)

  pub total-equal : (d : ℕ) (xs : List A) → All (λ y. key y ≡ d) xs → total key xs ≡ d * length xs
  total-equal d [] h = omega arith
  total-equal d (x ∷ xs) h = grind (arith, total-equal d xs h.1)

  All-insert_desc {κ} :
      (P : A → Type κ) (x : A) (xs : List A) → P x → All P xs → All P (insert_desc x xs)
  unfolding insert_desc
  All-insert_desc P x [] h hs = (h, hs)
  All-insert_desc P x (y ∷ ys) h hs = elim (Bool-cases (leb (key y) (key x))) [
    | inl e ↦ rw e (h, hs)
    | inr e ↦ rw e (hs.0, All-insert_desc P x ys h hs.1)
  ]

  pub All-sort_desc {κ} : (P : A → Type κ) (xs : List A) → All P xs → All P (sort_desc xs)
  unfolding sort_desc
  All-sort_desc P [] h = h
  All-sort_desc P (x ∷ xs) h = All-insert_desc P x (sort_desc xs) h.0 (All-sort_desc P xs h.1)

  insert_desc-IsSorted : (x : A) (xs : List A) → IsSorted xs → IsSorted (insert_desc x xs)
  unfolding insert_desc
  insert_desc-IsSorted x [] h = (tt, tt)
  insert_desc-IsSorted x (y ∷ ys) h = elim (Bool-cases (leb (key y) (key x))) [
    | inl e ↦
        let le : key y ≤ key x = ground arith in
        rw e ((le, All-map (λ z (p : key z ≤ key y). omega arith) ys h.0), h)
    | inr e ↦
        let le : key x ≤ key y = ground arith in
        rw e (All-insert_desc (λ z. key z ≤ key y) x ys le h.0, insert_desc-IsSorted x ys h.1)
  ]

  pub sort_desc-IsSorted : (xs : List A) → IsSorted (sort_desc xs)
  unfolding sort_desc
  sort_desc-IsSorted [] = tt
  sort_desc-IsSorted (x ∷ xs) = insert_desc-IsSorted x (sort_desc xs) (sort_desc-IsSorted xs)

  -- a selection from a list has a counterpart of the same size and worth in the sorted list
  abbrev pub Alike : List A → List A → Type ℓ
  Alike t xs = (u : List A) × Sub u xs × (length u ≡ length t) × (total key u ≡ total key t)

  Sub-insert_desc : {t xs : List A} (x : A) → Sub t xs → Sub t (insert_desc x xs)
  unfolding insert_desc
  Sub-insert_desc x done = skip done
  Sub-insert_desc x (skip {x = y} s) = elim (Bool-cases (leb (key y) (key x))) [
    | inl e ↦ rw e (skip (skip s))
    | inr e ↦ rw e (skip (Sub-insert_desc x s))
  ]
  Sub-insert_desc x (pick {x = y} s) = elim (Bool-cases (leb (key y) (key x))) [
    | inl e ↦ rw e (skip (pick s))
    | inr e ↦ rw e (pick (Sub-insert_desc x s))
  ]

  Alike-insert_desc : {t xs : List A} (x : A) → Sub t xs → Alike (x ∷ t) (insert_desc x xs)
  unfolding insert_desc
  Alike-insert_desc x done = (x ∷ [], pick done, refl, refl)
  Alike-insert_desc {t} x (skip {x = y} s) =
      let (u, su, l, v) = Alike-insert_desc x s in
      elim (Bool-cases (leb (key y) (key x))) [
        | inl e ↦ (x ∷ t, rw e (pick (skip s)), refl, refl)
        | inr e ↦ (u, rw e (skip su), l, v)
      ]
  Alike-insert_desc x (pick {x = y} {t = t} s) =
      let (u, su, l, v) = Alike-insert_desc x s in
      elim (Bool-cases (leb (key y) (key x))) [
        | inl e ↦ (x ∷ y ∷ t, rw e (pick (pick s)), refl, refl)
        | inr e ↦ (y ∷ u, rw e (pick su), omega arith, omega arith)
      ]

  -- every selection from a list has a counterpart, as long and worth as much, in the sorted list
  pub Alike-sort_desc : {t xs : List A} → Sub t xs → Alike t (sort_desc xs)
  unfolding sort_desc
  Alike-sort_desc done = ([], done, refl, refl)
  Alike-sort_desc (skip {x = x} s) =
      let (u, su, l, v) = Alike-sort_desc s in (u, Sub-insert_desc x su, l, v)
  Alike-sort_desc (pick {x = x} s) =
      let (u, su, l, v) = Alike-sort_desc s in
      let (w, sw, m, y) = Alike-insert_desc x su in (w, sw, omega arith, omega arith)

  length-insert_desc : (x : A) (xs : List A) → length (insert_desc x xs) ≡ suc (length xs)
  unfolding insert_desc
  length-insert_desc x [] = refl
  length-insert_desc x (y ∷ ys) = elim (Bool-cases (leb (key y) (key x))) [
    | inl e ↦ rw e
    | inr e ↦ rw e (omega (arith, length-insert_desc x ys))
  ]

  total-insert_desc : (x : A) (xs : List A) → total key (insert_desc x xs) ≡ key x + total key xs
  unfolding insert_desc
  total-insert_desc x [] = refl
  total-insert_desc x (y ∷ ys) = elim (Bool-cases (leb (key y) (key x))) [
    | inl e ↦ rw e
    | inr e ↦ rw e (omega (arith, total-insert_desc x ys))
  ]

  pub total-sort_desc : (xs : List A) → total key (sort_desc xs) ≡ total key xs
  unfolding sort_desc
  total-sort_desc [] = refl
  total-sort_desc (x ∷ xs) = omega (arith, total-insert_desc x (sort_desc xs), total-sort_desc xs)

  insert_desc-perm : (x : A) (xs : List A) → Perm (insert_desc x xs) (x ∷ xs)
  unfolding insert_desc
  insert_desc-perm x [] = Perm.refl _
  insert_desc-perm x (y ∷ ys) = elim (Bool-cases (leb (key y) (key x))) [
    | inl e ↦ rw e (Perm.refl _)
    | inr e ↦ rw e (Perm.trans (Perm.cons y (insert_desc-perm x ys)) (Perm.swap x y ys))
  ]

  pub sort_desc-perm : (xs : List A) → Perm (sort_desc xs) xs
  unfolding sort_desc
  sort_desc-perm [] = Perm.refl []
  sort_desc-perm (x ∷ xs) =
      Perm.trans (insert_desc-perm x (sort_desc xs)) (Perm.cons x (sort_desc-perm xs))

  pub length-sort_desc : (xs : List A) → length (sort_desc xs) ≡ length xs
  unfolding sort_desc
  length-sort_desc [] = refl
  length-sort_desc (x ∷ xs) =
      omega (arith, length-insert_desc x (sort_desc xs), length-sort_desc xs)
