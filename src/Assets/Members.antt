-- ===== src/Assets/Members.antt =====
-- crates/core/src/asset/mod.rs: lists of addresses without duplicates, and the loop that collects a
-- profile's assets.
use desktop_wallet.Common.{
  ℕ, suc, ◌≡◌, ◌≢◌, ◌∙◌, refl, sym, ap, subst, Bool, true, false, not, ◌&&◌, ◌||◌, none, some, List,
  [], ◌∷◌, ◌++◌, ◌==◌, ==_iff, any, find, position, remove_at, map, Bool-cases, Option-cases, inl,
  inr, arith,
}
use desktop_wallet.Assets.{Erc20Asset, contains, is_at}

abbrev pub addresses : List Erc20Asset → List ℕ
addresses assets = map (λ asset. asset.address) assets

-- no address twice
abbrev pub Distinct : List ℕ → Type 0
Distinct [] = Unit
Distinct (x ∷ xs) = (contains xs x ≡ false) × Distinct xs

==-apart : (a b : ℕ) → (a == b) ≡ (b == a)
==-apart a b = ground arith

pub contains-snoc : (xs : List ℕ) (a b : ℕ) → contains (xs ++ a ∷ []) b ≡ (contains xs b || a == b)
unfolding contains
contains-snoc [] a b = ground arith
contains-snoc (x ∷ xs) a b = elim (Bool-cases (x == b)) [
  | inl e ↦ rw e refl
  | inr e ↦ rw e (contains-snoc xs a b)
]

pub Distinct-snoc :
    (xs : List ℕ) (a : ℕ) → contains xs a ≡ false → Distinct xs → Distinct (xs ++ a ∷ [])
unfolding contains
Distinct-snoc [] a e d = (refl, tt)
Distinct-snoc (x ∷ xs) a e d = elim (Bool-cases (x == a)) [
  | inl same ↦ absurd (let bad : true ≡ false = sym (ap (λ t. t || contains xs a) same) ∙ e in cc)
  | inr off ↦
      let rest : contains xs a ≡ false = sym (ap (λ t. t || contains xs a) off) ∙ e in
      (contains-snoc xs a x ∙ rw (d.0, ==-apart a x, off) refl, Distinct-snoc xs a rest d.1)
]

no_some : {A : Type 0} {a : A} → some a ≢ none
no_some e = cc

some_asset : {x y : Erc20Asset} → some x ≡ some y → x ≡ y
some_asset e = cc

some_same : {i j : ℕ} → some i ≡ some j → i ≡ j
some_same e = cc

pub position-none : (xs : List ℕ) (a : ℕ) → position (λ x. x == a) xs ≡ none → contains xs a ≡ false
unfolding contains
position-none [] a e = refl
position-none (x ∷ xs) a e = elim (Bool-cases (x == a)) [
  | inl same ↦ absurd (no_some (rw same at e))
  | inr off ↦
      let tail = rw off at e in
      elim (Option-cases (position (λ x. x == a) xs)) [
        | inl n ↦ rw off (position-none xs a n)
        | inr f ↦ absurd (no_some (rw f.1 at tail))
      ]
]

and_false : (t : Bool) → false ≡ (t && false)
and_false true = refl
and_false false = refl

and_true : (t : Bool) → t ≡ (t && true)
and_true true = refl
and_true false = refl

without_first :
    (x a b : ℕ) (c : Bool) → x ≡ a → (a ≡ b → c ≡ false) → c ≡ ((x == b || c) && not (a == b))
without_first x a b c e h = elim (Bool-cases (a == b)) [
  | inl hit ↦ rw (h ((==_iff a b).0 hit), hit) (and_false (x == b || false))
  | inr miss ↦ rw (e, miss) (and_true c)
]

without_later :
    (x a b : ℕ) (c : Bool)
    → (x == a) ≡ false
    → (x == b || (c && not (a == b))) ≡ ((x == b || c) && not (a == b))
without_later x a b true e = ground arith
without_later x a b false e = ground arith

-- the removal of the first occurrence
pub contains-remove_at :
    (xs : List ℕ) (a i : ℕ)
    → Distinct xs
    → position (λ x. x == a) xs ≡ some i
    → (b : ℕ) → contains (remove_at xs i) b ≡ (contains xs b && not (a == b))
unfolding contains
contains-remove_at [] a i d e b = absurd (no_some (sym e))
contains-remove_at (x ∷ xs) a i d e b = elim (Bool-cases (x == a)) [
  | inl same ↦
      let here : 0 ≡ i = some_same (rw same at e) in
      subst (λ j. contains (remove_at (x ∷ xs) j) b ≡ ((x == b || contains xs b) && not (a == b)))
        here
        (let equal = (==_iff x a).0 same in
          let gone : contains xs a ≡ false = subst (λ y. contains xs y ≡ false) equal d.0 in
          without_first x a b (contains xs b) equal
            (λ hit. subst (λ y. contains xs y ≡ false) hit gone))
  | inr off ↦
      let tail = rw off at e in
      elim (Option-cases (position (λ x. x == a) xs)) [
        | inl n ↦ absurd (no_some (sym (rw n at tail)))
        | inr f ↦
            let here : suc f.0 ≡ i = some_same (rw f.1 at tail) in
            subst
              (λ j. contains (remove_at (x ∷ xs) j) b ≡ ((x == b || contains xs b) && not (a == b)))
              here
              (rw (contains-remove_at xs a f.0 d.1 f.1 b) (without_later x a b (contains xs b) off))
      ]
]

pub Distinct-remove_at :
    (xs : List ℕ) (a i : ℕ)
    → Distinct xs
    → position (λ x. x == a) xs ≡ some i
    → Distinct (remove_at xs i)
Distinct-remove_at [] a i d e = absurd (no_some (sym e))
Distinct-remove_at (x ∷ xs) a i d e = elim (Bool-cases (x == a)) [
  | inl same ↦ subst (λ j. Distinct (remove_at (x ∷ xs) j)) (some_same (rw same at e)) d.1
  | inr off ↦
      let tail = rw off at e in
      elim (Option-cases (position (λ x. x == a) xs)) [
        | inl n ↦ absurd (no_some (sym (rw n at tail)))
        | inr f ↦
            subst (λ j. Distinct (remove_at (x ∷ xs) j)) (some_same (rw f.1 at tail))
              (
                contains-remove_at xs a f.0 d.1 f.1 x ∙ rw d.0 refl,
                Distinct-remove_at xs a f.0 d.1 f.1,
              )
      ]
]

-- what is found is at the address
pub find-at :
    (a : ℕ) (assets : List Erc20Asset) (asset : Erc20Asset)
    → find (is_at a) assets ≡ some asset
    → asset.address ≡ a
find-at a [] asset e = absurd (no_some (sym e))
find-at a (x ∷ xs) asset e = elim (Bool-cases (is_at a x)) [
  | inl same ↦
      let here : x ≡ asset = some_asset (rw same at e) in
      sym (ap (λ y. y.address) here) ∙ (==_iff x.address a).0 same
  | inr off ↦ find-at a xs asset (rw off at e)
]

pub any-contains :
    (a : ℕ) (assets : List Erc20Asset) → any (is_at a) assets ≡ contains (addresses assets) a
unfolding contains
any-contains a [] = refl
any-contains a (x ∷ xs) = rw (any-contains a xs) refl

-- what is among the addresses is found
pub find-some :
    (a : ℕ) (assets : List Erc20Asset)
    → contains (addresses assets) a ≡ true
    → (asset : Erc20Asset) × (find (is_at a) assets ≡ some asset)
unfolding contains
find-some a [] e = absurd cc
find-some a (x ∷ xs) e = elim (Bool-cases (is_at a x)) [
  | inl same ↦ (x, rw same refl)
  | inr off ↦ let rest = find-some a xs (rw off at e) in (rest.0, rw off rest.1)
]

pub find-none :
    (a : ℕ) (assets : List Erc20Asset)
    → find (is_at a) assets ≡ none
    → contains (addresses assets) a ≡ false
unfolding contains
find-none a [] e = refl
find-none a (x ∷ xs) e = elim (Bool-cases (is_at a x)) [
  | inl same ↦ absurd (no_some (rw same at e))
  | inr off ↦ rw off (find-none a xs (rw off at e))
]

pub missing-none :
    (a : ℕ) (assets : List Erc20Asset)
    → contains (addresses assets) a ≡ false
    → find (is_at a) assets ≡ none
unfolding contains
missing-none a [] e = refl
missing-none a (x ∷ xs) e = elim (Bool-cases (is_at a x)) [
  | inl same ↦
      absurd
        (let bad : true ≡ false = sym (ap (λ t. t || contains (addresses xs) a) same) ∙ e in cc)
  | inr off ↦ rw off (missing-none a xs (sym (ap (λ t. t || contains (addresses xs) a) off) ∙ e))
]
