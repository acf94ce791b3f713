-- ===== src/AddressVaults/Indices.antt =====
-- crates/core/src/instance/vaults.rs: the indices of the address vaults that a state lists.
use desktop_wallet.Common.{
  ℕ, suc, ◌<◌, ◌≡◌, ◌≢◌, ◌∙◌, refl, sym, ap, subst, Bool, true, false, not, ◌&&◌, ◌||◌, Option,
  none, some, List, [], ◌∷◌, ◌++◌, ◌==◌, ==_iff, if◌then◌else◌, is_some, keep, map, All, Bool-cases,
  inl, inr, unwrap_or, arith,
}
use desktop_wallet.Assets.{contains}
use desktop_wallet.Assets.Members.{Distinct}
use desktop_wallet.AddressVaults.{
  VaultRecord, DerivedAddress, ProfileStore, is_address_vault, update,
}

abbrev pub cons_index : Option DerivedAddress → List ℕ → List ℕ
cons_index none rest = rest
cons_index (some d) rest = d.index ∷ rest

-- the indices of the address vaults among some records
unfoldable pub indices : (ℕ → Option DerivedAddress) → List VaultRecord → List ℕ
indices derived [] = []
indices derived (r ∷ rs) =
    let rest = indices derived rs in
    if is_address_vault r then cons_index (derived r.id) rest else rest

abbrev pub listed : ProfileStore → List VaultRecord
listed w = unwrap_or w.vaults_record []

-- the indices that the profile has an address vault for
abbrev pub stored : ProfileStore → List ℕ
stored w = indices w.derived_record (listed w)

-- an address vault that is listed has its address, and its identifier was drawn
module _ (uuid : ℕ → ℕ) where
  abbrev pub Kept : (ℕ → Option DerivedAddress) → ℕ → VaultRecord → Type 0
  Kept derived drawn r =
      (is_address_vault r ≡ true → is_some (derived r.id) ≡ true)
      × ((n : ℕ) × (n < drawn) × (uuid n ≡ r.id))

  abbrev pub Sound : ProfileStore → Type 0
  Sound w = All (Kept w.derived_record w.drawn) (listed w)

abbrev pub Apart : ℕ → List VaultRecord → Type 0
Apart id rs = All (λ r. r.id ≢ id) rs

module _ (uuid : ℕ → ℕ) (unrepeated : (i j : ℕ) → uuid i ≡ uuid j → i ≡ j) where
  -- the next identifier is that of no vault listed
  pub Kept-Apart :
      (derived : ℕ → Option DerivedAddress) (drawn : ℕ) (rs : List VaultRecord)
      → All (Kept uuid derived drawn) rs
      → Apart (uuid drawn) rs
  Kept-Apart derived drawn [] h = tt
  Kept-Apart derived drawn (r ∷ rs) h = (
    λ e.
        let same : h.0.1.0 ≡ drawn = unrepeated h.0.1.0 drawn (h.0.1.2 ∙ e) in
        let below = h.0.1.1 in absurd (omega arith),
    Kept-Apart derived drawn rs h.1,
  )

module _ (uuid : ℕ → ℕ) where
  pub Kept-drawn :
      (derived : ℕ → Option DerivedAddress) (drawn : ℕ) (rs : List VaultRecord)
      → All (Kept uuid derived drawn) rs
      → All (Kept uuid derived (suc drawn)) rs
  Kept-drawn derived drawn [] h = tt
  Kept-drawn derived drawn (r ∷ rs) h = (
    (h.0.0, (h.0.1.0, let below = h.0.1.1 in omega arith, h.0.1.2)),
    Kept-drawn derived drawn rs h.1,
  )

update-apart :
    (id k : ℕ) (x : DerivedAddress) (derived : ℕ → Option DerivedAddress)
    → k ≢ id
    → update id x derived k ≡ derived k
update-apart id k x derived n = elim (Bool-cases (k == id)) [
  | inl e ↦ absurd (n ((==_iff k id).0 e))
  | inr e ↦ rw e
]

pub update-same :
    (id : ℕ) (x : DerivedAddress) (derived : ℕ → Option DerivedAddress)
    → update id x derived id ≡ some x
update-same id x derived = rw ((==_iff id id).1 refl)

module _ (uuid : ℕ → ℕ) (id : ℕ) (x : DerivedAddress) (derived : ℕ → Option DerivedAddress) where
  pub Kept-update :
      (drawn : ℕ) (rs : List VaultRecord)
      → Apart id rs
      → All (Kept uuid derived drawn) rs
      → All (Kept uuid (update id x derived) drawn) rs
  Kept-update drawn [] a h = tt
  Kept-update drawn (r ∷ rs) a h = (
    (
      λ e. subst (λ o. is_some o ≡ true) (sym (update-apart id r.id x derived a.0)) (h.0.0 e),
      h.0.1,
    ),
    Kept-update drawn rs a.1 h.1,
  )

module _ (id : ℕ) (x : DerivedAddress) (derived : ℕ → Option DerivedAddress) where
  pub indices-update :
      (rs : List VaultRecord) → Apart id rs → indices (update id x derived) rs ≡ indices derived rs
  unfolding indices
  indices-update [] a = refl
  indices-update (r ∷ rs) a = λ j.
      if is_address_vault r
      then cons_index (update-apart id r.id x derived a.0 j) (indices-update rs a.1 j)
      else indices-update rs a.1 j

cons_index-append :
    (o : Option DerivedAddress) (xs ys : List ℕ) → cons_index o (xs ++ ys) ≡ cons_index o xs ++ ys
cons_index-append none xs ys = refl
cons_index-append (some d) xs ys = refl

pub indices-snoc :
    (derived : ℕ → Option DerivedAddress) (rs : List VaultRecord) (r : VaultRecord)
    (x : DerivedAddress)
    → is_address_vault r ≡ true
    → derived r.id ≡ some x
    → indices derived (rs ++ r ∷ []) ≡ indices derived rs ++ x.index ∷ []
unfolding indices
indices-snoc derived [] r x e f = rw (e, f)
indices-snoc derived (q ∷ rs) r x e f = elim (Bool-cases (is_address_vault q)) [
  | inl t ↦ rw t (
      ap (cons_index (derived q.id)) (indices-snoc derived rs r x e f)
      ∙ cons_index-append (derived q.id) (indices derived rs) (x.index ∷ []))
  | inr t ↦ rw t (indices-snoc derived rs r x e f)
]

-- the addresses of which the index is not yet there
abbrev pub firsts : List (ℕ × ℕ) → List ℕ
firsts xs = map (λ a. a.0) xs

abbrev pub missing_of : List ℕ → List (ℕ × ℕ) → List (ℕ × ℕ)
missing_of have xs = keep (λ a. not (contains have a.0)) xs

passed_over :
    (same later have : Bool)
    → (same ≡ true → have ≡ true)
    → (later && not have) ≡ ((same || later) && not have)
passed_over false later have h = refl
passed_over true true have h = refl
passed_over true false true h = refl
passed_over true false false h = absurd (let bad = h refl in cc)

taken :
    (same later have : Bool)
    → (same ≡ true → have ≡ false)
    → (same || (later && not have)) ≡ ((same || later) && not have)
taken false later have h = refl
taken true later false h = refl
taken true later true h = absurd (let bad = h refl in cc)

contains-cons : (x : ℕ) (xs : List ℕ) (i : ℕ) → contains (x ∷ xs) i ≡ (x == i || contains xs i)
unfolding contains
contains-cons x xs i = refl

contains-none : (i : ℕ) → contains [] i ≡ false
unfolding contains
contains-none i = refl

pub contains-missing_of :
    (have : List ℕ) (xs : List (ℕ × ℕ)) (i : ℕ)
    → contains (firsts (missing_of have xs)) i ≡ (contains (firsts xs) i && not (contains have i))
contains-missing_of have [] i = rw contains-none
contains-missing_of have (x ∷ xs) i = elim (Bool-cases (contains have x.0)) [
  | inl t ↦
      rw (t, contains-cons)
        (contains-missing_of have xs i
          ∙ passed_over (x.0 == i) (contains (firsts xs) i) (contains have i)
              (λ e. subst (λ k. contains have k ≡ true) ((==_iff x.0 i).0 e) t))
  | inr f ↦ rw f (
      contains-cons x.0 (firsts (missing_of have xs)) i
      ∙ ap (λ t. x.0 == i || t) (contains-missing_of have xs i)
      ∙ taken (x.0 == i) (contains (firsts xs) i) (contains have i)
          (λ e. subst (λ k. contains have k ≡ false) ((==_iff x.0 i).0 e) f)
      ∙ sym (ap (λ t. t && not (contains have i)) (contains-cons x.0 (firsts xs) i)))
]

-- what is missing is not there, and is there once
pub missing_of-Distinct :
    (have : List ℕ) (xs : List (ℕ × ℕ))
    → Distinct (firsts xs)
    → Distinct (firsts (missing_of have xs))
missing_of-Distinct have [] d = tt
missing_of-Distinct have (x ∷ xs) d = elim (Bool-cases (contains have x.0)) [
  | inl t ↦ rw t (missing_of-Distinct have xs d.1)
  | inr f ↦ rw f (
    contains-missing_of have xs x.0 ∙ ap (λ t. t && not (contains have x.0)) d.0,
    missing_of-Distinct have xs d.1,
  )
]
