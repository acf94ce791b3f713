-- ===== src/AddressVaults/Adding.antt =====
-- crates/core/src/instance/vaults.rs: adding the vaults of standard addresses, whatever accesses fail.
use desktop_wallet.Common.{
  ℕ, ◌<◌, ◌≡◌, ◌∙◌, refl, sym, ap, subst, Bool, true, false, ◌||◌, some, List, [], ◌∷◌, ◌++◌, ◌==◌,
  is_some, All, All-append, Bool-cases, inl, inr, arith,
}
use desktop_wallet.Exec.{each}
use desktop_wallet.Exec.Runs.{
  Runs, Post, Runs-bind, Runs-weaken, Runs-return, Runs-gets, Runs-modify,
}
use desktop_wallet.Assets.{contains}
use desktop_wallet.Assets.Members.{Distinct, Distinct-snoc, contains-snoc}
use desktop_wallet.AddressVaults.{
  VaultRecord, DerivedAddress, ProfileStore, address_vault_tag, attempt, attempt_with,
  vault_records, put_vault_records, put_derived_address, is_address_vault, add_vault, new_vault,
  add_one, add_address_vaults,
}
use desktop_wallet.AddressVaults.Indices.{
  indices, listed, stored, Kept, Sound, Apart, Kept-Apart, Kept-drawn, Kept-update, update-same,
  indices-update, indices-snoc, firsts,
}

by_fault :
    (P : ProfileStore → Type 0)
    → ((w : ProfileStore) (f : List Bool) → P w → P (record w { faults = f }))
    → (w : ProfileStore) (faults : List Bool) → P w
    → Post (λ _. P) P (attempt_with w faults)
unfolding attempt_with
by_fault P keep w [] h = keep w [] h
by_fault P keep w (true ∷ rest) h = keep w rest h
by_fault P keep w (false ∷ rest) h = keep w rest h

-- an access changes nothing but the faults
pub attempt-Runs :
    (P : ProfileStore → Type 0)
    → ((w : ProfileStore) (f : List Bool) → P w → P (record w { faults = f }))
    → Runs P attempt (λ _. P) P
unfolding attempt
attempt-Runs P keep = record { at = λ w h. by_fault P keep w w.faults h }

pub vault_records-Runs :
    (P : ProfileStore → Type 0)
    → ((w : ProfileStore) (f : List Bool) → P w → P (record w { faults = f }))
    → Runs P vault_records (λ rs w. (rs ≡ listed w) × P w) P
unfolding vault_records
vault_records-Runs P keep =
    Runs-bind _ _ (attempt-Runs P keep) (λ _. Runs-gets _ (λ w h. (refl, h)))

module _ (uuid : ℕ → ℕ) where
  -- a state that is sound, with vaults for these indices
  abbrev pub Has : List ℕ → ProfileStore → Type 0
  Has s w = Sound uuid w × (stored w ≡ s)

  -- an identifier that was drawn, for an address vault that is not listed
  abbrev pub Drawn : VaultRecord → ProfileStore → Type 0
  Drawn r w =
      (is_address_vault r ≡ true)
      × Apart r.id (listed w)
      × ((n : ℕ) × (n < w.drawn) × (uuid n ≡ r.id))

  module _ (s : List ℕ) (r : VaultRecord) (x : DerivedAddress) where
    listed_after :
        (rs : List VaultRecord) (w : ProfileStore)
        → rs ≡ listed w
        → Has s w × Drawn r w × (w.derived_record r.id ≡ some x)
        → Has (s ++ x.index ∷ []) (record w { vaults_record = some (rs ++ r ∷ []) })
    listed_after rs w e h = (
      All-append (Kept uuid w.derived_record w.drawn) rs (r ∷ [])
          (subst (All (Kept uuid w.derived_record w.drawn)) (sym e) h.0.0)
          ((λ _. ap is_some h.2, h.1.2), tt),
      indices-snoc w.derived_record rs r x h.1.0 h.2
          ∙ ap (λ t. t ++ x.index ∷ []) (ap (indices w.derived_record) e ∙ h.0.1),
    )

    put_derived_address-Runs :
        Runs
          (λ w. Has s w × Drawn r w)
          (put_derived_address r.id x)
          (λ _ w. Has s w × Drawn r w × (w.derived_record r.id ≡ some x))
          (Has s)
    unfolding put_derived_address
    put_derived_address-Runs =
        Runs-weaken (λ w h. h) (λ _ w h. h) (λ w h. h.0)
          (Runs-bind _ _ (attempt-Runs (λ w. Has s w × Drawn r w) (λ w f h. h)) (λ _.
            Runs-modify _ (λ w h. (
              (
                Kept-update uuid r.id x w.derived_record w.drawn (listed w) h.1.1 h.0.0,
                indices-update r.id x w.derived_record (listed w) h.1.1 ∙ h.0.1,
              ),
              h.1,
              update-same r.id x w.derived_record,
            ))))

    add_vault-Runs :
        Runs
          (λ w. Has s w × Drawn r w × (w.derived_record r.id ≡ some x))
          (add_vault r)
          (λ _. Has (s ++ x.index ∷ []))
          (Has s)
    unfolding add_vault put_vault_records
    add_vault-Runs =
        Runs-weaken (λ w h. h) (λ _ w h. h) (λ w h. h.0)
          (Runs-bind _ _
            (vault_records-Runs (λ w. Has s w × Drawn r w × (w.derived_record r.id ≡ some x))
              (λ w f h. h))
            (λ rs.
              Runs-weaken (λ w h. h) (λ _ w h. h) (λ w h. h.1)
                (Runs-bind _ _
                  (attempt-Runs
                    (λ w.
                      (rs ≡ listed w) × (Has s w × Drawn r w × (w.derived_record r.id ≡ some x)))
                    (λ w f h. h))
                  (λ _. Runs-modify _ (λ w h. listed_after rs w h.0 h.1)))))

  module _ (s : List ℕ) (i a : ℕ) where
    -- the next identifier is drawn for an address vault
    new_vault-Runs :
        ((j k : ℕ) → uuid j ≡ uuid k → j ≡ k)
        → Runs (Has s) (new_vault uuid address_vault_tag) (λ r w. Has s w × Drawn r w) (Has s)
    unfolding new_vault is_address_vault
    new_vault-Runs unrepeated =
        Runs-bind _ _ (Runs-gets {Q = λ n w. (n ≡ w.drawn) × Has s w} _ (λ w h. (refl, h))) (λ n.
          Runs-bind _ _
            (Runs-modify
              {Q = λ w. Has s w × Drawn (record { tag = address_vault_tag; id = uuid n }) w} _
              (λ w h. (
                (Kept-drawn uuid w.derived_record w.drawn (listed w) h.1.0, h.1.1),
                (
                  refl,
                  subst (λ k. Apart (uuid k) (listed w)) (sym h.0)
                      (Kept-Apart uuid unrepeated w.derived_record w.drawn (listed w) h.1.0),
                  (n, let e = h.0 in omega arith, refl),
                ),
              )))
            (λ _. Runs-return _ (λ w h. h)))

    add_one-Runs :
        ((j k : ℕ) → uuid j ≡ uuid k → j ≡ k)
        → Runs (Has s) (add_one uuid (i, a)) (λ _. Has (s ++ i ∷ [])) (Has s)
    unfolding add_one
    add_one-Runs unrepeated = Runs-bind _ _ (new_vault-Runs unrepeated) (λ r.
        Runs-bind _ _ (put_derived_address-Runs s r (record { address = a; index = i }))
          (λ _. add_vault-Runs s r (record { address = a; index = i })))

-- a list of indices, none of which is among others or there twice
abbrev pub Joins : List ℕ → List ℕ → Type 0
Joins s xs = All (λ i. contains s i ≡ false) xs × Distinct xs

apart : (x i : ℕ) → (x == i) ≡ false → (i == x) ≡ false
apart x i e = ground arith

or_false : (t : Bool) → t ≡ (t || false)
or_false true = refl
or_false false = refl

or_assoc : (a b c : Bool) → ((a || b) || c) ≡ (a || (b || c))
or_assoc true b c = refl
or_assoc false b c = refl

joins_next :
    (s : List ℕ) (i : ℕ) (xs : List ℕ)
    → contains xs i ≡ false
    → All (λ j. contains s j ≡ false) xs
    → All (λ j. contains (s ++ i ∷ []) j ≡ false) xs
unfolding contains
joins_next s i [] e h = tt
joins_next s i (x ∷ xs) e h = elim (Bool-cases (x == i)) [
  | inl t ↦ absurd (let bad : true ≡ false = sym (ap (λ b. b || contains xs i) t) ∙ e in cc)
  | inr f ↦ (
    contains-snoc s i x ∙ ap (λ b. b || i == x) h.0 ∙ apart x i f,
    joins_next s i xs (sym (ap (λ b. b || contains xs i) f) ∙ e) h.1,
  )
]

-- after an addition to `s`, also one that has failed: nothing is lost, and no index is there twice
module _ (uuid : ℕ → ℕ) where
  abbrev pub Safe : List ℕ → ProfileStore → Type 0
  Safe s w =
      Sound uuid w
      × Distinct (stored w)
      × ((i : ℕ) → contains s i ≡ true → contains (stored w) i ≡ true)

  abbrev pub Joined : List ℕ → List ℕ → ProfileStore → Type 0
  Joined s xs w =
      Sound uuid w
      × Distinct (stored w)
      × ((i : ℕ) → contains (stored w) i ≡ (contains s i || contains xs i))

  pub Has-Safe : (s : List ℕ) (w : ProfileStore) → Distinct s → Has uuid s w → Safe s w
  Has-Safe s w d h = (h.0, subst Distinct (sym h.1) d, λ i e. ap (λ t. contains t i) h.1 ∙ e)

  Has-Joined : (s : List ℕ) (w : ProfileStore) → Distinct s → Has uuid s w → Joined s [] w
  unfolding contains
  Has-Joined s w d h =
      (h.0, subst Distinct (sym h.1) d, λ i. ap (λ t. contains t i) h.1 ∙ or_false (contains s i))

  Joined-snoc :
      (s xs : List ℕ) (x : ℕ) (w : ProfileStore) → Joined (s ++ x ∷ []) xs w → Joined s (x ∷ xs) w
  unfolding contains
  Joined-snoc s xs x w h = (
    h.0,
    h.1,
    λ i.
        h.2 i
        ∙ ap (λ t. t || contains xs i) (contains-snoc s x i)
        ∙ or_assoc (contains s i) (x == i) (contains xs i),
  )

  Safe-snoc : (s : List ℕ) (x : ℕ) (w : ProfileStore) → Safe (s ++ x ∷ []) w → Safe s w
  Safe-snoc s x w h = (h.0, h.1, λ i e. h.2 i (contains-snoc s x i ∙ ap (λ t. t || x == i) e))

  pub add_address_vaults-Runs :
      ((j k : ℕ) → uuid j ≡ uuid k → j ≡ k)
      → (xs : List (ℕ × ℕ)) (s : List ℕ) → Distinct s
      → Joins s (firsts xs)
      → Runs (Has uuid s) (add_address_vaults uuid xs) (λ _. Joined s (firsts xs)) (Safe s)
  unfolding add_address_vaults each
  add_address_vaults-Runs unrepeated [] s d j = Runs-return tt (λ w h. Has-Joined s w d h)
  add_address_vaults-Runs unrepeated ((i, a) ∷ xs) s d j =
      Runs-bind _ _
        (Runs-weaken (λ w h. h) (λ _ w h. h) (λ w h. Has-Safe s w d h)
          (add_one-Runs uuid s i a unrepeated))
        (λ _.
          Runs-weaken (λ w h. h) (λ _ w h. Joined-snoc s (firsts xs) i w h)
            (λ w h. Safe-snoc s i w h)
            (add_address_vaults-Runs unrepeated xs (s ++ i ∷ []) (Distinct-snoc s i j.0.0 d)
              (joins_next s i (firsts xs) j.1.0 j.0.1, j.1.1)))
