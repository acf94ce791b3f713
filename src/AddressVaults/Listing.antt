-- ===== src/AddressVaults/Listing.antt =====
-- crates/core/src/instance/vaults.rs: the stored address accounts of a profile, and the vaults that are
-- added for the addresses that a scan has found.
use mathlib.Core.List.{map-append}
use desktop_wallet.Common.{
  ℕ, ◌≡◌, ◌∙◌, refl, sym, ap, subst, Bool, Option, none, some, List, [], ◌∷◌, ◌++◌, All, Bool-cases,
  inl, inr,
}
use desktop_wallet.Common.Outcome.{ok_or, ok-injective}
use desktop_wallet.Exec.{return, lift, gather, ◌>>=◌}
use desktop_wallet.Exec.Runs.{
  Runs, Runs-bind, Runs-given, Runs-weaken, Runs-return, Runs-gets, Runs-lift,
}
use desktop_wallet.Assets.{contains}
use desktop_wallet.AddressVaults.{
  VaultRecord, DerivedAddress, ProfileStore, Op, missing_address, vault_records,
  get_derived_address, is_address_vault, listed_address, sort_by_index, stored_address_accounts,
  not_yet_stored,
}
use desktop_wallet.AddressVaults.Indices.{cons_index, indices, listed, Kept, missing_of}
use desktop_wallet.AddressVaults.Adding.{attempt-Runs, vault_records-Runs, Has}
use desktop_wallet.AddressVaults.Sorting.{
  keys, Ascending, sort_by_index-Weak, contains-sort_by_index, dedup_by_index-Ascending,
  contains-dedup_by_index,
}

split : (o : Option DerivedAddress) (xs : List ℕ) → cons_index o xs ≡ cons_index o [] ++ xs
split none xs = refl
split (some d) xs = refl

-- the addresses that are read are those of the vaults listed
module _ (derived : ℕ → Option DerivedAddress) (P : ProfileStore → Type 0)
    (keep_faults : (w : ProfileStore) (f : List Bool) → P w → P (record w { faults = f }))
    (reads : (w : ProfileStore) → P w → w.derived_record ≡ derived) where
  found :
      (id : ℕ) (o : Option DerivedAddress)
      → o ≡ derived id
      → Runs P (lift (ok_or missing_address o)) (λ d w. (derived id ≡ some d) × P w) P
  found id none e = Runs-lift _ (λ w h. h) (λ d f. absurd cc)
  found id (some x) e =
      Runs-lift _ (λ w h. h) (λ d f w h. (sym e ∙ ap some (ok-injective refl f), h))

  get_derived_address-Runs :
      (id : ℕ) → Runs P (get_derived_address id) (λ d w. (derived id ≡ some d) × P w) P
  unfolding get_derived_address
  get_derived_address-Runs id = Runs-bind _ _ (attempt-Runs P keep_faults) (λ _.
      Runs-bind _ _
        (Runs-gets {Q = λ o w. (o ≡ derived id) × P w} _ (λ w h. (ap (λ r. r id) (reads w h), h)))
        (λ o. Runs-given (λ e. found id o e)))

  listed_address-Runs :
      (r : VaultRecord)
      → Runs P (listed_address r) (λ ds w. (keys ds ≡ indices derived (r ∷ [])) × P w) P
  unfolding listed_address indices
  listed_address-Runs r = elim (Bool-cases (is_address_vault r)) [
    | inl e ↦ rw e (
        Runs-bind _ _ (get_derived_address-Runs r.id)
          (λ d. Runs-given (λ here. Runs-return _ (λ w h. (rw here, h)))))
    | inr e ↦ rw e (Runs-return _ (λ w h. (refl, h)))
  ]

  indices-cons :
      (r : VaultRecord) (rs : List VaultRecord)
      → indices derived (r ∷ rs) ≡ indices derived (r ∷ []) ++ indices derived rs
  unfolding indices
  indices-cons r rs = elim (Bool-cases (is_address_vault r)) [
    | inl e ↦ rw e (split (derived r.id) (indices derived rs))
    | inr e ↦ rw e
  ]

  gather-Runs :
      (rs : List VaultRecord)
      → Runs P (gather listed_address rs) (λ ds w. (keys ds ≡ indices derived rs) × P w) P
  unfolding gather indices
  gather-Runs [] = Runs-return _ (λ w h. (refl, h))
  gather-Runs (r ∷ rs) = Runs-bind _ _ (listed_address-Runs r) (λ ds. Runs-given (λ e.
      Runs-bind _ _ (gather-Runs rs) (λ more. Runs-given (λ f. Runs-return _ (λ w h. (
        map-append (λ d. d.index) ds more
            ∙ ap (λ t. t ++ keys more) e
            ∙ ap (λ t. indices derived (r ∷ []) ++ t) f
            ∙ sym (indices-cons r rs),
        h,
      ))))))

-- a state with these records
abbrev Same : (ℕ → Option DerivedAddress) → List VaultRecord → ℕ → ProfileStore → Type 0
Same derived records drawn w =
    (w.derived_record ≡ derived) × (listed w ≡ records) × (w.drawn ≡ drawn)

carried_over :
    (uuid : ℕ → ℕ) (v w : ProfileStore) (s : List ℕ)
    → Same v.derived_record (listed v) v.drawn w
    → Has uuid s v
    → Has uuid s w
carried_over uuid v w s e h =
    subst (λ d. All (Kept uuid d w.drawn) (listed w) × (indices d (listed w) ≡ s)) (sym e.0)
      (subst (λ rs. All (Kept uuid v.derived_record w.drawn) rs × (indices v.derived_record rs ≡ s))
        (sym e.1)
        (subst
          (λ n.
            All (Kept uuid v.derived_record n) (listed v)
            × (indices v.derived_record (listed v) ≡ s))
          (sym e.2) h))

-- a read that leaves all but the faults as it is
module _ {A : Type 0} (m : Op A) (answers : List ℕ → A → Type 0)
    (runs : (derived : ℕ → Option DerivedAddress) (records : List VaultRecord) (drawn : ℕ)
      → Runs
          (Same derived records drawn)
          m
          (λ a w. answers (indices derived records) a × Same derived records drawn w)
          (Same derived records drawn)) where
  read-Runs :
      (uuid : ℕ → ℕ) (s : List ℕ)
      → Runs (Has uuid s) m (λ a w. answers s a × Has uuid s w) (Has uuid s)
  read-Runs uuid s = record {
    at = λ v h.
        (Runs-weaken {P' = Same v.derived_record (listed v) v.drawn} (λ w x. x)
            (λ a w x. (subst (λ t. answers t a) h.1 x.0, carried_over uuid v w s x.1 h))
            (λ w x. carried_over uuid v w s x h) (runs v.derived_record (listed v) v.drawn)).at
          v (refl, refl, refl);
  }

stored_read :
    {A : Type 0} (f : List DerivedAddress → A) (answers : List ℕ → A → Type 0)
    → ((ds : List DerivedAddress) → answers (keys ds) (f ds))
    → (derived : ℕ → Option DerivedAddress) (records : List VaultRecord) (drawn : ℕ)
    → Runs
        (Same derived records drawn)
        (vault_records >>= λ rs. gather listed_address rs >>= λ ds. return (f ds))
        (λ a w. answers (indices derived records) a × Same derived records drawn w)
        (Same derived records drawn)
stored_read f answers fits derived records drawn =
    Runs-bind _ _ (vault_records-Runs (Same derived records drawn) (λ w x h. h)) (λ rs.
      Runs-weaken {P = λ w. (rs ≡ records) × Same derived records drawn w}
        (λ w h. (h.0 ∙ h.1.1, h.1)) (λ a w h. h) (λ w h. h)
        (Runs-given (λ e.
          Runs-bind _ _
            (gather-Runs derived (Same derived records drawn) (λ w x h. h) (λ w h. h.0) rs)
            (λ ds. Runs-given (λ f'. Runs-return _ (λ w h.
              (subst (λ t. answers t (f ds)) (f' ∙ ap (indices derived) e) (fits ds), h)))))))

-- the indices of the accounts: those given, in order
abbrev pub Accounts : List ℕ → List DerivedAddress → Type 0
Accounts s ds = Ascending (keys ds) × ((i : ℕ) → contains (keys ds) i ≡ contains s i)

pub stored_address_accounts-Runs :
    (uuid : ℕ → ℕ) (s : List ℕ)
    → Runs (Has uuid s) stored_address_accounts (λ ds w. Accounts s ds × Has uuid s w) (Has uuid s)
unfolding stored_address_accounts
stored_address_accounts-Runs uuid s =
    read-Runs _ Accounts
      (stored_read _ Accounts (λ ds. (
        dedup_by_index-Ascending (sort_by_index ds) (sort_by_index-Weak ds),
        λ i. contains-dedup_by_index (sort_by_index ds) i ∙ contains-sort_by_index ds i,
      )))
      uuid s

pub not_yet_stored-Runs :
    (uuid : ℕ → ℕ) (s : List ℕ) (xs : List (ℕ × ℕ))
    → Runs
        (Has uuid s)
        (not_yet_stored xs)
        (λ m w. (m ≡ missing_of s xs) × Has uuid s w)
        (Has uuid s)
unfolding not_yet_stored
not_yet_stored-Runs uuid s xs =
    read-Runs _ (λ t m. m ≡ missing_of t xs)
      (stored_read _ (λ t m. m ≡ missing_of t xs) (λ ds. refl)) uuid s
