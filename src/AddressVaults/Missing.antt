-- ===== src/AddressVaults/Missing.antt =====
-- crates/core/src/instance/vaults.rs: the vaults that are added for the addresses that a scan has found.
use desktop_wallet.Common.{
  ℕ, ◌≡◌, ◌∙◌, refl, sym, ap, subst, Bool, true, false, not, ◌&&◌, ◌||◌, Option, List, [], ◌∷◌, All,
  All-keep_self,
}
use desktop_wallet.Common.Outcome.{Result}
use desktop_wallet.Exec.{return, ◌>>=◌}
use desktop_wallet.Exec.Runs.{
  Runs, Post, Runs-bind, Runs-given, Runs-weaken, Runs-return, Runs-lift,
}
use desktop_wallet.Assets.{contains}
use desktop_wallet.Assets.Members.{Distinct}
use desktop_wallet.Fresh.{EoaScan}
use desktop_wallet.AddressVaults.{
  ProfileStore, VaultsError, add_address_vaults, stored_address_accounts, not_yet_stored,
  addresses_to_add, add_missing_address_vaults,
}
use desktop_wallet.AddressVaults.Indices.{
  stored, Sound, firsts, missing_of, contains-missing_of, missing_of-Distinct,
}
use desktop_wallet.AddressVaults.Adding.{
  Has, Safe, Has-Safe, Joined, Joins, add_address_vaults-Runs,
}
use desktop_wallet.AddressVaults.Sorting.{keys, Ascending}
use desktop_wallet.AddressVaults.Listing.{stored_address_accounts-Runs, not_yet_stored-Runs}

zero-Distinct : Distinct (0 ∷ [])
unfolding contains
zero-Distinct = (refl, tt)

-- the indices that are asked for: those of the addresses that were found, or 0
abbrev pub wanted : List (ℕ × ℕ) → List ℕ
wanted [] = 0 ∷ []
wanted (a ∷ rest) = firsts (a ∷ rest)

off_of : (t : Bool) → not t ≡ true → t ≡ false
off_of true e = absurd cc
off_of false e = refl

apart :
    (s : List ℕ) (ms : List (ℕ × ℕ))
    → All (λ a. not (contains s a.0) ≡ true) ms
    → All (λ i. contains s i ≡ false) (firsts ms)
apart s [] h = tt
apart s (a ∷ ms) h = (off_of (contains s a.0) h.0, apart s ms h.1)

or_and : (s t : Bool) → (s || (t && not s)) ≡ (s || t)
or_and true t = refl
or_and false true = refl
or_and false false = refl

module _ (uuid : ℕ → ℕ) where
  Joined-missing :
      (s : List ℕ) (xs : List (ℕ × ℕ)) (w : ProfileStore)
      → Joined uuid s (firsts (missing_of s xs)) w
      → Joined uuid s (firsts xs) w
  Joined-missing s xs w h = (
    h.0,
    h.1,
    λ i.
        h.2 i
        ∙ ap (λ t. contains s i || t) (contains-missing_of s xs i)
        ∙ or_and (contains s i) (contains (firsts xs) i),
  )

  Joined-Safe : (s xs : List ℕ) (w : ProfileStore) → Joined uuid s xs w → Safe uuid s w
  Joined-Safe s xs w h = (h.0, h.1, λ i e. h.2 i ∙ ap (λ t. t || contains xs i) e)

  later :
      (s xs : List ℕ) (v w : ProfileStore)
      → Joined uuid s xs v
      → Has uuid (stored v) w
      → Joined uuid s xs w
  later s xs v w h x = (x.0, subst Distinct (sym x.1) h.1, λ i. ap (λ t. contains t i) x.1 ∙ h.2 i)

  missing-Joins :
      (s : List ℕ) (xs : List (ℕ × ℕ)) → Distinct (firsts xs) → Joins s (firsts (missing_of s xs))
  missing-Joins s xs d = (
    apart s (missing_of s xs) (All-keep_self (λ a. not (contains s a.0)) xs),
    missing_of-Distinct s xs d,
  )

  accounts-Runs :
      (s xs : List ℕ)
      → Runs
          (Joined uuid s xs)
          stored_address_accounts
          (λ ds w.
            Ascending (keys ds)
            × ((i : ℕ) → contains (keys ds) i ≡ (contains s i || contains xs i))
            × Joined uuid s xs w)
          (Safe uuid s)
  accounts-Runs s xs = record {
    at = λ v h.
        (Runs-weaken {P' = Has uuid (stored v)} (λ w x. x)
            (λ ds w x. (x.0.0, λ i. x.0.1 i ∙ h.2 i, later s xs v w h x.1))
            (λ w x. Joined-Safe s xs w (later s xs v w h x))
            (stored_address_accounts-Runs uuid (stored v))).at
          v (h.0, refl);
  }

  module _ (unrepeated : (i j : ℕ) → uuid i ≡ uuid j → i ≡ j) (s : List ℕ) (d : Distinct s) where
    add_wanted-Runs :
        (xs : List (ℕ × ℕ))
        → Distinct (firsts xs)
        → Runs
            (Has uuid s)
            (not_yet_stored xs >>= λ m. add_address_vaults uuid m >>= λ _. return m)
            (λ _. Joined uuid s (firsts xs))
            (Safe uuid s)
    add_wanted-Runs xs e =
        Runs-bind _ _
          (Runs-weaken (λ w h. h) (λ m w h. h) (λ w h. Has-Safe uuid s w d h)
            (not_yet_stored-Runs uuid s xs))
          (λ m. Runs-given (λ same.
            Runs-bind _ _
              (add_address_vaults-Runs uuid unrepeated m s d
                (subst (λ t. Joins s (firsts t)) (sym same) (missing-Joins s xs e)))
              (λ _.
                Runs-return _
                  (λ w h. Joined-missing s xs w (subst (λ t. Joined uuid s (firsts t) w) same h)))))

    add_missing-Runs :
        (first : Result VaultsError ℕ) (found : List (ℕ × ℕ)) (last : Option ℕ) (next : ℕ)
        → Distinct (firsts found)
        → Runs
            (Has uuid s)
            (add_missing_address_vaults uuid first
              (record { addresses = found; last_used = last; next_unused = next }))
            (λ _. Joined uuid s (wanted found))
            (Safe uuid s)
    unfolding add_missing_address_vaults addresses_to_add
    add_missing-Runs first [] last next e =
        Runs-bind _ _
          (Runs-bind _ _
            (Runs-lift {Q = λ _. Has uuid s} first (λ w h. Has-Safe uuid s w d h) (λ a f w h. h))
            (λ a.
              Runs-return {Q = λ xs w. (firsts xs ≡ 0 ∷ []) × Has uuid s w} _ (λ w h. (refl, h))))
          (λ xs. Runs-given (λ f.
            Runs-weaken (λ w h. h) (λ m w h. subst (λ t. Joined uuid s t w) f h) (λ w h. h)
              (add_wanted-Runs xs (subst Distinct (sym f) zero-Distinct))))
    add_missing-Runs first (a ∷ rest) last next e =
        Runs-bind _ _
          (Runs-return {Q = λ xs w. (xs ≡ a ∷ rest) × Has uuid s w} _ (λ w h. (refl, h)))
          (λ xs. Runs-given (λ f.
            Runs-weaken (λ w h. h) (λ m w h. subst (λ t. Joined uuid s (firsts t) w) f h) (λ w h. h)
              (add_wanted-Runs xs (subst (λ t. Distinct (firsts t)) (sym f) e))))

-- From a state in which every listed address vault has its address, and no index has two: after
-- adding the missing vaults of a scan with distinct indices, whatever fails, this is still so, and no
-- index is lost. If all succeeds, then the profile has vaults for the indices it had and for those of
-- the addresses found, or for 0 if none was, and the stored accounts are those, each once, in order.
-- Identifiers do not repeat.
pub add_missing-accounts :
    (uuid : ℕ → ℕ) (first : Result VaultsError ℕ) (scan : EoaScan ℕ) (w : ProfileStore)
    → ((i j : ℕ) → uuid i ≡ uuid j → i ≡ j)
    → Distinct (firsts scan.addresses)
    → Sound uuid w
    → Distinct (stored w)
    → Post
        (λ accounts after.
          Ascending (keys accounts)
          × ((i : ℕ)
              → contains (keys accounts) i
                ≡ (contains (stored w) i || contains (wanted scan.addresses) i))
          × Joined uuid (stored w) (wanted scan.addresses) after)
        (Safe uuid (stored w))
        ((add_missing_address_vaults uuid first scan >>= λ _. stored_address_accounts) w)
add_missing-accounts uuid first scan w unrepeated e sound d =
    (Runs-bind _ _
        (add_missing-Runs uuid unrepeated (stored w) d first scan.addresses scan.last_used
          scan.next_unused e)
        (λ _. accounts-Runs uuid (stored w) (wanted scan.addresses))).at
      w (sound, refl)
