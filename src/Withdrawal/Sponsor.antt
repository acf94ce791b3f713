-- ===== src/Withdrawal/Sponsor.antt =====
-- The first note of a withdrawal pays its gas.
use mathlib.Core.List.{Perm}
use mathlib.Core.List.Perm
use mathlib.Core.Option.{some-injective}
use native.Mathlib.Nat.{le_refl}
use desktop_wallet.Common.{
  ℕ, zero, suc, ◌≡◌, ◌≢◌, ◌≤◌, subst, sym, refl, ==_iff, All-zip, inl, inr, Bool-cases, true, false,
  Option, none, some, List, [], ◌∷◌, leb, ◌==◌, is_some, keep, position-FoundAt, FoundAt, set,
  get_elem?, All, All-keep, All-keep_self, All-map, arith,
}
use desktop_wallet.Common.Outcome.{ok, ◌>>=◌, ok_or, >>=-eq-ok}
use desktop_wallet.Pools.{Kohaku, AmountError}
use desktop_wallet.Selection.{Note, denom, exact_notes_for_asset}
use desktop_wallet.Withdrawal.{swap_front, min_by_key, can_sponsor, add_sponsor, withdrawal_notes}

module _ {ℓ} {A : Type ℓ} where
  set-perm :
      (xs : List A) (i : ℕ) (x : A) {y : A}
      → get_elem? xs i ≡ some y
      → Perm (y ∷ set xs i x) (x ∷ xs)
  set-perm [] i x h = cc
  set-perm (z ∷ xs) zero x {y} h =
      subst (λ w. Perm (w ∷ x ∷ xs) (x ∷ z ∷ xs)) (some-injective _ _ h) (Perm.swap x z xs)
  set-perm (z ∷ xs) (suc i) x {y} h =
      Perm.trans (Perm.swap z y (set xs i x))
        (Perm.trans (Perm.cons z (set-perm xs i x h)) (Perm.swap x z xs))

  swap_front-lem :
      (i : ℕ) (xs : List A) {x : A}
      → get_elem? xs i ≡ some x
      → (rest : List A) × (swap_front i xs ≡ x ∷ rest) × Perm (x ∷ rest) xs
  unfolding swap_front
  swap_front-lem i [] h = cc
  swap_front-lem zero (z ∷ xs) {x} h =
      (xs, ground arith, subst (λ w. Perm (w ∷ xs) (z ∷ xs)) (some-injective _ _ h) (Perm.refl _))
  swap_front-lem (suc i) (z ∷ xs) {x} h = (set xs i z, rw (h, swap_front), set-perm xs i z h)

  min_by_key-ne_none : (key : A → ℕ) (x : A) (xs : List A) → min_by_key key (x ∷ xs) ≢ none
  unfolding min_by_key
  min_by_key-ne_none key x xs = ground arith

  abbrev pub OnSome {κ} : (A → Type κ) → Option A → Type κ
  OnSome P none = Unit
  OnSome P (some x) = P x

  min_step {κ} :
      (P : A → Type κ) (key : A → ℕ) (x : A) (xs : List A) (r : Option A)
      → P x
      → min_by_key key xs ≡ r
      → OnSome (λ y. P y × All (λ z. key y ≤ key z) xs) r
      → OnSome (λ y. P y × All (λ z. key y ≤ key z) (x ∷ xs)) (min_by_key key (x ∷ xs))
  unfolding min_by_key
  min_step P key x [] none px e h = (px, (le_refl _, tt))
  min_step P key x (z ∷ zs) none px e h = absurd (min_by_key-ne_none key z zs e)
  min_step P key x xs (some y) px e h =
      rw (e, min_by_key)
        (elim (Bool-cases (leb (key x) (key y))) [
          | inl q ↦
              let le : key x ≤ key y = ground arith in
              rw q (px, (le_refl _, All-map (λ z (p : key y ≤ key z). omega arith) xs h.1))
          | inr q ↦ let le : key y ≤ key x = ground arith in rw q (h.0, (le, h.1))
        ])

  -- the least element has the property of all, and is no greater than any
  min_by_key-OnSome {κ} :
      (P : A → Type κ) (key : A → ℕ) (xs : List A)
      → All P xs
      → OnSome (λ y. P y × All (λ z. key y ≤ key z) xs) (min_by_key key xs)
  unfolding min_by_key
  min_by_key-OnSome P key [] h = tt
  min_by_key-OnSome P key (x ∷ xs) h =
      min_step P key x xs (min_by_key key xs) h.0 refl (min_by_key-OnSome P key xs h.1)

module _ (k : Kohaku) (amount : ℕ) (notes : List (Note k)) (chain : ℕ) where
  open k use {Asset, asset_eq, asset_eq_iff, eth, chain_id, asset, paymaster}

  abbrev pub on_chain : List (Note k)
  on_chain = keep (λ note. chain_id note.pool == chain) notes

  -- the notes of an ETH withdrawal are the exact selection with a sponsored note moved to its front
  pub record LedByPaymaster (sel exact : List (Note k)) : Type 0 where
    pub first : Note k
    pub rest : List (Note k)
    pub split : sel ≡ first ∷ rest
    pub sponsored : is_some (paymaster first.pool) ≡ true
    pub same : Perm sel exact

  lead :
      (exact : List (Note k)) (e : AmountError) {sel : List (Note k)} (r : Option ℕ)
      → FoundAt (λ note. is_some (paymaster note.pool)) exact r
      → (ok_or e r >>= λ index. ok (swap_front index exact)) ≡ ok sel
      → LedByPaymaster sel exact
  lead exact _ none found h = cc
  lead exact _ {sel = sel} (some index) (note, at, pays) h =
      let (rest, e, p) = swap_front-lem index exact at in
      let e' : sel ≡ note ∷ rest = cc in
      record {
        first = note;
        rest = rest;
        split = e';
        sponsored = pays;
        same = subst (λ l. Perm l exact) (sym e') p;
      }

  add_sponsor-eth :
      (held exact : List (Note k)) {sel : List (Note k)}
      → add_sponsor k held eth exact ≡ ok sel
      → LedByPaymaster sel exact
  unfolding add_sponsor
  add_sponsor-eth held exact h =
      lead exact _ _ (position-FoundAt (λ note. is_some (paymaster note.pool)) exact)
        (rw ((asset_eq_iff eth eth).1 refl) at h)

  -- An ETH withdrawal returns the notes of an exact selection among the notes of the chain, in an
  -- order in which the first has a paymaster.
  pub withdrawal_notes-eth :
      {sel : List (Note k)}
      → withdrawal_notes k amount notes eth chain ≡ ok sel
      → (exact : List (Note k)) × (exact_notes_for_asset k amount on_chain eth ≡ ok exact)
        × LedByPaymaster sel exact
  unfolding withdrawal_notes
  withdrawal_notes-eth {sel} h =
      let (exact, e, g) = >>=-eq-ok (exact_notes_for_asset k amount on_chain eth) _ h in
      (exact, e, add_sponsor-eth on_chain exact g)

  -- a mined and unspent ETH note of the chain with a paymaster, no larger than any other
  pub record IsSponsor (first : Note k) : Type 0 where
    pub fits : can_sponsor k first ≡ true
    pub here : chain_id first.pool ≡ chain
    pub least : All (λ note. denom k first ≤ denom k note) (keep (can_sponsor k) on_chain)

  cheapest :
      (r : Option (Note k)) (e : AmountError) {exact sel : List (Note k)}
      → OnSome
          (λ y.
            ((can_sponsor k y ≡ true) × (chain_id y.pool ≡ chain))
            × All (λ z. denom k y ≤ denom k z) (keep (can_sponsor k) on_chain))
          r
      → (ok_or e r >>= λ first. ok (first ∷ exact)) ≡ ok sel
      → (first : Note k) × (sel ≡ first ∷ exact) × IsSponsor first
  cheapest none _ o h = cc
  cheapest (some y) _ o h = (y, cc, record { fits = o.0.0; here = o.0.1; least = o.1 })

  sponsors-All :
      All
        (λ y. (can_sponsor k y ≡ true) × (chain_id y.pool ≡ chain))
        (keep (can_sponsor k) on_chain)
  sponsors-All =
      All-zip _ _ (keep (can_sponsor k) on_chain) (All-keep_self (can_sponsor k) on_chain) (
        All-keep _ (can_sponsor k) on_chain
          (All-map (λ y p. (==_iff (chain_id y.pool) chain).0 p) _ (All-keep_self _ notes)))

  -- A withdrawal of an ERC-20 returns an exact selection among the notes of the chain, preceded by
  -- a mined, unspent ETH note of the chain that has a paymaster and is the smallest such note.
  pub withdrawal_notes-token :
      (a : Asset) {sel : List (Note k)}
      → a ≢ eth
      → withdrawal_notes k amount notes a chain ≡ ok sel
      → (exact : List (Note k)) × (exact_notes_for_asset k amount on_chain a ≡ ok exact)
        × ((first : Note k) × (sel ≡ first ∷ exact) × IsSponsor first)
  unfolding withdrawal_notes add_sponsor
  withdrawal_notes-token a {sel} token h =
      let (exact, e, g) = >>=-eq-ok (exact_notes_for_asset k amount on_chain a) _ h in
      let test : asset_eq a eth ≡ false = ground (arith, asset_eq_iff a eth) in
      (exact, e, cheapest _ _ (min_by_key-OnSome _ (denom k) _ sponsors-All) (rw test at g))
