-- ===== src/Assets/Collect.antt =====
-- crates/core/src/asset/mod.rs: which assets `profile_erc20s` collects.
use desktop_wallet.Common.{
  ℕ, ◌≡◌, ◌∙◌, refl, sym, ap, subst, Bool, true, false, not, ◌&&◌, ◌||◌, List, [], ◌∷◌, ◌++◌, ◌==◌,
  ==_iff, any, All, Bool-cases, inl, inr,
}
use desktop_wallet.Common.Outcome.{ok}
use desktop_wallet.Assets.{Erc20Asset, contains, is_at, push_opted_in, default_erc20s}
use desktop_wallet.Assets.Members.{
  addresses, Distinct, contains-snoc, Distinct-snoc, find-at, any-contains, find-some,
}

-- the addresses that a profile tracks: those opted into and the defaults, less those opted out
abbrev pub tracks : ℕ → List ℕ → List ℕ → ℕ → Bool
tracks chain opted_in opted_out a =
    not (contains opted_out a)
    && (contains (addresses (default_erc20s chain)) a || contains opted_in a)

pub addresses-snoc :
    (xs : List Erc20Asset) (x : Erc20Asset)
    → addresses (xs ++ x ∷ []) ≡ addresses xs ++ x.address ∷ []
addresses-snoc [] x = refl
addresses-snoc (y ∷ ys) x = ap (λ t. y.address ∷ t) (addresses-snoc ys x)

-- the loop ends with distinct assets, those it began with and the opted-in ones not opted out
abbrev pub Collected : List ℕ → List Erc20Asset → List ℕ → List Erc20Asset → Type 0
Collected out acc rest assets =
    Distinct (addresses assets)
    × ((b : ℕ)
        → contains (addresses assets) b
          ≡ (contains (addresses acc) b || (not (contains out b) && contains rest b)))

-- an address that the loop skips
skipped :
    (same out acc rest : Bool)
    → (same ≡ true → (out || acc) ≡ true)
    → (acc || (not out && rest)) ≡ (acc || (not out && (same || rest)))
skipped same out true rest h = refl
skipped false out false rest h = refl
skipped true true false rest h = refl
skipped true false false rest h = absurd (let bad = h refl in cc)

-- an address that the loop takes
taken :
    (same out acc rest : Bool)
    → (same ≡ true → out ≡ false)
    → ((acc || same) || (not out && rest)) ≡ (acc || (not out && (same || rest)))
taken same out true rest h = refl
taken false out false rest h = refl
taken true false false rest h = refl
taken true true false rest h = absurd (let bad = h refl in cc)

no_more : (s t : Bool) → s ≡ (s || (not t && false))
no_more true t = refl
no_more false true = refl
no_more false false = refl

or_false : (s t : Bool) → (s || t) ≡ false → (s ≡ false) × (t ≡ false)
or_false true t e = absurd (let bad = e in cc)
or_false false t e = (refl, e)

pub push_opted_in-Collected :
    (out : List ℕ) (registered acc : List Erc20Asset) (rest : List ℕ)
    → Distinct (addresses acc)
    → All (λ a. contains (addresses registered) a ≡ true) rest
    → (assets : List Erc20Asset) × (push_opted_in out registered acc rest ≡ ok assets)
      × Collected out acc rest assets
unfolding push_opted_in contains
push_opted_in-Collected out registered acc [] d found =
    (acc, refl, (d, λ b. no_more (contains (addresses acc) b) (contains out b)))
push_opted_in-Collected out registered acc (a ∷ rest) d found =
    elim (Bool-cases (contains out a || any (is_at a) acc)) [
      | inl skip ↦
          let later = push_opted_in-Collected out registered acc rest d found.1 in
          (
            later.0,
            rw (push_opted_in, skip) later.1,
            (
              later.2.0,
              λ b.
                  later.2.1 b
                  ∙ skipped (a == b) (contains out b) (contains (addresses acc) b) (contains rest b)
                      (λ e.
                        subst (λ t. (contains out t || contains (addresses acc) t) ≡ true)
                          ((==_iff a b).0 e)
                          (subst (λ t. (contains out a || t) ≡ true) (any-contains a acc) skip)),
            ),
          )
      | inr go ↦
          let parts = or_false (contains out a) (any (is_at a) acc) go in
          let hit = find-some a registered found.0 in
          let here = find-at a registered hit.0 hit.1 in
          let names : addresses (acc ++ hit.0 ∷ []) ≡ addresses acc ++ a ∷ [] =
            addresses-snoc acc hit.0 ∙ ap (λ t. addresses acc ++ t ∷ []) here in
          let later =
            push_opted_in-Collected out registered (acc ++ hit.0 ∷ []) rest
              (subst Distinct (sym names)
                (Distinct-snoc (addresses acc) a (sym (any-contains a acc) ∙ parts.1) d))
              found.1 in
          (
            later.0,
            rw (push_opted_in, go, hit.1) later.1,
            (
              later.2.0,
              λ b.
                  later.2.1 b
                  ∙ ap (λ t. contains t b || (not (contains out b) && contains rest b)) names
                  ∙ ap (λ t. t || (not (contains out b) && contains rest b))
                      (contains-snoc (addresses acc) a b)
                  ∙ taken (a == b) (contains out b) (contains (addresses acc) b) (contains rest b)
                      (λ e. subst (λ t. contains out t ≡ false) ((==_iff a b).0 e) parts.0),
            ),
          )
    ]
