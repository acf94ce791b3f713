-- ===== src/Assets/Reading.antt =====
-- crates/core/src/asset/mod.rs: what a profile reads is what it tracks, after any calls.
use desktop_wallet.Common.{
  ℕ, ◌≡◌, ◌⊎◌, ◌∙◌, refl, ap, subst, Bool, true, false, not, ◌&&◌, ◌||◌, List, [], ◌∷◌, ◌==◌,
  ==_iff, keep, Bool-cases, inl, inr, unwrap_or,
}
use desktop_wallet.Common.Outcome.{Result, ok, err}
use desktop_wallet.Exec.{◌>>=◌}
use desktop_wallet.Exec.Runs.{Post}
use desktop_wallet.Assets.{
  Erc20Asset, AssetError, database, AssetStore, Endpoint, attempt, attempt_with, contains,
  default_erc20s, known, get_erc20s, get_opted_in, get_opted_out, profile_erc20s, opt_in, opt_out,
}
use desktop_wallet.Assets.Members.{addresses, Distinct}
use desktop_wallet.Assets.Collect.{push_opted_in-Collected}
use desktop_wallet.Assets.Choices.{Sound, tracked, opt_in-tracks}
use desktop_wallet.Assets.Leaving.{opt_out-tracks}

by_faults :
    (w : AssetStore) (faults : List Bool)
    → ((after : AssetStore) × (attempt_with w faults ≡ (err database, after)))
      ⊎ ((rest : List Bool) × (attempt_with w faults ≡ (ok tt, record w { faults = rest })))
unfolding attempt_with
by_faults w [] = inr ([], refl)
by_faults w (true ∷ rest) = inl (record w { faults = rest }, refl)
by_faults w (false ∷ rest) = inr (rest, refl)

-- an access fails with the error of the database, or changes no record
attempt-cases :
    (w : AssetStore)
    → ((after : AssetStore) × (attempt w ≡ (err database, after)))
      ⊎ ((rest : List Bool) × (attempt w ≡ (ok tt, record w { faults = rest })))
unfolding attempt
attempt-cases w = by_faults w w.faults

kept_apart :
    (x b : ℕ) (xs : List ℕ) (out : Bool)
    → (x ≡ b → out ≡ true)
    → (not out && contains xs b) ≡ (not out && (x == b || contains xs b))
kept_apart x b xs out h = elim (Bool-cases (x == b)) [
  | inl e ↦ rw (h ((==_iff x b).0 e)) refl
  | inr e ↦ rw e refl
]

none_kept : (t : Bool) → false ≡ (not t && false)
none_kept true = refl
none_kept false = refl

kept_same :
    (x b : ℕ) (t out : Bool)
    → (x ≡ b → out ≡ false)
    → (x == b || (not out && t)) ≡ (not out && (x == b || t))
kept_same x b t out h = elim (Bool-cases (x == b)) [
  | inl e ↦ rw (h ((==_iff x b).0 e), e) refl
  | inr e ↦ rw e refl
]

keep-addresses :
    (out : List ℕ) (xs : List Erc20Asset) (b : ℕ)
    → contains (addresses (keep (λ x. not (contains out x.address)) xs)) b
      ≡ (not (contains out b) && contains (addresses xs) b)
unfolding contains
keep-addresses out [] b = none_kept (contains out b)
keep-addresses out (x ∷ xs) b = elim (Bool-cases (contains out x.address)) [
  | inl e ↦ rw e (
      keep-addresses out xs b
      ∙ kept_apart x.address b (addresses xs) (contains out b)
          (λ same. subst (λ t. contains out t ≡ true) same e))
  | inr e ↦ rw e (
      ap (λ t. x.address == b || t) (keep-addresses out xs b)
      ∙ kept_same x.address b (contains (addresses xs) b) (contains out b)
          (λ same. subst (λ t. contains out t ≡ false) same e))
]

keep-Distinct :
    (out : List ℕ) (xs : List Erc20Asset)
    → Distinct (addresses xs)
    → Distinct (addresses (keep (λ x. not (contains out x.address)) xs))
keep-Distinct out [] d = d
keep-Distinct out (x ∷ xs) d = elim (Bool-cases (contains out x.address)) [
  | inl e ↦ rw e (keep-Distinct out xs d.1)
  | inr e ↦ rw e (keep-addresses out xs x.address ∙ rw (d.0, e) refl, keep-Distinct out xs d.1)
]

default_erc20s-Distinct : (chain : ℕ) → Distinct (addresses (default_erc20s chain))
unfolding default_erc20s known contains
default_erc20s-Distinct chain = elim (Bool-cases (chain == 1)) [
  | inl e ↦ rw e (refl, (refl, (refl, (refl, (refl, tt)))))
  | inr e ↦ elim (Bool-cases (chain == 11155111)) [
    | inl f ↦ rw (e, f) (refl, (refl, (refl, tt)))
    | inr f ↦ rw (e, f) tt
  ]
]

shared :
    (out known chosen : Bool)
    → ((not out && known) || (not out && chosen)) ≡ (not out && (known || chosen))
shared true known chosen = refl
shared false known chosen = refl

-- what `profile_erc20s` does in a sound state
profile_erc20s-tracked :
    (chain : ℕ) (w : AssetStore)
    → Sound w
    → ((after : AssetStore) × (profile_erc20s chain w ≡ (err database, after)))
      ⊎ ((assets : List Erc20Asset) × (rest : List Bool) × (profile_erc20s chain w
            ≡ (ok assets, record w { faults = rest }))
          × Distinct (addresses assets)
          × ((b : ℕ) → contains (addresses assets) b ≡ tracked chain w b))
unfolding profile_erc20s get_opted_out get_erc20s get_opted_in ◌>>=◌
profile_erc20s-tracked chain w s = elim (attempt-cases w) [
  | inl f ↦ inl (f.0, rw f.1 refl)
  | inr g ↦ elim (attempt-cases (record w { faults = g.0 })) [
    | inl f ↦ inl (f.0, rw (g.1, f.1) refl)
    | inr g' ↦ elim (attempt-cases (record w { faults = g'.0 })) [
      | inl f ↦ inl (f.0, rw (g.1, g'.1, f.1) refl)
      | inr g'' ↦
          let out = unwrap_or w.out_record [] in
          let acc = keep (λ x. not (contains out x.address)) (default_erc20s chain) in
          let made =
            push_opted_in-Collected out (unwrap_or w.erc20s_record []) acc
              (unwrap_or w.in_record []) (keep-Distinct out _ (default_erc20s-Distinct chain))
              s.2 in
          inr (
            made.0,
            g''.0,
            rw (g.1, g'.1, g''.1, made.1) refl,
            made.2.0,
            λ b.
                made.2.1 b
                ∙ ap (λ t. t || (not (contains out b) && contains (unwrap_or w.in_record []) b))
                    (keep-addresses out (default_erc20s chain) b)
                ∙ shared (contains out b) (contains (addresses (default_erc20s chain)) b)
                    (contains (unwrap_or w.in_record []) b),
          )
    ]
  ]
]

-- a call that opts in, with the endpoint as it is then, or one that opts out
pub data Choice : Type 0 where
  into : Endpoint → ℕ → Choice
  out_of : ℕ → Choice

-- calls in their order; what a failed call has written stays
abbrev pub after_choices : ℕ → List Choice → AssetStore → AssetStore
after_choices chain [] w = w
after_choices chain (into endpoint a ∷ rest) w =
    after_choices chain rest (opt_in endpoint chain a w).1
after_choices chain (out_of a ∷ rest) w = after_choices chain rest (opt_out chain a w).1

settled :
    {A : Type 0} {S : AssetStore → Type 0} {Q : A → AssetStore → Type 0} {R : AssetStore → Type 0}
    (o : Result AssetError A × AssetStore)
    → ((a : A) (w : AssetStore) → Q a w → S w)
    → ((w : AssetStore) → R w → S w)
    → Post Q R o
    → S o.1
settled (ok a, w) q r h = q a w h
settled (err e, w) q r h = r w h

after_choices-Sound :
    (chain : ℕ) (choices : List Choice) (w : AssetStore)
    → Sound w
    → Sound (after_choices chain choices w)
after_choices-Sound chain [] w s = s
after_choices-Sound chain (into endpoint a ∷ rest) w s = after_choices-Sound chain rest _ (
    settled {S = Sound} (opt_in endpoint chain a w) (λ asset w h. h.0) (λ w h. h.0)
      (opt_in-tracks endpoint chain a w s))
after_choices-Sound chain (out_of a ∷ rest) w s = after_choices-Sound chain rest _ (
    settled {S = Sound} (opt_out chain a w) (λ asset w h. h.0) (λ w h. h.0)
      (opt_out-tracks chain a w s))

-- From a state in which no address is opted in or out twice and those opted in are registered, after
-- any calls that opt in or out, whatever fails: the profile's assets can be read, unless an access of the database fails; no address is among them twice, and they are
-- the addresses that the profile tracks. No opted-in address is reported as unregistered.
pub choices-readable :
    (chain : ℕ) (choices : List Choice) (w : AssetStore)
    → Sound w
    → ((after : AssetStore) × (profile_erc20s chain (after_choices chain choices w)
          ≡ (err database, after)))
      ⊎ ((assets : List Erc20Asset) × (rest : List Bool) × (profile_erc20s chain
              (after_choices chain choices w)
            ≡ (ok assets, record (after_choices chain choices w) { faults = rest }))
          × Distinct (addresses assets)
          × ((b : ℕ)
              → contains (addresses assets) b ≡ tracked chain (after_choices chain choices w) b))
choices-readable chain choices w s =
    profile_erc20s-tracked chain (after_choices chain choices w)
      (after_choices-Sound chain choices w s)
