-- ===== src/Assets/Leaving.antt =====
-- crates/core/src/asset/mod.rs: opting out, and the assets that a profile reads.
use desktop_wallet.Common.{
  ℕ, ◌≡◌, ◌≢◌, ◌∙◌, refl, sym, ap, subst, Bool, true, false, not, ◌&&◌, ◌||◌, Option, none, some,
  List, [], ◌==◌, ==_iff, if◌then◌else◌, any, find, Option-cases, inl, inr, arith, unwrap_or,
}
use desktop_wallet.Common.Outcome.{ok, ok_or}
use desktop_wallet.Exec.{return, ◌>>=◌}
use desktop_wallet.Exec.Runs.{
  Runs, Post, Runs-bind, Runs-given, Runs-weaken, Runs-return, Runs-lift,
}
use desktop_wallet.Assets.{
  Erc20Asset, AssetError, AssetStore, contains, is_at, default_erc20s, known, remember_opt_out,
  stopped, opt_out,
}
use desktop_wallet.Assets.Members.{addresses, Distinct, find-at, any-contains}
use desktop_wallet.Assets.Collect.{tracks}
use desktop_wallet.Assets.Choices.{Sound, tracked, Stored-Sound, Stored-tracked, unequal}
use desktop_wallet.Assets.Tracked.{
  Stored, Registered, get_erc20s-Runs, remember_opt_out-Runs, drop_opt_in-Runs,
}

-- the address is opted out, and opted in no more
tracks_out :
    (here out known chosen out' chosen' : Bool)
    → out' ≡ (out || here)
    → chosen' ≡ (chosen && not here)
    → (not out' && (known || chosen')) ≡ (not here && (not out && (known || chosen)))
tracks_out here out known chosen out' chosen' e f = ground arith

tracks_dropped :
    (here out known chosen chosen' : Bool)
    → (here ≡ true → known ≡ false)
    → chosen' ≡ (chosen && not here)
    → (not out && (known || chosen')) ≡ (not here && (not out && (known || chosen)))
tracks_dropped here out known chosen chosen' e f = ground arith

unless_false : (t : Bool) → (t && not false) ≡ t
unless_false true = refl
unless_false false = refl

-- a removal of one address changes no other
others_out :
    (chain : ℕ) (i o i' : List ℕ) (b a : ℕ)
    → a ≢ b
    → contains i' b ≡ (contains i b && not (a == b))
    → tracks chain i' o b ≡ tracks chain i o b
others_out chain i o i' b a n e =
    ap (λ t. not (contains o b) && (contains (addresses (default_erc20s chain)) b || t))
      (e ∙ ap (λ t. contains i b && not t) (unequal a b n) ∙ unless_false (contains i b))

found_ok :
    {asset : Erc20Asset} (o : Option Erc20Asset) (f : AssetError)
    → ok_or f o ≡ ok asset
    → o ≡ some asset
found_ok none f e = absurd cc
found_ok (some a) f e = cc

module _ (chain a : ℕ) (i o : List ℕ) (r : List Erc20Asset) where
  stopped-Runs :
      Runs
        (Stored i o r)
        (stopped chain a)
        (λ asset w. (asset.address ≡ a) × Stored i o r w)
        (Stored i o r)
  unfolding stopped
  stopped-Runs = elim (Option-cases (find (is_at a) (default_erc20s chain))) [
    | inr f ↦
        rw (stopped, f.1) (Runs-return f.0 (λ w h. (find-at a (default_erc20s chain) f.0 f.1, h)))
    | inl n ↦
        rw (stopped, n)
          (Runs-bind _ _ (get_erc20s-Runs i o r) (λ l. Runs-given (λ same.
            Runs-lift _ (λ w h. h) (λ asset made w h. (find-at a l asset (found_ok _ _ made), h)))))
  ]

  abbrev Failed : AssetStore → Type 0
  Failed w = Sound w × ((b : ℕ) → a ≢ b → tracked chain w b ≡ tracks chain i o b)

  abbrev OptedOut : Erc20Asset → AssetStore → Type 0
  OptedOut asset w =
      Sound w
      × (asset.address ≡ a)
      × ((b : ℕ) → tracked chain w b ≡ (not (a == b) && tracks chain i o b))

  finished :
      (asset : Erc20Asset) (i' : List ℕ) (is_default : Bool)
      → contains (addresses (default_erc20s chain)) a ≡ is_default
      → asset.address ≡ a
      → Distinct i'
      → Distinct o
      → Registered r i'
      → ((b : ℕ) → contains i' b ≡ (contains i b && not (a == b)))
      → Runs
          (Stored i' o r)
          (if is_default then (remember_opt_out a >>= λ _. return asset) else return asset)
          OptedOut
          Failed
  finished asset i' true e here d d' reg kept =
      Runs-bind _ _
        (Runs-weaken (λ w h. h) (λ _ w h. h)
          (λ w h. (
            Stored-Sound i' o r w h d d' reg,
            λ b n. Stored-tracked chain i' o r w b h ∙ others_out chain i o i' b a n (kept b),
          ))
          (remember_opt_out-Runs i' o r a d'))
        (λ _. Runs-return asset (λ w h. (
          Stored-Sound i' h.0 r w h.1 d h.2 reg,
          here,
          λ b.
              Stored-tracked chain i' h.0 r w b h.1
              ∙ tracks_out (a == b) (contains o b) (contains (addresses (default_erc20s chain)) b)
                  (contains i b) (contains h.0 b) (contains i' b) (h.3 b) (kept b),
        )))
  finished asset i' false e here d d' reg kept = Runs-return asset (λ w h. (
    Stored-Sound i' o r w h d d' reg,
    here,
    λ b.
        Stored-tracked chain i' o r w b h
        ∙ tracks_dropped (a == b) (contains o b) (contains (addresses (default_erc20s chain)) b)
            (contains i b) (contains i' b)
            (λ same.
              subst (λ t. contains (addresses (default_erc20s chain)) t ≡ false)
                ((==_iff a b).0 same) e)
            (kept b),
  ))

  opt_out-Runs :
      Distinct i
      → Distinct o
      → Registered r i
      → Runs (Stored i o r) (opt_out chain a) OptedOut Failed
  unfolding opt_out
  opt_out-Runs d d' reg =
      let bad : (w : AssetStore) → Stored i o r w → Failed w =
        λ w h. (Stored-Sound i o r w h d d' reg, λ b n. Stored-tracked chain i o r w b h) in
      Runs-bind _ _ (Runs-weaken (λ w h. h) (λ _ w h. h) bad stopped-Runs) (λ asset.
        Runs-given (λ here.
          Runs-bind _ _
            (Runs-weaken (λ w h. h) (λ _ w h. h) bad
              (drop_opt_in-Runs i o r a (any (is_at a) (default_erc20s chain)) d reg))
            (λ _. record {
              at = λ w h.
                  (finished asset h.0 (any (is_at a) (default_erc20s chain))
                      (sym (any-contains a (default_erc20s chain))) here h.2 d' h.3 h.4).at
                    w h.1;
            })))

-- From a state in which no address is opted in or out twice and those opted in are registered: if
-- opting out succeeds, the profile no longer tracks the address, and each other address exactly if it
-- did, and the asset given is at the address; if it fails, what is tracked of other addresses is as
-- before. The state stays as described.
pub opt_out-tracks :
    (chain a : ℕ) (w : AssetStore)
    → Sound w
    → Post
        (λ asset after.
          Sound after
          × (asset.address ≡ a)
          × ((b : ℕ) → tracked chain after b ≡ (not (a == b) && tracked chain w b)))
        (λ after. Sound after × ((b : ℕ) → a ≢ b → tracked chain after b ≡ tracked chain w b))
        (opt_out chain a w)
opt_out-tracks chain a w s =
    (opt_out-Runs chain a (unwrap_or w.in_record []) (unwrap_or w.out_record [])
        (unwrap_or w.erc20s_record []) s.0 s.1 s.2).at
      w (refl, refl, refl)
