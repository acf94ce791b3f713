-- ===== src/Assets/Choices.antt =====
-- crates/core/src/asset/mod.rs: opting in and out changes whether a profile tracks the one address,
-- and what the profile reads is what it tracks.
use desktop_wallet.Common.{
  ℕ, ◌≡◌, ◌≢◌, ◌∙◌, refl, sym, ap, subst, Bool, true, false, not, ◌&&◌, ◌||◌, none, some, List, [],
  ◌∷◌, ◌++◌, ◌==◌, ==_iff, find, All-map, Bool-cases, Option-cases, inl, inr, arith, unwrap_or,
}
use desktop_wallet.Exec.{return, ◌>>=◌}
use desktop_wallet.Exec.Runs.{
  Runs, Post, Runs-bind, Runs-given, Runs-weaken, Runs-return, Runs-lift,
}
use desktop_wallet.Assets.{
  Erc20Asset, AssetStore, Endpoint, contains, is_at, default_erc20s, known, clear_opt_out, call,
  read_erc20, register, add_opt_in, opt_in,
}
use desktop_wallet.Assets.Members.{addresses, Distinct, contains-snoc, find-at, missing-none}
use desktop_wallet.Assets.Collect.{tracks, addresses-snoc}
use desktop_wallet.Assets.Tracked.{
  Stored, Registered, get_erc20s-Runs, put_erc20s-Runs, clear_opt_out-Runs, add_opt_in-Runs,
}

-- no address is opted in or out twice, and those opted in are registered
abbrev pub Sound : AssetStore → Type 0
Sound w =
    Distinct (unwrap_or w.in_record [])
    × Distinct (unwrap_or w.out_record [])
    × Registered (unwrap_or w.erc20s_record []) (unwrap_or w.in_record [])

-- whether the profile tracks an address
abbrev pub tracked : ℕ → AssetStore → ℕ → Bool
tracked chain w = tracks chain (unwrap_or w.in_record []) (unwrap_or w.out_record [])

no_some : {A : Type 0} {a : A} → some a ≢ none
no_some e = cc

found-contains :
    (a : ℕ) (l : List Erc20Asset) (asset : Erc20Asset)
    → find (is_at a) l ≡ some asset
    → contains (addresses l) a ≡ true
found-contains a l asset e = elim (Bool-cases (contains (addresses l) a)) [
  | inl hit ↦ hit
  | inr miss ↦ absurd (no_some (sym e ∙ missing-none a l miss))
]

pushed-contains :
    (l : List Erc20Asset) (asset : Erc20Asset) (b : ℕ)
    → contains (addresses (l ++ asset ∷ [])) b ≡ (contains (addresses l) b || asset.address == b)
pushed-contains l asset b =
    ap (λ t. contains t b) (addresses-snoc l asset) ∙ contains-snoc (addresses l) asset.address b

at_end :
    (a : ℕ) (asset : Erc20Asset) (t : Bool) → asset.address ≡ a → (t || asset.address == a) ≡ true
at_end a asset true e = refl
at_end a asset false e = (==_iff asset.address a).1 e

-- what is stored, as the state shows it
pub Stored-Sound :
    (i o : List ℕ) (r : List Erc20Asset) (w : AssetStore)
    → Stored i o r w
    → Distinct i
    → Distinct o
    → Registered r i
    → Sound w
Stored-Sound i o r w h d d' reg = (
  subst Distinct (sym h.0) d,
  subst Distinct (sym h.1) d',
  subst (λ t. Registered t (unwrap_or w.in_record [])) (sym h.2)
      (subst (Registered r) (sym h.0) reg),
)

pub Stored-tracked :
    (chain : ℕ) (i o : List ℕ) (r : List Erc20Asset) (w : AssetStore) (b : ℕ)
    → Stored i o r w
    → tracked chain w b ≡ tracks chain i o b
Stored-tracked chain i o r w b h =
    ap (λ t. tracks chain t (unwrap_or w.out_record []) b) h.0 ∙ ap (λ t. tracks chain i t b) h.1

-- the address is opted out no more, and is a default or opted in
tracks_in :
    (here out known chosen out' chosen' : Bool)
    → out' ≡ (out && not here)
    → chosen' ≡ (chosen || here)
    → (not out' && (known || chosen')) ≡ (here || (not out && (known || chosen)))
tracks_in here out known chosen out' chosen' e f = ground arith

tracks_known :
    (here out known chosen out' : Bool)
    → (here ≡ true → known ≡ true)
    → out' ≡ (out && not here)
    → (not out' && (known || chosen)) ≡ (here || (not out && (known || chosen)))
tracks_known here out known chosen out' e f = ground arith

pub unequal : (a b : ℕ) → a ≢ b → (a == b) ≡ false
unequal a b n = elim (Bool-cases (a == b)) [ inl e ↦ absurd (n ((==_iff a b).0 e)) | inr e ↦ e ]

pub or_false : (t : Bool) → (t || false) ≡ t
or_false true = refl
or_false false = refl

-- an opt-in of one address changes no other
pub others_in :
    (chain : ℕ) (i o i' : List ℕ) (b a : ℕ)
    → a ≢ b
    → contains i' b ≡ (contains i b || a == b)
    → tracks chain i' o b ≡ tracks chain i o b
others_in chain i o i' b a n e =
    ap (λ t. not (contains o b) && (contains (addresses (default_erc20s chain)) b || t))
      (e ∙ ap (λ t. contains i b || t) (unequal a b n) ∙ or_false (contains i b))

module _ (endpoint : Endpoint) (a : ℕ) where
  read_erc20-Runs :
      (P : AssetStore → Type 0)
      → Runs P (read_erc20 endpoint a) (λ asset w. (asset.address ≡ a) × P w) P
  unfolding read_erc20 call known
  read_erc20-Runs P = Runs-bind _ _ (Runs-lift _ (λ w h. h) (λ b e w h. h)) (λ b.
      Runs-bind _ _ (Runs-lift _ (λ w h. h) (λ d e w h. h)) (λ d.
        Runs-bind _ _ (Runs-lift _ (λ w h. h) (λ b e w h. h))
          (λ b'. Runs-return _ (λ w h. (refl, h)))))

  module _ (i o : List ℕ) (r : List Erc20Asset) where
    register-Runs :
        Registered r i
        → Runs
            (Stored i o r)
            (register endpoint a)
            (λ asset w.
              (r' : List Erc20Asset) × Stored i o r' w
              × (asset.address ≡ a)
              × (contains (addresses r') a ≡ true)
              × Registered r' i)
            (Stored i o r)
    unfolding register
    register-Runs reg = Runs-bind _ _ (get_erc20s-Runs i o r) (λ l. Runs-given (λ same.
        elim (Option-cases (find (is_at a) l)) [
          | inr f ↦ rw f.1 (
              Runs-return f.0 (λ w h. (
                r,
                h,
                find-at a l f.0 f.1,
                subst (λ t. contains (addresses t) a ≡ true) same (found-contains a l f.0 f.1),
                reg,
              )))
          | inl n ↦ rw n (
              Runs-bind _ _ (read_erc20-Runs (Stored i o r)) (λ asset. Runs-given (λ at.
                Runs-bind _ _ (put_erc20s-Runs i o r (l ++ asset ∷ [])) (λ _.
                  Runs-return asset (λ w h. (
                    l ++ asset ∷ [],
                    h,
                    at,
                    pushed-contains l asset a ∙ at_end a asset (contains (addresses l) a) at,
                    All-map
                        (λ x e.
                          pushed-contains l asset x
                          ∙ subst (λ t. (t || asset.address == x) ≡ true)
                              (sym (ap (λ t. contains (addresses t) x) same ∙ e)) refl)
                        i reg,
                  ))))))
        ]))

    module _ (chain : ℕ) where
      -- after a failure: sound, and what is tracked of other addresses is as before
      abbrev Failed : AssetStore → Type 0
      Failed w = Sound w × ((b : ℕ) → a ≢ b → tracked chain w b ≡ tracks chain i o b)

      abbrev OptedIn : Erc20Asset → AssetStore → Type 0
      OptedIn asset w =
          Sound w
          × (asset.address ≡ a)
          × ((b : ℕ) → tracked chain w b ≡ (a == b || tracks chain i o b))

      Stored-Failed :
          (w : AssetStore) (i' o' : List ℕ) (r' : List Erc20Asset)
          → Stored i' o' r' w
          → Distinct i'
          → Distinct o'
          → Registered r' i'
          → ((b : ℕ) → a ≢ b → tracks chain i' o' b ≡ tracks chain i o b)
          → Failed w
      Stored-Failed w i' o' r' h d d' reg same = (
        Stored-Sound i' o' r' w h d d' reg,
        λ b n. Stored-tracked chain i' o' r' w b h ∙ same b n,
      )

      chosen :
          (asset : Erc20Asset) (r' : List Erc20Asset)
          → Distinct i
          → Distinct o
          → Registered r' i
          → asset.address ≡ a
          → contains (addresses r') a ≡ true
          → Runs
              (Stored i o r')
              (add_opt_in endpoint a >>= λ _. clear_opt_out a >>= λ _. return asset)
              OptedIn
              Failed
      chosen asset r' d d' reg here mine =
          Runs-bind _ _
            (Runs-weaken (λ w h. h) (λ _ w h. h)
              (λ w h. Stored-Failed w i o r' h d d' reg (λ b n. refl))
              (add_opt_in-Runs i o r' a endpoint d reg mine))
            (λ _. record {
              at = λ w h.
                  (Runs-bind _ _
                      (Runs-weaken (λ w h. h) (λ _ w h. h)
                        (λ w g.
                          Stored-Failed w h.0 o r' g h.2 d' h.3
                            (λ b n. others_in chain i o h.0 b a n (h.4 b)))
                        (clear_opt_out-Runs h.0 o r' a d'))
                      (λ _. Runs-return asset (λ w g. (
                        Stored-Sound h.0 g.0 r' w g.1 h.2 g.2 h.3,
                        here,
                        λ b.
                            Stored-tracked chain h.0 g.0 r' w b g.1
                            ∙ tracks_in (a == b) (contains o b)
                                (contains (addresses (default_erc20s chain)) b) (contains i b)
                                (contains g.0 b) (contains h.0 b) (g.3 b) (h.4 b),
                      )))).at
                    w h.1;
            })

      opt_in-Runs :
          Distinct i
          → Distinct o
          → Registered r i
          → Runs (Stored i o r) (opt_in endpoint chain a) OptedIn Failed
      unfolding opt_in
      opt_in-Runs d d' reg = elim (Option-cases (find (is_at a) (default_erc20s chain))) [
        | inr f ↦
            rw (opt_in, f.1)
              (Runs-bind _ _
                (Runs-weaken (λ w h. h) (λ _ w h. h)
                  (λ w h. Stored-Failed w i o r h d d' reg (λ b n. refl))
                  (clear_opt_out-Runs i o r a d'))
                (λ _. Runs-return f.0 (λ w h. (
                  Stored-Sound i h.0 r w h.1 d h.2 reg,
                  find-at a (default_erc20s chain) f.0 f.1,
                  λ b.
                      Stored-tracked chain i h.0 r w b h.1
                      ∙ tracks_known (a == b) (contains o b)
                          (contains (addresses (default_erc20s chain)) b) (contains i b)
                          (contains h.0 b)
                          (λ e.
                            subst (λ t. contains (addresses (default_erc20s chain)) t ≡ true)
                              ((==_iff a b).0 e) (found-contains a (default_erc20s chain) f.0 f.1))
                          (h.3 b),
                ))))
        | inl n ↦
            rw (opt_in, n)
              (Runs-bind _ _
                (Runs-weaken (λ w h. h) (λ _ w h. h)
                  (λ w h. Stored-Failed w i o r h d d' reg (λ b n. refl)) (register-Runs reg))
                (λ asset. record { at = λ w h. (chosen asset h.0 d d' h.4 h.2 h.3).at w h.1 }))
      ]

-- From a state in which no address is opted in or out twice and those opted in are registered: if
-- opting in succeeds, the profile tracks the address, and each other address exactly if it did, and
-- the asset given is at the address; if it fails, what is tracked of other addresses is as before.
-- The state stays as described.
pub opt_in-tracks :
    (endpoint : Endpoint) (chain a : ℕ) (w : AssetStore)
    → Sound w
    → Post
        (λ asset after.
          Sound after
          × (asset.address ≡ a)
          × ((b : ℕ) → tracked chain after b ≡ (a == b || tracked chain w b)))
        (λ after. Sound after × ((b : ℕ) → a ≢ b → tracked chain after b ≡ tracked chain w b))
        (opt_in endpoint chain a w)
opt_in-tracks endpoint chain a w s =
    (opt_in-Runs endpoint a (unwrap_or w.in_record []) (unwrap_or w.out_record [])
        (unwrap_or w.erc20s_record []) chain s.0 s.1 s.2).at
      w (refl, refl, refl)
