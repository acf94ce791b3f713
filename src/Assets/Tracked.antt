-- ===== src/Assets/Tracked.antt =====
-- crates/core/src/asset/mod.rs: what opting in and out does to the assets that a profile tracks.
use desktop_wallet.Common.{
  ℕ, zero, suc, ◌≡◌, ◌∙◌, refl, sym, ap, subst, Bool, true, false, not, ◌&&◌, ◌||◌, List, [], ◌∷◌,
  ◌++◌, ◌==◌, ==_iff, All, All-append, Bool-cases, Option-cases, inl, inr, unwrap_or, position,
  remove_at,
}
use desktop_wallet.Exec.Runs.{
  Runs, Post, Runs-bind, Runs-given, Runs-weaken, Runs-return, Runs-gets, Runs-modify, Runs-if,
  Runs-fail,
}
use desktop_wallet.Assets.{
  Erc20Asset, AssetStore, Endpoint, attempt, attempt_with, contains, get_erc20s, get_opted_in,
  get_opted_out, put_erc20s, put_opted_in, put_opted_out, clear_opt_out, remember_opt_out,
  add_opt_in, drop_opt_in,
}
use desktop_wallet.Assets.Members.{
  addresses, Distinct, contains-snoc, Distinct-snoc, contains-remove_at, Distinct-remove_at,
  position-none,
}

-- the lists that are stored
abbrev pub Stored : List ℕ → List ℕ → List Erc20Asset → AssetStore → Type 0
Stored i o r w =
    (unwrap_or w.in_record [] ≡ i)
    × (unwrap_or w.out_record [] ≡ o)
    × (unwrap_or w.erc20s_record [] ≡ r)

-- every opted-in address is registered
abbrev pub Registered : List Erc20Asset → List ℕ → Type 0
Registered r i = All (λ a. contains (addresses r) a ≡ true) i

and_true : (t : Bool) → t ≡ (t && true)
and_true true = refl
and_true false = refl

or_false : (t : Bool) → t ≡ (t || false)
or_false true = refl
or_false false = refl

absent : (a b : ℕ) (c : Bool) → (a ≡ b → c ≡ false) → c ≡ (c && not (a == b))
absent a b c h = elim (Bool-cases (a == b)) [
  | inl e ↦ rw (e, h ((==_iff a b).0 e)) refl
  | inr e ↦ rw e (and_true c)
]

present : (a b : ℕ) (c : Bool) → (a ≡ b → c ≡ true) → c ≡ (c || a == b)
present a b c h = elim (Bool-cases (a == b)) [
  | inl e ↦ rw (e, h ((==_iff a b).0 e)) refl
  | inr e ↦ rw e (or_false c)
]

All-remove_at : (P : ℕ → Type 0) (xs : List ℕ) (i : ℕ) → All P xs → All P (remove_at xs i)
All-remove_at P [] i h = h
All-remove_at P (x ∷ xs) zero h = h.1
All-remove_at P (x ∷ xs) (suc i) h = (h.0, All-remove_at P xs i h.1)

module _ (i o : List ℕ) (r : List Erc20Asset) where
  by_fault :
      (w : AssetStore) (faults : List Bool)
      → Stored i o r w
      → Post (λ _. Stored i o r) (Stored i o r) (attempt_with w faults)
  unfolding attempt_with
  by_fault w [] h = h
  by_fault w (true ∷ rest) h = h
  by_fault w (false ∷ rest) h = h

  pub attempt-Runs : Runs (Stored i o r) attempt (λ _. Stored i o r) (Stored i o r)
  unfolding attempt attempt_with
  attempt-Runs = record { at = λ w h. by_fault w w.faults h }

  pub get_erc20s-Runs :
      Runs (Stored i o r) get_erc20s (λ l w. (l ≡ r) × Stored i o r w) (Stored i o r)
  unfolding get_erc20s
  get_erc20s-Runs = Runs-bind _ _ attempt-Runs (λ _. Runs-gets _ (λ w h. (h.2, h)))

  pub get_opted_in-Runs :
      Runs (Stored i o r) get_opted_in (λ l w. (l ≡ i) × Stored i o r w) (Stored i o r)
  unfolding get_opted_in
  get_opted_in-Runs = Runs-bind _ _ attempt-Runs (λ _. Runs-gets _ (λ w h. (h.0, h)))

  pub get_opted_out-Runs :
      Runs (Stored i o r) get_opted_out (λ l w. (l ≡ o) × Stored i o r w) (Stored i o r)
  unfolding get_opted_out
  get_opted_out-Runs = Runs-bind _ _ attempt-Runs (λ _. Runs-gets _ (λ w h. (h.1, h)))

  pub put_erc20s-Runs :
      (l : List Erc20Asset) → Runs (Stored i o r) (put_erc20s l) (λ _. Stored i o l) (Stored i o r)
  unfolding put_erc20s
  put_erc20s-Runs l = Runs-bind _ _ attempt-Runs (λ _. Runs-modify _ (λ w h. (h.0, h.1, refl)))

  put_opted_in-Runs :
      (l : List ℕ) → Runs (Stored i o r) (put_opted_in l) (λ _. Stored l o r) (Stored i o r)
  unfolding put_opted_in
  put_opted_in-Runs l = Runs-bind _ _ attempt-Runs (λ _. Runs-modify _ (λ w h. (refl, h.1, h.2)))

  put_opted_out-Runs :
      (l : List ℕ) → Runs (Stored i o r) (put_opted_out l) (λ _. Stored i l r) (Stored i o r)
  unfolding put_opted_out
  put_opted_out-Runs l = Runs-bind _ _ attempt-Runs (λ _. Runs-modify _ (λ w h. (h.0, refl, h.2)))

  module _ (a : ℕ) where
    -- an opt-out that is there is removed
    pub clear_opt_out-Runs :
        Distinct o
        → Runs
            (Stored i o r)
            (clear_opt_out a)
            (λ _ w.
              (o' : List ℕ) × Stored i o' r w
              × Distinct o'
              × ((b : ℕ) → contains o' b ≡ (contains o b && not (a == b))))
            (Stored i o r)
    unfolding clear_opt_out
    clear_opt_out-Runs d = Runs-bind _ _ get_opted_out-Runs (λ l. Runs-given (λ same.
        elim (Option-cases (position (λ opted. opted == a) l)) [
          | inl n ↦ rw n (
              Runs-return tt (λ w h. (
                o,
                h,
                d,
                λ b. absent a b (contains o b) (λ e.
                    subst (λ t. contains o t ≡ false) e
                      (subst (λ l. contains l a ≡ false) same (position-none l a n))),
              )))
          | inr f ↦ rw f.1 (
              Runs-weaken (λ w h. h)
                (λ _ w h. (
                  remove_at l f.0,
                  h,
                  Distinct-remove_at l a f.0 (subst Distinct (sym same) d) f.1,
                  λ b.
                      contains-remove_at l a f.0 (subst Distinct (sym same) d) f.1 b
                      ∙ ap (λ l. contains l b && not (a == b)) same,
                ))
                (λ w h. h) (put_opted_out-Runs (remove_at l f.0)))
        ]))

    -- an opt-out is noted once
    pub remember_opt_out-Runs :
        Distinct o
        → Runs
            (Stored i o r)
            (remember_opt_out a)
            (λ _ w.
              (o' : List ℕ) × Stored i o' r w
              × Distinct o'
              × ((b : ℕ) → contains o' b ≡ (contains o b || a == b)))
            (Stored i o r)
    unfolding remember_opt_out
    remember_opt_out-Runs d = Runs-bind _ _ get_opted_out-Runs (λ l. Runs-given (λ same.
        elim (Bool-cases (contains l a)) [
          | inl e ↦ rw e (
              Runs-return tt (λ w h. (
                o,
                h,
                d,
                λ b. present a b (contains o b) (λ eq.
                    subst (λ t. contains o t ≡ true) eq (subst (λ l. contains l a ≡ true) same e)),
              )))
          | inr e ↦ rw e (
              Runs-weaken (λ w h. h)
                (λ _ w h. (
                  l ++ a ∷ [],
                  h,
                  Distinct-snoc l a e (subst Distinct (sym same) d),
                  λ b. contains-snoc l a b ∙ ap (λ l. contains l b || a == b) same,
                ))
                (λ w h. h) (put_opted_out-Runs (l ++ a ∷ [])))
        ]))

    pub add_opt_in-Runs :
        (endpoint : Endpoint)
        → Distinct i
        → Registered r i
        → contains (addresses r) a ≡ true
        → Runs
            (Stored i o r)
            (add_opt_in endpoint a)
            (λ _ w.
              (i' : List ℕ) × Stored i' o r w
              × Distinct i'
              × Registered r i'
              × ((b : ℕ) → contains i' b ≡ (contains i b || a == b)))
            (Stored i o r)
    unfolding add_opt_in
    add_opt_in-Runs endpoint d reg mine = Runs-bind _ _ get_opted_in-Runs (λ l. Runs-given (λ same.
        elim (Bool-cases (contains l a)) [
          | inl e ↦ rw e (
              Runs-return tt (λ w h. (
                i,
                h,
                d,
                reg,
                λ b. present a b (contains i b) (λ eq.
                    subst (λ t. contains i t ≡ true) eq (subst (λ l. contains l a ≡ true) same e)),
              )))
          | inr e ↦ rw e (
              Runs-weaken (λ w h. h)
                (λ _ w h. (
                  l ++ a ∷ [],
                  h,
                  Distinct-snoc l a e (subst Distinct (sym same) d),
                  All-append (λ x. contains (addresses r) x ≡ true) l (a ∷ [])
                      (subst (Registered r) (sym same) reg) (mine, tt),
                  λ b. contains-snoc l a b ∙ ap (λ l. contains l b || a == b) same,
                ))
                (λ w h. h) (put_opted_in-Runs (l ++ a ∷ [])))
        ]))

    -- an opt-in that is there is removed; if none is, the asset must be a default
    pub drop_opt_in-Runs :
        (is_default : Bool)
        → Distinct i
        → Registered r i
        → Runs
            (Stored i o r)
            (drop_opt_in a is_default)
            (λ _ w.
              (i' : List ℕ) × Stored i' o r w
              × Distinct i'
              × Registered r i'
              × ((b : ℕ) → contains i' b ≡ (contains i b && not (a == b))))
            (Stored i o r)
    unfolding drop_opt_in
    drop_opt_in-Runs is_default d reg = Runs-bind _ _ get_opted_in-Runs (λ l. Runs-given (λ same.
        elim (Option-cases (position (λ opted. opted == a) l)) [
          | inl n ↦ rw n (
              Runs-if (not is_default) _ _ (Runs-fail _ (λ w h. h)) (
                Runs-return tt (λ w h. (
                  i,
                  h,
                  d,
                  reg,
                  λ b. absent a b (contains i b) (λ e.
                      subst (λ t. contains i t ≡ false) e
                        (subst (λ l. contains l a ≡ false) same (position-none l a n))),
                ))))
          | inr f ↦ rw f.1 (
              Runs-weaken (λ w h. h)
                (λ _ w h. (
                  remove_at l f.0,
                  h,
                  Distinct-remove_at l a f.0 (subst Distinct (sym same) d) f.1,
                  All-remove_at _ l f.0 (subst (Registered r) (sym same) reg),
                  λ b.
                      contains-remove_at l a f.0 (subst Distinct (sym same) d) f.1 b
                      ∙ ap (λ l. contains l b && not (a == b)) same,
                ))
                (λ w h. h) (put_opted_in-Runs (remove_at l f.0)))
        ]))
