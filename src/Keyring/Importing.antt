-- ===== src/Keyring/Importing.antt =====
-- crates/core/src/instance/profiles.rs: whatever accesses fail, the calls keep every profile on a
-- stored phrase, and lose no phrase.
use Prim.Native.String.{String}
use mathlib.Core.List.{append_assoc}
use desktop_wallet.Common.{
  ℕ, ◌<◌, ◌≡◌, ◌≢◌, ◌∙◌, refl, sym, subst, ap, Bool, true, false, Option, none, some, List, [], ◌∷◌,
  ◌++◌, find, length, length-append, All, arith,
}
use desktop_wallet.Common.Outcome.{Result, ok, err}
use desktop_wallet.Exec.{Exec}
use desktop_wallet.Exec.Runs.{
  Post, Runs, Runs-gets, Runs-return, Runs-fail, Runs-lift, Runs-bind, Runs-modify, Runs-given,
  Runs-weaken,
}
use desktop_wallet.Recipients.{Text}
use desktop_wallet.Profiles.{ProfileError, Profiles, new_record, check_can_create}
use desktop_wallet.Profiles.Edits.{Edit, created, edit}
use desktop_wallet.Profiles.Rooted.{Allowed, Sound, edit-Sound, check_can_create-Sound}
use desktop_wallet.Keyring.{
  MnemonicRecord, KeyringError, Wallet, Bip39, wrapped, placed, on_keyring, on_profiles, attempt,
  attempt_with, mnemonics, put_mnemonics, find_mnemonic, count_of, next_index, has_phrase, add_new,
  add_phrase, parse, generate, add_mnemonic, import_profile, generate_profile, add_profile,
}
use desktop_wallet.Keyring.Stored.{
  Counted, stored_mnemonics, Rooted, Rooted-snoc, count_of-ok, find-fresh, found-lt,
}

-- all is as it must be, and the phrases are those of `base`, and more
abbrev pub Holds : List MnemonicRecord → Wallet → Type 0
Holds base w =
    ((more : List MnemonicRecord) × (stored_mnemonics w ≡ base ++ more))
    × Rooted (stored_mnemonics w) w.profiles_records

-- an action keeps it
abbrev pub Keeps : List MnemonicRecord → {E A : Type 0} → Exec Wallet E A → Type 0
Keeps base m = Runs (Holds base) m (λ _. Holds base) (Holds base)

module _ (E : Type 0) {S : Wallet → Type 0}
    (stored : (w : Wallet) (rest : List Bool)
      → S w
      → S (record w { profiles_records = record w.profiles_records { faults = rest } })) where
  attempt_with-Runs :
      (w : Wallet) (fs : List Bool) → S w → Post (λ _. S) S (attempt_with {E = E} w fs)
  unfolding attempt_with
  attempt_with-Runs w [] h = stored w [] h
  attempt_with-Runs w (true ∷ rest) h = stored w rest h
  attempt_with-Runs w (false ∷ rest) h = stored w rest h

  attempt-Runs : Runs S (attempt {E = E}) (λ _. S) S
  unfolding attempt
  attempt-Runs = record { at = λ w h. attempt_with-Runs w w.profiles_records.faults h }

module _ {E A : Type 0} (Q : A → Wallet → Type 0) (R : Wallet → Type 0) where
  wrapped-Post : (o : Result (KeyringError E) A × Wallet) → Post Q R o → Post Q R (wrapped o)
  unfolding wrapped
  wrapped-Post (ok a, w) h = h
  wrapped-Post (err e, w) h = h

module _ {E A : Type 0} {P : Wallet → Type 0} {Q : A → Wallet → Type 0} {R : Wallet → Type 0} where
  on_keyring-Runs : {m : Exec Wallet (KeyringError E) A} → Runs P m Q R → Runs P (on_keyring m) Q R
  unfolding on_keyring
  on_keyring-Runs {m = m} run = record { at = λ w h. wrapped-Post Q R (m w) (run.at w h) }

module _ (base : List MnemonicRecord) where
  placed-Post :
      (E : Type 0) {A : Type 0} (w : Wallet) (o : Result ProfileError A × Profiles)
      → Holds base w
      → Post (λ _. Sound (length (stored_mnemonics w))) (Sound (length (stored_mnemonics w))) o
      → Post (λ _. Holds base) (Holds base) (placed {E = E} w o)
  unfolding placed
  placed-Post E w (ok a, p) h sound = (h.0, (h.1.0, h.1.1, sound))
  placed-Post E w (err e, p) h sound = (h.0, (h.1.0, h.1.1, sound))

  -- a call of the index of profiles that keeps the profiles on the first mnemonics
  on_profiles-Runs :
      {E A : Type 0} (F : ℕ → Type 0) (m : Exec Profiles ProfileError A)
      → ((n : ℕ) → F n → Runs (Sound n) m (λ _. Sound n) (Sound n))
      → Runs
          (λ w. F (length (stored_mnemonics w)) × Holds base w)
          (on_profiles {E = E} m)
          (λ _. Holds base)
          (Holds base)
  unfolding on_profiles
  on_profiles-Runs F m run = record {
    at = λ w h.
        placed-Post _ w (m w.profiles_records) h.1
          ((run (length (stored_mnemonics w)) h.0).at w.profiles_records h.1.1.2);
  }

  -- the records as the action has read them
  abbrev Read : List MnemonicRecord → Wallet → Type 0
  Read rs w = (stored_mnemonics w ≡ rs) × Holds base w

  mnemonics-Runs : {E : Type 0} → Runs (Holds base) (mnemonics {E = E}) Read (Holds base)
  unfolding mnemonics
  mnemonics-Runs =
      Runs-bind _ _ (attempt-Runs _ (λ w rest h. h)) (λ _. Runs-gets _ (λ w h. (refl, h)))

  -- the record is of one of the stored phrases
  abbrev Kept : MnemonicRecord → Wallet → Type 0
  Kept r w = (r.index < length (stored_mnemonics w)) × Holds base w

  Holds-snoc :
      (rs : List MnemonicRecord) (r : MnemonicRecord) (w : Wallet)
      → r.index ≡ length rs
      → All (λ q. q.phrase ≢ r.phrase) rs
      → Read rs w
      → Kept r (record w { mnemonics_record = some (rs ++ r ∷ []) })
  Holds-snoc rs r w e new h =
      let rooted = subst (λ ms. Rooted ms w.profiles_records) h.0 h.1.1 in
      let same : rs ≡ base ++ h.1.0.0 = sym h.0 ∙ h.1.0.1 in
      let longer : rs ++ r ∷ [] ≡ base ++ (h.1.0.0 ++ r ∷ []) =
        ap (λ ms. ms ++ r ∷ []) same ∙ append_assoc base h.1.0.0 (r ∷ []) in
      (
        omega (arith, length-append rs (r ∷ [])),
        ((h.1.0.0 ++ r ∷ [], longer), Rooted-snoc rs r w.profiles_records rooted e new),
      )

  add_new-Runs :
      {E : Type 0} (phrase : Text) (rs : List MnemonicRecord) (o : Option MnemonicRecord)
      → find (has_phrase phrase) rs ≡ o
      → Runs (Read rs) (add_new {E = E} phrase rs o) Kept (Holds base)
  unfolding add_new put_mnemonics
  add_new-Runs phrase rs (some existing) found = Runs-fail _ (λ w h. h.1)
  add_new-Runs phrase rs none found =
      Runs-bind {Q = λ n w. (n ≡ length rs) × Read rs w} _ _
        (Runs-lift (count_of rs) (λ w h. h.1) (λ n e w h. (count_of-ok rs n e, h)))
        (λ n. Runs-given (λ e.
          let r : MnemonicRecord = record { index = n; phrase = phrase } in
          Runs-bind _ _
            (Runs-bind _ _
              (Runs-weaken (λ w h. h) (λ _ w h. h) (λ w h. h.1) (attempt-Runs _ (λ w rest h. h)))
              (λ _. Runs-modify _ (λ w h. Holds-snoc rs r w e (find-fresh phrase rs found) h)))
            (λ _. Runs-return r (λ w h. h))))

  add_phrase-Runs :
      {E : Type 0} (phrase : Text) → Runs (Holds base) (add_phrase {E = E} phrase) Kept (Holds base)
  unfolding add_phrase
  add_phrase-Runs phrase =
      Runs-bind _ _ mnemonics-Runs (λ rs. add_new-Runs phrase rs (find (has_phrase phrase) rs) refl)

  find_mnemonic-Runs :
      {E : Type 0} (i : ℕ)
      → Runs
          (Holds base)
          (find_mnemonic {E = E} i)
          (λ _ w. (i < length (stored_mnemonics w)) × Holds base w)
          (Holds base)
  unfolding find_mnemonic
  find_mnemonic-Runs i = Runs-bind _ _ mnemonics-Runs (λ rs.
      Runs-lift _ (λ w h. h.1)
        (λ r e w h.
          let below = found-lt 0 rs i r (subst (λ ms. Counted 0 ms) h.0 h.1.1.0) e in
          (rw h.0 (omega arith), h.1)))

  next_index-Runs : {E : Type 0} → Keeps base (next_index {E = E})
  unfolding next_index
  next_index-Runs = Runs-bind _ _ mnemonics-Runs (λ rs. Runs-lift _ (λ w h. h.1) (λ n e w h. h.1))

  edit-Runs :
      {E : Type 0} (e : Edit)
      → Runs
          (λ w. Allowed (length (stored_mnemonics w)) e × Holds base w)
          (on_profiles {E = E} (edit e))
          (λ _. Holds base)
          (Holds base)
  edit-Runs e = on_profiles-Runs (λ n. Allowed n e) (edit e) (λ n allowed. edit-Sound n e allowed)

  module _ {Words E : Type 0} (library : Bip39 Words E) where
    pub import_profile-Keeps :
        (phrase : Text) (p : ℕ) (name : Option String)
        → Keeps base (import_profile library phrase p name)
    unfolding import_profile add_mnemonic
    import_profile-Keeps phrase p name = Runs-bind _ _ (on_keyring-Runs next_index-Runs) (λ next.
        let candidate = new_record next p name in
        Runs-bind _ _
          (Runs-weaken (λ w h. (tt, h)) (λ _ w h. h) (λ w h. h)
            (on_profiles-Runs (λ _. Unit) (check_can_create candidate)
              (λ n _. check_can_create-Sound n candidate)))
          (λ _.
            Runs-bind _ _
              (on_keyring-Runs (
                Runs-bind _ _ (Runs-lift (parse library phrase) (λ w h. h) (λ _ _ w h. h))
                  (λ words. add_phrase-Runs (library.to_text words))))
              (λ stored.
                Runs-bind _ _ (edit-Runs (created stored.index (some p) candidate.name))
                  (λ made. Runs-return (stored, made) (λ w h. h)))))

    pub generate_profile-Keeps :
        (drawn : ℕ → Result E Words) (long_phrase : Bool) (p : ℕ) (name : Option String)
        → Keeps base (generate_profile library drawn long_phrase p name)
    unfolding generate_profile
    generate_profile-Keeps drawn long_phrase p name =
        Runs-bind _ _
          (on_keyring-Runs (Runs-lift (generate drawn long_phrase) (λ w h. h) (λ _ _ w h. h)))
          (λ words. import_profile-Keeps (library.to_text words) p name)

  pub add_profile-Keeps :
      {E : Type 0} (m : ℕ) (p : Option ℕ) (name : Option String)
      → Keeps base (add_profile {E = E} m p name)
  unfolding add_profile
  add_profile-Keeps m p name =
      Runs-bind _ _ (on_keyring-Runs (find_mnemonic-Runs m)) (λ _. edit-Runs (created m p name))

  pub free :
      {E : Type 0} (e : Edit) → ((n : ℕ) → Allowed n e) → Keeps base (on_profiles {E = E} (edit e))
  free e allowed =
      Runs-weaken (λ w h. (allowed (length (stored_mnemonics w)), h)) (λ _ w h. h) (λ w h. h)
        (edit-Runs e)
