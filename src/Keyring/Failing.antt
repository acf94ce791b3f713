-- ===== src/Keyring/Failing.antt =====
-- crates/core/src/instance/profiles.rs: an import that fails, though no access does, stores nothing.
use Prim.Native.String.{String}
use text.Mathlib.Text.{◌==◌ as str_eq}
use desktop_wallet.Common.{
  ℕ, ◌≡◌, refl, sym, subst, false, not, ◌&&◌, ◌⊎◌, inl, inr, Option, none, some, List, [], ◌∷◌,
  ◌++◌, ◌==◌, find, any, length, All, arith, Bool-cases, Option-cases,
}
use desktop_wallet.Common.Outcome.{Result, ok, err}
use desktop_wallet.Exec.{◌>>=◌}
use desktop_wallet.Recipients.{Text}
use desktop_wallet.Profiles.{
  ProfileRecord, key, key_eq, new_record, check_can_create, create, access, access_with,
  list_profiles, create_at, write_record, put_pointer, put_profiles, check_index, check_unique_name,
}
use desktop_wallet.Profiles.Rooted.{On}
use desktop_wallet.Profiles.Unique.{new_record-key}
use desktop_wallet.Keyring.{
  MnemonicRecord, Wallet, Bip39, wrapped, placed, on_keyring, on_profiles, attempt, attempt_with,
  mnemonics, put_mnemonics, count_of, next_index, has_phrase, add_new, add_phrase, parse,
  add_mnemonic, import_profile,
}
use desktop_wallet.Keyring.Stored.{stored_mnemonics, Rooted, count_of-ok}
use desktop_wallet.Keyring.Calls.{listed_profiles, without_faults}

-- a key on a mnemonic that no profile is on is free
key-free :
    (n p : ℕ) (ps : List ProfileRecord)
    → All (On n) ps
    → any (λ q. key_eq (key q) (n, p)) ps ≡ false
key-free n p [] h = refl
key-free n p (q ∷ ps) h =
    let other : (q.mnemonic_index == n) ≡ false = ground (arith, h.0) in
    rw (other, key-free n p ps h.1) refl

-- what an import at index `p` does: it stores one phrase more and lists one profile more, which is
-- on the phrase, or it fails and leaves all as it was
abbrev pub Imported :
    {E : Type 0} → ℕ → Wallet → Result E (MnemonicRecord × ProfileRecord) × Wallet → Type 0
Imported p w (ok r, v) =
    (stored_mnemonics v ≡ stored_mnemonics w ++ r.0 ∷ [])
    × (r.0.index ≡ length (stored_mnemonics w))
    × (listed_profiles v ≡ listed_profiles w ++ r.1 ∷ [])
    × (key r.1 ≡ (r.0.index, p))
Imported p w (err e, v) = v ≡ w

Result-cases : {E A : Type 0} (r : Result E A) → ((a : A) × (r ≡ ok a)) ⊎ ((e : E) × (r ≡ err e))
Result-cases (ok a) = inl (a, refl)
Result-cases (err e) = inr (e, refl)

new_record-twice :
    (m p : ℕ) (name : Option String)
    → new_record m p (new_record m p name).name ≡ new_record m p name
unfolding new_record
new_record-twice m p none = refl
new_record-twice m p (some name) =
    elim (Bool-cases (not (str_eq name "") && not (str_eq name "-"))) [
      | inl e ↦ rw (e, e) refl
      | inr e ↦ rw e refl
    ]

module _ {Words E : Type 0} (library : Bip39 Words E) where
  -- From a database whose mnemonics are numbered from 0 in order, with phrases that differ, and whose
  -- profiles are each on one of them and pairwise differ in key and display name: if no access fails,
  -- then an import either succeeds, stores one phrase more, numbered after those before, and lists one
  -- profile more, which is on that phrase at the index asked for, or it fails, and the database is as
  -- it was: no phrase is stored without its profile.
  pub import_profile-Imported :
      (phrase : Text) (p : ℕ) (name : Option String) (w : Wallet)
      → Rooted (stored_mnemonics w) w.profiles_records
      → Imported p (without_faults w) (import_profile library phrase p name (without_faults w))
  unfolding import_profile on_keyring on_profiles wrapped placed next_index mnemonics attempt
      attempt_with ◌>>=◌ check_can_create access access_with list_profiles add_mnemonic add_phrase
      add_new put_mnemonics create create_at write_record put_pointer put_profiles
  import_profile-Imported phrase p name w h =
      elim (Result-cases (count_of {E = E} (stored_mnemonics w))) [
        | inr e ↦ rw e.1 refl
        | inl n ↦
            let candidate = new_record n.0 p name in
            let profiles = listed_profiles w in
            elim (Result-cases (check_index candidate)) [
              | inr e ↦ rw (n.1, e.1) refl
              | inl i ↦ elim (Result-cases (check_unique_name candidate profiles)) [
                | inr e ↦ rw (n.1, i.1, e.1) refl
                | inl u ↦ elim (Result-cases (parse library phrase)) [
                  | inr e ↦ rw (n.1, i.1, u.1, e.1) refl
                  | inl words ↦
                      let found =
                        find (has_phrase (library.to_text words.0)) (stored_mnemonics w) in
                      elim (Option-cases found) [
                        | inr e ↦ rw (n.1, i.1, u.1, words.1, e.1) refl
                        | inl e ↦
                            let free = key-free n.0 p profiles (
                              subst (λ k. All (On k) profiles)
                                (sym (count_of-ok (stored_mnemonics w) n.0 n.1)) h.2.1) in
                            rw
                              (
                                n.1,
                                i.1,
                                u.1,
                                words.1,
                                e,
                                n.1,
                                free,
                                new_record-twice n.0 p name,
                                i.1,
                                u.1,
                              )
                              (
                                refl,
                                count_of-ok (stored_mnemonics w) n.0 n.1,
                                refl,
                                new_record-key n.0 p name,
                              )
                      ]
                ]
              ]
            ]
      ]
