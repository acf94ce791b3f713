-- ===== src/Keyring/Calls.antt =====
-- crates/core/src/instance/profiles.rs: any calls, one after the other, and what can be read after.
use Prim.Native.String.{String}
use mathlib.Core.List.{append-nil}
use desktop_wallet.Common.{
  ℕ, ◌≡◌, refl, sym, Bool, Option, some, List, [], ◌∷◌, ◌++◌, ◌==◌, unwrap_or, find, All, All-map,
  arith,
}
use desktop_wallet.Common.Outcome.{Result, ok, err}
use desktop_wallet.Exec.{◌>>=◌}
use desktop_wallet.Exec.Runs.{Post}
use desktop_wallet.Recipients.{Text}
use desktop_wallet.Profiles.{ProfileRecord}
use desktop_wallet.Profiles.Edits.{renamed, name_set}
use desktop_wallet.Profiles.Unique.{Unique}
use desktop_wallet.Keyring.{
  MnemonicRecord, Wallet, Bip39, import_profile, generate_profile, add_profile, rename_profile,
  set_profile_name, recovery_phrase, find_mnemonic, mnemonics, attempt, attempt_with, on_keyring,
  wrapped,
}
use desktop_wallet.Keyring.Stored.{stored_mnemonics, Different, Rooted, find-Counted}
use desktop_wallet.Keyring.Importing.{
  Holds, import_profile-Keeps, generate_profile-Keeps, add_profile-Keeps, free,
}

-- the calls that write; what is drawn for a new phrase comes with the call
pub data ProfileCall (Words E : Type 0) : Type 0 where
  imported : Text → ℕ → Option String → ProfileCall Words E
  phrase_generated : (ℕ → Result E Words) → Bool → ℕ → Option String → ProfileCall Words E
  profile_added : ℕ → Option ℕ → Option String → ProfileCall Words E
  profile_renamed : String → Option String → ProfileCall Words E
  profile_named : ℕ → ℕ → Option String → ProfileCall Words E

-- the profiles of the index
abbrev pub listed_profiles : Wallet → List ProfileRecord
listed_profiles w = unwrap_or w.profiles_records.index []

-- the same records, with no access that fails
abbrev pub without_faults : Wallet → Wallet
without_faults w = record w { profiles_records = record w.profiles_records { faults = [] } }

module _ (E : Type 0) where
  -- the recovery phrase of the profile can be read
  abbrev pub Recoverable : Wallet → ProfileRecord → Type 0
  Recoverable w p = (phrase : Text) × ((recovery_phrase {E = E} p (without_faults w)).0 ≡ ok phrase)

module _ {Words E : Type 0} (library : Bip39 Words E) where
  -- what the database is after a call, whether it succeeds or fails
  abbrev pub after_call : ProfileCall Words E → Wallet → Wallet
  after_call (imported phrase p name) w = (import_profile library phrase p name w).1
  after_call (phrase_generated drawn long_phrase p name) w =
      (generate_profile library drawn long_phrase p name w).1
  after_call (profile_added m p name) w = (add_profile {E = E} m p name w).1
  after_call (profile_renamed selector name) w = (rename_profile {E = E} selector name w).1
  after_call (profile_named m p name) w = (set_profile_name {E = E} m p name w).1

  abbrev pub after_calls : List (ProfileCall Words E) → Wallet → Wallet
  after_calls [] w = w
  after_calls (c ∷ cs) w = after_calls cs (after_call c w)

  module _ (base : List MnemonicRecord) where
    ended :
        {F A : Type 0} (o : Result F A × Wallet)
        → Post (λ _. Holds base) (Holds base) o
        → Holds base o.1
    ended (ok a, w) h = h
    ended (err e, w) h = h

    after_call-Holds :
        (c : ProfileCall Words E) (w : Wallet) → Holds base w → Holds base (after_call c w)
    unfolding rename_profile set_profile_name
    after_call-Holds (imported phrase p name) w h =
        ended _ ((import_profile-Keeps base library phrase p name).at w h)
    after_call-Holds (phrase_generated drawn long_phrase p name) w h =
        ended _ ((generate_profile-Keeps base library drawn long_phrase p name).at w h)
    after_call-Holds (profile_added m p name) w h =
        ended _ ((add_profile-Keeps base {E = E} m p name).at w h)
    after_call-Holds (profile_renamed selector name) w h =
        ended _ ((free base {E = E} (renamed selector name) (λ n. tt)).at w h)
    after_call-Holds (profile_named m p name) w h =
        ended _ ((free base {E = E} (name_set m p name) (λ n. tt)).at w h)

    after_calls-Holds :
        (cs : List (ProfileCall Words E)) (w : Wallet)
        → Holds base w
        → Holds base (after_calls cs w)
    after_calls-Holds [] w h = h
    after_calls-Holds (c ∷ cs) w h = after_calls-Holds cs (after_call c w) (after_call-Holds c w h)

module _ {E : Type 0} where
  recovery_phrase-found :
      (w : Wallet) (p : ProfileRecord) (r : MnemonicRecord)
      → find (λ q. q.index == p.mnemonic_index) (stored_mnemonics w) ≡ some r
      → (recovery_phrase {E = E} p (without_faults w)).0 ≡ ok r.phrase
  unfolding recovery_phrase on_keyring wrapped find_mnemonic mnemonics attempt attempt_with ◌>>=◌
  recovery_phrase-found w p r e = rw e refl

module _ (E : Type 0) where
  readable :
      (w : Wallet)
      → Rooted (stored_mnemonics w) w.profiles_records
      → All (Recoverable E w) (listed_profiles w)
  readable w h =
      All-map
        (λ p lt.
          let found =
            find-Counted 0 (stored_mnemonics w) p.mnemonic_index h.0 (omega arith) (omega arith) in
          (found.0.phrase, recovery_phrase-found w p found.0 found.1))
        (listed_profiles w) h.2.1

module _ {Words E : Type 0} (library : Bip39 Words E) where
  -- From a database whose mnemonics are numbered from 0 in order, with phrases that differ, and whose
  -- profiles are each on one of them and pairwise differ in key and display name: after any calls,
  -- whatever accesses of the database fail, the recovery phrase of every listed profile can be read
  -- when no access fails, no phrase is stored twice, no stored phrase is lost or changed, and the
  -- profiles still differ.
  pub after_calls-Recoverable :
      (cs : List (ProfileCall Words E)) (w : Wallet)
      → Rooted (stored_mnemonics w) w.profiles_records
      → All (Recoverable E (after_calls library cs w)) (listed_profiles (after_calls library cs w))
        × Different (stored_mnemonics (after_calls library cs w))
        × ((more : List MnemonicRecord) × (stored_mnemonics (after_calls library cs w)
              ≡ stored_mnemonics w ++ more))
        × Unique (after_calls library cs w).profiles_records
  after_calls-Recoverable cs w h =
      let base = stored_mnemonics w in
      let last = after_calls-Holds library base cs w (([], sym (append-nil base)), h) in
      (readable E (after_calls library cs w) last.1, last.1.1, last.0, last.1.2.0)
