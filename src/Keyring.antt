-- ===== src/Keyring.antt =====
-- crates/core/src/keyring.rs, the records of crates/core/src/mnemonic/db.rs, the phrases of
-- crates/core/src/mnemonic/mod.rs and the calls of crates/core/src/instance/profiles.rs: stored
-- recovery phrases, and the profiles on them. Any access of the database may fail.
pub mod Stored
pub mod Importing
pub mod Calls
pub mod Failing
use Prim.Native.String.{String}
use desktop_wallet.Common.{
  ℕ, Bool, true, false, not, ◌&&◌, ◌||◌, Option, none, some, List, [], ◌∷◌, ◌++◌, ◌==◌, ltb,
  if◌then◌else◌, unwrap_or, find, length,
}
use desktop_wallet.Common.Outcome.{Result, ok, err, ok_or}
use desktop_wallet.Common.U256.{u32_mod}
use desktop_wallet.Exec.{Exec, return, fail, lift, gets, modify, ◌>>=◌, ◌>>◌}
use desktop_wallet.Recipients.{Text, is_whitespace}
use desktop_wallet.Database.{bytes_eq}
use desktop_wallet.Profiles.{
  ProfileRecord, ProfileError, Profiles, new_record, check_can_create, create, rename, set_name,
}

pub record MnemonicRecord : Type 0 where
  pub index : ℕ
  pub phrase : Text

-- the errors of `MnemonicError` that these calls have, over those of the crate for phrases
pub data KeyringError (E : Type 0) : Type 0 where
  word_count : KeyringError E
  phrase_error : E → KeyringError E
  too_many : KeyringError E
  unresolved : ℕ → KeyringError E
  duplicate_phrase : ℕ → KeyringError E
  database : KeyringError E

-- the errors of `InstanceError` that these calls have
pub data ProfileCallError (E : Type 0) : Type 0 where
  mnemonic : KeyringError E → ProfileCallError E
  profile : ProfileError → ProfileCallError E

-- the database: the record of the mnemonics, and those of the profiles, with the faults of both
pub record Wallet : Type 0 where
  pub mnemonics_record : Option (List MnemonicRecord)
  pub profiles_records : Profiles

-- `split_whitespace` and `join(" ")`, after a word or not, and after white space or not
unfoldable pub cleaned : Bool → Bool → Text → Text
cleaned started gap [] = []
cleaned started gap (c ∷ cs) =
    let blank = is_whitespace c in
    let rest = cleaned (started || not blank) blank cs in
    if blank then rest else if started && gap then 32 ∷ c ∷ rest else c ∷ rest

-- the crate `bip39`, with the words of its language
pub record Bip39 (Words E : Type 0) : Type 0 where
  pub parse_in_normalized : Text → Result E Words
  pub count : Words → ℕ
  pub to_text : Words → Text

abbrev pub has_phrase : Text → MnemonicRecord → Bool
has_phrase normalized r = bytes_eq r.phrase normalized

module _ {E A : Type 0} where
  unfoldable pub placed :
      Wallet → Result ProfileError A × Profiles → Result (ProfileCallError E) A × Wallet
  placed w (ok a, p) = (ok a, record w { profiles_records = p })
  placed w (err e, p) = (err (profile e), record w { profiles_records = p })

  unfoldable pub wrapped :
      Result (KeyringError E) A × Wallet → Result (ProfileCallError E) A × Wallet
  wrapped (ok a, w) = (ok a, w)
  wrapped (err e, w) = (err (mnemonic e), w)

  -- a call of the keyring
  unfoldable pub on_keyring : Exec Wallet (KeyringError E) A → Exec Wallet (ProfileCallError E) A
  on_keyring m w = wrapped (m w)

  -- a call of the index of profiles
  unfoldable pub on_profiles : Exec Profiles ProfileError A → Exec Wallet (ProfileCallError E) A
  on_profiles m w = placed w (m w.profiles_records)

module _ {E : Type 0} where
  unfoldable pub attempt_with : Wallet → List Bool → Result (KeyringError E) Unit × Wallet
  attempt_with w [] =
      (ok tt, record w { profiles_records = record w.profiles_records { faults = [] } })
  attempt_with w (true ∷ rest) =
      (err database, record w { profiles_records = record w.profiles_records { faults = rest } })
  attempt_with w (false ∷ rest) =
      (ok tt, record w { profiles_records = record w.profiles_records { faults = rest } })

  unfoldable pub attempt : Exec Wallet (KeyringError E) Unit
  attempt w = attempt_with w w.profiles_records.faults

  unfoldable pub mnemonics : Exec Wallet (KeyringError E) (List MnemonicRecord)
  mnemonics = attempt >> gets (λ w. unwrap_or w.mnemonics_record [])

  unfoldable pub put_mnemonics : List MnemonicRecord → Exec Wallet (KeyringError E) Unit
  put_mnemonics records = attempt >> modify (λ w. record w { mnemonics_record = some records })

  -- `Keyring::mnemonic`
  unfoldable pub find_mnemonic : ℕ → Exec Wallet (KeyringError E) MnemonicRecord
  find_mnemonic index = mnemonics >>= λ records.
      lift (ok_or (unresolved index) (find (λ r. r.index == index) records))

  -- the number of records, in 32 bits
  unfoldable pub count_of : List MnemonicRecord → Result (KeyringError E) ℕ
  count_of records = if ltb (length records) u32_mod then ok (length records) else err too_many

  unfoldable pub next_index : Exec Wallet (KeyringError E) ℕ
  next_index = mnemonics >>= λ records. lift (count_of records)

  -- `add_mnemonic`, with the record found of the phrase
  unfoldable pub add_new :
      Text
      → List MnemonicRecord
      → Option MnemonicRecord
      → Exec Wallet (KeyringError E) MnemonicRecord
  add_new normalized records (some existing) = fail (duplicate_phrase existing.index)
  add_new normalized records none = do
    index ← lift (count_of records)
    let made : MnemonicRecord = record { index = index; phrase = normalized }
    put_mnemonics (records ++ made ∷ [])
    return made

  unfoldable pub add_phrase : Text → Exec Wallet (KeyringError E) MnemonicRecord
  add_phrase normalized =
      mnemonics >>= λ records. add_new normalized records (find (has_phrase normalized) records)

module _ {Words E : Type 0} where
  unfoldable pub generated : Result E Words → Result (KeyringError E) Words
  generated (err e) = err (phrase_error e)
  generated (ok words) = ok words

  -- `Mnemonic::generate`, with what the crate's `generate_in` draws of so many words
  unfoldable pub generate : (ℕ → Result E Words) → Bool → Result (KeyringError E) Words
  generate generate_in long_phrase = generated (generate_in (if long_phrase then 24 else 12))

module _ {Words E : Type 0} (library : Bip39 Words E) where
  unfoldable pub checked : Words → Result (KeyringError E) Words
  checked words =
      if not (library.count words == 12) && not (library.count words == 24)
      then err word_count
      else ok words

  unfoldable pub parsed : Result E Words → Result (KeyringError E) Words
  parsed (err e) = err (phrase_error e)
  parsed (ok words) = checked words

  -- `Mnemonic::parse`
  unfoldable pub parse : Text → Result (KeyringError E) Words
  parse phrase = parsed (library.parse_in_normalized (cleaned false false phrase))

  unfoldable pub add_mnemonic : Text → Exec Wallet (KeyringError E) MnemonicRecord
  add_mnemonic phrase = do words ← lift (parse phrase); add_phrase (library.to_text words)

  unfoldable pub import_profile :
      Text → ℕ → Option String → Exec Wallet (ProfileCallError E) (MnemonicRecord × ProfileRecord)
  import_profile phrase profile_index name = do
    next ← on_keyring next_index
    let candidate = new_record next profile_index name
    on_profiles (check_can_create candidate)
    stored ← on_keyring (add_mnemonic phrase)
    made ← on_profiles (create stored.index (some profile_index) candidate.name)
    return (stored, made)

  unfoldable pub generate_profile :
      (ℕ → Result E Words)
      → Bool
      → ℕ
      → Option String
      → Exec Wallet (ProfileCallError E) (MnemonicRecord × ProfileRecord)
  generate_profile generate_in long_phrase profile_index name = do
    words ← on_keyring (lift (generate generate_in long_phrase))
    import_profile (library.to_text words) profile_index name

  -- `Instance::mnemonic`
  unfoldable pub mnemonic_of : ProfileRecord → Exec Wallet (ProfileCallError E) Words
  mnemonic_of r = do
    stored ← on_keyring (find_mnemonic r.mnemonic_index)
    on_keyring (lift (parse stored.phrase))

module _ {E : Type 0} where
  unfoldable pub add_profile :
      ℕ → Option ℕ → Option String → Exec Wallet (ProfileCallError E) ProfileRecord
  add_profile mnemonic_index profile_index name = do
    on_keyring (find_mnemonic mnemonic_index)
    on_profiles (create mnemonic_index profile_index name)

  unfoldable pub rename_profile :
      String → Option String → Exec Wallet (ProfileCallError E) ProfileRecord
  rename_profile selector name = on_profiles (rename selector name)

  unfoldable pub set_profile_name :
      ℕ → ℕ → Option String → Exec Wallet (ProfileCallError E) ProfileRecord
  set_profile_name mnemonic_index profile_index name =
      on_profiles (set_name mnemonic_index profile_index name)

  unfoldable pub recovery_phrase : ProfileRecord → Exec Wallet (ProfileCallError E) Text
  recovery_phrase r = do stored ← on_keyring (find_mnemonic r.mnemonic_index); return stored.phrase
