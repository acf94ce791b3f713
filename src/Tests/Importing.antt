-- ===== src/Tests/Importing.antt =====
-- The theorem on the keyring and the profiles on it, applied to a wallet of one phrase.
use desktop_wallet.Common.{◌≡◌, true, false, none, some, List, [], ◌∷◌, ◌++◌, All, arith, refl}
use desktop_wallet.Common.Outcome.{ok}
use desktop_wallet.Profiles.Unique.{Unique}
use desktop_wallet.Recipients.{Text}
use desktop_wallet.Keyring.{MnemonicRecord, Wallet, Bip39, cleaned, import_profile}
use desktop_wallet.Keyring.Failing.{Imported, import_profile-Imported}
use desktop_wallet.Keyring.Stored.{stored_mnemonics, Different}
use desktop_wallet.Keyring.Calls.{
  ProfileCall, imported, phrase_generated, profile_added, profile_renamed, profile_named,
  after_calls, Recoverable, listed_profiles, without_faults, after_calls-Recoverable,
}

-- a phrase stands for its words, of which each has twelve
abbrev words : Bip39 Text Unit
words = record { parse_in_normalized = λ text. ok text; count = λ text. 12; to_text = λ text. text }

abbrev wallet : Wallet
wallet = record {
  mnemonics_record = some (record { index = 0; phrase = 97 ∷ 98 ∷ [] } ∷ []);
  profiles_records = record {
    index = some (record { mnemonic_index = 0; profile_index = 0; name = some "work" } ∷ []);
    pointer = λ s. none;
    faults = false ∷ false ∷ false ∷ false ∷ false ∷ true ∷ [];
  };
}

abbrev some_calls : List (ProfileCall Text Unit)
some_calls =
    imported (32 ∷ 99 ∷ 32 ∷ 32 ∷ 100 ∷ []) 3 (some "new")
    ∷ phrase_generated (λ n. ok (101 ∷ [])) true 0 none
    ∷ profile_added 0 none (some "cold")
    ∷ profile_renamed "work" none
    ∷ profile_named 0 1 (some "warm")
    ∷ []

cleaned-spaces : cleaned false false (32 ∷ 99 ∷ 32 ∷ 10 ∷ 100 ∷ 32 ∷ []) ≡ 99 ∷ 32 ∷ 100 ∷ []
unfolding cleaned
cleaned-spaces = refl

after_calls-Recoverable_example :
    All
      (Recoverable Unit (after_calls words some_calls wallet))
      (listed_profiles (after_calls words some_calls wallet))
    × Different (stored_mnemonics (after_calls words some_calls wallet))
    × ((more : List MnemonicRecord) × (stored_mnemonics (after_calls words some_calls wallet)
          ≡ stored_mnemonics wallet ++ more))
    × Unique (after_calls words some_calls wallet).profiles_records
after_calls-Recoverable_example =
    after_calls-Recoverable words some_calls wallet
      ((refl, tt), (tt, tt), ((tt, tt), (omega arith, tt)))

-- the name is taken
import_profile-Imported_example :
    Imported 3
      (without_faults wallet)
      (import_profile words (99 ∷ []) 3 (some "work") (without_faults wallet))
import_profile-Imported_example =
    import_profile-Imported words (99 ∷ []) 3 (some "work") wallet
      ((refl, tt), (tt, tt), ((tt, tt), (omega arith, tt)))
