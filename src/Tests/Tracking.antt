-- ===== src/Tests/Tracking.antt =====
-- The theorems on the tracked assets, at concrete inputs.
use desktop_wallet.Common.{
  ℕ, ◌≡◌, ◌≢◌, ◌⊎◌, refl, Bool, false, not, ◌&&◌, ◌||◌, none, some, List, [], ◌∷◌, ◌==◌,
}
use desktop_wallet.Common.Outcome.{ok, err}
use desktop_wallet.Exec.Runs.{Post}
use desktop_wallet.Assets.{
  Endpoint, AssetStore, Erc20Asset, database, contains, opt_in, opt_out, profile_erc20s,
}
use desktop_wallet.Assets.Members.{addresses, Distinct}
use desktop_wallet.Assets.Choices.{Sound, tracked, opt_in-tracks}
use desktop_wallet.Assets.Leaving.{opt_out-tracks}
use desktop_wallet.Assets.Reading.{into, out_of, after_choices, choices-readable, Choice}

-- a token of 6 decimals at every address
abbrev endpoint : Endpoint
endpoint = record {
  eth_call = λ sender to bytes. some bytes;
  decimals_call = 6 ∷ [];
  symbol_call = [];
  balance_of_call = λ owner. [];
  transfer_call_data = λ to amount. [];
  decode_decimals = λ bytes. some 6;
  decode_symbol = λ bytes. some "T";
  decode_balance = λ bytes. none;
  decode_transfer = λ bytes. none;
}

abbrev store : AssetStore
store = record {
  erc20s_record = some (record { address = 7; symbol = "S"; decimals = 18 } ∷ []);
  in_record = some (7 ∷ []);
  out_record = none;
  faults = false ∷ [];
}

store-Sound : Sound store
unfolding contains
store-Sound = ((refl, tt), tt, (refl, tt))

opt_in-tracks_example :
    Post
      (λ asset after.
        Sound after
        × (asset.address ≡ 9)
        × ((b : ℕ) → tracked 1 after b ≡ (9 == b || tracked 1 store b)))
      (λ after. Sound after × ((b : ℕ) → 9 ≢ b → tracked 1 after b ≡ tracked 1 store b))
      (opt_in endpoint 1 9 store)
opt_in-tracks_example = opt_in-tracks endpoint 1 9 store store-Sound

opt_out-tracks_example :
    Post
      (λ asset after.
        Sound after
        × (asset.address ≡ 7)
        × ((b : ℕ) → tracked 1 after b ≡ (not (7 == b) && tracked 1 store b)))
      (λ after. Sound after × ((b : ℕ) → 7 ≢ b → tracked 1 after b ≡ tracked 1 store b))
      (opt_out 1 7 store)
opt_out-tracks_example = opt_out-tracks 1 7 store store-Sound

abbrev choices : List Choice
choices = into endpoint 9 ∷ out_of 7 ∷ out_of 3 ∷ []

choices-readable_example :
    ((after : AssetStore) × (profile_erc20s 1 (after_choices 1 choices store)
        ≡ (err database, after)))
    ⊎ ((assets : List Erc20Asset) × (rest : List Bool) × (profile_erc20s 1
            (after_choices 1 choices store)
          ≡ (ok assets, record (after_choices 1 choices store) { faults = rest }))
        × Distinct (addresses assets)
        × ((b : ℕ) → contains (addresses assets) b ≡ tracked 1 (after_choices 1 choices store) b))
choices-readable_example = choices-readable 1 choices store store-Sound
