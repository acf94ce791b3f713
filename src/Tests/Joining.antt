-- ===== src/Tests/Joining.antt =====
-- The theorem on the vaults of addresses that a scan has found, at a concrete input.
use desktop_wallet.Common.{ℕ, ◌+◌, ◌≡◌, refl, ◌||◌, none, some, [], ◌∷◌, ◌==◌, if◌then◌else◌, arith}
use desktop_wallet.Common.Outcome.{ok}
use desktop_wallet.Exec.{◌>>=◌}
use desktop_wallet.Exec.Runs.{Post}
use desktop_wallet.Assets.{contains}
use desktop_wallet.Fresh.{EoaScan}
use desktop_wallet.AddressVaults.{
  ProfileStore, address_vault_tag, is_address_vault, stored_address_accounts,
  add_missing_address_vaults,
}
use desktop_wallet.AddressVaults.Indices.{stored, indices}
use desktop_wallet.AddressVaults.Sorting.{keys, Ascending}
use desktop_wallet.AddressVaults.Adding.{Safe, Joined}
use desktop_wallet.AddressVaults.Missing.{wanted, add_missing-accounts}

-- one vault, for the address 7 of index 1
abbrev store : ProfileStore
store = record {
  vaults_record = some (record { tag = address_vault_tag; id = 20 } ∷ []);
  derived_record = λ k. if k == 20 then some (record { address = 7; index = 1 }) else none;
  drawn = 1;
  faults = [];
}

abbrev scan : EoaScan ℕ
scan = record { addresses = (0, 6) ∷ (1, 7) ∷ (2, 8) ∷ []; last_used = some 2; next_unused = 3 }

abbrev uuid : ℕ → ℕ
uuid n = n + 20

add_missing-accounts_example :
    Post
      (λ accounts after.
        Ascending (keys accounts)
        × ((i : ℕ)
            → contains (keys accounts) i
              ≡ (contains (stored store) i || contains (wanted scan.addresses) i))
        × Joined uuid (stored store) (wanted scan.addresses) after)
      (Safe uuid (stored store))
      ((add_missing_address_vaults uuid (ok 6) scan >>= λ _. stored_address_accounts) store)
unfolding contains is_address_vault indices
add_missing-accounts_example =
    add_missing-accounts uuid (ok 6) scan store (λ i j e. omega (arith, e))
      (refl, (refl, (refl, tt))) (((λ e. refl), (0, omega arith, refl)), tt) (refl, tt)
