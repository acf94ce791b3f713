-- ===== src/Vault/Plans.antt =====
-- crates/core/src/vault/tornadocash/mod.rs: the plans of deposits on the vault's chain, and the calls
-- that recover with default arguments.
use desktop_wallet.Common.{ℕ, none, List}
use desktop_wallet.Common.Outcome.{Result, ok, err}
use desktop_wallet.Exec.{lift, ◌>>=◌}
use desktop_wallet.Pools.{Kohaku, PoolSelection, AmountError}
use desktop_wallet.Store.{VaultError, amount, Op}
use desktop_wallet.Amount.{
  deposit_pools_with_selection, deposit_pools_for_asset_with_selection,
  deposit_pools_for_denominations, deposit_pools_for_asset_denominations,
}
use desktop_wallet.Vault.{Services, network_id, recover_with_gap, recover_chain}

-- `From<AmountError> for TornadoVaultError`
pub from_amount : {A : Type 0} → Result AmountError A → Result VaultError A
from_amount (ok a) = ok a
from_amount (err e) = err (amount e)

module _ (k : Kohaku) (v : Services k.Pool) (selection : PoolSelection) where
  open k use {Pool, Asset}

  pub plan_deposit : ℕ → Op Pool (List Pool)
  unfolding from_amount
  plan_deposit wei = do
    chain ← network_id k v selection
    lift (from_amount (deposit_pools_with_selection k wei chain selection))

  pub plan_asset_deposit : ℕ → Asset → Op Pool (List Pool)
  unfolding from_amount
  plan_asset_deposit base_units a = do
    chain ← network_id k v selection
    lift (from_amount (deposit_pools_for_asset_with_selection k base_units chain a selection))

  pub plan_denominations : List ℕ → Op Pool (List Pool)
  unfolding from_amount
  plan_denominations denominations = do
    chain ← network_id k v selection
    lift (from_amount (deposit_pools_for_denominations k denominations chain selection))

  pub plan_asset_denominations : List ℕ → Asset → Op Pool (List Pool)
  unfolding from_amount
  plan_asset_denominations denominations a = do
    chain ← network_id k v selection
    lift (from_amount (deposit_pools_for_asset_denominations k denominations chain a selection))

  -- `recover`
  pub recover_pools : List Pool → Op Pool Unit
  recover_pools pools = recover_with_gap k v selection pools none

  -- `recover_chain`
  pub recover_own_chain : Op Pool ℕ
  recover_own_chain = recover_chain k v selection none
