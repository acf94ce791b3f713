-- ===== src/Balances.antt =====
-- crates/core/src/balance.rs, the balances of crates/core/src/vault/mod.rs, and the balance of the
-- private vault in crates/core/src/vault/tornadocash/mod.rs.
pub mod Sums
use Prim.Native.String.{String}
use desktop_wallet.Common.{
  ℕ, zero, suc, Bool, true, false, not, ◌&&◌, Option, none, some, List, [], ◌∷◌, ◌==◌,
  if◌then◌else◌, is_some, any, keep, map, replicate,
}
use desktop_wallet.Common.Outcome.{Result, ok, err}
use desktop_wallet.Common.Sort.{sort_desc}
use desktop_wallet.Common.U256.{saturating_add}
use desktop_wallet.Exec.{return, fail, ◌>>=◌, ◌>>◌}
use desktop_wallet.Pools.{Kohaku, TornadoNote, PoolSelection}
use desktop_wallet.Store.{Op, unsupported_asset, tracked_pools, is_empty}
use desktop_wallet.Vault.{Services, operation_lock, network_id, sync_unlocked, pool_notes}

pub data Visibility : Type 0 where
  public private : Visibility

pub record Balance : Type 0 where
  pub spendable : ℕ
  pub pending : ℕ

abbrev pub no_balance : Balance
no_balance = record { spendable = 0; pending = 0 }

-- `Balance::saturating_add`
pub add_balance : Balance → Balance → Balance
add_balance a b = record {
  spendable = saturating_add a.spendable b.spendable;
  pending = saturating_add a.pending b.pending;
}

pub record AssetTotals : Type 0 where
  pub public_side : Balance
  pub private_side : Balance

-- `AssetTotals::total`
pub total_balance : AssetTotals → Balance
unfolding add_balance
total_balance t = add_balance t.public_side t.private_side

-- a vault's visibility and balances, of the fields of `VaultBalances` that `totals` reads
pub record VaultBalances (E : Type 0) : Type 0 where
  pub visibility : Visibility
  pub balances : Result E (List Balance)

pub add_side : Visibility → Balance → AssetTotals → AssetTotals
unfolding add_balance
add_side public b t = record t { public_side = add_balance t.public_side b }
add_side private b t = record t { private_side = add_balance t.private_side b }

-- `totals.iter_mut().zip(balances)`: what has no partner stays as it is
pub add_vault : Visibility → List AssetTotals → List Balance → List AssetTotals
unfolding add_side
add_vault v [] bs = []
add_vault v (t ∷ ts) [] = t ∷ ts
add_vault v (t ∷ ts) (b ∷ bs) = add_side v b t ∷ add_vault v ts bs

module _ {E : Type 0} where
  -- one vault: its error is passed over
  pub add_read : VaultBalances E → List AssetTotals → List AssetTotals
  unfolding add_vault
  add_read vault ts = elim vault.balances [
    | err e ↦ ts
    | ok balances ↦ add_vault vault.visibility ts balances
  ]

  pub totals_from : List (VaultBalances E) → List AssetTotals → List AssetTotals
  unfolding add_read
  totals_from [] ts = ts
  totals_from (vault ∷ vaults) ts = totals_from vaults (add_read vault ts)

  -- `totals`
  pub totals : List (VaultBalances E) → ℕ → List AssetTotals
  unfolding totals_from
  totals vaults asset_count =
      totals_from vaults
        (replicate asset_count (record { public_side = no_balance; private_side = no_balance }))

pub data AssetId : Type 0 where
  native : AssetId
  erc20 : ℕ → AssetId

-- `UnspentNote`
pub record UnspentNote : Type 0 where
  pub asset : AssetId
  pub symbol : String
  pub decimals : ℕ
  pub token : Option ℕ
  pub amount_wei : ℕ
  pub pending : Bool
  pub pool_id : String

-- `token_address`, and the asset of a token
abbrev pub asset_id : Option ℕ → AssetId
asset_id none = native
asset_id (some address) = erc20 address

module _ (k : Kohaku) where
  open k use {
    Pool, Asset, native_symbol, token, chain_id, asset, amount_wei, pool_eq, id, pools as catalog,
  }

  -- `is_eq`
  pub is_asset : Pool → AssetId → Bool
  is_asset pool native = is_some (native_symbol (asset pool))
  is_asset pool (erc20 address) = elim (token (asset pool)) [ none ↦ false | some t ↦ t == address ]

  -- one note of `note_balance`
  pub add_note : TornadoNote Pool → Balance → Balance
  add_note note b =
      if note.spent
      then b
      else if is_some note.leaf_index
      then record b { spendable = saturating_add b.spendable (amount_wei note.pool) }
      else record b { pending = saturating_add b.pending (amount_wei note.pool) }

  pub balance_from : Balance → List (TornadoNote Pool) → Balance
  unfolding add_note
  balance_from b [] = b
  balance_from b (note ∷ notes) = balance_from (add_note note b) notes

  pub note_balance : List (TornadoNote Pool) → Balance
  unfolding balance_from
  note_balance notes = balance_from no_balance notes

  pub unspent_note : TornadoNote Pool → UnspentNote
  unspent_note note = record {
    asset = asset_id (token (asset note.pool));
    symbol = k.symbol note.pool;
    decimals = k.decimals (asset note.pool);
    token = token (asset note.pool);
    amount_wei = amount_wei note.pool;
    pending = not (is_some note.leaf_index);
    pool_id = id note.pool;
  }

  pub unspent_holdings : List (TornadoNote Pool) → List UnspentNote
  unfolding unspent_note
  unspent_holdings notes = map unspent_note (keep (λ note. not note.spent) notes)

  module _ (v : Services Pool) (selection : PoolSelection) where
    -- `TornadoVault::pools`
    pub asset_pools_on_chain : AssetId → Op Pool (List Pool)
    unfolding is_asset
    asset_pools_on_chain a = do
      chain ← network_id k v selection
      let found = keep (λ pool. chain_id pool == chain && is_asset pool a) catalog
      if is_empty found then fail unsupported_asset else return (sort_desc amount_wei found)

    -- `TornadoVault::tracked_pools`
    pub tracked_asset_pools : AssetId → Op Pool (List Pool)
    unfolding asset_pools_on_chain
    tracked_asset_pools a = do
      tracked ← tracked_pools
      found ← asset_pools_on_chain a
      return (keep (λ pool. any (pool_eq pool) tracked) found)

    -- `balance` of the private vault
    pub vault_balance : AssetId → Op Pool Balance
    unfolding tracked_asset_pools note_balance
    vault_balance a = do
      operation_lock k v selection
      found ← tracked_asset_pools a
      sync_unlocked k v selection found
      notes ← pool_notes k v selection found
      return (note_balance notes)
