-- ===== src/Amount.antt =====
-- crates/core/src/vault/tornadocash/amount.rs: which pools a deposit goes to, and which notes a
-- withdrawal spends. The proofs are in the modules below.
pub mod Split
pub mod Greedy
use desktop_wallet.Common.{
  ℕ, zero, suc, ◌+◌, ◌-◌, ◌/◌, ◌%◌, ◌≤◌, ◌<◌, min, Bool, true, false, not, ◌&&◌, ◌||◌, Option, none,
  some, List, [], ◌∷◌, ◌++◌, ltb, leb, ◌==◌, if◌then◌else◌, is_some, length, take, drop, replicate,
  keep, find,
}
use desktop_wallet.Common.Sort.{sort_desc}
use desktop_wallet.Common.Outcome.{Result, ok, err, ◌>>=◌, ok_or}
use desktop_wallet.Common.U256.{
  ◌+ᵤ◌, ◌*ᵤ◌, wrapping_sub, saturating_sub, div_ceil, u64_from, u256_mod,
}
use desktop_wallet.Pools.{
  Kohaku, TornadoNote, PoolSelection, include_extended, AmountError, zero_amount, no_native_pools,
  not_a_denomination_sum, too_many_notes, unsupported_denomination, cannot_make, cannot_cover,
  sponsor, includes,
}

module _ (k : Kohaku) where
  open k use {Pool, Asset, asset_eq, eth, chain_id, asset, amount_wei, paymaster, pools}

  abbrev pub Note : Type 0
  Note = TornadoNote Pool

  abbrev pub denom : Note → ℕ
  denom note = amount_wei note.pool

  -- `asset_pools`
  unfoldable pub asset_pools : ℕ → Asset → PoolSelection → List Pool
  asset_pools chain a selection = sort_desc amount_wei (
      keep (λ pool. chain_id pool == chain && asset_eq (asset pool) a && includes k selection pool)
        pools)

  -- the loop of `deposit_pools_for_asset_with_selection`: what remains, and the pools chosen
  unfoldable pub split_loop : List Pool → ℕ → List Pool → ℕ → Result AmountError (ℕ × List Pool)
  split_loop [] remaining chosen count = ok (remaining, chosen)
  split_loop (pool ∷ rest) remaining chosen count =
      let pieces = remaining / amount_wei pool in
      let count' = count +ᵤ pieces in
      let next =
        split_loop rest (wrapping_sub remaining (amount_wei pool *ᵤ pieces))
          (chosen ++ replicate (u64_from pieces) pool) count' in
      if ltb 5 count' then err (too_many_notes count') else next

  unfoldable pub finish_split : ℕ → ℕ → ℕ × List Pool → Result AmountError (List Pool)
  finish_split amount chain (remaining, chosen) =
      if remaining == 0 then ok chosen else err (not_a_denomination_sum amount chain)

  unfoldable pub split_over : ℕ → ℕ → List Pool → Result AmountError (List Pool)
  unfolding finish_split
  split_over amount chain [] = err (no_native_pools chain)
  split_over amount chain (pool ∷ rest) =
      split_loop (pool ∷ rest) amount [] 0 >>= finish_split amount chain

  unfoldable pub deposit_pools_for_asset_with_selection :
      ℕ → ℕ → Asset → PoolSelection → Result AmountError (List Pool)
  unfolding split_over
  deposit_pools_for_asset_with_selection amount chain a selection =
      if amount == 0
      then err zero_amount
      else split_over amount chain (asset_pools chain a selection)

  -- the `map(..).collect()` of `deposit_pools_for_asset_denominations`
  pub pools_of : ℕ → List Pool → List ℕ → Result AmountError (List Pool)
  pools_of chain found [] = ok []
  pools_of chain found (amount ∷ rest) = do
    pool ←
        ok_or (unsupported_denomination amount chain)
          (find (λ pool. amount_wei pool == amount) found)
    others ← pools_of chain found rest
    ok (pool ∷ others)

  pub deposit_pools_for_asset_denominations :
      List ℕ → ℕ → Asset → PoolSelection → Result AmountError (List Pool)
  unfolding pools_of
  deposit_pools_for_asset_denominations [] chain a selection = err zero_amount
  deposit_pools_for_asset_denominations (d ∷ ds) chain a selection =
      if ltb 5 (length (d ∷ ds))
      then err (too_many_notes (length (d ∷ ds)))
      else pools_of chain (asset_pools chain a selection) (d ∷ ds)

  -- the wrappers that fix the selection, the asset or both
  pub deposit_pools_with_selection : ℕ → ℕ → PoolSelection → Result AmountError (List Pool)
  deposit_pools_with_selection amount chain selection =
      deposit_pools_for_asset_with_selection amount chain eth selection

  pub deposit_pools : ℕ → ℕ → Result AmountError (List Pool)
  unfolding deposit_pools_with_selection
  deposit_pools amount chain = deposit_pools_with_selection amount chain include_extended

  pub deposit_pools_for_asset : ℕ → ℕ → Asset → Result AmountError (List Pool)
  deposit_pools_for_asset amount chain a =
      deposit_pools_for_asset_with_selection amount chain a include_extended

  pub deposit_pools_for_denominations : List ℕ → ℕ → PoolSelection → Result AmountError (List Pool)
  deposit_pools_for_denominations denominations chain selection =
      deposit_pools_for_asset_denominations denominations chain eth selection
