-- ===== src/Withdrawal.antt =====
-- crates/core/src/vault/tornadocash/amount.rs: the notes of a withdrawal, its gas sponsor first,
-- and the notes that cover an amount.
pub mod Sponsor
pub mod Covers
use text.Mathlib.Text.{◌==◌ as str_eq}
use desktop_wallet.Common.{
  ℕ, zero, suc, Bool, true, false, not, ◌&&◌, Option, none, some, List, [], ◌∷◌, leb, ◌==◌,
  if◌then◌else◌, is_some, keep, position, set, get_elem?,
}
use desktop_wallet.Common.Outcome.{Result, ok, err, ◌>>=◌, ok_or}
use desktop_wallet.Pools.{Kohaku, AmountError, zero_amount, cannot_cover, sponsor}
use desktop_wallet.Selection.{Note, denom, spendable, search_notes, exact_notes_for_asset}

-- `selected.swap(0, index)`
unfoldable pub swap_front {ℓ} : {A : Type ℓ} → ℕ → List A → List A
swap_front index [] = []
swap_front zero (x ∷ xs) = x ∷ xs
swap_front (suc i) (x ∷ xs) = elim (get_elem? xs i) [ none ↦ x ∷ xs | some y ↦ y ∷ set xs i x ]

-- `min_by_key`: the first of the least
unfoldable pub min_by_key {ℓ} : {A : Type ℓ} → (A → ℕ) → List A → Option A
min_by_key key [] = none
min_by_key key (x ∷ xs) = elim (min_by_key key xs) [
  | none ↦ some x
  | some y ↦ if leb (key x) (key y) then some x else some y
]

module _ (k : Kohaku) where
  open k use {Pool, Asset, asset_eq, eth, native_symbol, chain_id, asset, paymaster}

  unfoldable pub is_native_eth : Pool → Bool
  is_native_eth pool = elim (native_symbol (asset pool)) [
    | none ↦ false
    | some symbol ↦ str_eq symbol "eth"
  ]

  -- the test of `eligible`
  unfoldable pub is_eligible : Note k → Bool
  unfolding is_native_eth
  is_eligible note = spendable k note && is_native_eth note.pool

  unfoldable pub cover_notes : ℕ → List (Note k) → Result AmountError (List (Note k))
  unfolding is_eligible
  cover_notes amount notes =
      if amount == 0
      then err zero_amount
      else ok_or (cannot_cover amount) (search_notes k is_eligible true amount notes)

  -- the test for a note that can pay the gas of an ERC-20 withdrawal
  unfoldable pub can_sponsor : Note k → Bool
  can_sponsor note =
      not note.spent
      && is_some note.leaf_index
      && asset_eq (asset note.pool) eth
      && is_some (paymaster note.pool)

  unfoldable pub add_sponsor :
      List (Note k) → Asset → List (Note k) → Result AmountError (List (Note k))
  unfolding can_sponsor swap_front min_by_key
  add_sponsor held a selected =
      if asset_eq a eth
      then (do
        index ←
            ok_or (sponsor "the selected ETH notes have no paymaster")
              (position (λ note. is_some (paymaster note.pool)) selected)
        ok (swap_front index selected))
      else (do
        first ←
            ok_or
              (sponsor
                "every ERC-20 withdrawal requires an additional mined shielded ETH note with a paymaster to sponsor gas")
              (min_by_key (denom k) (keep can_sponsor held))
        ok (first ∷ selected))

  unfoldable pub withdrawal_notes :
      ℕ → List (Note k) → Asset → ℕ → Result AmountError (List (Note k))
  unfolding add_sponsor
  withdrawal_notes amount notes a chain =
      let held = keep (λ note. chain_id note.pool == chain) notes in
      do selected ← exact_notes_for_asset k amount held a; add_sponsor held a selected
