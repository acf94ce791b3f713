-- ===== src/Tests.antt =====
-- A concrete library of pools, and the theorems applied to concrete inputs.
pub mod Records
pub mod Ranges
pub mod Books
pub mod Ciphers
pub mod Importing
pub mod Joining
pub mod Configuring
pub mod Writing
pub mod Delegating
pub mod Covering
pub mod Addressing
pub mod Sending
pub mod Quoting
pub mod Tracking
pub mod Scanning
pub mod Sealed
use Prim.Native.String.{String}
use mathlib.Core.List.{Perm}
use desktop_wallet.Common.{
  ℕ, zero, suc, ◌+◌, ◌-◌, ◌≤◌, ◌<◌, ◌^◌, ◌≡◌, ◌≢◌, ◌↔◌, refl, sym, ap, ◌∙◌, Bool, true, false,
  Option, none, some, List, [], ◌∷◌, ◌++◌, ltb, ◌==◌, if◌then◌else◌, min, All, arith, ==_iff,
  Bool-cases, inl, inr, total, length,
}
use desktop_wallet.Common.Outcome.{Result, ok, err, ok-injective}
use desktop_wallet.Common.Sort.{sort_desc, insert_desc}
use desktop_wallet.Common.Sub.{Sub, done, skip, pick}
use desktop_wallet.Common.U256.{u256_mod, u32_mod}
use desktop_wallet.Exec.Runs.{Runs}
use desktop_wallet.Pools.{Kohaku, TornadoNote, PoolSelection, classic, include_extended}
use desktop_wallet.Amount.{
  deposit_pools_for_asset_with_selection, asset_pools, split_loop, finish_split, split_over,
}
use desktop_wallet.Amount.Greedy.{
  deposit-greedy_iff, deposit_sound, greedy_rest, greedy_count, denominations, Matches,
}
use desktop_wallet.Selection.{
  Note, denom, holds, search_notes, try_counts, note_sum, group_size, better, leaf, hopeless, most,
  select_notes, exact_notes_for_asset,
}
use desktop_wallet.Selection.Theorems.{Holdings, Selects, exact_notes_sound, exact_notes-shortest}
use desktop_wallet.Withdrawal.{withdrawal_notes, swap_front, min_by_key, can_sponsor, add_sponsor}
use desktop_wallet.Withdrawal.Sponsor.{
  on_chain, LedByPaymaster, IsSponsor, withdrawal_notes-eth, withdrawal_notes-token,
}
use desktop_wallet.Profiles.{decimal, ProfileRecord, used_on, unused_index}
use desktop_wallet.Profiles.Holes.{has, unused_index-smallest}

-- Pool `p` holds `p + 1` wei of asset 0, ETH, or of asset 1 if it is pool 6.
abbrev pub asset_of : ℕ → ℕ
asset_of p = if p == 6 then 1 else 0

abbrev pub amount_of : ℕ → ℕ
amount_of p = min (p + 1) 100

pub amount_of-pos : (p : ℕ) → 0 < amount_of p
amount_of-pos p = omega arith

pub amount_of-u128 : (p : ℕ) → amount_of p < 2 ^ 128
amount_of-u128 p = omega arith

abbrev pub library : Kohaku
library = record {
  Asset = ℕ;
  asset_eq = ◌==◌;
  asset_eq_iff = ==_iff;
  eth = 0;
  native_symbol = λ a. if a == 0 then some "eth" else none;
  token = λ a. if a == 0 then none else some 7;
  decimals = λ a. 18;
  Pool = ℕ;
  pool_eq = ◌==◌;
  pool_eq_iff = ==_iff;
  id = decimal;
  symbol = λ p. if p == 6 then "TOK" else "ETH";
  chain_id = λ p. 1;
  asset = asset_of;
  amount_wei = amount_of;
  amount_wei_pos = amount_of-pos;
  amount_wei_u128 = amount_of-u128;
  canonical = λ p. true;
  paymaster = λ p. if p == 6 then none else some 99;
  deployed_block = λ p. 100;
  pools = 0 ∷ 4 ∷ 6 ∷ 9 ∷ [];
}

plan : deposit_pools_for_asset_with_selection library 16 1 0 classic ≡ ok (9 ∷ 4 ∷ 0 ∷ [])
unfolding deposit_pools_for_asset_with_selection asset_pools sort_desc insert_desc split_loop
    finish_split split_over
plan = refl

deposit_sound_example :
    (total amount_of (9 ∷ 4 ∷ 0 ∷ []) ≡ 16)
    × (0 < 3)
    × (3 ≤ 5)
    × All (Matches library 1 0 classic) (9 ∷ 4 ∷ 0 ∷ [])
deposit_sound_example = deposit_sound library 16 1 0 classic (omega arith) plan

abbrev plan_amount : ℕ
plan_amount = 16

deposit-greedy_iff_example :
    ((out : List ℕ) × (deposit_pools_for_asset_with_selection library 16 1 0 classic ≡ ok out)) ↔ (
      (plan_amount ≢ 0)
      × (asset_pools library 1 0 classic ≢ [])
      × (greedy_rest (denominations library (asset_pools library 1 0 classic)) 16 ≡ 0)
      × (greedy_count (denominations library (asset_pools library 1 0 classic)) 16 ≤ 5))
deposit-greedy_iff_example = deposit-greedy_iff library 16 1 0 classic (omega arith)

abbrev pub note : ℕ → ℕ → Note library
note pool nonce = record { pool = pool; nonce = nonce; leaf_index = some 3; spent = false }

abbrev pub held : List (Note library)
held = note 4 1 ∷ note 4 2 ∷ note 9 3 ∷ note 6 4 ∷ []

pub held-Holdings : Holdings library held
held-Holdings = record { worth = omega arith; counted = omega arith }

exact : exact_notes_for_asset library 10 held 0 ≡ ok (note 9 3 ∷ [])
unfolding exact_notes_for_asset search_notes sort_desc insert_desc try_counts note_sum group_size
    better leaf hopeless most select_notes
exact = refl

exact_notes_sound_example : Selects library (holds library 0) false 10 held (note 9 3 ∷ [])
exact_notes_sound_example = exact_notes_sound library 10 held 0 held-Holdings exact

-- the two notes of 5 wei, as a choice of some held notes
two : Sub (note 4 1 ∷ note 4 2 ∷ []) held
two = pick (pick (skip (skip done)))

exact_notes-shortest_example :
    (sel : List (Note library)) × (exact_notes_for_asset library 10 held 0 ≡ ok sel)
    × (length sel ≤ 2)
exact_notes-shortest_example =
    exact_notes-shortest library 10 held 0 held-Holdings (omega arith) two (refl, (refl, tt)) refl

eth_withdrawal : withdrawal_notes library 10 held 0 1 ≡ ok (note 9 3 ∷ [])
unfolding withdrawal_notes exact_notes_for_asset search_notes sort_desc insert_desc try_counts
    note_sum group_size better leaf hopeless most select_notes swap_front min_by_key can_sponsor
    add_sponsor
eth_withdrawal = refl

withdrawal_notes-eth_example :
    (sel : List (Note library)) × (exact_notes_for_asset library 10 (on_chain library 10 held 1) 0
      ≡ ok sel)
    × LedByPaymaster library 10 held 1 (note 9 3 ∷ []) sel
withdrawal_notes-eth_example = withdrawal_notes-eth library 10 held 1 eth_withdrawal

token_withdrawal : withdrawal_notes library 7 held 1 1 ≡ ok (note 4 1 ∷ note 6 4 ∷ [])
unfolding withdrawal_notes exact_notes_for_asset search_notes sort_desc insert_desc try_counts
    note_sum group_size better leaf hopeless most select_notes swap_front min_by_key can_sponsor
    add_sponsor
token_withdrawal = refl

withdrawal_notes-token_example :
    (sel : List (Note library)) × (exact_notes_for_asset library 7 (on_chain library 7 held 1) 1
      ≡ ok sel)
    × ((first : Note library) × (note 4 1 ∷ note 6 4 ∷ [] ≡ first ∷ sel)
        × IsSponsor library 7 held 1 first)
withdrawal_notes-token_example =
    withdrawal_notes-token library 7 held 1 1 (omega arith) token_withdrawal

abbrev profiles : List ProfileRecord
profiles =
    record { mnemonic_index = 0; profile_index = 3; name = some "cold" }
    ∷ record { mnemonic_index = 0; profile_index = 0; name = none }
    ∷ []

unused_index-smallest_example :
    ((j : ℕ) → j < unused_index 0 profiles → has j (used_on 0 profiles) ≡ true)
    × (unused_index 0 profiles < u32_mod - 1
        → has (unused_index 0 profiles) (used_on 0 profiles) ≡ false)
unused_index-smallest_example = unused_index-smallest 0 profiles
