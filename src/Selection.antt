-- ===== src/Selection.antt =====
-- crates/core/src/vault/tornadocash/amount.rs: which notes a withdrawal spends. `select_notes` is a
-- branch-and-bound search over the groups of equal denominations. The proofs are below.
pub mod Facts
pub mod Exact
pub mod Sound
pub mod Theorems
pub mod Cover
use desktop_wallet.Common.{
  ℕ, zero, suc, ◌+◌, ◌-◌, ◌/◌, ◌%◌, ◌≤◌, ◌<◌, min, Bool, true, false, not, ◌&&◌, ◌||◌, Option, none,
  some, List, [], ◌∷◌, ◌++◌, ltb, leb, ◌==◌, if◌then◌else◌, is_some, length, take, drop, keep,
}
use desktop_wallet.Common.Outcome.{Result, ok, err, ◌>>=◌, ok_or}
use desktop_wallet.Common.U256.{◌+ᵤ◌, ◌*ᵤ◌, saturating_sub, div_ceil, u64_from}
use desktop_wallet.Pools.{
  Kohaku, TornadoNote, AmountError, zero_amount, cannot_make, cannot_cover, sponsor,
}
use desktop_wallet.Common.Sort.{sort_desc}

-- `for count in (0..=max).rev()`, over the one variable that the body changes
unfoldable pub try_counts {ℓ} : {B : Type ℓ} → (ℕ → B → B) → ℕ → B → B
try_counts body zero best = body 0 best
try_counts body (suc n) best = try_counts body n (body (suc n) best)

module _ (k : Kohaku) where
  open k use {Pool, Asset, asset_eq, eth, native_symbol, chain_id, asset, amount_wei, paymaster}

  abbrev pub Note : Type 0
  Note = TornadoNote Pool

  abbrev pub denom : Note → ℕ
  denom note = amount_wei note.pool

  -- a sum of wrapping additions
  unfoldable pub note_sum : List Note → ℕ
  note_sum [] = 0
  note_sum (note ∷ notes) = denom note +ᵤ note_sum notes

  -- `take_while(|note| note.pool.amount_wei == denom).count()`
  unfoldable pub group_size : ℕ → List Note → ℕ
  group_size d [] = 0
  group_size d (note ∷ notes) = if denom note == d then suc (group_size d notes) else 0

  -- whether a complete choice replaces the best one so far
  unfoldable pub better : Bool → List Note → Option (List Note) → Bool
  better cover chosen none = true
  better true chosen (some prior) =
      ltb (note_sum chosen) (note_sum prior)
      || (note_sum chosen == note_sum prior && ltb (length chosen) (length prior))
  better false chosen (some prior) = ltb (length chosen) (length prior)

  unfoldable pub leaf : Bool → List Note → Option (List Note) → Option (List Note)
  leaf cover chosen best = if better cover chosen best then some chosen else best

  -- the early returns that compare with the best choice so far
  unfoldable pub hopeless : Bool → ℕ → ℕ → List Note → Option (List Note) → Bool
  hopeless cover remaining unit chosen none = false
  hopeless true remaining unit chosen (some prior) = leb (note_sum prior) (note_sum chosen)
  hopeless false remaining unit chosen (some prior) =
      leb (length prior) (length chosen)
      || ltb (length prior - length chosen) (div_ceil remaining unit)

  -- the largest number of notes of one group to try
  unfoldable pub most : Bool → ℕ → ℕ → ℕ → ℕ
  most cover remaining unit size =
      min (u64_from (remaining / unit +ᵤ (if cover && not (remaining % unit == 0) then 1 else 0)))
        size

  -- `notes` is `notes[start..]`; the fuel is the number of notes
  unfoldable pub select_notes :
      ℕ → List Note → ℕ → Bool → List Note → Option (List Note) → Option (List Note)
  select_notes zero notes remaining cover chosen best =
      if remaining == 0 then leaf cover chosen best else best
  select_notes (suc fuel) [] remaining cover chosen best =
      if remaining == 0 then leaf cover chosen best else best
  select_notes (suc fuel) (first ∷ rest) remaining cover chosen best =
      let unit = denom first in
      let notes = first ∷ rest in
      let size = group_size unit notes in
      let body = λ (count : ℕ) (b : Option (List Note)).
        select_notes fuel (drop size notes) (saturating_sub remaining (unit *ᵤ count)) cover
          (chosen ++ take count notes) b in
      if remaining == 0
      then leaf cover chosen best
      else if hopeless cover remaining unit chosen best || ltb (note_sum notes) remaining
      then best
      else try_counts body (most cover remaining unit size) best

  -- mined, and not spent
  abbrev pub spendable : Note → Bool
  spendable note = is_some note.leaf_index && not note.spent

  abbrev pub holds : Asset → Note → Bool
  holds a note = spendable note && asset_eq (asset note.pool) a

  -- the search over the notes that pass `test`, largest first
  unfoldable pub search_notes : (Note → Bool) → Bool → ℕ → List Note → Option (List Note)
  unfolding select_notes
  search_notes test cover amount notes =
      let available = sort_desc denom (keep test notes) in
      select_notes (length available) available amount cover [] none

  unfoldable pub exact_notes_for_asset : ℕ → List Note → Asset → Result AmountError (List Note)
  exact_notes_for_asset amount notes a =
      if amount == 0
      then err zero_amount
      else ok_or (cannot_make amount) (search_notes (holds a) false amount notes)

  pub exact_notes : ℕ → List Note → Result AmountError (List Note)
  exact_notes amount notes = exact_notes_for_asset amount notes eth
