-- ===== src/Amount/Greedy.antt =====
-- The loop of a deposit plan is the greedy change of the amount: the plan succeeds exactly when
-- greedy change leaves nothing over and takes at most five pieces.
use desktop_wallet.Common.{
  ℕ, ◌+◌, ◌/◌, ◌%◌, ◌≤◌, ◌<◌, ◌≡◌, sym, ◌∙◌, ◌≢◌, ◌↔◌, refl, ap, inl, inr, Bool-cases, ltb, ◌==◌,
  true, false, List, [], ◌∷◌, arith, length, total, All, All-keep_self, All-map,
}
use desktop_wallet.Common.Sort.{All-sort_desc}
use desktop_wallet.Common.Outcome.{ok}
use desktop_wallet.Common.U256.{
  ◌+ᵤ◌, ◌*ᵤ◌, wrapping_sub, u256_mod, wrapping_sub_exact, +ᵤ_exact, *ᵤ_exact,
}
use desktop_wallet.Pools.{Kohaku, PoolSelection, includes}
use desktop_wallet.Amount.{
  asset_pools, split_loop, split_over, deposit_pools_for_asset_with_selection,
}
use desktop_wallet.Amount.Split.{
  Splits, Splits-step, split_loop-Splits, split_loop-All, quotient_bounds,
}

-- what greedy change over these denominations leaves, and how many pieces it takes
abbrev pub greedy_rest : List ℕ → ℕ → ℕ
greedy_rest [] amount = amount
greedy_rest (d ∷ ds) amount = greedy_rest ds (amount % d)

abbrev pub greedy_count : List ℕ → ℕ → ℕ
greedy_count [] amount = 0
greedy_count (d ∷ ds) amount = amount / d + greedy_count ds (amount % d)

module _ (k : Kohaku) where
  open k use {
    Pool, Asset, asset_eq, asset_eq_iff, chain_id, asset, amount_wei, amount_wei_pos, pools,
  }

  abbrev pub denominations : List Pool → List ℕ
  denominations [] = []
  denominations (p ∷ ps) = amount_wei p ∷ denominations ps

  remainder_exact :
      (pool : Pool) (remaining : ℕ)
      → remaining < u256_mod
      → wrapping_sub remaining (amount_wei pool *ᵤ (remaining / amount_wei pool))
        ≡ remaining % amount_wei pool
  remainder_exact pool remaining h =
      let (fits, _, parts) = quotient_bounds (amount_wei pool) remaining (amount_wei_pos pool) in
      let product = *ᵤ_exact (amount_wei pool) (remaining / amount_wei pool) (omega arith) in
      rw product (wrapping_sub_exact remaining _ fits h ∙ omega arith)

  few_not_over :
      (count q : ℕ) → count + q ≤ 5 → (ltb 5 (count +ᵤ q) ≡ false) × (count +ᵤ q ≡ count + q)
  few_not_over count q h =
      let added = +ᵤ_exact count q (omega arith) in (rw added (ground arith), added)

  -- if the pieces stay few, the loop ends with the greedy remainder
  split_loop-greedy :
      (amount : ℕ) (on : List Pool) (remaining : ℕ) (chosen : List Pool) (count : ℕ)
      → Splits k amount remaining chosen count
      → count + greedy_count (denominations on) remaining ≤ 5
      → (out : List Pool) × (split_loop k on remaining chosen count
          ≡ ok (greedy_rest (denominations on) remaining, out))
  unfolding split_loop
  split_loop-greedy amount [] remaining chosen count s h = (chosen, refl)
  split_loop-greedy amount (pool ∷ rest) remaining chosen count s h =
      let q = remaining / amount_wei pool in
      let (fine, added) = few_not_over count q (omega arith) in
      let left = remainder_exact pool remaining (omega arith) in
      let ih =
        split_loop-greedy amount rest _ _ _
          (Splits-step k amount remaining count pool chosen s fine)
          (rw (left, added) (omega arith)) in
      rw fine (ih.0, ih.1 ∙ ap (λ r. ok (greedy_rest (denominations rest) r, ih.0)) left)

  -- and a loop that ends has taken few pieces, and left the greedy remainder
  split_loop-greedy_only :
      (amount : ℕ) (on : List Pool) (remaining : ℕ) (chosen : List Pool) (count : ℕ) {r : ℕ}
      {out : List Pool}
      → Splits k amount remaining chosen count
      → split_loop k on remaining chosen count ≡ ok (r, out)
      → (count + greedy_count (denominations on) remaining ≤ 5)
        × (r ≡ greedy_rest (denominations on) remaining)
  unfolding split_loop
  split_loop-greedy_only amount [] remaining chosen count s h = (omega arith, ground arith)
  split_loop-greedy_only amount (pool ∷ rest) remaining chosen count s h =
      elim (Bool-cases (ltb 5 (count +ᵤ (remaining / amount_wei pool)))) [
        | inl over ↦ absurd (ground arith)
        | inr fine ↦
            let s' = Splits-step k amount remaining count pool chosen s fine in
            let left = remainder_exact pool remaining (omega arith) in
            let added = +ᵤ_exact count (remaining / amount_wei pool) (no_overflow s) in
            let ih = split_loop-greedy_only amount rest _ _ _ s' (rw fine at h) in
            let ih' = rw (left, added) at ih in (omega (arith, ih'.0), ih'.1)
      ]
    where
      no_overflow :
          Splits k amount remaining chosen count → count + remaining / amount_wei pool < u256_mod
      no_overflow t =
          let (fits, small, _) =
            quotient_bounds (amount_wei pool) remaining (amount_wei_pos pool) in
          omega arith

  Splits-start : (amount : ℕ) → amount < u256_mod → Splits k amount amount [] 0
  Splits-start amount h = record {
    worth = omega arith;
    counted = refl;
    few = omega arith;
    bounded = omega arith;
  }

  split_over-inv :
      (amount chain : ℕ) (ps : List Pool) {out : List Pool}
      → split_over k amount chain ps ≡ ok out
      → (ps ≢ []) × (split_loop k ps amount [] 0 ≡ ok (0, out))
  unfolding split_over
  split_over-inv amount chain [] h = cc
  split_over-inv amount chain (p ∷ ps) h = (λ e. cc, ground arith)

  split_over-lem :
      (amount chain : ℕ) (ps : List Pool) {out : List Pool}
      → ps ≢ []
      → split_loop k ps amount [] 0 ≡ ok (0, out)
      → split_over k amount chain ps ≡ ok out
  unfolding split_over
  split_over-lem amount chain [] h e = absurd (h refl)
  split_over-lem amount chain (p ∷ ps) h e = rw e

  abbrev pub Matches : ℕ → Asset → PoolSelection → Pool → Type 0
  Matches chain a selection p =
      (chain_id p ≡ chain) × (asset p ≡ a) × (includes k selection p ≡ true)

  asset_pools-Matches :
      (chain : ℕ) (a : Asset) (selection : PoolSelection)
      → All (Matches chain a selection) (asset_pools k chain a selection)
  unfolding asset_pools
  asset_pools-Matches chain a selection =
      All-sort_desc amount_wei _ _
        (All-map (λ p h. ground (arith, asset_eq_iff (asset p) a)) _ (All-keep_self _ pools))

  module _ (amount chain : ℕ) (a : Asset) (selection : PoolSelection) where
    abbrev pub offered : List Pool
    offered = asset_pools k chain a selection

    abbrev pub Planned : List Pool → Type 0
    Planned out = deposit_pools_for_asset_with_selection k amount chain a selection ≡ ok out

    deposit-inv :
        {out : List Pool}
        → Planned out
        → (amount ≢ 0) × (split_over k amount chain offered ≡ ok out)
    unfolding deposit_pools_for_asset_with_selection
    deposit-inv h = ground arith

    -- A plan is made exactly when the amount is not zero, some pool is on offer, greedy change of
    -- the amount over the denominations on offer leaves nothing over, and takes at most five
    -- pieces.
    pub deposit-greedy_iff :
        amount < u256_mod
        → ((out : List Pool) × Planned out) ↔ (
            (amount ≢ 0)
            × (offered ≢ [])
            × (greedy_rest (denominations offered) amount ≡ 0)
            × (greedy_count (denominations offered) amount ≤ 5))
    unfolding deposit_pools_for_asset_with_selection
    deposit-greedy_iff fits = (
      λ planned.
          let (nonzero, over) = deposit-inv planned.1 in
          let (some_pool, loop) = split_over-inv amount chain offered over in
          let (few, rest) =
            split_loop-greedy_only amount offered amount [] 0 (Splits-start amount fits) loop in
          (nonzero, some_pool, sym rest, omega arith),
      λ h.
          let (out, loop) =
            split_loop-greedy amount offered amount [] 0 (Splits-start amount fits) (omega arith) in
          (out, rw (amount_test h.0) (split_over-lem amount chain offered h.1 (rw h.2 at loop))),
    )
      where
        amount_test : amount ≢ 0 → (amount == 0) ≡ false
        amount_test h = ground arith

    -- A planned deposit is worth exactly the amount, makes one to five notes, and uses only pools
    -- of this chain and asset that the selection includes.
    pub deposit_sound :
        {out : List Pool}
        → amount < u256_mod
        → Planned out
        → (total amount_wei out ≡ amount)
          × (0 < length out)
          × (length out ≤ 5)
          × All (Matches chain a selection) out
    deposit_sound {out} fits planned =
        let (nonzero, over) = deposit-inv planned in
        let (_, loop) = split_over-inv amount chain offered over in
        let (n, s) =
          split_loop-Splits k amount offered amount [] 0 (Splits-start amount fits) loop in
        let worth : total amount_wei out ≡ amount = omega arith in
        (
          worth,
          nonempty out (rw worth nonzero),
          omega arith,
          split_loop-All k _ offered amount [] 0 (asset_pools-Matches chain a selection) tt loop,
        )
      where
        nonempty : (ps : List Pool) → total amount_wei ps ≢ 0 → 0 < length ps
        nonempty [] h = absurd (h refl)
        nonempty (p ∷ ps) h = omega arith
