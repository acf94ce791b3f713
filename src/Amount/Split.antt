-- ===== src/Amount/Split.antt =====
-- A planned deposit is worth the amount asked for, and makes at most five notes.
use desktop_wallet.Common.{
  ℕ, zero, suc, ◌+◌, ◌-◌, ◌*◌, ◌/◌, ◌%◌, ◌≤◌, ◌<◌, ◌≡◌, subst, inl, inr, Bool-cases, ltb, false,
  List, [], ◌∷◌, ◌++◌, arith, length, length-append, length-replicate, replicate, total,
  total-append, total-replicate, All, All-append,
}
use desktop_wallet.Common.Outcome.{ok}
use desktop_wallet.Common.U256.{
  ◌+ᵤ◌, ◌*ᵤ◌, wrapping_sub, u64_from, u256_mod, wrapping_sub_exact, +ᵤ_exact, *ᵤ_exact,
}
use desktop_wallet.Pools.{Kohaku}
use desktop_wallet.Amount.{split_loop}

pub quotient_bounds :
    (d r : ℕ) → 0 < d → (d * (r / d) ≤ r) × (r / d ≤ d * (r / d)) × (r ≡ d * (r / d) + r % d)
quotient_bounds d r h = (grind arith, grind arith, grind arith)

All-replicate {ℓ κ} : {A : Type ℓ} (P : A → Type κ) (n : ℕ) (a : A) → P a → All P (replicate n a)
All-replicate P zero a h = tt
All-replicate P (suc n) a h = (h, All-replicate P n a h)

ltb-false : (n : ℕ) → ltb 5 n ≡ false → n ≤ 5
ltb-false n h = ground arith

module _ (k : Kohaku) where
  open k use {Pool, amount_wei, amount_wei_pos}

  -- what the loop has done so far
  pub record Splits (amount : ℕ) (remaining : ℕ) (chosen : List Pool) (count : ℕ) : Type 0 where
    pub worth : total amount_wei chosen + remaining ≡ amount
    pub counted : length chosen ≡ count
    pub few : count ≤ 5
    pub bounded : count + remaining < u256_mod

  Splits-take :
      (amount remaining count q : ℕ) (pool : Pool) (chosen : List Pool)
      → Splits amount remaining chosen count
      → q ≤ amount_wei pool * q
      → amount_wei pool * q ≤ remaining
      → ltb 5 (count +ᵤ q) ≡ false
      → Splits amount
          (wrapping_sub remaining (amount_wei pool *ᵤ q))
          (chosen ++ replicate (u64_from q) pool)
          (count +ᵤ q)
  Splits-take amount remaining count q pool chosen s small fits h =
      let added : count +ᵤ q ≡ count + q = +ᵤ_exact count q (omega arith) in
      let few' : count + q ≤ 5 = rw added at (ltb-false (count +ᵤ q) h) in
      let pieces : u64_from q ≡ q = ground arith in
      let product : amount_wei pool *ᵤ q ≡ amount_wei pool * q = *ᵤ_exact _ q (omega arith) in
      let left : wrapping_sub remaining (amount_wei pool * q) ≡ remaining - amount_wei pool * q =
        wrapping_sub_exact remaining _ fits (omega arith) in
      rw (added, pieces, product, left)
        (record {
          worth = omega (
            arith,
            total-append amount_wei chosen (replicate q pool),
            total-replicate amount_wei q pool,
          );
          counted = omega (arith, length-append chosen (replicate q pool), length-replicate q pool);
          few = few';
          bounded = omega arith;
        })

  pub Splits-step :
      (amount remaining count : ℕ) (pool : Pool) (chosen : List Pool)
      → Splits amount remaining chosen count
      → ltb 5 (count +ᵤ (remaining / amount_wei pool)) ≡ false
      → Splits amount
          (wrapping_sub remaining (amount_wei pool *ᵤ (remaining / amount_wei pool)))
          (chosen ++ replicate (u64_from (remaining / amount_wei pool)) pool)
          (count +ᵤ (remaining / amount_wei pool))
  Splits-step amount remaining count pool chosen s h =
      let (fits, small, _) = quotient_bounds (amount_wei pool) remaining (amount_wei_pos pool) in
      Splits-take amount remaining count (remaining / amount_wei pool) pool chosen s small fits h

  pub split_loop-Splits :
      (amount : ℕ) (pools : List Pool) (remaining : ℕ) (chosen : List Pool) (count : ℕ) {r : ℕ}
      {out : List Pool}
      → Splits amount remaining chosen count
      → split_loop k pools remaining chosen count ≡ ok (r, out)
      → (n : ℕ) × Splits amount r out n
  unfolding split_loop
  split_loop-Splits amount [] remaining chosen count s h = (count, ground arith)
  split_loop-Splits amount (pool ∷ rest) remaining chosen count s h =
      elim (Bool-cases (ltb 5 (count +ᵤ (remaining / amount_wei pool)))) [
        | inl over ↦ absurd (ground arith)
        | inr fine ↦
            split_loop-Splits amount rest _ _ _
              (Splits-step amount remaining count pool chosen s fine) (rw fine at h)
      ]

  -- what holds of every pool on offer holds of every pool chosen
  pub split_loop-All {κ} :
      (P : Pool → Type κ) (pools : List Pool) (remaining : ℕ) (chosen : List Pool) (count : ℕ)
      {r : ℕ} {out : List Pool}
      → All P pools
      → All P chosen
      → split_loop k pools remaining chosen count ≡ ok (r, out)
      → All P out
  unfolding split_loop
  split_loop-All P [] remaining chosen count on ch h = subst (λ o. All P o) (ground arith) ch
  split_loop-All P (pool ∷ rest) remaining chosen count on ch h =
      elim (Bool-cases (ltb 5 (count +ᵤ (remaining / amount_wei pool)))) [
        | inl over ↦ absurd (ground arith)
        | inr fine ↦
            split_loop-All P rest _ _ _ on.1
              (All-append P chosen _ ch (All-replicate P _ pool on.0)) (rw fine at h)
      ]
