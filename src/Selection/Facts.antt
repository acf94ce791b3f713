-- ===== src/Selection/Facts.antt =====
-- Facts for the search of Selection.antt: the loop over counts, groups of equal denominations,
-- sums, and the order of the notes.
use desktop_wallet.Common.{
  ℕ, zero, suc, ◌+◌, ◌*◌, ◌/◌, ◌%◌, ◌≤◌, ◌<◌, ◌≡◌, refl, inl, inr, Bool-cases, List, [], ◌∷◌, arith,
  length, total, take, All, leb, ltb, ◌==◌,
}
use desktop_wallet.Common.U256.{u256_mod, +ᵤ_exact, div_ceil}
use desktop_wallet.Pools.{Kohaku}
use desktop_wallet.Selection.{try_counts, Note, denom, note_sum, group_size}

module _ {ℓ κ} {B : Type ℓ} (P : B → Type κ) (body : ℕ → B → B) where
  -- what every pass keeps, the loop keeps
  pub try_counts-keeps :
      (max : ℕ) {best : B}
      → ((n : ℕ) (b : B) → n ≤ max → P b → P (body n b))
      → P best
      → P (try_counts body max best)
  unfolding try_counts
  try_counts-keeps zero keep h = keep 0 _ (omega arith) h
  try_counts-keeps (suc n) keep h =
      try_counts-keeps n (λ m b le. keep m b (omega arith)) (keep (suc n) _ (omega arith) h)

  -- what one pass reaches and every pass keeps, the loop reaches
  pub try_counts-reaches :
      (max n : ℕ) (best : B)
      → n ≤ max
      → ((m : ℕ) (b : B) → P b → P (body m b))
      → ((b : B) → P (body n b))
      → P (try_counts body max best)
  unfolding try_counts
  try_counts-reaches zero zero best le keep hit = hit best
  try_counts-reaches zero (suc n) best le keep hit = absurd (omega arith)
  try_counts-reaches (suc max) n best le keep hit = elim (Bool-cases (n == suc max)) [
    | inl e ↦
        let e' : n ≡ suc max = ground arith in
        try_counts-keeps max (λ m b _. keep m b) (rw (← e') (hit best))
    | inr e ↦ try_counts-reaches max n (body (suc max) best) (ground arith) keep hit
  ]

mul_mono : (u a b : ℕ) → a ≤ b → u * a ≤ u * b
mul_mono u a b h = grind arith

lt_of_mul-lt : (u a b : ℕ) → u * a < u * b → a < b
lt_of_mul-lt u a b h = elim (Bool-cases (ltb a b)) [
  | inl e ↦ ground arith
  | inr e ↦ absurd (omega (arith, mul_mono u b a (ground arith)))
]

le_of_mul-le : (u a b : ℕ) → 0 < u → u * a ≤ u * b → a ≤ b
le_of_mul-le u a b p h = elim (Bool-cases (leb a b)) [
  | inl e ↦ ground arith
  | inr e ↦ absurd (omega (arith, mul_mono u (b + 1) a (ground arith)))
]

pub div_ceil-le : (amount unit n : ℕ) → 0 < unit → amount ≤ unit * n → div_ceil amount unit ≤ n
div_ceil-le amount unit n h le = elim (Bool-cases (amount % unit == 0)) [
  | inl e ↦ rw e (div_only (grind arith))
  | inr e ↦ rw e (div_more (grind arith))
]
  where
    parts : amount ≡ unit * (amount / unit) + amount % unit
    parts = grind arith

    div_only : unit * (amount / unit) ≤ unit * n → amount / unit + 0 ≤ n
    div_only p = omega (arith, le_of_mul-le unit (amount / unit) n h p)

    div_more : unit * (amount / unit) < unit * n → amount / unit + 1 ≤ n
    div_more p = omega (arith, lt_of_mul-lt unit (amount / unit) n p)

pub le-div : (amount unit n : ℕ) → 0 < unit → unit * n ≤ amount → n ≤ amount / unit
le-div amount unit n h le = grind arith

module _ (k : Kohaku) where
  open k use {amount_wei_pos}

  pub note_sum-total :
      (notes : List (Note k))
      → total (denom k) notes < u256_mod
      → note_sum k notes ≡ total (denom k) notes
  unfolding note_sum
  note_sum-total [] h = refl
  note_sum-total (note ∷ notes) h =
      rw (note_sum-total notes (omega arith)) (+ᵤ_exact (denom k note) (total (denom k) notes) h)

  pub group-All :
      (d : ℕ) (notes : List (Note k))
      → All (λ note. denom k note ≡ d) (take (group_size k d notes) notes)
  unfolding group_size
  group-All d [] = tt
  group-All d (note ∷ notes) = elim (Bool-cases (denom k note == d)) [
    | inl e ↦ rw e (ground arith, group-All d notes)
    | inr e ↦ rw e tt
  ]

  pub group_size-le : (d : ℕ) (notes : List (Note k)) → group_size k d notes ≤ length notes
  unfolding group_size
  group_size-le d [] = omega arith
  group_size-le d (note ∷ notes) = ground (arith, group_size-le d notes)

  pub group_size-pos :
      (first : Note k) (rest : List (Note k)) → 0 < group_size k (denom k first) (first ∷ rest)
  unfolding group_size
  group_size-pos first rest = ground arith
