-- ===== src/Sync/Spans.antt =====
-- crates/core/src/network/logs.rs: the filters tile the range.
use desktop_wallet.Common.{
  ℕ, zero, suc, ◌+◌, ◌-◌, ◌≤◌, ◌<◌, ◌^◌, ◌≡◌, refl, List, [], ◌∷◌, ltb, leb, min, subst, Bool-cases,
  arith, inl, inr, ltb→lt, leb→le,
}
use desktop_wallet.Sync.{span_loop, span_filters, add_u64}

-- consecutive, not empty, of at most `width` blocks, from `start` up to and with `to`
abbrev pub Tiles : ℕ → ℕ → ℕ → List (ℕ × ℕ) → Type 0
Tiles width start to [] = start ≡ suc to
Tiles width start to (f ∷ fs) =
    (f.0 ≡ start) × (start ≤ f.1) × (f.1 ≤ to) × (f.1 < start + width) × Tiles width (suc f.1) to fs

span_loop-Tiles :
    (fuel start to width : ℕ)
    → start ≤ to
    → to < start + fuel
    → to < 2 ^ 64
    → 0 < width
    → Tiles width start to (span_loop fuel start to width)
unfolding span_loop
span_loop-Tiles zero start to width le enough small pos = omega arith
span_loop-Tiles (suc fuel) start to width le enough small pos =
    let last : ℕ = min (add_u64 start (width - 1)) to in
    let rest = span_loop fuel (add_u64 last 1) to width in
    elim (Bool-cases (leb to last)) [
      | inl e ↦
          let end : to ≤ last = leb→le to last e in
          rw e (refl, omega arith, omega arith, omega arith, omega arith)
      | inr e ↦
          let more : last < to = ground arith in
          let next : add_u64 last 1 ≡ suc last = omega arith in
          rw e (
            refl,
            omega arith,
            omega arith,
            omega arith,
            subst (λ s. Tiles width s to rest) next
                (span_loop-Tiles fuel (add_u64 last 1) to width (omega arith) (omega arith) small
                  pos),
          )
    ]

-- On a range of 64-bit block numbers and a span that is not 0, the filters of `span_filters` tile
-- the range: the first starts where it starts, each starts after the one before and covers at least
-- one and at most `span` blocks, and the last ends where the range ends. The blocks are read up to
-- the last of the 64-bit numbers. The loop's fuel is enough.
pub span_filters-Tiles :
    (from to span : ℕ)
    → from ≤ to
    → to < 2 ^ 64
    → 0 < span
    → Tiles span from to (span_filters from to span)
unfolding span_filters
span_filters-Tiles from to span le small pos = elim (Bool-cases (ltb to from)) [
  | inl e ↦ absurd (let lt = ltb→lt to from e in omega arith)
  | inr e ↦ rw e (span_loop-Tiles (suc (to - from)) from to span le (omega arith) small pos)
]
