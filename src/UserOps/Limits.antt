-- ===== src/UserOps/Limits.antt =====
-- crates/core/src/vault/tornadocash/userop.rs: whether the fee of an operation covers the gas limits
-- that its proofs turned out to need.
use native.Mathlib.Nat.{mul-le-mul}
use desktop_wallet.Common.{
  ℕ, ◌-◌, ◌*◌, ◌≤◌, ◌<◌, ◌^◌, ◌≡◌, refl, ap, subst, true, false, ◌⊎◌, Option, none, some, ltb, leb,
  leb→le, ltb→lt, max, arith, inl, inr, Bool-cases,
}
use desktop_wallet.Common.U256.{◌*ᵤ◌, *ᵤ_exact}
use desktop_wallet.UserOps.{SignableUserOperation, Gas, fits, raise_gas, max_option}

-- `r` is the larger of `a` and `b`
abbrev pub Larger : ℕ → ℕ → ℕ → Type 0
Larger a b r = (a ≤ r) × (b ≤ r) × ((r ≡ a) ⊎ (r ≡ b))

-- the order of optional numbers, in which none is the least
abbrev pub Below : Option ℕ → Option ℕ → Type 0
Below none b = Unit
Below (some a) none = ⊥
Below (some a) (some b) = a ≤ b

abbrev pub LargerOption : Option ℕ → Option ℕ → Option ℕ → Type 0
LargerOption a b r = Below a r × Below b r × ((r ≡ a) ⊎ (r ≡ b))

-- each limit of `r` is the larger of those of `g` and `proven`
abbrev pub Raised : Gas → Gas → Gas → Type 0
Raised g proven r =
    Larger g.call_gas_limit proven.call_gas_limit r.call_gas_limit
    × Larger g.verification_gas_limit proven.verification_gas_limit r.verification_gas_limit
    × Larger g.pre_verification_gas proven.pre_verification_gas r.pre_verification_gas
    × LargerOption g.paymaster_verification_gas_limit proven.paymaster_verification_gas_limit
        r.paymaster_verification_gas_limit
    × LargerOption g.paymaster_post_op_gas_limit proven.paymaster_post_op_gas_limit
        r.paymaster_post_op_gas_limit

max-Larger : (a b : ℕ) → Larger a b (max a b)
max-Larger a b = elim (Bool-cases (leb a b)) [
  | inl e ↦ let l = leb→le a b e in (omega arith, omega arith, inr (omega arith))
  | inr e ↦ let l : b < a = ground arith in (omega arith, omega arith, inl (omega arith))
]

some_either : {a b r : ℕ} → (r ≡ a) ⊎ (r ≡ b) → ◌⊎◌ (some r ≡ some a) (some r ≡ some b)
some_either (inl e) = inl (ap some e)
some_either (inr e) = inr (ap some e)

Below-refl : (a : Option ℕ) → Below a a
Below-refl none = tt
Below-refl (some a) = omega arith

max_option-Larger : (a b : Option ℕ) → LargerOption a b (max_option a b)
unfolding max_option
max_option-Larger none b = (tt, Below-refl b, inr refl)
max_option-Larger (some a) none = (omega arith, tt, inl refl)
max_option-Larger (some a) (some b) = let h = max-Larger a b in (h.0, h.1, some_either h.2)

below : (a b : ℕ) → ltb a b ≡ false → b ≤ a
below a b e = ground arith

raise_gas-Raised : (g proven : Gas) → Raised g proven (raise_gas g proven)
unfolding raise_gas
raise_gas-Raised g proven = (
  max-Larger g.call_gas_limit proven.call_gas_limit,
  max-Larger g.verification_gas_limit proven.verification_gas_limit,
  max-Larger g.pre_verification_gas proven.pre_verification_gas,
  max_option-Larger g.paymaster_verification_gas_limit proven.paymaster_verification_gas_limit,
  max_option-Larger g.paymaster_post_op_gas_limit proven.paymaster_post_op_gas_limit,
)

-- For 128-bit gas totals and gas prices: with each of the five gas limits raised to the larger of the
-- operation's and that proven, where a limit that is absent is below any other, `fits` accepts the
-- operation exactly when this gas costs no more than the fee, and then the operation has these limits
-- and is otherwise as it was; if it does not accept it, it leaves it as it is.
pub fits-covers :
    (total_gas_limit : Gas → ℕ) (op : SignableUserOperation) (proven : Gas) (fee : ℕ)
    → ((g : Gas) → total_gas_limit g < 2 ^ 128)
    → op.max_fee_per_gas < 2 ^ 128
    → (raised : Gas) × Raised op.gas proven raised
      × (((fits total_gas_limit op proven fee ≡ (true, record op { gas = raised }))
            × (total_gas_limit raised * op.max_fee_per_gas ≤ fee))
          ⊎ ((fits total_gas_limit op proven fee ≡ (false, op))
              × (fee < total_gas_limit raised * op.max_fee_per_gas)))
unfolding fits
fits-covers total_gas_limit op proven fee small small' =
    let limit = total_gas_limit (raise_gas op.gas proven) in
    let small_limit = small (raise_gas op.gas proven) in
    let bound : limit * op.max_fee_per_gas ≤ (2 ^ 128 - 1) * (2 ^ 128 - 1) =
      mul-le-mul {n₂ = 2 ^ 128 - 1} {m₂ = 2 ^ 128 - 1} (omega (arith, small_limit))
        (omega (arith, small')) in
    let exact : limit *ᵤ op.max_fee_per_gas ≡ limit * op.max_fee_per_gas =
      *ᵤ_exact limit op.max_fee_per_gas (omega (arith, bound)) in
    (
      raise_gas op.gas proven,
      raise_gas-Raised op.gas proven,
      elim (Bool-cases (ltb fee (limit *ᵤ op.max_fee_per_gas))) [
        | inl e ↦ inr (
          rw (fits, e) refl,
          subst (λ t. fee < t) exact (ltb→lt fee (limit *ᵤ op.max_fee_per_gas) e),
        )
        | inr e ↦ inl (
          rw (fits, e) refl,
          subst (λ t. t ≤ fee) exact (below fee (limit *ᵤ op.max_fee_per_gas) e),
        )
      ],
    )
