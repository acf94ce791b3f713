-- ===== src/Common/U256.antt =====
-- The 256-bit amounts of the wallet: a plain number below 2^256, with operators that wrap.
use Prim.Native.Nat.{ℕ, ◌+◌, ◌*◌, ◌-◌, ◌%◌, ◌/◌, ◌^◌, ◌≤◌, ◌<◌, min}
use mathlib.Core.Path.{◌≡◌}
use mathlib.Core.Option.{Option, none, some}
use native.Mathlib.Omega.{arith}
use native.Mathlib.Nat.{mod-eq_of_lt}
use desktop_wallet.Common.Tests.{ltb, ◌==◌, if◌then◌else◌}

abbrev pub u32_mod : ℕ
u32_mod = 2 ^ 32

abbrev pub u64_mod : ℕ
u64_mod = 2 ^ 64

abbrev pub u256_mod : ℕ
u256_mod = 2 ^ 256

infixl 65 ◌+ᵤ◌
infixl 70 ◌*ᵤ◌
abbrev pub ◌+ᵤ◌ : ℕ → ℕ → ℕ
a +ᵤ b = (a + b) % u256_mod

abbrev pub ◌*ᵤ◌ : ℕ → ℕ → ℕ
a *ᵤ b = (a * b) % u256_mod

-- `a - b`, wrapping below zero
abbrev pub wrapping_sub : ℕ → ℕ → ℕ
wrapping_sub a b = (a + u256_mod - b) % u256_mod

abbrev pub saturating_add : ℕ → ℕ → ℕ
saturating_add a b = min (a + b) (u256_mod - 1)

-- on numbers, subtraction stops at 0, which is what `saturating_sub` does
abbrev pub saturating_sub : ℕ → ℕ → ℕ
saturating_sub a b = a - b

abbrev pub checked_sub : ℕ → ℕ → Option ℕ
checked_sub a b = if ltb a b then none else some (a - b)

abbrev pub div_ceil : ℕ → ℕ → ℕ
div_ceil a b = a / b + (if a % b == 0 then 0 else 1)

-- `u64::try_from(value).unwrap_or(u64::MAX)`
abbrev pub u64_from : ℕ → ℕ
u64_from value = if ltb value u64_mod then value else u64_mod - 1

pub +ᵤ_exact : (a b : ℕ) → a + b < u256_mod → a +ᵤ b ≡ a + b
+ᵤ_exact a b h = mod-eq_of_lt h

pub *ᵤ_exact : (a b : ℕ) → a * b < u256_mod → a *ᵤ b ≡ a * b
*ᵤ_exact a b h = mod-eq_of_lt h

pub wrapping_sub_exact : (a b : ℕ) → b ≤ a → a < u256_mod → wrapping_sub a b ≡ a - b
wrapping_sub_exact a b h l = omega arith
