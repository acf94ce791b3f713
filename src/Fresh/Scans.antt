-- ===== src/Fresh/Scans.antt =====
-- crates/core/src/instance/address.rs: the search for a fresh address, and what is committed.
use desktop_wallet.Common.{
  ℕ, zero, suc, ◌+◌, ◌-◌, ◌≤◌, ◌<◌, ◌≡◌, ◌≢◌, refl, sym, subst, Bool, true, false, Option, ltb, leb,
  if◌then◌else◌, unwrap_or, Bool-cases, arith, inl, inr, leb→le, ltb→lt, ◌⊎◌, ◌==◌, ==_iff,
}
use desktop_wallet.Common.Outcome.{Result, ok, err, ◌>>=◌}
use desktop_wallet.Common.U256.{u32_mod}
use desktop_wallet.Fresh.{
  max_index, add_u32, MnemonicError, scan_limit, fresh_loop, fresh_address, commit_fresh_address,
}

module _ {Address E : Type 0} (standard_address : ℕ → Result (MnemonicError E) Address)
    (is_used : Address → Result (MnemonicError E) Bool) where
  -- an index whose address is derived and has the given activity
  abbrev pub Active : Bool → ℕ → Type 0
  Active used i = (a : Address) × (standard_address i ≡ ok a) × (is_used a ≡ ok used)

  -- what the search from `from` answers: the first inactive index below the limit, or that there
  -- is none, or an error of a derivation or of the endpoint
  abbrev pub Searched : ℕ → Result (MnemonicError E) (ℕ × Address) → Type 0
  Searched from (ok r) =
      (from ≤ r.0)
      × (r.0 < max_index)
      × (standard_address r.0 ≡ ok r.1)
      × (is_used r.1 ≡ ok false)
      × ((i : ℕ) → from ≤ i → i < r.0 → Active true i)
  Searched from (err e) =
      ((e ≡ scan_limit max_index) × ((i : ℕ) → from ≤ i → i < max_index → Active true i))
      ⊎ (((i : ℕ) × (standard_address i ≡ err e)) ⊎ ((a : Address) × (is_used a ≡ err e)))

  wider :
      (from top : ℕ)
      → Active true from
      → ((i : ℕ) → suc from ≤ i → i < top → Active true i)
      → (i : ℕ) → from ≤ i
      → i < top
      → Active true i
  wider from top here rest i le lt = elim (Bool-cases (i == from)) [
    | inl e ↦ subst (Active true) (sym ((==_iff i from).0 e)) here
    | inr e ↦ let n : i ≢ from = ground arith in rest i (omega arith) lt
  ]

  step :
      (from : ℕ) (r : Result (MnemonicError E) (ℕ × Address))
      → Active true from
      → Searched (suc from) r
      → Searched from r
  step from (ok r) here h = (omega arith, h.1, h.2, h.3, wider from r.0 here h.4)
  step from (err x) here (inl h) = inl (h.0, wider from max_index here h.1)
  step from (err x) here (inr h) = inr h

  after_use :
      (from : ℕ) (a : Address) (r : Result (MnemonicError E) Bool)
      (rest : Result (MnemonicError E) (ℕ × Address))
      → from < max_index
      → standard_address from ≡ ok a
      → is_used a ≡ r
      → Searched (suc from) rest
      → Searched from (r >>= λ used. if used then rest else ok (from, a))
  after_use from a (err x) rest lt e f h = inr (inr (a, f))
  after_use from a (ok true) rest lt e f h = step from rest (a, e, f) h
  after_use from a (ok false) rest lt e f h =
      (omega arith, lt, e, f, λ i le l. absurd (omega arith))

  after_address :
      (from : ℕ) (r : Result (MnemonicError E) Address)
      (rest : Result (MnemonicError E) (ℕ × Address))
      → from < max_index
      → standard_address from ≡ r
      → Searched (suc from) rest
      → Searched from (r >>= λ a. is_used a >>= λ used. if used then rest else ok (from, a))
  after_address from (err x) rest lt e h = inr (inl (from, e))
  after_address from (ok a) rest lt e h = after_use from a (is_used a) rest lt e refl h

  fresh_loop-Searched :
      (fuel from : ℕ)
      → max_index < from + fuel
      → Searched from (fresh_loop standard_address is_used fuel from)
  unfolding fresh_loop
  fresh_loop-Searched zero from enough = inl (refl, λ i le lt. absurd (omega arith))
  fresh_loop-Searched (suc fuel) from enough = elim (Bool-cases (leb max_index from)) [
    | inl e ↦
        let past = leb→le max_index from e in rw e (inl (refl, λ i le lt. absurd (omega arith)))
    | inr e ↦
        let below : from < max_index = ground arith in
        let next : add_u32 from 1 ≡ suc from = omega arith in
        rw e (
          after_address from (standard_address from) _ below refl (
            subst (λ j. Searched j (fresh_loop standard_address is_used fuel (add_u32 from 1))) next
              (fresh_loop-Searched fuel (add_u32 from 1) (omega arith))))
  ]

  -- From a stored next address `from`, `fresh_address` gives the first index from there on that is
  -- below the limit of 1000 and whose address has no activity, with that address, and every index
  -- skipped has activity. It fails with the limit only if every index from there to the limit has
  -- activity, and otherwise only with an error of a derivation or of the endpoint. The loop's fuel
  -- is enough.
  pub fresh_address-first :
      (from : ℕ) → Searched from (fresh_address standard_address is_used (ok from))
  unfolding fresh_address
  fresh_address-first from = fresh_loop-Searched (suc max_index) from (omega arith)

-- A committed index that leaves room in 32 bits, and every lower one, is not handed out again: the
-- next address is above it, and no lower than it was.
pub commit_fresh_address-above :
    (stored : Option ℕ) (index : ℕ)
    → index < u32_mod - 1
    → (index < unwrap_or (commit_fresh_address stored index) 0)
      × (unwrap_or stored 0 ≤ unwrap_or (commit_fresh_address stored index) 0)
unfolding commit_fresh_address
commit_fresh_address-above stored index room =
    elim (Bool-cases (ltb (unwrap_or stored 0) (add_u32 index 1))) [
      | inl e ↦
          let l = ltb→lt (unwrap_or stored 0) (add_u32 index 1) e in rw e (omega arith, omega arith)
      | inr e ↦
          let l : add_u32 index 1 ≤ unwrap_or stored 0 = ground arith in
          rw e (omega arith, omega arith)
    ]
