-- ===== src/UserOps/Sums.antt =====
-- crates/core/src/vault/tornadocash/userop.rs: where the ETH of a quoted withdrawal goes, what it
-- turned out to cost, and its gas.
use desktop_wallet.Common.{
  ℕ, ◌+◌, ◌-◌, ◌≤◌, ◌<◌, ◌≡◌, ◌∙◌, refl, sym, ap, true, false, ◌&&◌, ◌⊎◌, ◌↔◌, Option, none, some,
  List, [], ◌∷◌, if◌then◌else◌, ltb, ltb→lt, total, unwrap_or, is_some, arith, inl, inr, Bool-cases,
}
use desktop_wallet.Common.Outcome.{ok, err, ok-injective}
use desktop_wallet.Common.U256.{checked_sub, u256_mod, +ᵤ_exact}
use desktop_wallet.Pools.{Kohaku}
use desktop_wallet.UserOps.{
  Quoter, QuoteInput, Quoted, UserOpCall, UserOpError, short, available_after, to_forward,
  quote_until_settled, value_sum, settle,
}
use desktop_wallet.UserOps.Quotes.{quote_pass-IsSettled}

checked_sub-cases :
    (a b : ℕ) → ((b ≤ a) × (checked_sub a b ≡ some (a - b))) ⊎ ((a < b) × (checked_sub a b ≡ none))
checked_sub-cases a b = elim (Bool-cases (ltb a b)) [
  | inl e ↦ inr (ltb→lt a b e, rw e refl)
  | inr e ↦ inl (ground arith, rw e refl)
]

ltb-false_le : (a b : ℕ) → ltb a b ≡ false → b ≤ a
ltb-false_le a b e = ground arith

no_some : {A : Type 0} {a : A} → ¬ (none ≡ some a)
no_some e = cc

no_ok : {A : Type 0} {e : UserOpError} {a : A} → ¬ (err e ≡ ok a)
no_ok e = cc

some_pair : {a b c d : ℕ} → a ≡ c → b ≡ d → ◌≡◌ {A = Option (ℕ × ℕ)} (some (a, b)) (some (c, d))
some_pair p q = λ i. some (p i, q i)

same_pair : {a b c d : ℕ} → ◌≡◌ {A = Option (ℕ × ℕ)} (some (a, b)) (some (c, d)) → (a ≡ c) × (b ≡ d)
same_pair e = (cc, cc)

-- settle gives a fee and a change exactly if the change is what the balance rose by, and the fee, the
-- payments and the change together are the sum of the notes.
pub settle_iff :
    (sum before after fee change : ℕ) (paid_out : Option ℕ)
    → (settle sum paid_out before after ≡ some (fee, change))
      ↔ ((before + change ≡ after) × (fee + unwrap_or paid_out 0 + change ≡ sum))
unfolding settle
settle_iff sum before after fee change paid_out =
    let paid = unwrap_or paid_out 0 in
    elim (checked_sub-cases after before) [
      | inr f ↦
          (λ e. absurd (no_some (rw (settle, f.1) at e)), λ e. absurd (omega (arith, f.0, e.0)))
      | inl g ↦ elim (checked_sub-cases sum paid) [
        | inr f ↦ (
          λ e. absurd (no_some (rw (settle, g.1, f.1) at e)),
          λ e. absurd (omega (arith, f.0, e.1)),
        )
        | inl g' ↦ elim (checked_sub-cases (sum - paid) (after - before)) [
          | inr f ↦ (
            λ e. absurd (no_some (rw (settle, g.1, g'.1, f.1) at e)),
            λ e. absurd (omega (arith, g.0, g'.0, f.0, e.0, e.1)),
          )
          | inl g'' ↦ (
            λ e.
                let p = same_pair (rw (settle, g.1, g'.1, g''.1) at e) in
                (omega (arith, g.0, p.1), omega (arith, g.0, g'.0, g''.0, p.0, p.1)),
            λ e.
                rw (settle, g.1, g'.1, g''.1)
                  (some_pair (omega (arith, g.0, g'.0, g''.0, e.0, e.1)) (omega (arith, g.0, e.0))),
          )
        ]
      ]
    ]

-- the worth of calls, without a bound
pub value_sum_exact :
    (calls : List UserOpCall)
    → total (λ call. call.value) calls < u256_mod
    → value_sum calls ≡ total (λ call. call.value) calls
unfolding value_sum
value_sum_exact [] small = refl
value_sum_exact (call ∷ calls) small =
    rw (value_sum_exact calls (omega arith))
      (+ᵤ_exact call.value (total (λ call. call.value) calls) small)

no_none : {o : Option ℕ} → o ≡ none → ¬ (is_some o ≡ true)
no_none e h = let bad : false ≡ true = ap is_some (sym e) ∙ h in cc

guarded :
    (r : Option ℕ) (left fee available : ℕ)
    → (if is_some r && ltb left (unwrap_or r 0)
        then err (short fee left (unwrap_or r 0))
        else ok left)
      ≡ ok available
    → (left ≡ available) × (unwrap_or r 0 ≤ left)
guarded none left fee available made = (ok-injective refl made, omega arith)
guarded (some r) left fee available made = elim (Bool-cases (ltb left r)) [
  | inl f ↦ absurd (no_ok (rw f at made))
  | inr f ↦ (ok-injective refl (rw f at made), ltb-false_le left r f)
]

available-eth :
    (k : Kohaku) (input : QuoteInput k) (fee available : ℕ)
    → k.asset_eq input.of_asset k.eth ≡ true
    → available_after k input fee ≡ ok available
    → (fee ≤ input.sum) × (available ≡ input.sum - fee) × (unwrap_or input.required 0 ≤ available)
unfolding available_after
available-eth k input fee available eth made = elim (checked_sub-cases input.sum fee) [
  | inr f ↦ absurd (no_ok (rw (available_after, eth, f.1) at made))
  | inl g ↦
      let parts =
        guarded input.required (input.sum - fee) fee available
          (rw (available_after, eth, g.1) at made) in
      (g.0, sym parts.0, omega (arith, parts.0, parts.1))
]

-- In a settled quote of ETH whose calls send no more than is required, the fee, the ETH of the calls
-- and the forward are within the sum of the notes, and are all of it if there is a forward.
pub quote-conserves :
    (k : Kohaku) (q : Quoter) (input : QuoteInput k) (quoted : Quoted k)
    → k.asset_eq input.of_asset k.eth ≡ true
    → total (λ call. call.value) input.tails < u256_mod
    → total (λ call. call.value) input.tails ≤ unwrap_or input.required 0
    → quote_until_settled k q input ≡ ok quoted
    → (quoted.fee + total (λ call. call.value) input.tails + unwrap_or quoted.forwarded 0
        ≤ input.sum)
      × (is_some input.forward_to ≡ true
          → quoted.fee + total (λ call. call.value) input.tails + unwrap_or quoted.forwarded 0
            ≡ input.sum)
unfolding quote_until_settled to_forward
quote-conserves k q input quoted eth small enough made =
    let s = quote_pass-IsSettled k q input 2 0 none quoted made in
    let kept = available-eth k input quoted.fee s.available eth s.leaves in
    let worth = value_sum_exact input.tails small in
    elim s.forwards [
      | inl n ↦ (
        let none_sent : unwrap_or quoted.forwarded 0 ≡ 0 = ap (λ t. unwrap_or t 0) n.1 in
            omega (arith, none_sent, kept.0, kept.1, kept.2),
        λ h. absurd (no_none n.0 h),
      )
      | inr f ↦
          let sent : unwrap_or quoted.forwarded 0 ≡ to_forward k input s.available =
            ap (λ t. unwrap_or t 0) f.2 in
          let rest : to_forward k input s.available
              ≡ s.available - total (λ call. call.value) input.tails =
            rw (to_forward, eth, worth) refl in
          (
            omega (arith, sent, rest, kept.0, kept.1, kept.2),
            λ h. omega (arith, sent, rest, kept.0, kept.1, kept.2),
          )
    ]
