-- ===== src/UserOps/Quotes.antt =====
-- crates/core/src/vault/tornadocash/userop.rs: what a quote that has settled says.
use desktop_wallet.Common.{
  ℕ, zero, suc, ◌≡◌, ◌∙◌, refl, ap, subst, Bool, true, false, not, ◌||◌, ◌⊎◌, Option, none, some,
  List, ◌==◌, ==_iff, is_some, inl, inr, Bool-cases, Option-cases,
}
use desktop_wallet.Common.Outcome.{Result, ok, err, >>=-eq-ok, ok-injective}
use desktop_wallet.Pools.{Kohaku}
use desktop_wallet.UserOps.{
  Quoter, QuoteInput, Quoted, UserOpCall, UserOpError, SignableUserOperation, proven_fee,
  available_after, to_forward, is_pending, forward_calls, pass_with, settled_or, quote_pass,
  quote_until_settled, unstable,
}

-- the calls of a pass, by the forward that is pending
abbrev pub pending_calls : (k : Kohaku) → Quoter → QuoteInput k → Option ℕ → List UserOpCall
pending_calls k q input none = input.tails
pending_calls k q input (some p) = forward_calls k q input.tails input.forward_to p input.of_asset

-- A settled quote: its operation is the quote of its calls, its fee that of the operation, and its
-- calls forward what the notes leave after the fee.
pub record IsSettled (k : Kohaku) (q : Quoter) (input : QuoteInput k) (quoted : Quoted k)
    : Type 0 where
  pub pass : ℕ
  pub available : ℕ
  pub made : q.quote pass quoted.calls ≡ ok quoted.signable
  pub fee_read : proven_fee q.decode_fee quoted.signable ≡ ok quoted.fee
  pub leaves : available_after k input quoted.fee ≡ ok available
  pub forwards :
      ((input.forward_to ≡ none) × (quoted.forwarded ≡ none) × (quoted.calls ≡ input.tails))
      ⊎ ((to : ℕ) × (input.forward_to ≡ some to)
          × (quoted.forwarded ≡ some (to_forward k input available))
          × (quoted.calls
              ≡ forward_calls k q input.tails
                  (some to)
                  (to_forward k input available)
                  input.of_asset))

or_right : (s t : Bool) → t ≡ true → (s || t) ≡ true
or_right true t e = refl
or_right false t e = e

module _ (k : Kohaku) (q : Quoter) (input : QuoteInput k) where
  -- the calls and the forward of a pass that settles
  abbrev Forwards : ℕ → Option ℕ → List UserOpCall → Type 0
  Forwards available forwarded calls =
      ((input.forward_to ≡ none) × (forwarded ≡ none) × (calls ≡ input.tails))
      ⊎ ((to : ℕ) × (input.forward_to ≡ some to)
          × (forwarded ≡ some (to_forward k input available))
          × (calls
              ≡ forward_calls k q input.tails (some to) (to_forward k input available)
                  input.of_asset))

  no_forward :
      (pending : Option ℕ) → input.forward_to ≡ none → pending_calls k q input pending ≡ input.tails
  unfolding forward_calls
  no_forward none e = refl
  no_forward (some p) e = ap (λ t. forward_calls k q input.tails t p input.of_asset) e

  same_forward :
      (available : ℕ) (pending : Option ℕ) (to : ℕ)
      → input.forward_to ≡ some to
      → is_pending pending (to_forward k input available) ≡ true
      → pending_calls k q input pending
        ≡ forward_calls k q input.tails (some to) (to_forward k input available) input.of_asset
  unfolding is_pending to_forward
  same_forward available none to e h = absurd cc
  same_forward available (some p) to e h =
      rw (e, (==_iff p (to_forward k input available)).0 h) refl

  calls_now :
      (available : ℕ) (pending : Option ℕ)
      → (not (is_some input.forward_to) || is_pending pending (to_forward k input available)) ≡ true
      → Forwards available
          (elim input.forward_to [ none ↦ none | some to ↦ some (to_forward k input available) ])
          (pending_calls k q input pending)
  unfolding is_pending to_forward
  calls_now available pending e = elim (Option-cases input.forward_to) [
    | inl n ↦ inl (n, rw n refl, no_forward pending n)
    | inr f ↦ inr (f.0, f.1, rw f.1 refl, same_forward available pending f.0 f.1 (rw f.1 at e))
  ]

  -- what a pass does that gives a quote: it is settled, or it is that of the later passes
  pass_with-cases :
      (pass : ℕ) (pending : Option ℕ) (again : ℕ → ℕ → Result UserOpError (Quoted k))
      (quoted : Quoted k)
      → pass_with k q input pass (pending_calls k q input pending) pending again ≡ ok quoted
      → IsSettled k q input quoted ⊎ ((fee : ℕ) × (forward : ℕ) × (again fee forward ≡ ok quoted))
  unfolding pass_with settled_or
  pass_with-cases pass pending again quoted made =
      let a = >>=-eq-ok _ _ made in
      let b = >>=-eq-ok _ _ a.2 in
      let c = >>=-eq-ok _ _ b.2 in
      elim (Bool-cases
        (not (is_some input.forward_to) || is_pending pending (to_forward k input c.0))) [
          | inr e ↦ inr (b.0, to_forward k input c.0, rw e at c.2)
          | inl e ↦ inl (
              subst (IsSettled k q input) (ok-injective refl (rw e at c.2)) (record {
                pass = pass;
                available = c.0;
                made = a.1;
                fee_read = b.1;
                leaves = c.1;
                forwards = calls_now c.0 pending e;
              }))
        ]

  pub quote_pass-IsSettled :
      (left pass : ℕ) (pending : Option ℕ) (quoted : Quoted k)
      → quote_pass k q input left pass (pending_calls k q input pending) pending ≡ ok quoted
      → IsSettled k q input quoted
  unfolding quote_pass
  quote_pass-IsSettled zero pass pending quoted made =
      elim (pass_with-cases pass pending (λ fee forward. err (unstable fee)) quoted made) [
        | inl s ↦ s
        | inr f ↦ absurd cc
      ]
  quote_pass-IsSettled (suc left) pass pending quoted made =
      elim (pass_with-cases pass pending _ quoted made) [
        | inl s ↦ s
        | inr f ↦ quote_pass-IsSettled left (suc pass) (some f.1) quoted f.2
      ]

  abbrev settled_now : List UserOpCall → SignableUserOperation → ℕ → ℕ → Quoted k
  settled_now calls signable fee forward = record {
    signable = signable;
    calls = calls;
    fee = fee;
    forwarded = elim input.forward_to [ none ↦ none | some to ↦ some forward ];
  }

  -- a pass whose quote has the steady fee
  pass_with-steady :
      (pass fee available : ℕ) (pending : Option ℕ) (calls : List UserOpCall)
      (again : ℕ → ℕ → Result UserOpError (Quoted k)) (signable : SignableUserOperation)
      → q.quote pass calls ≡ ok signable
      → proven_fee q.decode_fee signable ≡ ok fee
      → available_after k input fee ≡ ok available
      → pass_with k q input pass calls pending again
        ≡ settled_or k input calls pending signable fee available again
  unfolding pass_with
  pass_with-steady pass fee available pending calls again signable e f g =
      rw (pass_with, e, f, g) refl

  -- If the quotes of all passes have one fee, and what it leaves of the sum covers what is required, then
  -- the quote settles within the three passes, with this fee; its operation is the quote of its
  -- calls, and these are the tail calls and the forward of what is left.
  pub quote-settles :
      (fee available : ℕ)
      → ((pass : ℕ) (calls : List UserOpCall)
          → (signable : SignableUserOperation) × (q.quote pass calls ≡ ok signable)
            × (proven_fee q.decode_fee signable ≡ ok fee))
      → available_after k input fee ≡ ok available
      → (quoted : Quoted k) × (quote_until_settled k q input ≡ ok quoted)
        × (quoted.fee ≡ fee)
        × IsSettled k q input quoted
  unfolding quote_until_settled quote_pass settled_or is_pending
  quote-settles fee available steady leaves =
      let first = steady 0 input.tails in
      let F = to_forward k input available in
      let calls = forward_calls k q input.tails input.forward_to F input.of_asset in
      let later = steady 1 calls in
      let start =
        pass_with-steady 0 fee available none input.tails _ first.0 first.1 first.2 leaves in
      let second =
        pass_with-steady 1 fee available (some F) calls _ later.0 later.1 later.2 leaves in
      let again : (not (is_some input.forward_to) || F == F) ≡ true =
        or_right (not (is_some input.forward_to)) (F == F) ((==_iff F F).1 refl) in
      elim (Bool-cases (not (is_some input.forward_to) || false)) [
        | inl e ↦
            let done : quote_until_settled k q input ≡ ok (settled_now input.tails first.0 fee F) =
              start ∙ rw e refl in
            (_, done, refl, quote_pass-IsSettled 2 0 none _ done)
        | inr e ↦
            let done : quote_until_settled k q input ≡ ok (settled_now calls later.0 fee F) =
              start ∙ rw e (second ∙ rw again refl) in
            (_, done, refl, quote_pass-IsSettled 2 0 none _ done)
      ]
