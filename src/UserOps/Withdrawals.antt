-- ===== src/UserOps/Withdrawals.antt =====
-- crates/core/src/vault/tornadocash/userop.rs: the quote of a withdrawal of ETH.
use desktop_wallet.Common.{
  ℕ, ◌+◌, ◌≤◌, ◌<◌, ◌≡◌, refl, ap, subst, true, Option, none, some, List, [], ◌∷◌, ◌==◌, ==_iff,
  total, total-append, unwrap_or, is_some, arith, inl, inr, Bool-cases,
}
use desktop_wallet.Common.Outcome.{Result, ok, >>=-eq-ok, ok-injective}
use desktop_wallet.Common.U256.{u256_mod, saturating_add}
use desktop_wallet.Pools.{Kohaku, TornadoNote}
use desktop_wallet.UserOps.{
  Quoter, UserOpCall, UserOpError, PaymasterWithdrawalRequest, QuotedWithdrawal, max_option,
  required_of, note_sum_of, quote_paymaster_withdrawal, value_sum, check_request, Quoted, input_of,
  withdrawal_of, quote_until_settled,
}
use desktop_wallet.UserOps.Sums.{quote-conserves, value_sum_exact}

abbrev pub worth : List UserOpCall → ℕ
worth calls = total (λ call. call.value) calls

max_option_above : (a : Option ℕ) (b : ℕ) → b ≤ unwrap_or (max_option a (some b)) 0
unfolding max_option
max_option_above none b = omega arith
max_option_above (some a) b = omega arith

note_sum_of_small :
    (k : Kohaku) (a : k.Asset) (notes : List (TornadoNote k.Pool))
    → note_sum_of k a notes < u256_mod
unfolding note_sum_of
note_sum_of_small k a [] = omega arith
note_sum_of_small k a (note ∷ notes) = elim (Bool-cases (k.asset_eq (k.asset note.pool) a)) [
  | inl e ↦ rw e (omega arith)
  | inr e ↦ rw e (note_sum_of_small k a notes)
]

-- what the tail calls of a withdrawal of ETH send is required
required_enough :
    (k : Kohaku) (request : PaymasterWithdrawalRequest k)
    → k.asset_eq request.for_asset k.eth ≡ true
    → value_sum request.tail_calls ≤ unwrap_or (required_of k request) 0
unfolding required_of
required_enough k request eth = elim (Bool-cases (value_sum request.tail_calls == 0)) [
  | inl e ↦
      let none_sent = (==_iff (value_sum request.tail_calls) 0).0 e in omega (arith, none_sent)
  | inr e ↦
      rw (required_of, eth, e)
        (max_option_above request.minimum_forward (value_sum request.tail_calls))
]

-- the fee and what is paid out are within the ETH of the notes
abbrev pub Balanced : (k : Kohaku) → PaymasterWithdrawalRequest k → QuotedWithdrawal k → Type 0
Balanced k request withdrawal =
    (paid : ℕ) × (withdrawal.paid_out ≡ some paid)
    × (withdrawal.quoted_fee + paid ≤ withdrawal.eth_sum)
    × (is_some request.forward ≡ true → withdrawal.quoted_fee + paid ≡ withdrawal.eth_sum)

quoted-conserves :
    (k : Kohaku) (q : Quoter) (request : PaymasterWithdrawalRequest k) (drawn : List UserOpCall)
    (quoted : Quoted k)
    → k.asset_eq request.for_asset k.eth ≡ true
    → worth drawn ≡ 0
    → worth request.tail_calls < u256_mod
    → quote_until_settled k q (input_of k request drawn) ≡ ok quoted
    → Balanced k request (withdrawal_of k request drawn quoted)
unfolding input_of withdrawal_of
quoted-conserves k q request drawn quoted eth nothing small made =
    let split = total-append (λ call. call.value) drawn request.tail_calls in
    let exact = value_sum_exact request.tail_calls small in
    let same : request.for_asset ≡ k.eth = (k.asset_eq_iff request.for_asset k.eth).0 eth in
    let enough = required_enough k request eth in
    let kept =
      quote-conserves k q (input_of k request drawn) quoted eth
        (omega (arith, split, nothing, small)) (omega (arith, split, nothing, enough, exact))
        made in
    let sums : note_sum_of k request.for_asset request.notes ≡ note_sum_of k k.eth request.notes =
      ap (λ a. note_sum_of k a request.notes) same in
    let bound = note_sum_of_small k k.eth request.notes in
    (
      saturating_add (value_sum request.tail_calls) (unwrap_or quoted.forwarded 0),
      rw eth refl,
      omega (arith, split, nothing, exact, kept.0, sums, bound),
      λ h. let all = kept.1 h in omega (arith, split, nothing, exact, kept.0, all, sums, bound),
    )

-- If the quote of a withdrawal of ETH succeeds, whose withdrawing calls send no ETH and whose tail
-- calls send less than 2^256 wei: what it pays out and its fee are within the ETH of the notes, and are all of
-- it if there is a forward.
pub paymaster-conserves :
    (k : Kohaku) (q : Quoter)
    (withdrawals : List (TornadoNote k.Pool) → Result UserOpError (List UserOpCall))
    (request : PaymasterWithdrawalRequest k) (withdrawal : QuotedWithdrawal k)
    → k.asset_eq request.for_asset k.eth ≡ true
    → ((drawn : List UserOpCall) → withdrawals request.notes ≡ ok drawn → worth drawn ≡ 0)
    → worth request.tail_calls < u256_mod
    → quote_paymaster_withdrawal k q withdrawals request ≡ ok withdrawal
    → Balanced k request withdrawal
unfolding quote_paymaster_withdrawal
paymaster-conserves k q withdrawals request withdrawal eth free small made =
    let a =
      >>=-eq-ok
        (check_request k request.for_asset request.notes request.forward request.tail_calls
          request.on_chain)
        _ made in
    let inputs = >>=-eq-ok q.withdrawal_inputs _ a.2 in
    let b = >>=-eq-ok (withdrawals request.notes) _ inputs.2 in
    let overrides = >>=-eq-ok q.seed_overrides _ b.2 in
    let c = >>=-eq-ok (quote_until_settled k q (input_of k request b.0)) _ overrides.2 in
    let done : withdrawal_of k request b.0 c.0 ≡ withdrawal = ok-injective refl c.2 in
    subst (Balanced k request) done
      (quoted-conserves k q request b.0 c.0 eth (free b.0 b.1) small c.1)
