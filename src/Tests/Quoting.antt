-- ===== src/Tests/Quoting.antt =====
-- The theorems on user operations, at concrete inputs.
use desktop_wallet.Common.{
  ℕ, subst, ◌+◌, ◌*◌, ◌≤◌, ◌<◌, ◌≡◌, ◌⊎◌, ◌↔◌, refl, true, false, none, some, List, [], ◌∷◌,
  unwrap_or, arith,
}
use desktop_wallet.Common.Outcome.{Result, ok, ok-injective}
use desktop_wallet.Pools.{TornadoNote}
use desktop_wallet.UserOps.{
  Quoter, QuoteInput, Quoted, UserOpCall, UserOpError, SignableUserOperation, Gas,
  quote_until_settled, fits, settle, PaymasterWithdrawalRequest, QuotedWithdrawal,
  quote_paymaster_withdrawal, check_request, available_after, quote_pass, pass_with, settled_or,
  proven_fee, paymaster_fee, to_forward, is_pending, forward_calls, forward_call, value_sum,
  max_option, required_of, note_sum_of, input_of, withdrawal_of,
}
use desktop_wallet.UserOps.Quotes.{IsSettled, quote-settles}
use desktop_wallet.UserOps.Sums.{settle_iff}
use desktop_wallet.UserOps.Limits.{Raised, fits-covers}
use desktop_wallet.UserOps.Withdrawals.{paymaster-conserves, Balanced, worth}
use desktop_wallet.Tests.{library, note}

abbrev gas : Gas
gas = record {
  call_gas_limit = 1;
  verification_gas_limit = 1;
  pre_verification_gas = 1;
  paymaster_verification_gas_limit = some 1;
  paymaster_post_op_gas_limit = none;
}

abbrev operation : SignableUserOperation
operation = record {
  gas = gas;
  max_fee_per_gas = 2;
  paymaster_data = some (3 ∷ []);
  calls_encoded = [];
}

-- every quote has the fee 3
abbrev quoter : Quoter
quoter = record {
  encode_transfer = λ to amount. to ∷ amount ∷ [];
  decode_fee = λ bytes. some 3;
  withdrawal_inputs = ok tt;
  seed_overrides = ok tt;
  quote = λ pass calls. ok (record operation { calls_encoded = calls });
}

abbrev tail : UserOpCall
tail = record { target = 8; value = 2; call_data = [] }

abbrev input : QuoteInput library
input = record { tails = tail ∷ []; sum = 10; of_asset = 0; forward_to = some 5; required = some 2 }

quote-settles_example :
    (quoted : Quoted library) × (quote_until_settled library quoter input ≡ ok quoted)
    × (quoted.fee ≡ 3)
    × IsSettled library quoter input quoted
unfolding proven_fee paymaster_fee available_after
quote-settles_example =
    quote-settles library quoter input 3 7
      (λ pass calls. (record operation { calls_encoded = calls }, refl, refl)) refl

abbrev request : PaymasterWithdrawalRequest library
request = record {
  for_asset = 0;
  notes = note 9 3 ∷ note 4 1 ∷ [];
  forward = some 5;
  minimum_forward = none;
  tail_calls = tail ∷ [];
  on_chain = 1;
}

-- the note behind the sponsor's is withdrawn by one call
abbrev drawing : UserOpCall
drawing = record { target = 6; value = 0; call_data = 1 ∷ [] }

abbrev withdrawals : List (TornadoNote ℕ) → Result UserOpError (List UserOpCall)
withdrawals notes = ok (drawing ∷ [])

abbrev forwarding : UserOpCall
forwarding = record { target = 5; value = 10; call_data = [] }

abbrev withdrawal : QuotedWithdrawal library
withdrawal = record {
  quoted_fee = 3;
  forwarded_sum = some 10;
  eth_sum = 15;
  after_withdrawals = tail ∷ forwarding ∷ [];
  paid_out = some 12;
  operation = record operation { calls_encoded = drawing ∷ tail ∷ forwarding ∷ [] };
}

drawn_free : (drawn : List UserOpCall) → withdrawals request.notes ≡ ok drawn → worth drawn ≡ 0
drawn_free drawn e = subst (λ t. worth t ≡ 0) (ok-injective refl e) refl

paymaster-conserves_example : Balanced library request withdrawal
unfolding quote_paymaster_withdrawal check_request input_of quote_until_settled quote_pass pass_with
    settled_or proven_fee paymaster_fee available_after to_forward is_pending forward_calls
    forward_call value_sum max_option required_of note_sum_of withdrawal_of
paymaster-conserves_example =
    paymaster-conserves library quoter withdrawals request withdrawal refl drawn_free (omega arith)
      refl

settle_iff_example :
    (settle 15 (some 10) 1 3 ≡ some (3, 2)) ↔ ((1 + 2 ≡ 3) × (3 + unwrap_or (some 10) 0 + 2 ≡ 15))
settle_iff_example = settle_iff 15 1 3 3 2 (some 10)

abbrev more_gas : Gas
more_gas = record gas { call_gas_limit = 4; paymaster_post_op_gas_limit = some 2 }

abbrev five : Gas → ℕ
five g = 5

fits-covers_example :
    (raised : Gas) × Raised operation.gas more_gas raised
    × (((fits five operation more_gas 10 ≡ (true, record operation { gas = raised }))
          × (five raised * operation.max_fee_per_gas ≤ 10))
        ⊎ ((fits five operation more_gas 10 ≡ (false, operation))
            × (10 < five raised * operation.max_fee_per_gas)))
fits-covers_example = fits-covers five operation more_gas 10 (λ g. omega arith) (omega arith)
