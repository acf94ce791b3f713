-- ===== src/UserOps.antt =====
-- crates/core/src/vault/tornadocash/userop.rs and the padding of estimation.rs: the user operation
-- that withdraws notes, pays its fee to a paymaster, and forwards what remains. The user operation
-- kit, its paymaster, the proofs and the encoding of calls are parameters. A fee that a message
-- prints is kept as its number.
pub mod Quotes
pub mod Sums
pub mod Limits
pub mod Withdrawals
use Prim.Native.String.{String}
use desktop_wallet.Common.{
  ℕ, zero, suc, ◌+◌, ◌-◌, ◌*◌, ◌/◌, ◌^◌, Bool, true, false, not, ◌&&◌, ◌||◌, Option, none, some,
  List, [], ◌∷◌, ◌++◌, ◌==◌, if◌then◌else◌, ltb, max, min, any, keep, drop, map, length, unwrap_or,
  is_some,
}
use desktop_wallet.Common.Outcome.{Result, ok, err, ok_or, ◌>>=◌}
use desktop_wallet.Common.U256.{◌+ᵤ◌, ◌*ᵤ◌, checked_sub, saturating_sub, saturating_add}
use desktop_wallet.Database.{Bytes}
use desktop_wallet.Pools.{Kohaku, TornadoNote}

abbrev pub fee_attempts : ℕ
fee_attempts = 3

pub record UserOpCall : Type 0 where
  pub target : ℕ
  pub value : ℕ
  pub call_data : Bytes

pub data UserOpError : Type 0 where
  invalid : String → UserOpError
  simulation : UserOpError
  empty : UserOpError
  missing_paymaster : String → UserOpError
  short : ℕ → ℕ → ℕ → UserOpError
  forward_with_tail_calls : UserOpError
  gas_rose : UserOpError
  unstable : ℕ → UserOpError
  fee_missing : UserOpError
  fee_decode : UserOpError
  reverted : UserOpError
  unmeasured : UserOpError
  vault : UserOpError
  paymaster_failed smart_account bundler sign : UserOpError

-- the gas limits of a user operation, and the bundler's estimate of them
pub record Gas : Type 0 where
  pub call_gas_limit : ℕ
  pub verification_gas_limit : ℕ
  pub pre_verification_gas : ℕ
  pub paymaster_verification_gas_limit : Option ℕ
  pub paymaster_post_op_gas_limit : Option ℕ

pub record SignableUserOperation : Type 0 where
  pub gas : Gas
  pub max_fee_per_gas : ℕ
  pub paymaster_data : Option Bytes
  pub calls_encoded : List UserOpCall

-- `Option::max`: nothing is below a number
unfoldable pub max_option : Option ℕ → Option ℕ → Option ℕ
max_option none b = b
max_option (some a) none = some a
max_option (some a) (some b) = some (max a b)

unfoldable pub raise_gas : Gas → Gas → Gas
raise_gas g proven = record {
  call_gas_limit = max g.call_gas_limit proven.call_gas_limit;
  verification_gas_limit = max g.verification_gas_limit proven.verification_gas_limit;
  pre_verification_gas = max g.pre_verification_gas proven.pre_verification_gas;
  paymaster_verification_gas_limit =
      max_option g.paymaster_verification_gas_limit proven.paymaster_verification_gas_limit;
  paymaster_post_op_gas_limit =
      max_option g.paymaster_post_op_gas_limit proven.paymaster_post_op_gas_limit;
}

-- `fits`, with the operation as it leaves it. `total_gas_limit` is that of the kit.
unfoldable pub fits : (Gas → ℕ) → SignableUserOperation → Gas → ℕ → Bool × SignableUserOperation
fits total_gas_limit op proven fee =
    let raised = raise_gas op.gas proven in
    let cost = total_gas_limit raised *ᵤ op.max_fee_per_gas in
    if ltb fee cost then (false, op) else (true, record op { gas = raised })

-- `pad`, on 128-bit numbers
unfoldable pub pad : ℕ → ℕ
pad gas = min (min (gas + gas / 5) (2 ^ 128 - 1) + 1) (2 ^ 128 - 1)

unfoldable pub pad_option : Option ℕ → Option ℕ
pad_option none = none
pad_option (some gas) = some (pad gas)

-- what `FundingBundler::estimate_gas` makes of an estimate
unfoldable pub pad_gas : Gas → Gas
pad_gas g = record {
  call_gas_limit = pad g.call_gas_limit;
  verification_gas_limit = pad g.verification_gas_limit;
  pre_verification_gas = pad g.pre_verification_gas;
  paymaster_verification_gas_limit = pad_option g.paymaster_verification_gas_limit;
  paymaster_post_op_gas_limit = pad_option g.paymaster_post_op_gas_limit;
}

-- `settle`
unfoldable pub settle : ℕ → Option ℕ → ℕ → ℕ → Option (ℕ × ℕ)
settle sum paid_out before after = elim (checked_sub after before) [
  | none ↦ none
  | some change ↦ elim (checked_sub sum (unwrap_or paid_out 0)) [
    | none ↦ none
    | some left ↦ elim (checked_sub left change) [ none ↦ none | some fee ↦ some (fee, change) ]
  ]
]

-- `iter().map(|call| call.value).sum()`
unfoldable pub value_sum : List UserOpCall → ℕ
value_sum [] = 0
value_sum (call ∷ calls) = call.value +ᵤ value_sum calls

module _ (decode_fee : Bytes → Option ℕ) where
  -- `proven_fee` and `paymaster_fee`
  unfoldable pub paymaster_fee : Bytes → Result UserOpError ℕ
  paymaster_fee bytes = ok_or fee_decode (decode_fee bytes)

  unfoldable pub proven_fee : SignableUserOperation → Result UserOpError ℕ
  proven_fee op = elim op.paymaster_data [
    | none ↦ err fee_missing
    | some bytes ↦ paymaster_fee bytes
  ]

-- What the quotes use: the encoding of an ERC-20 transfer, the decoding of the fee, whether the inputs
-- of the sponsor's proof and the overrides of its simulation are had, which go into the quotes, and the
-- quote of the kit and its paymaster in each pass for some calls.
pub record Quoter : Type 0 where
  pub encode_transfer : ℕ → ℕ → Bytes
  pub decode_fee : Bytes → Option ℕ
  pub withdrawal_inputs : Result UserOpError Unit
  pub seed_overrides : Result UserOpError Unit
  pub quote : ℕ → List UserOpCall → Result UserOpError SignableUserOperation

-- `pending_forward == Some(to_forward)`
unfoldable pub is_pending : Option ℕ → ℕ → Bool
is_pending none forward = false
is_pending (some pending) forward = pending == forward

module _ (k : Kohaku) where
  open k use {Pool, Asset, asset_eq, eth, token, id, chain_id, asset, amount_wei, paymaster}

  pub record QuoteInput : Type 0 where
    pub tails : List UserOpCall
    pub sum : ℕ
    pub of_asset : Asset
    pub forward_to : Option ℕ
    pub required : Option ℕ

  pub record Quoted : Type 0 where
    pub signable : SignableUserOperation
    pub calls : List UserOpCall
    pub fee : ℕ
    pub forwarded : Option ℕ

  -- `forward_calls`
  unfoldable pub forward_call : Quoter → ℕ → ℕ → Asset → UserOpCall
  forward_call q to available a = elim (token a) [
    | some t ↦ record { target = t; value = 0; call_data = q.encode_transfer to available }
    | none ↦ record { target = to; value = available; call_data = [] }
  ]

  unfoldable pub forward_calls : Quoter → List UserOpCall → Option ℕ → ℕ → Asset → List UserOpCall
  forward_calls q tails none available a = tails
  forward_calls q tails (some to) available a =
      if available == 0 then tails else tails ++ forward_call q to available a ∷ []

  -- what the notes leave after the fee, if it covers what is required
  unfoldable pub available_after : QuoteInput → ℕ → Result UserOpError ℕ
  available_after input fee =
      let asset_fee = if asset_eq input.of_asset eth then fee else 0 in
      ok_or (short fee 0 (unwrap_or input.required 0)) (checked_sub input.sum asset_fee)
      >>= λ available.
          if is_some input.required && ltb available (unwrap_or input.required 0)
          then err (short fee available (unwrap_or input.required 0))
          else ok available

  unfoldable pub to_forward : QuoteInput → ℕ → ℕ
  to_forward input available =
      if asset_eq input.of_asset eth
      then saturating_sub available (value_sum input.tails)
      else available

  -- the end of a pass: the quote is settled, or `again` takes the fee and the forward
  unfoldable pub settled_or :
      QuoteInput
      → List UserOpCall
      → Option ℕ
      → SignableUserOperation
      → ℕ
      → ℕ
      → (ℕ → ℕ → Result UserOpError Quoted)
      → Result UserOpError Quoted
  settled_or input calls pending signable fee available again =
      let forward = to_forward input available in
      if not (is_some input.forward_to) || is_pending pending forward
      then ok (record {
        signable = signable;
        calls = calls;
        fee = fee;
        forwarded = elim input.forward_to [ none ↦ none | some to ↦ some forward ];
      })
      else again fee forward

  -- a pass of `quote_until_settled`
  unfoldable pub pass_with :
      Quoter
      → QuoteInput
      → ℕ
      → List UserOpCall
      → Option ℕ
      → (ℕ → ℕ → Result UserOpError Quoted)
      → Result UserOpError Quoted
  pass_with q input pass calls pending again = q.quote pass calls >>= λ signable.
      proven_fee q.decode_fee signable >>= λ fee. available_after input fee >>= λ available.
      settled_or input calls pending signable fee available again

  -- the passes of `quote_until_settled`, of which `left` are left after this one
  unfoldable pub quote_pass :
      Quoter → QuoteInput → ℕ → ℕ → List UserOpCall → Option ℕ → Result UserOpError Quoted
  quote_pass q input zero pass calls pending =
      pass_with q input pass calls pending (λ fee forward. err (unstable fee))
  quote_pass q input (suc left) pass calls pending =
      pass_with q input pass calls pending (λ fee forward.
        quote_pass q input left (suc pass)
          (forward_calls q input.tails input.forward_to forward input.of_asset) (some forward))

  unfoldable pub quote_until_settled : Quoter → QuoteInput → Result UserOpError Quoted
  quote_until_settled q input = quote_pass q input (fee_attempts - 1) 0 input.tails none

  -- the tests of `quote_paymaster_withdrawal` on its request, with the sponsor
  unfoldable pub check_request :
      Asset
      → List (TornadoNote Pool)
      → Option ℕ
      → List UserOpCall
      → ℕ
      → Result UserOpError (TornadoNote Pool)
  check_request a [] forward_to tail_calls chain = err empty
  check_request a (sponsor ∷ others) forward_to tail_calls chain =
      if not (asset_eq (asset sponsor.pool) eth)
      then err (missing_paymaster (id sponsor.pool))
      else if not (is_some (paymaster sponsor.pool))
      then err (missing_paymaster (id sponsor.pool))
      else if is_some forward_to && not (length tail_calls == 0) && not (asset_eq a eth)
      then err forward_with_tail_calls
      else if any (λ note. not (chain_id note.pool == chain)) (sponsor ∷ others)
          || any (λ note. not (asset_eq (asset note.pool) a)) others
      then err (invalid "notes belong to another chain or asset")
      else if not (asset_eq a eth) && any (λ call. not (call.value == 0)) tail_calls
      then err (invalid "ERC-20 tail calls cannot spend ETH")
      else ok sponsor

  -- the sum of the notes of an asset
  unfoldable pub note_sum_of : Asset → List (TornadoNote Pool) → ℕ
  note_sum_of a [] = 0
  note_sum_of a (note ∷ notes) =
      let rest = note_sum_of a notes in
      if asset_eq (asset note.pool) a then amount_wei note.pool +ᵤ rest else rest

  -- the request of `quote_paymaster_withdrawal`
  pub record PaymasterWithdrawalRequest : Type 0 where
    pub for_asset : Asset
    pub notes : List (TornadoNote Pool)
    pub forward : Option ℕ
    pub minimum_forward : Option ℕ
    pub tail_calls : List UserOpCall
    pub on_chain : ℕ

  -- the parts of `QuotedWithdrawal` that the quote computes
  pub record QuotedWithdrawal : Type 0 where
    pub quoted_fee : ℕ
    pub forwarded_sum : Option ℕ
    pub eth_sum : ℕ
    pub after_withdrawals : List UserOpCall
    pub paid_out : Option ℕ
    pub operation : SignableUserOperation

  -- `minimum_forward.max(...)`
  unfoldable pub required_of : PaymasterWithdrawalRequest → Option ℕ
  required_of request =
      let spend = value_sum request.tail_calls in
      max_option request.minimum_forward
        (if asset_eq request.for_asset eth && not (spend == 0) then some spend else none)

  -- the input of the quote, after the calls that withdraw notes
  unfoldable pub input_of : PaymasterWithdrawalRequest → List UserOpCall → QuoteInput
  input_of request drawn = record {
    tails = drawn ++ request.tail_calls;
    sum = note_sum_of request.for_asset request.notes;
    of_asset = request.for_asset;
    forward_to = request.forward;
    required = required_of request;
  }

  unfoldable pub withdrawal_of :
      PaymasterWithdrawalRequest → List UserOpCall → Quoted → QuotedWithdrawal
  withdrawal_of request drawn quoted = record {
    quoted_fee = quoted.fee;
    forwarded_sum = quoted.forwarded;
    eth_sum = note_sum_of eth request.notes;
    after_withdrawals = drop (length drawn) quoted.calls;
    paid_out =
        if asset_eq request.for_asset eth
        then some (saturating_add (value_sum request.tail_calls) (unwrap_or quoted.forwarded 0))
        else none;
    operation = quoted.signable;
  }

  -- `quote_paymaster_withdrawal`; `withdrawals` gives the calls that withdraw every note but the
  -- sponsor's, with placeholder proofs for ETH and with real ones for a token
  unfoldable pub quote_paymaster_withdrawal :
      Quoter
      → (List (TornadoNote Pool) → Result UserOpError (List UserOpCall))
      → PaymasterWithdrawalRequest
      → Result UserOpError QuotedWithdrawal
  quote_paymaster_withdrawal q withdrawals request =
      check_request request.for_asset request.notes request.forward request.tail_calls
        request.on_chain
      >>= λ sponsor. q.withdrawal_inputs >>= λ inputs. withdrawals request.notes >>= λ drawn.
          q.seed_overrides >>= λ overrides.
          quote_until_settled q (input_of request drawn) >>= λ quoted.
          ok (withdrawal_of request drawn quoted)

-- `IncludedWithdrawal::measure`, with the balance of the fresh address at a block, and the block of
-- the receipt
unfoldable pub measure : (ℕ → Option ℕ) → Option ℕ → ℕ → Option ℕ → Result UserOpError (ℕ × ℕ)
measure balance_at block sum paid_out = ok_or unmeasured block >>= λ number.
    ok_or unmeasured (balance_at (saturating_sub number 1)) >>= λ before.
    ok_or unmeasured (balance_at number) >>= λ after.
    ok_or unmeasured (settle sum paid_out before after)
