-- ===== src/Broadcast.antt =====
-- crates/core/src/broadcast.rs, with crates/core/src/network/endpoint.rs and
-- crates/core/src/delegate/simple.rs: transactions that are filled in, signed, sent and waited for. The
-- state is the list of the transactions that the endpoint has taken, and its answers are a parameter
-- that depends on them; so are the signatures. Addresses and hashes are numbers.
pub mod Asking
pub mod Batches
pub mod Submitting
use desktop_wallet.Common.{
  ℕ, ◌+◌, ◌*◌, ◌≤◌, Bool, true, false, not, ◌&&◌, ◌||◌, Option, none, some, List, [], ◌∷◌, ◌++◌,
  ◌==◌, leb, if◌then◌else◌, length, is_some, unwrap_or,
}
use desktop_wallet.Common.Outcome.{Result, ok, err, ok_or}
use desktop_wallet.Common.U256.{◌+ᵤ◌, ◌*ᵤ◌}
use desktop_wallet.Exec.{Exec, return, fail, lift, gets, ◌>>=◌, ◌>>◌}
use desktop_wallet.Database.{Bytes}
use desktop_wallet.Assets.{Call}

pub data BroadcastError : Type 0 where
  network signer builder : BroadcastError
  network_mismatch wrong_signer : ℕ → ℕ → BroadcastError
  not_mined reverted : ℕ → BroadcastError

pub record SignedAuthorization : Type 0 where
  pub chain_id : ℕ
  pub address : ℕ
  pub nonce : ℕ
  pub signature : Bytes

pub record TransactionRequest : Type 0 where
  pub from : Option ℕ
  pub to : Option ℕ
  pub value : Option ℕ
  pub input : Option Bytes
  pub nonce : Option ℕ
  pub chain_id : Option ℕ
  pub gas : Option ℕ
  pub max_fee_per_gas : Option ℕ
  pub max_priority_fee_per_gas : Option ℕ
  pub authorization_list : List SignedAuthorization

pub record Envelope : Type 0 where
  pub request : TransactionRequest
  pub signature : Bytes

pub record Receipt : Type 0 where
  pub status : Bool
  pub gas_used : ℕ
  pub effective_gas_price : ℕ

-- the transactions that were taken, first to last
abbrev pub Log : Type 0
Log = List Envelope

-- What an endpoint answers, or that it fails; of a receipt, at each poll until the deadline.
pub record Node : Type 0 where
  pub network_id : Log → Option ℕ
  pub transaction_count : Log → ℕ → Option ℕ
  pub code_at : Log → ℕ → Option Bytes
  pub balance : Log → ℕ → Option ℕ
  pub estimate_fees : Log → Option (ℕ × ℕ)
  pub estimate_gas : Log → TransactionRequest → Option ℕ
  -- the call of `nonce()`, decoded
  pub delegate_nonce : Log → ℕ → Option ℕ
  pub send_transaction : Log → Envelope → Option ℕ
  pub polls : Log → ℕ → List (Option (Option Receipt))

-- a signer: of authorizations, of batches for a network and a nonce, and of transactions
pub record Signer : Type 0 where
  pub address : ℕ
  pub sign_authorization : ℕ → ℕ → ℕ → Option Bytes
  pub sign_batch : ℕ → ℕ → List Call → Option Bytes
  pub sign_transaction : TransactionRequest → Option Bytes

abbrev pub Op : Type 0 → Type 0
Op A = Exec Log BroadcastError A

unfoldable pub ask : {A : Type 0} → (Log → Option A) → Op A
ask f w = (ok_or network (f w), w)

abbrev pub default_request : TransactionRequest
default_request = record {
  from = none;
  to = none;
  value = none;
  input = none;
  nonce = none;
  chain_id = none;
  gas = none;
  max_fee_per_gas = none;
  max_priority_fee_per_gas = none;
  authorization_list = [];
}

-- `SIMPLE_DELEGATE_ADDRESS`
abbrev pub simple_delegate_address : ℕ
simple_delegate_address = 985828551815111230608573893841042194081070427338

-- a number of big-endian bytes
abbrev pub from_be : ℕ → Bytes → ℕ
from_be n [] = n
from_be n (b ∷ bs) = from_be (n * 256 + b) bs

-- the address behind the designator, if the code is that of a delegation
unfoldable pub designated : Bytes → Option ℕ
designated (a ∷ b ∷ c ∷ rest) =
    if a == 0xef && b == 1 && c == 0 && length rest == 20 then some (from_be 0 rest) else none
designated _ = none

unfoldable pub is_installed : Option ℕ → Bool
is_installed none = false
is_installed (some implementation) = implementation == simple_delegate_address

unfoldable pub poll : List (Option (Option Receipt)) → Result BroadcastError (Option Receipt)
poll [] = ok none
poll (none ∷ rest) = err network
poll (some (some receipt) ∷ rest) = ok (some receipt)
poll (some none ∷ rest) = poll rest

-- a transaction that is signed is taken or refused
unfoldable pub took : Envelope → Log → Option ℕ → Result BroadcastError ℕ × Log
took envelope w none = (err network, w)
took envelope w (some hash) = (ok hash, w ++ envelope ∷ [])

module _ (node : Node) where
  unfoldable pub verify_network_id : ℕ → Op Unit
  verify_network_id expected = do
    found ← ask node.network_id
    (if found == expected then return tt else fail (network_mismatch expected found))

  unfoldable pub delegation_of : ℕ → Op (Option ℕ)
  delegation_of account = do code ← ask (λ w. node.code_at w account); return (designated code)

  unfoldable pub has_activity : ℕ → Op Bool
  has_activity account = do
    count ← ask (λ w. node.transaction_count w account)
    (if not (count == 0)
        then return true
        else (ask (λ w. node.code_at w account) >>= λ code.
            (if not (length code == 0)
              then return true
              else (ask (λ w. node.balance w account) >>= λ balance. return (not (balance == 0))))))

  unfoldable pub unpriced_gas :
      Log → TransactionRequest → ℕ → BroadcastError → Result BroadcastError ℕ
  unpriced_gas w tx sender refused =
      let unpriced = record tx { max_fee_per_gas = none; max_priority_fee_per_gas = none } in
      elim (node.estimate_gas w unpriced) [
        | none ↦ err refused
        | some gas_limit ↦
            let cost = unwrap_or tx.value 0 +ᵤ gas_limit *ᵤ unwrap_or tx.max_fee_per_gas 0 in
            elim (node.balance w sender) [
              | none ↦ err network
              | some balance ↦ if leb cost balance then err refused else ok gas_limit
            ]
      ]

  unfoldable pub gas_on : Log → TransactionRequest → ℕ → Result BroadcastError ℕ
  gas_on w tx sender = elim (node.estimate_gas w tx) [
    | some gas_limit ↦ ok gas_limit
    | none ↦ unpriced_gas w tx sender network
  ]

  unfoldable pub gas_of : TransactionRequest → ℕ → Op ℕ
  gas_of tx sender w = (gas_on w tx sender, w)

  unfoldable pub fill_transaction : TransactionRequest → ℕ → Op TransactionRequest
  fill_transaction tx sender = do
    nonce ← ask (λ w. node.transaction_count w sender)
    network_id ← ask node.network_id
    fees ← ask node.estimate_fees
    let priced = record tx {
      from = some sender;
      nonce = some nonce;
      chain_id = some network_id;
      max_fee_per_gas = some fees.0;
      max_priority_fee_per_gas = some fees.1;
    }
    gas_limit ← gas_of priced sender
    return (record priced { gas = some gas_limit })

  unfoldable pub await_receipt : ℕ → Op (Option Receipt)
  await_receipt tx w = (poll (node.polls w tx), w)

  unfoldable pub authorize_implementation : Signer → ℕ → ℕ → Op SignedAuthorization
  authorize_implementation by nonce implementation = do
    network_id ← ask node.network_id
    signature ← lift (ok_or signer (by.sign_authorization network_id implementation nonce))
    return (record {
      chain_id = network_id;
      address = implementation;
      nonce = nonce;
      signature = signature;
    })

  unfoldable pub on_chain_nonce : ℕ → Op ℕ
  on_chain_nonce account = ask (λ w. node.delegate_nonce w account)

  unfoldable pub offer : Envelope → Op ℕ
  offer envelope w = took envelope w (node.send_transaction w envelope)

  unfoldable pub send_filled : Signer → TransactionRequest → Op ℕ
  send_filled by filled = do
    signature ← lift (ok_or builder (by.sign_transaction filled))
    offer (record { request = filled; signature = signature })

  unfoldable pub send : Signer → TransactionRequest → Op ℕ
  send by tx = do filled ← fill_transaction tx by.address; send_filled by filled

  unfoldable pub wait_mined : ℕ → Op Receipt
  wait_mined tx = do
    receipt ← await_receipt tx
    elim receipt [
      | none ↦ fail (not_mined tx)
      | some receipt' ↦ if receipt'.status then return receipt' else fail (reverted tx)
    ]

  unfoldable pub prepare_call : ℕ → Call → Op TransactionRequest
  prepare_call sender call =
      fill_transaction
        (record default_request {
          to = some call.target;
          value = some call.value;
          input = some call.data_bytes;
        })
        sender

  -- the hash, and the fee paid
  unfoldable pub submit_prepared : Signer → TransactionRequest → Op (ℕ × ℕ)
  submit_prepared by prepared =
      if unwrap_or prepared.from 0 == by.address
      then (send_filled by prepared >>= λ hash. wait_mined hash >>= λ receipt.
          return (hash, receipt.gas_used *ᵤ receipt.effective_gas_price))
      else fail (wrong_signer (unwrap_or prepared.from 0) by.address)

  unfoldable pub submit_call : Signer → Call → Op ℕ
  submit_call by call = do
    prepared ← prepare_call by.address call
    included ← submit_prepared by prepared
    return included.0

  unfoldable pub authorize_self : Signer → Op Unit
  authorize_self by = do
    count ← ask (λ w. node.transaction_count w by.address)
    auth ← authorize_implementation by (count + 1) simple_delegate_address
    hash ← send by (record default_request { to = some 0; authorization_list = auth ∷ [] })
    wait_mined hash >> return tt

  -- the authorization that a batch carries
  unfoldable pub carried : Signer → Bool → Op (List SignedAuthorization)
  carried context carries =
      if carries
      then (ask (λ w. node.transaction_count w context.address) >>= λ count.
          authorize_implementation context count simple_delegate_address >>= λ auth.
          return (auth ∷ []))
      else return []

  -- the nonce of a batch, after the account has authorized the delegate itself if it has to
  unfoldable pub batch_nonce : Signer → Bool → Bool → Op ℕ
  batch_nonce context installed alone = do
    (if not installed && alone then authorize_self context else return tt)
    (if installed || alone then on_chain_nonce context.address else return 0)

  unfoldable pub submit_batch : Signer → Signer → List Call → Op ℕ
  submit_batch context payer calls = do
    network_id ← ask node.network_id
    delegated ← delegation_of context.address
    let installed = is_installed delegated
    let alone = payer.address == context.address
    nonce ← batch_nonce context installed alone
    data_bytes ← lift (ok_or signer (context.sign_batch network_id nonce calls))
    auths ← carried context (not installed && not alone)
    hash ← send payer (record default_request {
      to = some context.address;
      value = some 0;
      input = some data_bytes;
      authorization_list = auths;
    })
    wait_mined hash
    return hash
