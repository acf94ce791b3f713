-- ===== src/Broadcast/Batches.antt =====
-- crates/core/src/broadcast.rs: the two transactions that `submit_batch` may send.
use mathlib.Core.List.{append-nil}
use desktop_wallet.Common.{
  ℕ, ◌+◌, ◌≡◌, ◌∙◌, refl, sym, Bool, true, false, some, List, [], ◌∷◌, ◌++◌, All,
}
use desktop_wallet.Common.Outcome.{ok_or}
use desktop_wallet.Exec.{return, lift, ◌>>=◌}
use desktop_wallet.Exec.Runs.{Runs, Runs-bind, Runs-given, Runs-weaken, Runs-return}
use desktop_wallet.Database.{Bytes}
use desktop_wallet.Assets.{Call}
use desktop_wallet.Broadcast.{
  SignedAuthorization, TransactionRequest, Envelope, Log, Node, Signer, Op, signer, default_request,
  simple_delegate_address, send, wait_mined, authorize_self, carried,
}
use desktop_wallet.Broadcast.Asking.{
  At, ask-Runs, given-Runs, Authorizes, authorize_implementation-Runs, Takes, Sends, send-Runs,
  wait_mined-Runs,
}

-- the request of a transaction that only carries an authorization
abbrev pub delegating : SignedAuthorization → TransactionRequest
delegating auth = record default_request { to = some 0; authorization_list = auth ∷ [] }

abbrev pub batching : ℕ → Bytes → List SignedAuthorization → TransactionRequest
batching account data_bytes auths = record default_request {
  to = some account;
  value = some 0;
  input = some data_bytes;
  authorization_list = auths;
}

module _ (node : Node) (context payer : Signer) (s : Log) where
  -- the transaction by which an account delegates itself: its authorization is for the nonce that
  -- follows the transaction's
  abbrev pub SelfDelegates : Envelope → Type 0
  SelfDelegates e =
      (auth : SignedAuthorization) × (count : ℕ) × (node.transaction_count s context.address
        ≡ some count)
      × Authorizes node s context simple_delegate_address (count + 1) auth
      × Sends node s context (delegating auth) e

  -- what was sent to no end: at most these transactions, all from one account
  abbrev pub OnlyFrom : ℕ → Log → Type 0
  OnlyFrom account w =
      (sent : List Envelope) × (w ≡ s ++ sent) × All (λ e. e.request.from ≡ some account) sent

  pub nothing_sent : (account : ℕ) (w : Log) → At s w → OnlyFrom account w
  nothing_sent account w h = ([], h ∙ sym (append-nil s), tt)

  one_sent :
      (by : Signer) (tx : TransactionRequest) (w : Log) (e : Envelope)
      → Sends node s by tx e
      → Takes node s e w
      → OnlyFrom by.address w
  one_sent by tx w e sends taken = (e ∷ [], taken, (sends.0.0, tt))

  pub authorize_self-Runs :
      Runs
        (At s)
        (authorize_self node context)
        (λ _ w. (e : Envelope) × SelfDelegates e × Takes node s e w)
        (OnlyFrom context.address)
  unfolding authorize_self
  authorize_self-Runs =
      Runs-bind _ _
        (Runs-weaken (λ w h. h) (λ a w h. h) (nothing_sent context.address)
          (ask-Runs s (λ w. node.transaction_count w context.address)))
        (λ count. Runs-given (λ counted.
          Runs-bind _ _
            (Runs-weaken (λ w h. h) (λ a w h. h) (nothing_sent context.address)
              (authorize_implementation-Runs node s context (count + 1) simple_delegate_address))
            (λ auth. Runs-given (λ authorized.
              Runs-bind _ _
                (Runs-weaken (λ w h. h) (λ a w h. h) (nothing_sent context.address)
                  (send-Runs node s context (delegating auth)))
                (λ hash.
                  Runs-bind _ _
                    (Runs-weaken (λ w h. h) (λ a w h. h)
                      (λ w h. one_sent context (delegating auth) w h.0 h.1 h.2)
                      (wait_mined-Runs node
                        (λ w.
                          (e : Envelope) × Sends node s context (delegating auth) e
                          × Takes node s e w)
                        hash))
                    (λ r.
                      Runs-return tt
                        (λ w h. (h.1.0, (auth, count, counted, authorized, h.1.1), h.1.2))))))))

  -- a batch for a nonce, with the authorizations it carries
  abbrev pub Batches : ℕ → List Call → ℕ → List SignedAuthorization → Envelope → Type 0
  Batches chain_id calls nonce auths e =
      (data_bytes : Bytes) × (context.sign_batch chain_id nonce calls ≡ some data_bytes)
      × Sends node s payer (batching context.address data_bytes auths) e

  -- an authorization for the next nonce of an account that does not send the transaction
  abbrev pub Carries : Bool → List SignedAuthorization → Type 0
  Carries false auths = auths ≡ []
  Carries true auths =
      (auth : SignedAuthorization) × (count : ℕ) × (node.transaction_count s context.address
        ≡ some count)
      × Authorizes node s context simple_delegate_address count auth
      × (auths ≡ auth ∷ [])

  carried-Runs :
      (c : Bool) → Runs (At s) (carried node context c) (λ auths w. Carries c auths × At s w) (At s)
  unfolding carried
  carried-Runs false = Runs-return [] (λ w h. (refl, h))
  carried-Runs true =
      Runs-bind _ _ (ask-Runs s (λ w. node.transaction_count w context.address)) (λ count.
        Runs-given (λ counted.
          Runs-bind _ _ (authorize_implementation-Runs node s context count simple_delegate_address)
            (λ auth. Runs-given (λ authorized.
              Runs-return _ (λ w h. ((auth, count, counted, authorized, refl), h))))))

  -- the batch is signed, sent and mined
  abbrev pub Batched : ℕ → List Call → Bool → ℕ → Log → Type 0
  Batched chain_id calls c nonce w =
      (auths : List SignedAuthorization) × (e : Envelope) × Carries c auths
      × Batches chain_id calls nonce auths e
      × Takes node s e w

  abbrev pub send_batch : ℕ → List Call → Bool → ℕ → Op ℕ
  send_batch chain_id calls c nonce =
      lift (ok_or signer (context.sign_batch chain_id nonce calls)) >>= λ data_bytes.
      carried node context c >>= λ auths.
      send node payer (batching context.address data_bytes auths) >>= λ hash.
      wait_mined node hash >>= λ _. return hash

  pub send_batch-Runs :
      (chain_id : ℕ) (calls : List Call) (c : Bool) (nonce : ℕ)
      → Runs
          (At s)
          (send_batch chain_id calls c nonce)
          (λ _. Batched chain_id calls c nonce)
          (OnlyFrom payer.address)
  send_batch-Runs chain_id calls c nonce =
      Runs-bind _ _
        (Runs-weaken (λ w h. h) (λ a w h. h) (nothing_sent payer.address) (given-Runs s _ _))
        (λ data_bytes. Runs-given (λ signed.
          Runs-bind _ _
            (Runs-weaken (λ w h. h) (λ a w h. h) (nothing_sent payer.address) (carried-Runs c))
            (λ auths. Runs-given (λ carries.
              Runs-bind _ _
                (Runs-weaken (λ w h. h) (λ a w h. h) (nothing_sent payer.address)
                  (send-Runs node s payer (batching context.address data_bytes auths)))
                (λ hash.
                  Runs-bind _ _
                    (Runs-weaken (λ w h. h) (λ a w h. h)
                      (λ w h.
                        one_sent payer (batching context.address data_bytes auths) w h.0 h.1 h.2)
                      (wait_mined-Runs node
                        (λ w.
                          (e : Envelope) × Sends node s payer
                            (batching context.address data_bytes auths) e
                          × Takes node s e w)
                        hash))
                    (λ r.
                      Runs-return hash
                        (λ w h. (auths, h.1.0, carries, (data_bytes, signed, h.1.1), h.1.2))))))))
