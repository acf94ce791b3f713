-- ===== src/Broadcast/Asking.antt =====
-- crates/core/src/network/endpoint.rs and crates/core/src/broadcast.rs: what the steps of sending a
-- transaction ask for and send.
use desktop_wallet.Common.{
  ℕ, ◌≡◌, refl, sym, ap, subst, true, Option, none, some, [], ◌∷◌, ◌++◌, inl, inr, Option-cases,
}
use desktop_wallet.Common.Outcome.{Result, ok, err, ok_or, ok-injective}
use desktop_wallet.Exec.{lift}
use desktop_wallet.Exec.Runs.{
  Runs, Post, Runs-bind, Runs-given, Runs-weaken, Runs-return, Runs-lift, Runs-fail, Runs-test,
}
use desktop_wallet.Broadcast.{
  BroadcastError, SignedAuthorization, TransactionRequest, Envelope, Log, Node, Signer, ask,
  network, gas_of, gas_on, took, fill_transaction, poll, await_receipt, authorize_implementation,
  offer, send_filled, send, wait_mined,
}

-- the log is this one
abbrev pub At : Log → Log → Type 0
At s w = w ≡ s

to_some : {A : Type 0} (e : BroadcastError) (o : Option A) (a : A) → ok_or e o ≡ ok a → o ≡ some a
to_some e none a h = absurd (cc)
to_some e (some b) a h = ap some (ok-injective refl h)

-- a step that leaves the log
read_only :
    {A : Type 0} (P : Log → Type 0) (w : Log)
    → P w
    → (r : Result BroadcastError A) → Post (λ _. P) P (r, w)
read_only P w h (ok a) = h
read_only P w h (err e) = h

module _ (s : Log) where
  answered :
      {A : Type 0} (f : Log → Option A) (w : Log)
      → At s w
      → (o : Option A) → f w ≡ o
      → Post (λ a v. (f s ≡ some a) × At s v) (At s) (ok_or network o, w)
  answered f w h none e = h
  answered f w h (some a) e = (subst (λ v. f v ≡ some a) h e, h)

  pub ask-Runs :
      {A : Type 0} (f : Log → Option A)
      → Runs (At s) (ask f) (λ a w. (f s ≡ some a) × At s w) (At s)
  unfolding ask
  ask-Runs f = record { at = λ w h. answered f w h (f w) refl }

  pub given-Runs :
      {A : Type 0} (e : BroadcastError) (o : Option A)
      → Runs (At s) (lift (ok_or e o)) (λ a w. (o ≡ some a) × At s w) (At s)
  given-Runs e o = Runs-lift _ (λ w h. h) (λ a f w h. (to_some e o a f, h))

module _ (node : Node) (s : Log) where
  -- the request with what the endpoint answers on the log
  abbrev pub Fills : TransactionRequest → ℕ → TransactionRequest → Type 0
  Fills tx sender filled =
      (filled.from ≡ some sender)
      × (filled.to ≡ tx.to)
      × (filled.value ≡ tx.value)
      × (filled.input ≡ tx.input)
      × (filled.authorization_list ≡ tx.authorization_list)
      × ((n : ℕ) × (node.transaction_count s sender ≡ some n) × (filled.nonce ≡ some n))
      × ((c : ℕ) × (node.network_id s ≡ some c) × (filled.chain_id ≡ some c))

  gas_of-Runs :
      (tx : TransactionRequest) (sender : ℕ)
      → Runs (At s) (gas_of node tx sender) (λ _. At s) (At s)
  unfolding gas_of
  gas_of-Runs tx sender = record { at = λ w h. read_only (At s) w h (gas_on node w tx sender) }

  pub fill_transaction-Runs :
      (tx : TransactionRequest) (sender : ℕ)
      → Runs (At s) (fill_transaction node tx sender) (λ t w. Fills tx sender t × At s w) (At s)
  unfolding fill_transaction
  fill_transaction-Runs tx sender =
      Runs-bind _ _ (ask-Runs s (λ w. node.transaction_count w sender)) (λ n. Runs-given (λ counted.
        Runs-bind _ _ (ask-Runs s node.network_id) (λ c. Runs-given (λ on.
          Runs-bind _ _ (ask-Runs s node.estimate_fees) (λ fees. Runs-given (λ _.
            Runs-bind _ _ (gas_of-Runs _ sender) (λ gas.
              Runs-return _ (λ w h.
                ((refl, refl, refl, refl, refl, (n, counted, refl), (c, on, refl)), h)))))))))

  -- an authorization by a signer, for a nonce
  abbrev pub Authorizes : Signer → ℕ → ℕ → SignedAuthorization → Type 0
  Authorizes by implementation nonce auth =
      (auth.address ≡ implementation)
      × (auth.nonce ≡ nonce)
      × (node.network_id s ≡ some auth.chain_id)
      × (by.sign_authorization auth.chain_id implementation nonce ≡ some auth.signature)

  pub authorize_implementation-Runs :
      (by : Signer) (nonce implementation : ℕ)
      → Runs
          (At s)
          (authorize_implementation node by nonce implementation)
          (λ a w. Authorizes by implementation nonce a × At s w)
          (At s)
  unfolding authorize_implementation
  authorize_implementation-Runs by nonce implementation =
      Runs-bind _ _ (ask-Runs s node.network_id) (λ c. Runs-given (λ on.
        Runs-bind _ _ (given-Runs s _ _)
          (λ signed. Runs-given (λ e. Runs-return _ (λ w h. ((refl, refl, on, e), h))))))

  -- a transaction was taken
  abbrev pub Takes : Envelope → Log → Type 0
  Takes e w = w ≡ s ++ e ∷ []

  offered :
      (e : Envelope) (w : Log) (o : Option ℕ)
      → At s w
      → node.send_transaction w e ≡ o
      → Post (λ _. Takes e) (At s) (took e w o)
  unfolding took
  offered e w none h f = h
  offered e w (some hash) h f = ap (λ v. v ++ e ∷ []) h

  offer-Runs : (e : Envelope) → Runs (At s) (offer node e) (λ _. Takes e) (At s)
  unfolding offer
  offer-Runs e = record { at = λ w h. offered e w (node.send_transaction w e) h refl }

  pub send_filled-Runs :
      (by : Signer) (filled : TransactionRequest)
      → Runs
          (At s)
          (send_filled node by filled)
          (λ _ w.
            (e : Envelope) × (e.request ≡ filled)
            × (by.sign_transaction filled ≡ some e.signature)
            × Takes e w)
          (At s)
  unfolding send_filled
  send_filled-Runs by filled = Runs-bind _ _ (given-Runs s _ _) (λ signed.
      Runs-given (λ e. Runs-weaken (λ w h. h) (λ a w h. (_, refl, e, h)) (λ w h. h) (offer-Runs _)))

  -- a transaction was filled in, signed and taken
  abbrev pub Sends : Signer → TransactionRequest → Envelope → Type 0
  Sends by tx e = Fills tx by.address e.request × (by.sign_transaction e.request ≡ some e.signature)

  pub send-Runs :
      (by : Signer) (tx : TransactionRequest)
      → Runs (At s) (send node by tx) (λ _ w. (e : Envelope) × Sends by tx e × Takes e w) (At s)
  unfolding send
  send-Runs by tx = Runs-bind _ _ (fill_transaction-Runs tx by.address) (λ filled. Runs-given (λ f.
      Runs-weaken (λ w h. h)
        (λ a w h. (
          h.0,
          (
            subst (Fills tx by.address) (sym h.1) f,
            subst (λ t. by.sign_transaction t ≡ some h.0.signature) (sym h.1) h.2,
          ),
          h.3,
        ))
        (λ w h. h) (send_filled-Runs by filled)))

module _ (node : Node) where
  -- what was sent is mined, and did not revert
  pub wait_mined-Runs :
      (P : Log → Type 0) (hash : ℕ)
      → Runs P (wait_mined node hash) (λ r w. (r.status ≡ true) × P w) P
  unfolding wait_mined await_receipt
  wait_mined-Runs P hash =
      Runs-bind _ _ (record { at = λ w h. read_only P w h (poll (node.polls w hash)) })
        (λ o. elim (Option-cases o) [
          | inl e ↦ rw e (Runs-fail _ (λ w h. h))
          | inr f ↦ rw f.1 (
              Runs-test f.0.status _ _ (λ t. Runs-return f.0 (λ w h. (t, h)))
                (λ _. Runs-fail _ (λ w h. h)))
        ])
