-- ===== src/Broadcast/Submitting.antt =====
-- crates/core/src/broadcast.rs: which transactions `submit_batch` sends.
use mathlib.Core.List.{append_assoc}
use desktop_wallet.Common.{
  ℕ, ◌≡◌, ◌∙◌, refl, sym, ap, subst, Bool, true, false, not, ◌&&◌, Option, some, List, [], ◌∷◌,
  ◌++◌, ◌==◌, ==_iff,
}
use desktop_wallet.Exec.{◌>>=◌}
use desktop_wallet.Exec.Runs.{Runs, Post, Runs-bind, Runs-given, Runs-weaken, Runs-return}
use desktop_wallet.Database.{Bytes}
use desktop_wallet.Assets.{Call}
use desktop_wallet.Broadcast.{
  Envelope, Log, Node, Signer, ask, designated, delegation_of, on_chain_nonce, is_installed,
  batch_nonce, submit_batch,
}
use desktop_wallet.Broadcast.Asking.{At, ask-Runs, Takes}
use desktop_wallet.Broadcast.Batches.{
  SelfDelegates, OnlyFrom, nothing_sent, authorize_self-Runs, Batched, send_batch, send_batch-Runs,
}

module _ (node : Node) (context payer : Signer) (calls : List Call) (s : Log) where
  -- what is sent, by whether the delegate is installed and whether the account pays for itself
  abbrev pub Submitted : ℕ → Bool → Bool → Log → Type 0
  Submitted chain_id true alone w =
      (nonce : ℕ) × (node.delegate_nonce s context.address ≡ some nonce)
      × Batched node context payer s chain_id calls false nonce w
  Submitted chain_id false true w =
      (d : Envelope) × SelfDelegates node context payer s d
      × ((nonce : ℕ) × (node.delegate_nonce (s ++ d ∷ []) context.address ≡ some nonce)
          × Batched node context payer (s ++ d ∷ []) chain_id calls false nonce w)
  Submitted chain_id false false w = Batched node context payer s chain_id calls true 0 w

  after_first :
      (account : ℕ) (d : Envelope) (w : Log)
      → d.request.from ≡ some account
      → OnlyFrom node context payer (s ++ d ∷ []) account w
      → OnlyFrom node context payer s account w
  after_first account d w f h = (d ∷ h.0, h.1 ∙ append_assoc s (d ∷ []) h.0, (f, h.2))

  from_payer :
      (d : Envelope)
      → payer.address ≡ context.address
      → SelfDelegates node context payer s d
      → d.request.from ≡ some payer.address
  from_payer d same h = h.4.0.0 ∙ ap some (sym same)

  ask_after :
      (f : Log → Option ℕ)
      → payer.address ≡ context.address
      → Runs
          (λ w. (d : Envelope) × SelfDelegates node context payer s d × Takes node s d w)
          (ask f)
          (λ n w.
            (d : Envelope) × SelfDelegates node context payer s d
            × (f (s ++ d ∷ []) ≡ some n)
            × Takes node s d w)
          (OnlyFrom node context payer s payer.address)
  ask_after f same = record {
    at = λ v h.
        (Runs-weaken {P' = At (s ++ h.0 ∷ [])} (λ w x. x) (λ n w x. (h.0, h.1, x.0, x.1))
            (λ w x. (h.0 ∷ [], x, (from_payer h.0 same h.1, tt))) (ask-Runs (s ++ h.0 ∷ []) f)).at
          v h.2;
  }

  batch_after :
      (chain_id nonce : ℕ)
      → payer.address ≡ context.address
      → Runs
          (λ w.
            (d : Envelope) × SelfDelegates node context payer s d
            × (node.delegate_nonce (s ++ d ∷ []) context.address ≡ some nonce)
            × Takes node s d w)
          (send_batch node context payer s chain_id calls false nonce)
          (λ _. Submitted chain_id false true)
          (OnlyFrom node context payer s payer.address)
  batch_after chain_id nonce same = record {
    at = λ v h.
        (Runs-weaken {P' = At (s ++ h.0 ∷ [])} (λ w x. x) (λ a w x. (h.0, h.1, (nonce, h.2, x)))
            (λ w x. after_first payer.address h.0 w (from_payer h.0 same h.1) x)
            (send_batch-Runs node context payer (s ++ h.0 ∷ []) chain_id calls false nonce)).at
          v h.3;
  }

  by_case :
      (chain_id : ℕ) (installed alone : Bool)
      → (payer.address == context.address) ≡ alone
      → Runs
          (At s)
          (batch_nonce node context installed alone >>= λ nonce.
            send_batch node context payer s chain_id calls (not installed && not alone) nonce)
          (λ _. Submitted chain_id installed alone)
          (OnlyFrom node context payer s payer.address)
  unfolding batch_nonce on_chain_nonce
  by_case chain_id true alone e =
      Runs-bind _ _
        (Runs-bind _ _ (Runs-return tt (λ w h. h)) (λ _.
          Runs-weaken (λ w h. h) (λ a w h. h) (nothing_sent node context payer s payer.address)
            (ask-Runs s (λ w. node.delegate_nonce w context.address))))
        (λ nonce. Runs-given (λ asked.
          Runs-weaken (λ w h. h) (λ a w h. (nonce, asked, h)) (λ w h. h)
            (send_batch-Runs node context payer s chain_id calls false nonce)))
  by_case chain_id false false e =
      Runs-bind _ _
        (Runs-bind _ _ (Runs-return tt (λ w h. h))
          (λ _. Runs-return {Q = λ n w. (n ≡ 0) × At s w} 0 (λ w h. (refl, h))))
        (λ nonce. Runs-given (λ zero'.
          Runs-weaken (λ w h. h)
            (λ a w h. subst (λ n. Batched node context payer s chain_id calls true n w) zero' h)
            (λ w h. h) (send_batch-Runs node context payer s chain_id calls true nonce)))
  by_case chain_id false true e =
      let same = (==_iff payer.address context.address).0 e in
      Runs-bind _ _
        (Runs-bind _ _
          (Runs-weaken (λ w h. h) (λ a w h. h)
            (λ w h. subst (λ a. OnlyFrom node context payer s a w) (sym same) h)
            (authorize_self-Runs node context payer s))
          (λ _. ask_after (λ w. node.delegate_nonce w context.address) same))
        (λ nonce. batch_after chain_id nonce same)

-- From any log, if the submission of a batch succeeds: with the delegate installed, one transaction is
-- sent, the batch, signed for the nonce that the delegate has. If it is not and the account pays for
-- itself, a transaction with its authorization for the nonce after its own comes first, and the batch is
-- signed for the delegate's nonce after that. If another account pays, the batch carries an authorization
-- for the account's next nonce, and is signed for nonce 0. If it fails, all that was sent is from the
-- account that pays. The batch goes to the account, without value, and is signed for the network.
pub submit_batch-Submitted :
    (node : Node) (context payer : Signer) (calls : List Call) (s : Log)
    → Post
        (λ hash w.
          (chain_id : ℕ) × (node.network_id s ≡ some chain_id)
          × ((code : Bytes) × (node.code_at s context.address ≡ some code)
              × Submitted node context payer calls s chain_id
                  (is_installed (designated code))
                  (payer.address == context.address)
                  w))
        (OnlyFrom node context payer s payer.address)
        (submit_batch node context payer calls s)
unfolding submit_batch delegation_of
submit_batch-Submitted node context payer calls s =
    (Runs-bind {P = At s} _ _
        (Runs-weaken (λ w h. h) (λ a w h. h) (nothing_sent node context payer s payer.address)
          (ask-Runs s node.network_id))
        (λ chain_id. Runs-given (λ on.
          Runs-bind _ _
            (Runs-bind _ _
              (Runs-weaken (λ w h. h) (λ a w h. h) (nothing_sent node context payer s payer.address)
                (ask-Runs s (λ w. node.code_at w context.address)))
              (λ code. Runs-given (λ there.
                Runs-return
                  {Q = λ o w.
                    ((code : Bytes) × (node.code_at s context.address ≡ some code)
                      × (o ≡ designated code))
                    × At s w}
                  _ (λ w h. ((code, there, refl), h)))))
            (λ delegated. Runs-given (λ found.
              Runs-weaken (λ w h. h)
                (λ hash w h. (
                  chain_id,
                  on,
                  (
                    found.0,
                    found.1,
                    subst
                        (λ o.
                          Submitted node context payer calls s chain_id (is_installed o)
                            (payer.address == context.address) w)
                        found.2 h,
                  ),
                ))
                (λ w h. h)
                (by_case node context payer calls s chain_id (is_installed delegated)
                  (payer.address == context.address) refl)))))).at
      s refl
