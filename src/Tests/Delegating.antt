-- ===== src/Tests/Delegating.antt =====
-- The theorem on the submission of batches, at a concrete input.
use desktop_wallet.Common.{ℕ, ◌≡◌, ◌==◌, true, none, some, List, [], ◌∷◌, length}
use desktop_wallet.Exec.Runs.{Post}
use desktop_wallet.Database.{Bytes}
use desktop_wallet.Assets.{Call}
use desktop_wallet.Broadcast.{Node, Signer, designated, is_installed, submit_batch}
use desktop_wallet.Broadcast.Batches.{OnlyFrom}
use desktop_wallet.Broadcast.Submitting.{Submitted, submit_batch-Submitted}

-- nothing is delegated, every transaction is mined, and nonces count the transactions
abbrev node : Node
node = record {
  network_id = λ log. some 1;
  transaction_count = λ log account. some (length log);
  code_at = λ log account. some [];
  balance = λ log account. some 9;
  estimate_fees = λ log. some (2, 1);
  estimate_gas = λ log tx. some 21000;
  delegate_nonce = λ log account. some 0;
  send_transaction = λ log envelope. some (length log);
  polls = λ log tx.
      some none
      ∷ some (some (record { status = true; gas_used = 5; effective_gas_price = 2 }))
      ∷ [];
}

abbrev signing : ℕ → Signer
signing a = record {
  address = a;
  sign_authorization = λ chain delegate nonce. some (nonce ∷ []);
  sign_batch = λ chain nonce calls. some (nonce ∷ length calls ∷ []);
  sign_transaction = λ tx. some (a ∷ []);
}

abbrev calls : List Call
calls = record { target = 3; data_bytes = []; value = 0 } ∷ []

submit_batch-Submitted_example :
    Post
      (λ hash w.
        (chain_id : ℕ) × (node.network_id [] ≡ some chain_id)
        × ((code : Bytes) × (node.code_at [] 7 ≡ some code)
            × Submitted node
                (signing 7)
                (signing 7)
                calls
                []
                chain_id
                (is_installed (designated code))
                (7 == 7)
                w))
      (OnlyFrom node (signing 7) (signing 7) [] 7)
      (submit_batch node (signing 7) (signing 7) calls [])
submit_batch-Submitted_example = submit_batch-Submitted node (signing 7) (signing 7) calls []
