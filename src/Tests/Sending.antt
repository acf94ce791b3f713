-- ===== src/Tests/Sending.antt =====
-- The theorems on the list of bundlers, at concrete inputs.
use desktop_wallet.Common.{ℕ, ◌≡◌, refl, false, none, some, List, [], ◌∷◌, ◌++◌, length, All}
use desktop_wallet.Common.Outcome.{Result, ok, err}
use desktop_wallet.Exec.{return, ◌>>=◌}
use desktop_wallet.Recipients.{Text}
use desktop_wallet.Bundlers.{
  Bundler, BundlerError, Accepted, answered, send_user_operation, send_from, on_answer,
  record_index, already_known, contains_text, starts_with, receipt, wait_for_receipt,
}
use desktop_wallet.Bundlers.Sends.{Takes, Refuses, Sent, send_user_operation-Sent, sent-receipt}

-- "no gas", and "Already Known!"
abbrev no_gas : Text
no_gas = 110 ∷ 111 ∷ 32 ∷ 103 ∷ 97 ∷ 115 ∷ []

abbrev known : Text
known = 65 ∷ 108 ∷ 114 ∷ 101 ∷ 97 ∷ 100 ∷ 121 ∷ 32 ∷ 75 ∷ 110 ∷ 111 ∷ 119 ∷ 110 ∷ 33 ∷ []

-- a bundler with an answer to every operation
abbrev answering : Result BundlerError ℕ → Bundler ℕ ℕ
answering answer = record {
  url = "b";
  estimates = λ op. err (answered no_gas);
  sends = λ op. answer;
  receipts = λ hash. ok (some hash);
  waits = λ hash. ok hash;
}

-- the first refuses, the second knows the operation already, the third would take it
abbrev bundlers : List (Bundler ℕ ℕ)
bundlers =
    answering (err (answered no_gas)) ∷ answering (err (answered known)) ∷ answering (ok 4) ∷ []

abbrev op_hash : ℕ → ℕ
op_hash op = op

abbrev start : Accepted
start = record { index = none; lock_poisoned = false }

abbrev noted_second : Accepted
noted_second = record { index = some 1; lock_poisoned = false }

send_user_operation-Sent_example :
    Sent op_hash 9 0 bundlers start (send_user_operation op_hash bundlers 9 start)
send_user_operation-Sent_example = send_user_operation-Sent op_hash 9 bundlers start refl

sent-receipt_example :
    (before : List (Bundler ℕ ℕ)) × (b : Bundler ℕ ℕ) × (rest : List (Bundler ℕ ℕ)) × (bundlers
      ≡ before ++ b ∷ rest)
    × All (Refuses op_hash 9) before
    × Takes op_hash 9 b 9
    × (noted_second.index ≡ some (length before))
    × (receipt bundlers 9 noted_second ≡ (b.receipts 9, noted_second))
    × (wait_for_receipt bundlers 9 noted_second ≡ (b.waits 9, noted_second))
unfolding send_user_operation send_from on_answer record_index already_known contains_text
    starts_with ◌>>=◌ return
sent-receipt_example = sent-receipt op_hash 9 bundlers start noted_second 9 refl refl
