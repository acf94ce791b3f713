-- ===== src/Tests/Scanning.antt =====
-- The theorem on the scan of the standard addresses, applied to a wallet that has used two of them.
use desktop_wallet.Common.{
  ℕ, zero, suc, ◌+◌, ◌-◌, ◌*◌, ◌<◌, ◌≡◌, refl, Bool, true, false, arith, ◌||◌, ◌==◌,
}
use desktop_wallet.Common.Outcome.{Result, ok}
use desktop_wallet.Fresh.{MnemonicError, batch_size, scan_with}
use desktop_wallet.Fresh.Batches.{any_used, answer, scan_with-answer}

-- the address of an index is the index plus 100; indices 0 and 15 have activity
abbrev derived : ℕ → ℕ
derived i = i + 100

abbrev active : ℕ → Bool
active i = i == 0 || i == 15

abbrev standard : ℕ → Result (MnemonicError Unit) ℕ
standard i = ok (derived i)

abbrev activity : ℕ → Result (MnemonicError Unit) Bool
activity a = ok (active (a - 100))

answers : (i : ℕ) → i < 1000 → activity (derived i) ≡ ok (active i)
answers i lt = let back : i + 100 - 100 ≡ i = omega arith in rw back refl

first_batches : (i : ℕ) → i < 2 → any_used active batch_size (batch_size * i) ≡ true
unfolding any_used
first_batches zero lt = refl
first_batches (suc zero) lt = refl
first_batches (suc (suc i)) lt = absurd (omega arith)

third_batch : 2 < 100 → any_used active batch_size (batch_size * 2) ≡ false
unfolding any_used
third_batch lt = refl

scan_with-answer_example : scan_with standard activity ≡ answer derived active 2
scan_with-answer_example =
    scan_with-answer standard activity derived active (λ i lt. refl) answers 2 (omega arith)
      first_batches third_batch
