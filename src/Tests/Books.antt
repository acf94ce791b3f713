-- ===== src/Tests/Books.antt =====
-- The theorems on databases, fresh addresses and balances applied to concrete inputs.
use desktop_wallet.Common.{
  total, keep, not, ℕ, ◌≡◌, ◌⊎◌, Bool, true, false, none, some, List, [], ◌∷◌, ltb, arith,
}
use desktop_wallet.Common.Outcome.{Result, ok, err}
use desktop_wallet.Database.{Bytes, MemoryDatabase, other, scoped_put}
use desktop_wallet.Database.Scopes.{Writes, scoped_put-Writes}
use desktop_wallet.Fresh.{MnemonicError, fresh_address}
use desktop_wallet.Fresh.Scans.{Searched, fresh_address-first}
use desktop_wallet.Balances.{note_balance, unspent_holdings}
use desktop_wallet.Balances.Sums.{
  capped, worth, mined, unmined, note_balance-capped, note_balance-unspent_holdings,
}
use desktop_wallet.Pools.{TornadoNote}
use desktop_wallet.Tests.{library}

abbrev stored : MemoryDatabase
stored = record { store = λ k. none; poisoned = false }

abbrev scope_name : Bytes
scope_name = 97 ∷ []

abbrev name : Bytes
name = 98 ∷ 99 ∷ []

scoped_put-Writes_example :
    ((after : MemoryDatabase) × (scoped_put scope_name stored name (7 ∷ []) ≡ ok after)
      × Writes scope_name name (some (7 ∷ [])) stored after)
    ⊎ ((scoped_put scope_name stored name (7 ∷ []) ≡ err other) × (stored.poisoned ≡ true))
scoped_put-Writes_example = scoped_put-Writes scope_name name (7 ∷ []) stored (omega arith)

-- the address of an index is the index, and the first 20 have activity
abbrev derive : ℕ → Result (MnemonicError Unit) ℕ
derive i = ok i

abbrev activity : ℕ → Result (MnemonicError Unit) Bool
activity a = ok (ltb a 20)

fresh_address-first_example : Searched derive activity 5 (fresh_address derive activity (ok 5))
fresh_address-first_example = fresh_address-first derive activity 5

abbrev kept : List (TornadoNote ℕ)
kept =
    record { pool = 4; nonce = 1; leaf_index = some 3; spent = false }
    ∷ record { pool = 9; nonce = 2; leaf_index = none; spent = false }
    ∷ record { pool = 0; nonce = 3; leaf_index = some 4; spent = true }
    ∷ []

note_balance-capped_example :
    ((note_balance library kept).spendable ≡ capped (worth library (mined library) kept))
    × ((note_balance library kept).pending ≡ capped (worth library (unmined library) kept))
note_balance-capped_example = note_balance-capped library kept

note_balance-unspent_holdings_example :
    ((note_balance library kept).spendable
      ≡ capped
          (total (λ h. h.amount_wei) (keep (λ h. not h.pending) (unspent_holdings library kept))))
    × ((note_balance library kept).pending
        ≡ capped
            (total (λ h. h.amount_wei) (keep (λ h. h.pending) (unspent_holdings library kept))))
note_balance-unspent_holdings_example = note_balance-unspent_holdings library kept
