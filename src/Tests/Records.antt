-- ===== src/Tests/Records.antt =====
-- The theorems on the vault's records applied to concrete states and calls.
use desktop_wallet.Common.{ℕ, ◌+◌, ◌≡◌, true, false, none, some, List, [], ◌∷◌, map, arith}
use desktop_wallet.Exec.Runs.{Post}
use desktop_wallet.Pools.{classic}
use desktop_wallet.Store.{NoteRecord, World, deposit}
use desktop_wallet.Vault.{Services, prepare_deposits}
use desktop_wallet.Vault.Nonces.{next_of, Reserved}
use desktop_wallet.Vault.Reserve.{Ascending, prepare_deposits-fresh}
use desktop_wallet.Vault.Session.{Request, prepare, clear, recovered, session, session-Ascending}
use desktop_wallet.Tests.{library}

abbrev services : Services ℕ
services = record {
  commitment = λ nonce pool. nonce + pool;
  nullifier_hash = λ nonce pool. nonce;
  network_id = 1;
  block_height = 200;
  sync_range = λ pool from to. record {
    pool = pool;
    start = from;
    end_block = to;
    events = deposit 9 0 ∷ [];
  };
  recover =
      λ snapshots gap. record { pool = 0; nonce = 11; leaf_index = 2; withdrawn = false } ∷ [];
}

abbrev reserved_note : NoteRecord
reserved_note = record {
  nonce = 4;
  commitment = 8;
  nullifier_hash = 4;
  leaf_index = none;
  spent = false;
}

-- the counter is at 5, a note of nonce 4 is recorded, and the third access fails
abbrev state : World ℕ
state = record {
  nonce_record = some 5;
  tracked_record = some (0 ∷ []);
  scope = λ i. record {
    cursor_record = none;
    chunk = λ j. none;
    notes_record = some (reserved_note ∷ []);
  };
  trees = 0 ∷ [];
  faults = false ∷ false ∷ true ∷ [];
}

state-Reserved : Reserved 5 state
state-Reserved = (omega arith, λ i. (omega arith, tt))

prepare_deposits-fresh_example :
    Post
      (λ ds u. Reserved 5 u × (Ascending 5 (next_of u) ds × (map (λ d. d.pool) ds ≡ 0 ∷ 4 ∷ [])))
      (Reserved 5)
      (prepare_deposits library services classic (0 ∷ 4 ∷ []) state)
prepare_deposits-fresh_example =
    prepare_deposits-fresh library services classic 5 (0 ∷ 4 ∷ []) state state-Reserved

abbrev calls : List (Services ℕ × Request ℕ)
calls =
    (services, prepare (0 ∷ 4 ∷ []))
    ∷ (services, recovered (0 ∷ []) none)
    ∷ (services, clear (some 5))
    ∷ (services, prepare (9 ∷ []))
    ∷ []

session-Ascending_example :
    Ascending 5
      (next_of (session library classic calls state).1)
      (session library classic calls state).0
session-Ascending_example = session-Ascending library classic 5 calls state state-Reserved
