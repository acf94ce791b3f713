-- ===== src/Store.antt =====
-- crates/core/src/vault/tornadocash/db.rs: what the vault keeps, by record, and its accessors. The
-- scope of a pool's records is keyed by the pool's id. Any access may fail: `faults` says which of
-- the coming accesses, and of the other fallible calls, do.
use text.Mathlib.Text.{◌==◌ as str_eq}
use Prim.Native.String.{String}
use desktop_wallet.Common.{
  ℕ, zero, suc, ◌+◌, ◌%◌, Bool, true, false, Option, none, some, List, [], ◌∷◌, ◌==◌, if◌then◌else◌,
  unwrap_or,
}
use desktop_wallet.Common.Outcome.{Result, ok, err}
use desktop_wallet.Common.U256.{u64_mod}
use desktop_wallet.Exec.{Exec, return, fail, gets, modify, ◌>>=◌, ◌>>◌}
use desktop_wallet.Pools.{AmountError}

-- events of the crate `kohaku_tornadocash`: a deposit's commitment and leaf, a withdrawal's
-- nullifier hash
pub data SyncEvent : Type 0 where
  deposit : ℕ → ℕ → SyncEvent
  withdrawal : ℕ → SyncEvent

-- the events of a pool over the blocks from `start` up to and without `end_block`
pub record Snapshot (P : Type 0) : Type 0 where
  pub pool : P
  pub start : ℕ
  pub end_block : ℕ
  pub events : List SyncEvent

pub record NoteRecord : Type 0 where
  pub nonce : ℕ
  pub commitment : ℕ
  pub nullifier_hash : ℕ
  pub leaf_index : Option ℕ
  pub spent : Bool

pub record SyncCursor : Type 0 where
  pub latest_block : ℕ
  pub chunks : ℕ

abbrev pub default_cursor : SyncCursor
default_cursor = record { latest_block = 0; chunks = 0 }

pub record PoolScope (P : Type 0) : Type 0 where
  pub cursor_record : Option SyncCursor
  pub chunk : ℕ → Option (Snapshot P)
  pub notes_record : Option (List NoteRecord)

pub record World (P : Type 0) : Type 0 where
  pub nonce_record : Option ℕ
  pub tracked_record : Option (List P)
  pub scope : String → PoolScope P
  -- the pools of `trees_cache`, which the vault keeps in memory
  pub trees : List P
  pub faults : List Bool

pub data VaultError : Type 0 where
  amount : AmountError → VaultError
  extended_disabled : String → VaultError
  database provider syncer keychain nonce_exhausted : VaultError
  missing_snapshot : ℕ → VaultError
  note_not_mined : ℕ → VaultError
  note_spent : ℕ → VaultError
  unsupported_asset : VaultError
  merkle_tree : VaultError

abbrev pub Op : Type 0 → Type 0 → Type 0
Op P A = Exec (World P) VaultError A

unfoldable pub is_empty {ℓ} : {A : Type ℓ} → List A → Bool
is_empty [] = true
is_empty (x ∷ xs) = false

module _ {P : Type 0} where
  -- a fallible call: it fails if the next fault says so
  unfoldable pub attempt_with : VaultError → World P → List Bool → Result VaultError Unit × World P
  attempt_with e w [] = (ok tt, record w { faults = [] })
  attempt_with e w (true ∷ rest) = (err e, record w { faults = rest })
  attempt_with e w (false ∷ rest) = (ok tt, record w { faults = rest })

  unfoldable pub attempt : VaultError → Op P Unit
  unfolding attempt_with
  attempt e w = attempt_with e w w.faults

  -- a read and a write of the records of one scope
  unfoldable pub read_scope : {A : Type 0} → String → (PoolScope P → A) → Op P A
  unfolding attempt
  read_scope i f = attempt database >> gets (λ w. f (w.scope i))

  abbrev pub set_scope : String → (PoolScope P → PoolScope P) → World P → World P
  set_scope i f w = record w { scope = λ j. if str_eq j i then f (w.scope j) else w.scope j }

  unfoldable pub write_scope : String → (PoolScope P → PoolScope P) → Op P Unit
  unfolding attempt
  write_scope i f = attempt database >> modify (set_scope i f)

  unfoldable pub next_nonce : Op P ℕ
  unfolding attempt
  next_nonce = attempt database >> gets (λ w. unwrap_or w.nonce_record 0)

  unfoldable pub put_next_nonce : ℕ → Op P Unit
  unfolding attempt
  put_next_nonce nonce = attempt database >> modify (λ w. record w { nonce_record = some nonce })

  unfoldable pub tracked_pools : Op P (List P)
  unfolding attempt
  tracked_pools = attempt database >> gets (λ w. unwrap_or w.tracked_record [])

  unfoldable pub put_tracked_pools : List P → Op P Unit
  unfolding attempt
  put_tracked_pools pools =
      attempt database >> modify (λ w. record w { tracked_record = some pools })

  unfoldable pub cursor : String → Op P (Option SyncCursor)
  unfolding read_scope
  cursor i = read_scope i (λ s. s.cursor_record)

  unfoldable pub latest_block : String → Op P (Option ℕ)
  unfolding cursor
  latest_block i = cursor i >>= λ c. return (elim c [ none ↦ none | some r ↦ some r.latest_block ])

  unfoldable pub put_chunk : ℕ → Snapshot P → PoolScope P → PoolScope P
  put_chunk index snapshot s = record s {
    chunk = λ j. if j == index then some snapshot else s.chunk j;
  }

  unfoldable pub put_snapshot : String → Snapshot P → Op P Unit
  unfolding cursor write_scope put_chunk is_empty
  put_snapshot i snapshot =
      if is_empty snapshot.events
      then return tt
      else (do c ← cursor i; write_scope i (put_chunk (unwrap_or c default_cursor).chunks snapshot))

  -- the cursor after a snapshot, from the one before
  unfoldable pub committed : SyncCursor → Snapshot P → SyncCursor
  unfolding is_empty
  committed c snapshot =
      let more : ℕ = if is_empty snapshot.events then 0 else 1 in
      record { latest_block = snapshot.end_block; chunks = (c.chunks + more) % u64_mod }

  unfoldable pub put_cursor : SyncCursor → PoolScope P → PoolScope P
  put_cursor c s = record s { cursor_record = some c }

  unfoldable pub commit_snapshot : String → Snapshot P → Op P Unit
  unfolding cursor write_scope committed put_cursor
  commit_snapshot i snapshot = do
    c ← cursor i
    write_scope i (put_cursor (committed (unwrap_or c default_cursor) snapshot))

  unfoldable pub found_chunk : ℕ → Option (Snapshot P) → Op P (Snapshot P)
  found_chunk index none = fail (missing_snapshot index)
  found_chunk index (some snapshot) = return snapshot

  -- the loop `for index in 0..chunks` of `snapshots`, with the rounds left and the index
  unfoldable pub read_chunks : String → ℕ → ℕ → Op P (List (Snapshot P))
  unfolding read_scope found_chunk
  read_chunks i zero index = return []
  read_chunks i (suc left) index = do
    found ← read_scope i (λ s. s.chunk index)
    first ← found_chunk index found
    others ← read_chunks i left (suc index)
    return (first ∷ others)

  unfoldable pub snapshots : String → Op P (List (Snapshot P))
  unfolding cursor read_chunks
  snapshots i = do c ← cursor i; read_chunks i (unwrap_or c default_cursor).chunks 0

  unfoldable pub notes : String → Op P (List NoteRecord)
  unfolding read_scope
  notes i = read_scope i (λ s. unwrap_or s.notes_record [])

  unfoldable pub put_notes : String → List NoteRecord → Op P Unit
  unfolding write_scope
  put_notes i records = write_scope i (λ s. record s { notes_record = some records })
