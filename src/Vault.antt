-- ===== src/Vault.antt =====
-- crates/core/src/vault/tornadocash/mod.rs: the operations of `TornadoVault` that reserve, sync,
-- recover and forget notes. Proofs are in the modules below.
pub mod Rules
pub mod Nonces
pub mod Plans
pub mod Reserve
pub mod Recovery
pub mod Session
use Prim.Native.String.{String}
use desktop_wallet.Common.{
  ℕ, zero, suc, ◌+◌, ◌-◌, Bool, true, false, not, ◌&&◌, ◌||◌, Option, none, some, List, [], ◌∷◌,
  ◌++◌, ◌==◌, if◌then◌else◌, unwrap_or, is_some, any, keep, map, min, max, length,
}
use desktop_wallet.Common.Outcome.{Result, ok, err, ◌>>=◌ as result_bind}
use desktop_wallet.Common.U256.{u64_mod, saturating_add}
use desktop_wallet.Exec.{Exec, return, fail, lift, modify, each, collect, gather, ◌>>=◌, ◌>>◌}
use desktop_wallet.Pools.{Kohaku, TornadoNote, PoolSelection, includes}
use desktop_wallet.Store.{
  SyncEvent, deposit, withdrawal, Snapshot, NoteRecord, World, VaultError, extended_disabled,
  database, provider, syncer, keychain, nonce_exhausted, Op, attempt, next_nonce, put_next_nonce,
  tracked_pools, put_tracked_pools, latest_block, put_snapshot, commit_snapshot, snapshots, notes,
  put_notes, is_empty,
}

-- a note that `kohaku_tornadocash_keychain::recover` has found on the chain
pub record Recovered (P : Type 0) : Type 0 where
  pub pool : P
  pub nonce : ℕ
  pub leaf_index : ℕ
  pub withdrawn : Bool

-- What the vault is given by its signer and its network: the public values of the note of a nonce
-- in a pool, the chain and its height, the events of a pool between two blocks, and what the crate
-- `kohaku_tornadocash_keychain` recovers from synced snapshots.
pub record Services (P : Type 0) : Type 0 where
  pub commitment : ℕ → P → ℕ
  pub nullifier_hash : ℕ → P → ℕ
  pub network_id : ℕ
  pub block_height : ℕ
  pub sync_range : P → ℕ → ℕ → Snapshot P
  pub recover : List (Snapshot P) → Option ℕ → List (Recovered P)

-- Public metadata of a reserved deposit. Its calls are a function of these.
pub record PreparedDeposit (P : Type 0) : Type 0 where
  pub pool : P
  pub nonce : ℕ
  pub commitment : ℕ

-- `apply_events`: one event, on one note
pub apply_event : SyncEvent → NoteRecord → NoteRecord
apply_event (deposit commitment leaf) note =
    if note.commitment == commitment then record note { leaf_index = some leaf } else note
apply_event (withdrawal nullifier) note =
    if note.nullifier_hash == nullifier then record note { spent = true } else note

unfoldable pub apply_events : List NoteRecord → List SyncEvent → List NoteRecord
unfolding apply_event
apply_events notes [] = notes
apply_events notes (event ∷ events) = apply_events (map (apply_event event) notes) events

-- `u64::checked_add(1)`
abbrev pub checked_next : ℕ → Result VaultError ℕ
checked_next nonce = if suc nonce == u64_mod then err nonce_exhausted else ok (suc nonce)

-- `u64::saturating_add(1)`
abbrev pub saturating_next : ℕ → ℕ
saturating_next n = min (n + 1) (u64_mod - 1)

module _ (k : Kohaku) (v : Services k.Pool) (selection : PoolSelection) where
  open k use {Pool, pool_eq, id, chain_id, deployed_block, pools as catalog}

  -- `check_pool`
  pub check_pool : Pool → Op Pool Unit
  check_pool pool =
      if not (includes k selection pool) then fail (extended_disabled (id pool)) else return tt

  -- `operation_lock`
  pub operation_lock : Op Pool Unit
  operation_lock = attempt database

  pub network_id : Op Pool ℕ
  network_id = attempt provider >> return v.network_id

  -- the exclusive end of a sync: the height is inclusive
  pub sync_end : Op Pool ℕ
  sync_end = attempt provider >> return (saturating_next v.block_height)

  pub track : List Pool → Op Pool Unit
  track pools = do
    tracked ← tracked_pools
    let untracked = keep (λ pool. not (any (pool_eq pool) tracked)) pools
    if is_empty untracked then return tt else put_tracked_pools (tracked ++ untracked)

  -- `self.trees_cache.lock().await.remove(pool)`
  pub forget_tree : Pool → Op Pool Unit
  forget_tree pool = modify (λ w. record w { trees = keep (λ p. not (pool_eq p pool)) w.trees })

  pub sync_pool : ℕ → Pool → Op Pool Unit
  unfolding apply_events forget_tree
  sync_pool end_block pool = do
    latest ← latest_block (id pool)
    attempt syncer
    let snapshot = v.sync_range pool (unwrap_or latest (deployed_block pool)) end_block
    put_snapshot (id pool) snapshot
    forget_tree pool
    records ← notes (id pool)
    put_notes (id pool) (apply_events records snapshot.events)
    commit_snapshot (id pool) snapshot

  pub sync_unlocked : List Pool → Op Pool Unit
  unfolding sync_pool sync_end
  sync_unlocked pools = do end_block ← sync_end; each (sync_pool end_block) pools

  pub sync : List Pool → Op Pool Unit
  unfolding check_pool operation_lock sync_unlocked
  sync pools = do each check_pool pools; operation_lock; sync_unlocked pools

  -- `derive_note`, and the record of the note while its deposit is not mined
  pub pending_record : ℕ → Pool → NoteRecord
  pending_record nonce pool = record {
    nonce = nonce;
    commitment = v.commitment nonce pool;
    nullifier_hash = v.nullifier_hash nonce pool;
    leaf_index = none;
    spent = false;
  }

  pub deposit_note : Pool → Op Pool (PreparedDeposit Pool)
  unfolding pending_record
  deposit_note pool = do
    nonce ← next_nonce
    next ← lift (checked_next nonce)
    put_next_nonce next
    attempt keychain
    records ← notes (id pool)
    put_notes (id pool) (records ++ pending_record nonce pool ∷ [])
    return (record { pool = pool; nonce = nonce; commitment = v.commitment nonce pool })

  pub prepare_deposits : List Pool → Op Pool (List (PreparedDeposit Pool))
  unfolding check_pool operation_lock track deposit_note
  prepare_deposits pools = do
    each check_pool pools
    operation_lock
    track pools
    collect deposit_note pools

  pub to_note : Pool → NoteRecord → TornadoNote Pool
  to_note pool r = record {
    pool = pool;
    nonce = r.nonce;
    leaf_index = r.leaf_index;
    spent = r.spent;
  }

  pub pool_notes : List Pool → Op Pool (List (TornadoNote Pool))
  unfolding to_note
  pool_notes pools =
      gather (λ pool. notes (id pool) >>= λ records. return (map (to_note pool) records)) pools

  -- `TornadoVault::notes`
  pub vault_notes : Op Pool (List (TornadoNote Pool))
  unfolding operation_lock network_id sync_unlocked pool_notes
  vault_notes = do
    operation_lock
    chain ← network_id
    tracked ← tracked_pools
    let pools = keep (λ pool. chain_id pool == chain && includes k selection pool) tracked
    sync_unlocked pools
    pool_notes pools

  -- the closure of `retain`: whether `clear_pending` keeps a record
  pub retained : Option ℕ → NoteRecord → Bool
  retained nonce r =
      is_some r.leaf_index || r.spent || (elim nonce [ none ↦ false | some n ↦ not (n == r.nonce) ])

  pub clear_pool : Option ℕ → Pool → Op Pool (List (TornadoNote Pool))
  unfolding retained
  clear_pool nonce pool = do
    records ← notes (id pool)
    put_notes (id pool) (keep (retained nonce) records)
    return (
        map (λ r. record { pool = pool; nonce = r.nonce; leaf_index = none; spent = false })
          (keep (λ r. not (retained nonce r)) records))

  pub clear_pending : Option ℕ → Op Pool (List (TornadoNote Pool))
  unfolding operation_lock network_id sync_end sync_pool clear_pool
  clear_pending nonce = do
    operation_lock
    chain ← network_id
    tracked ← tracked_pools
    let pools = keep (λ pool. chain_id pool == chain) tracked
    end_block ← sync_end
    each (sync_pool end_block) pools
    gather (clear_pool nonce) pools

  -- the record of a recovered note
  pub recovered_record : Pool → Recovered Pool → NoteRecord
  recovered_record pool found = record {
    nonce = found.nonce;
    commitment = v.commitment found.nonce pool;
    nullifier_hash = v.nullifier_hash found.nonce pool;
    leaf_index = some found.leaf_index;
    spent = found.withdrawn;
  }

  -- the record replaces the first with its commitment, or is pushed
  pub merge_record : NoteRecord → List NoteRecord → List NoteRecord
  merge_record r [] = r ∷ []
  merge_record r (existing ∷ rest) =
      if existing.commitment == r.commitment then r ∷ rest else existing ∷ merge_record r rest

  -- the loop over what was recovered in one pool
  pub merge_found : Pool → List (Recovered Pool) → List NoteRecord → Op Pool (List NoteRecord)
  unfolding merge_record recovered_record
  merge_found pool [] records = return records
  merge_found pool (found ∷ rest) records = do
    attempt keychain
    merge_found pool rest (merge_record (recovered_record pool found) records)

  pub store_recovered : List (Recovered Pool) → Pool → Op Pool Unit
  unfolding merge_found
  store_recovered recovered pool = do
    records ← notes (id pool)
    merged ← merge_found pool (keep (λ found. pool_eq found.pool pool) recovered) records
    put_notes (id pool) merged

  -- the largest of the nonces that follow the recovered ones, or 0
  pub recovered_next : List (Recovered Pool) → Result VaultError ℕ
  recovered_next [] = ok 0
  recovered_next (found ∷ rest) =
      result_bind (checked_next found.nonce)
        (λ next. result_bind (recovered_next rest) (λ later. ok (max next later)))

  pub recover_with_gap : List Pool → Option ℕ → Op Pool Unit
  unfolding check_pool operation_lock track sync_end sync_pool recovered_next store_recovered
  recover_with_gap pools gap_limit = do
    each check_pool pools
    operation_lock
    track pools
    end_block ← sync_end
    each (sync_pool end_block) pools
    found_snapshots ← gather (λ pool. snapshots (id pool)) pools
    attempt keychain
    let recovered = v.recover found_snapshots gap_limit
    next ← lift (recovered_next recovered)
    stored ← next_nonce
    put_next_nonce (max next stored)
    each (store_recovered recovered) pools

  -- `recover_chain_with_gap_and_progress`
  pub recover_chain : Option ℕ → Op Pool ℕ
  unfolding network_id recover_with_gap pool_notes
  recover_chain gap_limit = do
    chain ← network_id
    let pools = keep (λ pool. chain_id pool == chain && includes k selection pool) catalog
    recover_with_gap pools gap_limit
    found ← pool_notes pools
    return (length (keep (λ note. not note.spent && is_some note.leaf_index) found))
