-- ===== src/Sync.antt =====
-- crates/core/src/network/logs.rs, the range reads of crates/core/src/network/endpoint.rs, and
-- crates/core/src/vault/tornadocash/syncer.rs: the events of a pool over a range of blocks, from an
-- endpoint in spans, and from an indexer with the endpoint after it.
pub mod Spans
pub mod Chained
pub mod Endpoint
use desktop_wallet.Common.{
  ℕ, zero, suc, ◌+◌, ◌-◌, ◌≡◌, Bool, true, false, Option, none, some, List, [], ◌∷◌, ◌++◌, ltb, leb,
  ◌==◌, if◌then◌else◌, min, max,
}
use desktop_wallet.Common.Outcome.{Result, ok, err, ◌>>=◌}
use desktop_wallet.Common.U256.{u64_mod}
use desktop_wallet.Store.{SyncEvent, Snapshot}

-- `u64::saturating_add`
abbrev pub add_u64 : ℕ → ℕ → ℕ
add_u64 a b = min (a + b) (u64_mod - 1)

-- the loop of `span_filters`: the first and the last block of each filter
unfoldable pub span_loop : ℕ → ℕ → ℕ → ℕ → List (ℕ × ℕ)
span_loop zero start to width = []
span_loop (suc fuel) start to width =
    let last = min (add_u64 start (width - 1)) to in
    let rest = span_loop fuel (add_u64 last 1) to width in
    if leb to last then (start, last) ∷ [] else (start, last) ∷ rest

-- `span_filters`, on the range `from..=to`
unfoldable pub span_filters : ℕ → ℕ → ℕ → List (ℕ × ℕ)
unfolding span_loop
span_filters from to span = if ltb to from then [] else span_loop (suc (to - from)) from to span

module _ {E Log : Type 0} where
  -- the loop of `logs_in_range` over the filters
  unfoldable pub read_spans : (ℕ × ℕ → Result E (List Log)) → List (ℕ × ℕ) → Result E (List Log)
  read_spans logs [] = ok []
  read_spans logs (filter ∷ filters) = do
    first ← logs filter
    rest ← read_spans logs filters
    ok (first ++ rest)

  unfoldable pub logs_in_range : (ℕ × ℕ → Result E (List Log)) → ℕ → ℕ → ℕ → Result E (List Log)
  unfolding read_spans span_filters
  logs_in_range logs from to span = read_spans logs (span_filters from to span)

-- an event, if the log has one, before the others
abbrev pub prepend : Option SyncEvent → List SyncEvent → List SyncEvent
prepend none events = events
prepend (some event) events = event ∷ events

module _ {Log : Type 0} where
  -- the events that decode, in their order
  unfoldable pub decoded : (Log → Option SyncEvent) → List Log → List SyncEvent
  decoded decode [] = []
  decoded decode (log ∷ logs) = prepend (decode log) (decoded decode logs)

module _ {E : Type 0} where
  -- `block_range`: the half-open range, given the answer of `block_height`
  unfoldable pub block_range : Result E ℕ → ℕ → ℕ → ℕ → Result E (ℕ × ℕ)
  block_range height deployed from_block to_block = do
    latest ← height
    let from = max from_block deployed
    ok (from, max (min to_block (add_u64 latest 1)) from)

-- `new` is `Snapshot::new` of the crate `kohaku_tornadocash`
module _ {E P Log : Type 0} (new : P → ℕ → ℕ → List SyncEvent → Result E (Snapshot P)) where
  unfoldable pub read_range :
      (Log → Option SyncEvent)
      → (ℕ × ℕ → Result E (List Log))
      → ℕ
      → P
      → ℕ × ℕ
      → Result E (Snapshot P)
  unfolding logs_in_range decoded
  read_range decode logs span pool (from, to) =
      if leb to from
      then new pool from to []
      else (logs_in_range logs from (to - 1) span >>= λ found.
          new pool from to (decoded decode found))

  -- `NetworkEndpointSyncer::sync`
  unfoldable pub endpoint_sync :
      (Log → Option SyncEvent)
      → (ℕ × ℕ → Result E (List Log))
      → Result E ℕ
      → ℕ
      → P
      → ℕ
      → ℕ
      → ℕ
      → Result E (Snapshot P)
  unfolding block_range read_range
  endpoint_sync decode logs height span pool deployed from_block to_block =
      block_range height deployed from_block to_block >>= read_range decode logs span pool

module _ {E P : Type 0} (new : P → ℕ → ℕ → List SyncEvent → Result E (Snapshot P)) where
  -- what `chain_range` does with the tail of the range
  pub join_tail :
      (ℕ → ℕ → Result E (Snapshot P)) → ℕ → ℕ → Snapshot P → Snapshot P → Result E (Snapshot P)
  join_tail fallback from_block to_block saga tail =
      if tail.start == saga.end_block
      then new saga.pool saga.start (max tail.end_block saga.end_block) (saga.events ++ tail.events)
      else fallback from_block to_block

  pub extend_saga : (ℕ → ℕ → Result E (Snapshot P)) → ℕ → ℕ → Snapshot P → Result E (Snapshot P)
  unfolding join_tail
  extend_saga fallback from_block to_block saga =
      if ltb from_block saga.start
      then fallback from_block to_block
      else if leb to_block saga.end_block
      then ok saga
      else (fallback saga.end_block to_block >>= join_tail fallback from_block to_block saga)

  -- `chain_range`, on the two syncers of one pool
  pub chain_range :
      (ℕ → ℕ → Result E (Snapshot P))
      → (ℕ → ℕ → Result E (Snapshot P))
      → ℕ
      → ℕ
      → Result E (Snapshot P)
  unfolding extend_saga
  chain_range primary fallback from_block to_block = elim (primary from_block to_block) [
    | ok saga ↦ extend_saga fallback from_block to_block saga
    | err e ↦ fallback from_block to_block
  ]

  -- `ChainedSyncer::sync_range`
  pub sync_range :
      Option (ℕ → ℕ → Result E (Snapshot P))
      → (ℕ → ℕ → Result E (Snapshot P))
      → ℕ
      → ℕ
      → Result E (Snapshot P)
  unfolding chain_range
  sync_range none fallback from_block to_block = fallback from_block to_block
  sync_range (some primary) fallback from_block to_block =
      chain_range primary fallback from_block to_block
