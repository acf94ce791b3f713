-- ===== src/Tests/Ranges.antt =====
-- The theorems on ranges of blocks applied to concrete chains.
use desktop_wallet.Common.{
  ℕ, suc, ◌-◌, ◌≤◌, ◌≡◌, refl, ap, ◌∙◌, subst, some, List, [], ◌∷◌, max, min, arith,
}
use desktop_wallet.Common.Outcome.{Result, ok, ok-injective}
use desktop_wallet.Store.{SyncEvent, deposit, Snapshot}
use desktop_wallet.Sync.{
  span_loop, span_filters, read_spans, logs_in_range, decoded, block_range, read_range,
  endpoint_sync, chain_range, add_u64,
}
use desktop_wallet.Sync.Spans.{Tiles, span_filters-Tiles}
use desktop_wallet.Sync.Chained.{blocks_from, Serves, Faithful, Sound, chain_range-Sound}
use desktop_wallet.Sync.Endpoint.{endpoint_sync-Serves}

span_filters-Tiles_example : Tiles 500 0 1100 (span_filters 0 1100 500)
span_filters-Tiles_example = span_filters-Tiles 0 1100 500 (omega arith) (omega arith) (omega arith)

-- block `n` has one deposit
abbrev block : ℕ → List SyncEvent
block n = deposit n n ∷ []

abbrev new : ℕ → ℕ → ℕ → List SyncEvent → Result Unit (Snapshot ℕ)
new p a b es = ok (record { pool = p; start = a; end_block = b; events = es })

new-fields :
    (p a b : ℕ) (es : List SyncEvent) (s : Snapshot ℕ)
    → new p a b es ≡ ok s
    → (s.start ≡ a) × (s.end_block ≡ b) × (s.events ≡ es)
new-fields p a b es s e =
    let same = ok-injective e refl in
    (ap (λ t. t.start) same, ap (λ t. t.end_block) same, ap (λ t. t.events) same)

abbrev logs : ℕ × ℕ → Result Unit (List SyncEvent)
logs range = ok (blocks_from block range.0 (suc range.1 - range.0))

decoded-some : (xs : List SyncEvent) → decoded some xs ≡ xs
unfolding decoded
decoded-some [] = refl
decoded-some (x ∷ xs) = ap (λ l. x ∷ l) (decoded-some xs)

logs_complete :
    (a b : ℕ) (found : List SyncEvent)
    → a ≤ b
    → logs (a, b) ≡ ok found
    → decoded some found ≡ blocks_from block a (suc b - a)
logs_complete a b found le e = decoded-some found ∙ ok-injective e refl

abbrev snapshot : ℕ → ℕ → Snapshot ℕ
snapshot a b = record { pool = 0; start = a; end_block = b; events = blocks_from block a (b - a) }

read : endpoint_sync new some logs (ok 8) 2 0 3 0 6 ≡ ok (snapshot 3 6)
unfolding span_loop span_filters read_spans logs_in_range decoded block_range read_range
    endpoint_sync blocks_from
read = refl

endpoint_sync-Serves_example : Serves new block 3 (add_u64 8 1) 0 6 (snapshot 3 6)
endpoint_sync-Serves_example =
    endpoint_sync-Serves new some logs block new-fields logs_complete 8 2 0 3 0 6 (snapshot 3 6)
      (omega arith) (omega arith) (omega arith) read

-- an indexer that knows the blocks below 4, and an endpoint that knows all
abbrev indexer : ℕ → ℕ → Result Unit (Snapshot ℕ)
indexer a b = ok (snapshot a (max a (min b 4)))

abbrev endpoint : ℕ → ℕ → Result Unit (Snapshot ℕ)
endpoint a b = ok (snapshot a (max a b))

indexer-Faithful : (a b : ℕ) (s : Snapshot ℕ) → indexer a b ≡ ok s → Faithful new block s
indexer-Faithful a b s e = subst (Faithful new block) (ok-injective refl e) (omega arith, refl)

endpoint-Serves : (a b : ℕ) (s : Snapshot ℕ) → endpoint a b ≡ ok s → Serves new block 0 100 a b s
endpoint-Serves a b s e =
    subst (Serves new block 0 100 a b) (ok-injective refl e)
      ((omega arith, refl), omega arith, omega arith)

chain_range-Sound_example :
    Sound new block 0 100 indexer endpoint 0 6 (chain_range new indexer endpoint 0 6)
chain_range-Sound_example =
    chain_range-Sound new block 0 100 indexer endpoint new-fields indexer-Faithful endpoint-Serves 0
      6
