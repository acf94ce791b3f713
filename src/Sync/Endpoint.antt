-- ===== src/Sync/Endpoint.antt =====
-- crates/core/src/vault/tornadocash/syncer.rs: a sync from an endpoint holds the events of every
-- block of the range that the pool and the chain allow.
use desktop_wallet.Common.{
  ℕ, suc, ◌-◌, ◌≤◌, ◌<◌, ◌^◌, ◌≡◌, ◌∙◌, refl, sym, ap, Option, none, some, List, [], ◌∷◌, ◌++◌, leb,
  if◌then◌else◌, min, max, subst, Bool-cases, arith, inl, inr, leb→le,
}
use desktop_wallet.Common.Outcome.{Result, ok, ok-injective, >>=-eq-ok, ◌>>=◌}
use desktop_wallet.Store.{SyncEvent, Snapshot}
use desktop_wallet.Sync.{
  read_spans, logs_in_range, decoded, prepend, block_range, read_range, endpoint_sync, add_u64,
  span_filters,
}
use desktop_wallet.Sync.Spans.{Tiles, span_filters-Tiles}
use desktop_wallet.Sync.Chained.{blocks_from, blocks_from-join, blocks_from-none, Serves}

prepend-append :
    (o : Option SyncEvent) (xs ys : List SyncEvent) → prepend o (xs ++ ys) ≡ prepend o xs ++ ys
prepend-append none xs ys = refl
prepend-append (some event) xs ys = refl

module _ {Log : Type 0} where
  decoded-append :
      (decode : Log → Option SyncEvent) (xs ys : List Log)
      → decoded decode (xs ++ ys) ≡ decoded decode xs ++ decoded decode ys
  unfolding decoded
  decoded-append decode [] ys = refl
  decoded-append decode (x ∷ xs) ys =
      ap (prepend (decode x)) (decoded-append decode xs ys)
      ∙ prepend-append (decode x) (decoded decode xs) (decoded decode ys)

module _ {E P Log : Type 0} (new : P → ℕ → ℕ → List SyncEvent → Result E (Snapshot P))
    (decode : Log → Option SyncEvent) (logs : ℕ × ℕ → Result E (List Log))
    (block : ℕ → List SyncEvent)
    (fields : (p : P) (a b : ℕ) (es : List SyncEvent) (s : Snapshot P)
      → new p a b es ≡ ok s
      → (s.start ≡ a) × (s.end_block ≡ b) × (s.events ≡ es))
    (complete : (a b : ℕ) (found : List Log)
      → a ≤ b
      → logs (a, b) ≡ ok found
      → decoded decode found ≡ blocks_from block a (suc b - a)) where
  read_spans-blocks :
      (width to : ℕ) (fs : List (ℕ × ℕ)) (start : ℕ) (found : List Log)
      → Tiles width start to fs
      → read_spans logs fs ≡ ok found
      → decoded decode found ≡ blocks_from block start (suc to - start)
  unfolding read_spans decoded
  read_spans-blocks width to [] start found tiles e =
      let nothing : suc to - start ≡ 0 = omega arith in
      ap (decoded decode) (ok-injective e refl) ∙ rw nothing (sym (blocks_from-none block start))
  read_spans-blocks width to ((a, b) ∷ fs) start found tiles e =
      let first = >>=-eq-ok (logs (a, b)) _ e in
      let rest = >>=-eq-ok (read_spans logs fs) _ first.2 in
      let tail = read_spans-blocks width to fs (suc b) rest.0 tiles.4 rest.1 in
      let head = complete a b first.0 (omega arith) first.1 in
      ap (decoded decode) (ok-injective rest.2 refl)
      ∙ decoded-append decode first.0 rest.0
      ∙ rw (head, tail, tiles.0)
          (blocks_from-join block start (suc b) (suc to) (omega arith) (omega arith))

  read_range-Faithful :
      (span : ℕ) (pool : P) (from to : ℕ) (s : Snapshot P)
      → from ≤ to
      → to ≤ 2 ^ 64
      → 0 < span
      → read_range new decode logs span pool (from, to) ≡ ok s
      → (s.start ≡ from) × (s.end_block ≡ to) × (s.events ≡ blocks_from block from (to - from))
  unfolding read_range logs_in_range
  read_range-Faithful span pool from to s le small pos e =
      let read : List Log → Result E (Snapshot P) =
        λ found. new pool from to (decoded decode found) in
      let long = read_spans logs (span_filters from (to - 1) span) >>= read in
      elim (Bool-cases (leb to from)) [
        | inl f ↦
            let none_left : to - from ≡ 0 = let l = leb→le to from f in omega arith in
            let made =
              fields pool from to [] s
                (subst (λ b. (if b then new pool from to [] else long) ≡ ok s) f e) in
            (made.0, made.1, made.2 ∙ rw none_left (sym (blocks_from-none block from)))
        | inr f ↦
            let below : from < to = ground arith in
            let found =
              >>=-eq-ok (read_spans logs (span_filters from (to - 1) span)) read
                (subst (λ b. (if b then new pool from to [] else long) ≡ ok s) f e) in
            let made = fields pool from to (decoded decode found.0) s found.2 in
            let last : suc (to - 1) ≡ to = omega arith in
            (
              made.0,
              made.1,
              made.2
                  ∙ read_spans-blocks span (to - 1) _ from found.0
                      (span_filters-Tiles from (to - 1) span (omega arith) (omega arith) pos)
                      found.1
                  ∙ ap (λ c. blocks_from block from (c - from)) last,
            )
      ]

  -- Let the logs that the endpoint gives for a range decode to the events of its blocks, and let
  -- `Snapshot::new` keep its arguments. For 64-bit block numbers and a span that is not 0, a
  -- snapshot that the endpoint's syncer gives holds the events of the blocks of its range, starts
  -- no later than the request or than the pool's first block, and ends no earlier than the request
  -- or than the block after the chain's height.
  pub endpoint_sync-Serves :
      (latest span : ℕ) (pool : P) (deployed from to : ℕ) (s : Snapshot P)
      → deployed < 2 ^ 64
      → from < 2 ^ 64
      → 0 < span
      → endpoint_sync new decode logs (ok latest) span pool deployed from to ≡ ok s
      → Serves new block deployed (add_u64 latest 1) from to s
  unfolding endpoint_sync block_range
  endpoint_sync-Serves latest span pool deployed from to s small small' pos e =
      let first : ℕ = max from deployed in
      let last : ℕ = max (min to (add_u64 latest 1)) first in
      let made = read_range-Faithful span pool first last s (omega arith) (omega arith) pos e in
      (
        (
          omega arith,
          made.2
              ∙ ap (λ a. blocks_from block a (last - a)) (sym made.0)
              ∙ ap (λ c. blocks_from block s.start (c - s.start)) (sym made.1),
        ),
        omega arith,
        omega arith,
      )
