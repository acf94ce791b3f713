-- ===== src/Sync/Chained.antt =====
-- crates/core/src/vault/tornadocash/syncer.rs: the snapshot of a chained sync holds the events of
-- every block of its range.
use mathlib.Core.List.{append_assoc}
use desktop_wallet.Common.{
  ◌∙◌, ==_iff, ℕ, zero, suc, ◌+◌, ◌-◌, ◌≤◌, ◌≡◌, refl, ap, List, [], ◌++◌, ltb, leb, ◌==◌, min, max,
  Bool-cases, arith, ◌⊎◌, inl, inr, leb→le,
}
use desktop_wallet.Common.Outcome.{Result, ok, err, ◌>>=◌}
use desktop_wallet.Store.{SyncEvent, Snapshot}
use desktop_wallet.Sync.{chain_range, extend_saga, join_tail}

-- the contents of `n` blocks from `start` on
unfoldable pub blocks_from {ℓ} : {A : Type ℓ} → (ℕ → List A) → ℕ → ℕ → List A
blocks_from block start zero = []
blocks_from block start (suc n) = block start ++ blocks_from block (suc start) n

blocks_from-append {ℓ} :
    {A : Type ℓ} (block : ℕ → List A) (m n start mid : ℕ)
    → start + m ≡ mid
    → blocks_from block start m ++ blocks_from block mid n ≡ blocks_from block start (m + n)
unfolding blocks_from
blocks_from-append block zero n start mid e =
    let same : mid ≡ start = omega arith in let sum : 0 + n ≡ n = omega arith in rw (same, sum) refl
blocks_from-append block (suc m) n start mid e =
    let sum : suc m + n ≡ suc (m + n) = omega arith in
    rw sum (
      append_assoc (block start) _ _
      ∙ ap (λ rest. block start ++ rest)
          (blocks_from-append block m n (suc start) mid (omega arith)))

pub blocks_from-none {ℓ} :
    {A : Type ℓ} (block : ℕ → List A) (start : ℕ) → blocks_from block start 0 ≡ []
unfolding blocks_from
blocks_from-none block start = refl

-- consecutive ranges
pub blocks_from-join {ℓ} :
    {A : Type ℓ} (block : ℕ → List A) (a b c : ℕ)
    → a ≤ b
    → b ≤ c
    → blocks_from block a (b - a) ++ blocks_from block b (c - b) ≡ blocks_from block a (c - a)
blocks_from-join block a b c le le' =
    let sum : (b - a) + (c - b) ≡ c - a = omega arith in
    blocks_from-append block (b - a) (c - b) a b (omega arith) ∙ ap (blocks_from block a) sum

module _ {E P : Type 0} (new : P → ℕ → ℕ → List SyncEvent → Result E (Snapshot P))
    (block : ℕ → List SyncEvent) where
  -- the snapshot holds the events of the blocks of its range
  abbrev pub Faithful : Snapshot P → Type 0
  Faithful s =
      (s.start ≤ s.end_block) × (s.events ≡ blocks_from block s.start (s.end_block - s.start))

  -- a snapshot of the blocks that a syncer can serve: from `low` on, and below `high`
  abbrev pub Serves : ℕ → ℕ → ℕ → ℕ → Snapshot P → Type 0
  Serves low high from to s = Faithful s × (s.start ≤ max from low) × (min to high ≤ s.end_block)

  module _ (low high : ℕ) (primary fallback : ℕ → ℕ → Result E (Snapshot P)) where
    abbrev pub Sound : ℕ → ℕ → Result E (Snapshot P) → Type 0
    Sound from to (ok s) = Serves low high from to s
    Sound from to (err e) =
        ((a : ℕ) × (b : ℕ) × (fallback a b ≡ err e))
        ⊎ ((p : P) × (a : ℕ) × (b : ℕ) × (es : List SyncEvent) × (new p a b es ≡ err e))

    module _
        (fields : (p : P) (a b : ℕ) (es : List SyncEvent) (s : Snapshot P)
          → new p a b es ≡ ok s
          → (s.start ≡ a) × (s.end_block ≡ b) × (s.events ≡ es))
        (primary_faithful : (a b : ℕ) (s : Snapshot P) → primary a b ≡ ok s → Faithful s)
        (fallback_serves : (a b : ℕ) (s : Snapshot P)
          → fallback a b ≡ ok s
          → Serves low high a b s) where
      fallback-Sound :
          (a b from to : ℕ) (r : Result E (Snapshot P))
          → fallback a b ≡ r
          → ((s : Snapshot P) → r ≡ ok s → Serves low high from to s)
          → Sound from to r
      fallback-Sound a b from to (ok s) e serves = serves s refl
      fallback-Sound a b from to (err x) e serves = inl (a, b, e)

      new-Sound :
          (p : P) (a b from to : ℕ) (es : List SyncEvent) (r : Result E (Snapshot P))
          → new p a b es ≡ r
          → a ≤ b
          → a ≤ max from low
          → min to high ≤ b
          → es ≡ blocks_from block a (b - a)
          → Sound from to r
      new-Sound p a b from to es (err x) e le first last whole = inr (p, a, b, es, e)
      new-Sound p a b from to es (ok s) e le first last whole =
          let f = fields p a b es s e in
          ((rw (f.0, f.1) le, rw (f.0, f.1, f.2) whole), rw f.0 first, rw f.1 last)

      join_tail-Sound :
          (from to : ℕ) (saga tail : Snapshot P)
          → Faithful saga
          → saga.start ≤ from
          → Serves low high saga.end_block to tail
          → Sound from to (join_tail new fallback from to saga tail)
      unfolding join_tail
      join_tail-Sound from to saga tail honest first serves =
          elim (Bool-cases (tail.start == saga.end_block)) [
            | inr e ↦ rw e (fallback-Sound from to from to _ refl (λ s. fallback_serves from to s))
            | inl e ↦
                let meet : tail.start ≡ saga.end_block = (==_iff tail.start saga.end_block).0 e in
                let b : ℕ = max tail.end_block saga.end_block in
                let grown : saga.end_block ≤ b = omega arith in
                let same : tail.end_block ≡ b = let l = serves.0.0 in omega arith in
                let tail_events : tail.events
                    ≡ blocks_from block saga.end_block (b - saga.end_block) =
                  serves.0.1
                  ∙ ap (λ a. blocks_from block a (tail.end_block - a)) meet
                  ∙ ap (λ c. blocks_from block saga.end_block (c - saga.end_block)) same in
                rw e (
                  new-Sound saga.pool saga.start b from to _ _ refl
                    (let l = honest.0 in omega arith) (omega arith)
                    (let l = serves.2 in omega arith)
                    (rw (honest.1, tail_events)
                      (blocks_from-join block saga.start saga.end_block b honest.0 grown)))
          ]

      tail-Sound :
          (from to : ℕ) (saga : Snapshot P)
          → Faithful saga
          → saga.start ≤ from
          → (r : Result E (Snapshot P)) → fallback saga.end_block to ≡ r
          → Sound from to (r >>= join_tail new fallback from to saga)
      tail-Sound from to saga honest first (ok tail) e =
          join_tail-Sound from to saga tail honest first (fallback_serves saga.end_block to tail e)
      tail-Sound from to saga honest first (err x) e = inl (saga.end_block, to, e)

      extend_saga-Sound :
          (from to : ℕ) (saga : Snapshot P)
          → Faithful saga
          → Sound from to (extend_saga new fallback from to saga)
      unfolding extend_saga
      extend_saga-Sound from to saga honest = elim (Bool-cases (ltb from saga.start)) [
        | inl e ↦ rw e (fallback-Sound from to from to _ refl (λ s. fallback_serves from to s))
        | inr e ↦ elim (Bool-cases (leb to saga.end_block)) [
          | inl f ↦
              let l = leb→le to saga.end_block f in rw (e, f) (honest, ground arith, omega arith)
          | inr f ↦ rw (e, f) (tail-Sound from to saga honest (ground arith) _ refl)
        ]
      ]

      with_primary :
          (from to : ℕ) (r : Result E (Snapshot P))
          → primary from to ≡ r
          → Sound from to (elim r [
            | ok saga ↦ extend_saga new fallback from to saga
            | err e ↦ fallback from to
          ])
      with_primary from to (ok saga) e =
          extend_saga-Sound from to saga (primary_faithful from to saga e)
      with_primary from to (err x) e =
          fallback-Sound from to from to _ refl (λ s. fallback_serves from to s)

      -- Let every snapshot of the primary syncer hold the events of the blocks of its range, and
      -- let every snapshot of the fallback do so too and serve its request: it starts no later
      -- than the request, or than the first block `low` there is to serve, and ends no earlier
      -- than the request, or than the chain's end `high`. Then a chained sync, whatever the primary
      -- answers, fails only with an error of the fallback or of `Snapshot::new`, and otherwise
      -- gives a snapshot that holds the events of the blocks of its range and serves the request.
      pub chain_range-Sound :
          (from to : ℕ) → Sound from to (chain_range new primary fallback from to)
      unfolding chain_range
      chain_range-Sound from to = with_primary from to _ refl
