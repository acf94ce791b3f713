-- ===== src/Vault/Nonces.antt =====
-- crates/core/src/vault/tornadocash/{mod,db}.rs: the counter of nonces stays above every nonce that
-- was reserved or recorded, whatever accesses fail.
use Prim.Native.String.{String}
use text.Mathlib.Text.{◌==◌ as str_eq}
use desktop_wallet.Common.{
  ℕ, zero, suc, ◌≤◌, ◌<◌, ◌≡◌, refl, Option, none, some, List, [], unwrap_or, All, All-map,
  Bool-cases, arith, ◌⊎◌, inl, inr,
}
use desktop_wallet.Exec.Runs.{Runs, Runs-return, Runs-weaken, Runs-bind, Runs-if, Runs-fail}
use desktop_wallet.Store.{
  Snapshot, NoteRecord, PoolScope, World, VaultError, attempt, read_scope, write_scope, set_scope,
  next_nonce, put_next_nonce, tracked_pools, put_tracked_pools, cursor, latest_block, put_snapshot,
  read_chunks, snapshots, found_chunk, put_chunk, put_cursor, committed, commit_snapshot, notes,
  put_notes, default_cursor,
}
use desktop_wallet.Vault.Rules.{Stored, Runs-attempt, Runs-read, Runs-write}

abbrev pub Below : ℕ → List NoteRecord → Type 0
Below n = All (λ r. r.nonce < n)

pub Below-≤ : (a b : ℕ) (rs : List NoteRecord) → a ≤ b → Below a rs → Below b rs
Below-≤ a b rs le h = All-map (λ r lt. omega arith) rs h

module _ {P : Type 0} where
  abbrev pub next_of : World P → ℕ
  next_of w = unwrap_or w.nonce_record 0

  abbrev pub records_of : World P → String → List NoteRecord
  records_of w i = unwrap_or (w.scope i).notes_record []

  -- the counter has reached `floor` and is above every record
  abbrev pub Reserved : ℕ → World P → Type 0
  Reserved floor w = (floor ≤ next_of w) × ((i : String) → Below (next_of w) (records_of w i))

  Stored-Reserved : (n : ℕ) → Stored (Reserved n)
  Stored-Reserved n = record { at = λ w rest h. h }

  pub attempt-Reserved :
      (n : ℕ) (e : VaultError) → Runs (Reserved n) (attempt e) (λ _. Reserved n) (Reserved n)
  attempt-Reserved n e = Runs-attempt (Stored-Reserved n) (λ w h. h) e

  pub next_nonce-Reserved :
      (n : ℕ) → Runs (Reserved n) next_nonce (λ a w. Reserved n w × (a ≡ next_of w)) (Reserved n)
  unfolding next_nonce
  next_nonce-Reserved n = Runs-read (Stored-Reserved n) (λ w h. h) _

  pub put_next_nonce-Reserved :
      (n x : ℕ)
      → Runs (λ w. Reserved n w × (next_of w ≤ x)) (put_next_nonce x) (λ _. Reserved x) (Reserved n)
  unfolding put_next_nonce
  put_next_nonce-Reserved n x =
      Runs-write (record { at = λ w rest h. h }) (λ w h. h.0) _
        (λ w h. (omega arith, λ i. Below-≤ _ _ _ h.1 (h.0.1 i)))

  pub notes-Reserved :
      (n : ℕ) (i : String)
      → Runs (Reserved n) (notes i) (λ rs w. Reserved n w × Below (next_of w) rs) (Reserved n)
  unfolding notes read_scope
  notes-Reserved n i =
      Runs-weaken (λ w h. h) (λ rs w h. (h.0, rw h.1 (h.0.1 i))) (λ w h. h)
        (Runs-read (Stored-Reserved n) (λ w h. h) _)

  -- a write to one scope, of notes below the counter
  set_scope-Reserved :
      (n : ℕ) (i : String) (f : PoolScope P → PoolScope P) (w : World P)
      → Reserved n w
      → Below (next_of w) (unwrap_or (f (w.scope i)).notes_record [])
      → ((s : PoolScope P) → (f s).notes_record ≡ (f (w.scope i)).notes_record)
        ⊎ ((s : PoolScope P) → (f s).notes_record ≡ s.notes_record)
      → Reserved n (set_scope i f w)
  set_scope-Reserved n i f w h low same = (
    h.0,
    λ j. elim (Bool-cases (str_eq j i)) [
      | inl e ↦ rw e (elim same [
        | inl all ↦ rw (all (w.scope j)) low
        | inr all ↦ rw (all (w.scope j)) (h.1 j)
      ])
      | inr e ↦ rw e (h.1 j)
    ],
  )

  pub put_notes-Reserved :
      (n : ℕ) (i : String) (rs : List NoteRecord)
      → Runs
          (λ w. Reserved n w × Below (next_of w) rs)
          (put_notes i rs)
          (λ _. Reserved n)
          (Reserved n)
  unfolding put_notes write_scope
  put_notes-Reserved n i rs =
      Runs-write (record { at = λ w rest h. h }) (λ w h. h.0) _
        (λ w h.
          set_scope-Reserved n i (λ s. record s { notes_record = some rs }) w h.0 h.1
            (inl (λ s. refl)))

  -- a write that leaves the notes as they are
  write_scope-Reserved :
      (n : ℕ) (i : String) (f : PoolScope P → PoolScope P)
      → ((s : PoolScope P) → (f s).notes_record ≡ s.notes_record)
      → Runs (Reserved n) (write_scope i f) (λ _. Reserved n) (Reserved n)
  unfolding write_scope
  write_scope-Reserved n i f same =
      Runs-write (Stored-Reserved n) (λ w h. h) _
        (λ w h. set_scope-Reserved n i f w h (rw (same (w.scope i)) (h.1 i)) (inr same))

  pub tracked_pools-Reserved :
      (n : ℕ) → Runs (Reserved n) tracked_pools (λ _. Reserved n) (Reserved n)
  unfolding tracked_pools
  tracked_pools-Reserved n =
      Runs-weaken (λ w h. h) (λ a w h. h.0) (λ w h. h) (Runs-read (Stored-Reserved n) (λ w h. h) _)

  pub put_tracked_pools-Reserved :
      (n : ℕ) (pools : List P)
      → Runs (Reserved n) (put_tracked_pools pools) (λ _. Reserved n) (Reserved n)
  unfolding put_tracked_pools
  put_tracked_pools-Reserved n pools = Runs-write (Stored-Reserved n) (λ w h. h) _ (λ w h. h)

  cursor-Reserved :
      (n : ℕ) (i : String) → Runs (Reserved n) (cursor i) (λ _. Reserved n) (Reserved n)
  unfolding cursor read_scope
  cursor-Reserved n i =
      Runs-weaken (λ w h. h) (λ a w h. h.0) (λ w h. h) (Runs-read (Stored-Reserved n) (λ w h. h) _)

  pub latest_block-Reserved :
      (n : ℕ) (i : String) → Runs (Reserved n) (latest_block i) (λ _. Reserved n) (Reserved n)
  unfolding latest_block
  latest_block-Reserved n i = Runs-bind _ _ (cursor-Reserved n i) (λ c. Runs-return _ (λ w h. h))

  pub put_snapshot-Reserved :
      (n : ℕ) (i : String) (snapshot : Snapshot P)
      → Runs (Reserved n) (put_snapshot i snapshot) (λ _. Reserved n) (Reserved n)
  unfolding put_snapshot put_chunk
  put_snapshot-Reserved n i snapshot = Runs-if _ _ _ (Runs-return tt (λ w h. h)) (
      Runs-bind _ _ (cursor-Reserved n i) (λ c.
        write_scope-Reserved n i (put_chunk (unwrap_or c default_cursor).chunks snapshot)
          (λ s. refl)))

  pub commit_snapshot-Reserved :
      (n : ℕ) (i : String) (snapshot : Snapshot P)
      → Runs (Reserved n) (commit_snapshot i snapshot) (λ _. Reserved n) (Reserved n)
  unfolding commit_snapshot put_cursor
  commit_snapshot-Reserved n i snapshot = Runs-bind _ _ (cursor-Reserved n i) (λ c.
      write_scope-Reserved n i (put_cursor (committed (unwrap_or c default_cursor) snapshot))
        (λ s. refl))

  found_chunk-Reserved :
      (n index : ℕ) (found : Option (Snapshot P))
      → Runs (Reserved n) (found_chunk index found) (λ _. Reserved n) (Reserved n)
  unfolding found_chunk
  found_chunk-Reserved n index none = Runs-fail _ (λ w h. h)
  found_chunk-Reserved n index (some s) = Runs-return s (λ w h. h)

  read_chunks-Reserved :
      (n : ℕ) (i : String) (left index : ℕ)
      → Runs (Reserved n) (read_chunks i left index) (λ _. Reserved n) (Reserved n)
  unfolding read_chunks read_scope
  read_chunks-Reserved n i zero index = Runs-return _ (λ w h. h)
  read_chunks-Reserved n i (suc left) index =
      Runs-bind _ _
        (Runs-weaken (λ w h. h) (λ a w h. h.0) (λ w h. h)
          (Runs-read (Stored-Reserved n) (λ w h. h) _))
        (λ found. Runs-bind _ _ (found_chunk-Reserved n index found) (λ first.
          Runs-bind _ _ (read_chunks-Reserved n i left (suc index))
            (λ others. Runs-return _ (λ w h. h))))

  pub snapshots-Reserved :
      (n : ℕ) (i : String) → Runs (Reserved n) (snapshots i) (λ _. Reserved n) (Reserved n)
  unfolding snapshots
  snapshots-Reserved n i = Runs-bind _ _ (cursor-Reserved n i) (λ c. read_chunks-Reserved n i _ 0)
