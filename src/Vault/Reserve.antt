-- ===== src/Vault/Reserve.antt =====
-- crates/core/src/vault/tornadocash/mod.rs: what the operations of the vault do to the counter of
-- nonces and to the nonces that deposits reserve.
use Prim.Native.String.{String}
use desktop_wallet.Common.{
  ℕ, suc, ◌≤◌, ◌≡◌, refl, List, [], ◌∷◌, ◌++◌, ◌==◌, unwrap_or, map, All-append, subst, Bool-cases,
  arith, inl, inr,
}
use desktop_wallet.Common.Outcome.{ok}
use desktop_wallet.Exec.{collect}
use desktop_wallet.Exec.Runs.{
  Post, Runs, Runs-return, Runs-lift, Runs-weaken, Runs-bind, Runs-each, Runs-if, Runs-fail,
  Runs-given, Runs-modify,
}
use desktop_wallet.Pools.{Kohaku, PoolSelection}
use desktop_wallet.Store.{
  SyncEvent, deposit, withdrawal, NoteRecord, World, database, keychain, syncer, provider, Op,
  put_notes,
}
use desktop_wallet.Vault.{
  Services, PreparedDeposit, apply_event, apply_events, checked_next, check_pool, operation_lock,
  network_id, sync_end, track, pending_record, deposit_note, sync_pool, sync_unlocked, forget_tree,
  prepare_deposits, sync,
}
use desktop_wallet.Vault.Nonces.{
  next_of, Below, Reserved, attempt-Reserved, next_nonce-Reserved, put_next_nonce-Reserved,
  notes-Reserved, put_notes-Reserved, tracked_pools-Reserved, put_tracked_pools-Reserved,
  latest_block-Reserved, put_snapshot-Reserved, commit_snapshot-Reserved,
}

-- an event leaves the nonce of a record alone
apply_event-nonce : (e : SyncEvent) (r : NoteRecord) → (apply_event e r).nonce ≡ r.nonce
unfolding apply_event
apply_event-nonce (deposit c l) r = elim (Bool-cases (r.commitment == c)) [
  | inl e ↦ rw e refl
  | inr e ↦ rw e refl
]
apply_event-nonce (withdrawal h) r = elim (Bool-cases (r.nullifier_hash == h)) [
  | inl e ↦ rw e refl
  | inr e ↦ rw e refl
]

map-apply_event-Below :
    (n : ℕ) (e : SyncEvent) (rs : List NoteRecord) → Below n rs → Below n (map (apply_event e) rs)
map-apply_event-Below n e [] h = tt
map-apply_event-Below n e (r ∷ rs) h =
    (rw (apply_event-nonce e r) h.0, map-apply_event-Below n e rs h.1)

apply_events-Below :
    (n : ℕ) (rs : List NoteRecord) (es : List SyncEvent) → Below n rs → Below n (apply_events rs es)
unfolding apply_events
apply_events-Below n rs [] h = h
apply_events-Below n rs (e ∷ es) h =
    apply_events-Below n (map (apply_event e) rs) es (map-apply_event-Below n e rs h)

pub checked_next-eq-ok : (n m : ℕ) → checked_next n ≡ ok m → m ≡ suc n
checked_next-eq-ok n m h = ground arith

-- the nonces of deposits in their order: each at least `low`, above the one before, and below `high`
abbrev pub Ascending : {P : Type 0} → ℕ → ℕ → List (PreparedDeposit P) → Type 0
Ascending low high [] = low ≤ high
Ascending low high (d ∷ ds) = (low ≤ d.nonce) × Ascending (suc d.nonce) high ds

module _ (k : Kohaku) (v : Services k.Pool) (selection : PoolSelection) where
  open k use {Pool, id, deployed_block, pool_eq, chain_id}

  abbrev pub Kept : {A : Type 0} → ℕ → Op Pool A → Type 0
  Kept n m = Runs (Reserved n) m (λ _. Reserved n) (Reserved n)

  pub check_pool-Reserved : (n : ℕ) (pool : Pool) → Kept n (check_pool k v selection pool)
  unfolding check_pool
  check_pool-Reserved n pool = Runs-if _ _ _ (Runs-fail _ (λ w h. h)) (Runs-return _ (λ w h. h))

  put_events-Reserved :
      (n : ℕ) (i : String) (rs : List NoteRecord) (es : List SyncEvent)
      → Runs
          (λ w. Reserved n w × Below (next_of w) rs)
          (put_notes {P = Pool} i (apply_events rs es))
          (λ _. Reserved n)
          (Reserved n)
  put_events-Reserved n i rs es =
      Runs-weaken (λ w h. (h.0, apply_events-Below _ rs es h.1)) (λ _ w h. h) (λ w h. h)
        (put_notes-Reserved n i _)

  pub sync_pool-Reserved :
      (n end_block : ℕ) (pool : Pool) → Kept n (sync_pool k v selection end_block pool)
  unfolding sync_pool forget_tree
  sync_pool-Reserved n end_block pool = Runs-bind _ _ (latest_block-Reserved n (id pool)) (λ latest.
      Runs-bind _ _ (attempt-Reserved n syncer) (λ _.
        Runs-bind _ _ (put_snapshot-Reserved n (id pool) _) (λ _.
          Runs-bind _ _ (Runs-modify _ (λ w h. h)) (λ _.
            Runs-bind _ _ (notes-Reserved n (id pool)) (λ rs.
              Runs-bind _ _
                (put_events-Reserved n (id pool) rs
                  (v.sync_range pool (unwrap_or latest (deployed_block pool)) end_block).events)
                (λ _. commit_snapshot-Reserved n (id pool) _))))))

  pub sync_end-Reserved : (n : ℕ) → Kept n (sync_end k v selection)
  unfolding sync_end
  sync_end-Reserved n = Runs-bind _ _ (attempt-Reserved n provider) (λ _. Runs-return _ (λ w h. h))

  pub network_id-Reserved : (n : ℕ) → Kept n (network_id k v selection)
  unfolding network_id
  network_id-Reserved n =
      Runs-bind _ _ (attempt-Reserved n provider) (λ _. Runs-return _ (λ w h. h))

  pub operation_lock-Reserved : (n : ℕ) → Kept n (operation_lock k v selection)
  unfolding operation_lock
  operation_lock-Reserved n = attempt-Reserved n database

  pub sync_unlocked-Reserved :
      (n : ℕ) (pools : List Pool) → Kept n (sync_unlocked k v selection pools)
  unfolding sync_unlocked
  sync_unlocked-Reserved n pools =
      Runs-bind _ _ (sync_end-Reserved n) (λ e. Runs-each _ pools (sync_pool-Reserved n e))

  pub sync-Reserved : (n : ℕ) (pools : List Pool) → Kept n (sync k v selection pools)
  unfolding sync
  sync-Reserved n pools =
      Runs-bind _ _ (Runs-each _ pools (check_pool-Reserved n))
        (λ _. Runs-bind _ _ (operation_lock-Reserved n) (λ _. sync_unlocked-Reserved n pools))

  pub track-Reserved : (n : ℕ) (pools : List Pool) → Kept n (track k v selection pools)
  unfolding track
  track-Reserved n pools =
      Runs-bind _ _ (tracked_pools-Reserved n)
        (λ tracked. Runs-if _ _ _ (Runs-return _ (λ w h. h)) (put_tracked_pools-Reserved n _))

  -- the record of a nonce that the counter has passed
  push_pending-Reserved :
      (nonce : ℕ) (pool : Pool) (rs : List NoteRecord)
      → Runs
          (λ w. Reserved (suc nonce) w × Below (next_of w) rs)
          (put_notes (id pool) (rs ++ pending_record k v selection nonce pool ∷ []))
          (λ _. Reserved {P = Pool} (suc nonce))
          (Reserved (suc nonce))
  unfolding pending_record
  push_pending-Reserved nonce pool rs =
      Runs-weaken (λ w h. (h.0, All-append _ rs _ h.1 (h.0.0, tt))) (λ _ w h. h) (λ w h. h)
        (put_notes-Reserved (suc nonce) (id pool) _)

  deposit_note-Reserved :
      (n : ℕ) (pool : Pool)
      → Runs
          (Reserved n)
          (deposit_note k v selection pool)
          (λ d w. Reserved (suc d.nonce) w × ((n ≤ d.nonce) × (d.pool ≡ pool)))
          (Reserved n)
  unfolding deposit_note
  deposit_note-Reserved n pool = Runs-bind _ _ (next_nonce-Reserved n) (λ nonce.
      Runs-bind
        {Q = λ next w. ((n ≤ nonce) × (next ≡ suc nonce)) × (Reserved n w × (next_of w ≤ next))} _ _
        (Runs-lift (checked_next nonce) (λ w h. h.0)
          (λ next e w h. (
            (omega arith, checked_next-eq-ok nonce next e),
            (h.0, let step = checked_next-eq-ok nonce next e in omega arith),
          )))
        (λ next. Runs-given (λ facts. Runs-bind _ _ (put_next_nonce-Reserved n next) (λ _.
          Runs-weaken (λ w h. subst (λ x. Reserved x w) facts.1 h) (λ d w h. h)
            (λ w h. (omega arith, h.1))
            (Runs-bind _ _ (attempt-Reserved (suc nonce) keychain) (λ _.
              Runs-bind _ _ (notes-Reserved (suc nonce) (id pool)) (λ rs.
                Runs-bind _ _ (push_pending-Reserved nonce pool rs)
                  (λ _. Runs-return _ (λ w h. (h, (facts.0, refl)))))))))))

  collect-Ascending :
      (n : ℕ) (pools : List Pool)
      → Runs
          (Reserved n)
          (collect (deposit_note k v selection) pools)
          (λ ds w. Reserved n w × (Ascending n (next_of w) ds × (map (λ d. d.pool) ds ≡ pools)))
          (Reserved n)
  unfolding collect
  collect-Ascending n [] = Runs-return [] (λ w h. (h, (h.0, refl)))
  collect-Ascending n (pool ∷ pools) = Runs-bind _ _ (deposit_note-Reserved n pool) (λ d.
      Runs-weaken (λ w h. (h.1, h.0)) (λ ds w h. h) (λ w h. h)
        (Runs-given (λ facts.
          Runs-bind _ _
            (Runs-weaken (λ w h. h) (λ ds w h. h) (λ w h. (omega arith, h.1))
              (collect-Ascending (suc d.nonce) pools))
            (λ ds.
              Runs-return (d ∷ ds)
                (λ w h. ((omega arith, h.0.1), ((facts.0, h.1.0), rw (facts.1, h.1.1) refl)))))))

  pub prepare_deposits-Ascending :
      (n : ℕ) (pools : List Pool)
      → Runs
          (Reserved n)
          (prepare_deposits k v selection pools)
          (λ ds w. Reserved n w × (Ascending n (next_of w) ds × (map (λ d. d.pool) ds ≡ pools)))
          (Reserved n)
  unfolding prepare_deposits
  prepare_deposits-Ascending n pools =
      Runs-bind _ _ (Runs-each _ pools (check_pool-Reserved n)) (λ _.
        Runs-bind _ _ (operation_lock-Reserved n)
          (λ _. Runs-bind _ _ (track-Reserved n pools) (λ _. collect-Ascending n pools)))

  -- From a state whose counter is above every record and has reached `n`, a deposit into `pools`
  -- reserves nonces from `n` on, each above the one before, one for each pool in its order, and
  -- ends with the counter above them all and above every record. If it fails, whatever access
  -- failed, the counter is still above every record and not below `n`.
  pub prepare_deposits-fresh :
      (n : ℕ) (pools : List Pool) (w : World Pool)
      → Reserved n w
      → Post
          (λ ds u. Reserved n u × (Ascending n (next_of u) ds × (map (λ d. d.pool) ds ≡ pools)))
          (Reserved n)
          (prepare_deposits k v selection pools w)
  prepare_deposits-fresh n pools w = (prepare_deposits-Ascending n pools).at w
