-- ===== src/Vault/Recovery.antt =====
-- crates/core/src/vault/tornadocash/mod.rs: recovery, clearing and listing keep the counter of
-- nonces above every record.
use desktop_wallet.Common.{
  ℕ, ◌≤◌, ◌<◌, ◌≡◌, refl, Option, List, [], ◌∷◌, ◌==◌, max, All, All-keep, All-map, Bool-cases,
  arith, inl, inr,
}
use desktop_wallet.Common.Outcome.{ok, ok-injective, >>=-eq-ok}
use desktop_wallet.Exec.Runs.{
  Runs, Runs-return, Runs-lift, Runs-weaken, Runs-bind, Runs-each, Runs-gather, Runs-given,
}
use desktop_wallet.Pools.{Kohaku, PoolSelection}
use desktop_wallet.Store.{NoteRecord, keychain}
use desktop_wallet.Vault.{
  Services, Recovered, checked_next, clear_pool, clear_pending, retained, merge_record, merge_found,
  recovered_record, store_recovered, recovered_next, recover_with_gap, pool_notes, vault_notes,
}
use desktop_wallet.Vault.Nonces.{
  next_of, Below, Reserved, attempt-Reserved, next_nonce-Reserved, put_next_nonce-Reserved,
  notes-Reserved, put_notes-Reserved, tracked_pools-Reserved, snapshots-Reserved,
}
use desktop_wallet.Vault.Rules.{Runs-attempt}
use desktop_wallet.Vault.Reserve.{
  Kept, check_pool-Reserved, sync_pool-Reserved, sync_end-Reserved, network_id-Reserved,
  operation_lock-Reserved, sync_unlocked-Reserved, track-Reserved, checked_next-eq-ok,
}

module _ (k : Kohaku) (v : Services k.Pool) (selection : PoolSelection) where
  open k use {Pool, id, pool_eq}

  -- the recovered counter is above every recovered nonce
  recovered_next-above :
      (found : List (Recovered Pool)) (next : ℕ)
      → recovered_next k v selection found ≡ ok next
      → All (λ f. f.nonce < next) found
  unfolding recovered_next
  recovered_next-above [] next h = tt
  recovered_next-above (f ∷ rest) next h =
      let step = >>=-eq-ok (checked_next f.nonce) _ h in
      let later = >>=-eq-ok (recovered_next k v selection rest) _ step.2 in
      let first = checked_next-eq-ok f.nonce step.0 step.1 in
      let top = ok-injective refl later.2 in
      (omega arith, All-map (λ g lt. omega arith) rest (recovered_next-above rest later.0 later.1))

  clear_pool-Reserved :
      (n : ℕ) (nonce : Option ℕ) (pool : Pool)
      → Kept k v selection n (clear_pool k v selection nonce pool)
  unfolding clear_pool
  clear_pool-Reserved n nonce pool = Runs-bind _ _ (notes-Reserved n (id pool)) (λ rs.
      Runs-bind _ _
        (Runs-weaken (λ w h. (h.0, All-keep _ (retained k v selection nonce) rs h.1)) (λ _ w h. h)
          (λ w h. h) (put_notes-Reserved n (id pool) _))
        (λ _. Runs-return _ (λ w h. h)))

  pub clear_pending-Reserved :
      (n : ℕ) (nonce : Option ℕ) → Kept k v selection n (clear_pending k v selection nonce)
  unfolding clear_pending
  clear_pending-Reserved n nonce = Runs-bind _ _ (operation_lock-Reserved k v selection n) (λ _.
      Runs-bind _ _ (network_id-Reserved k v selection n) (λ chain.
        Runs-bind _ _ (tracked_pools-Reserved n) (λ tracked.
          Runs-bind _ _ (sync_end-Reserved k v selection n) (λ end_block.
            Runs-bind _ _ (Runs-each _ _ (sync_pool-Reserved k v selection n end_block))
              (λ _. Runs-gather _ _ (clear_pool-Reserved n nonce))))))

  pool_notes-Reserved :
      (n : ℕ) (pools : List Pool) → Kept k v selection n (pool_notes k v selection pools)
  unfolding pool_notes
  pool_notes-Reserved n pools =
      Runs-gather _ pools
        (λ pool. Runs-bind _ _ (notes-Reserved n (id pool)) (λ rs. Runs-return _ (λ w h. h.0)))

  pub vault_notes-Reserved : (n : ℕ) → Kept k v selection n (vault_notes k v selection)
  unfolding vault_notes
  vault_notes-Reserved n = Runs-bind _ _ (operation_lock-Reserved k v selection n) (λ _.
      Runs-bind _ _ (network_id-Reserved k v selection n) (λ chain.
        Runs-bind _ _ (tracked_pools-Reserved n) (λ tracked.
          Runs-bind _ _ (sync_unlocked-Reserved k v selection n _) (λ _. pool_notes-Reserved n _))))

  merge_record-Below :
      (n : ℕ) (r : NoteRecord) (rs : List NoteRecord)
      → r.nonce < n
      → Below n rs
      → Below n (merge_record k v selection r rs)
  unfolding merge_record
  merge_record-Below n r [] lt h = (lt, tt)
  merge_record-Below n r (x ∷ rs) lt h = elim (Bool-cases (x.commitment == r.commitment)) [
    | inl e ↦ rw e (lt, h.1)
    | inr e ↦ rw e (h.0, merge_record-Below n r rs lt h.1)
  ]

  merge_found-Reserved :
      (n next : ℕ) (pool : Pool) (found : List (Recovered Pool)) (rs : List NoteRecord)
      → All (λ f. f.nonce < n) found
      → Runs
          (λ w. Reserved n w × Below (next_of w) rs)
          (merge_found k v selection pool found rs)
          (λ merged w. Reserved n w × Below (next_of w) merged)
          (Reserved n)
  unfolding merge_found recovered_record
  merge_found-Reserved n next pool [] rs low = Runs-return rs (λ w h. h)
  merge_found-Reserved n next pool (f ∷ found) rs low =
      Runs-bind _ _ (Runs-attempt (record { at = λ w rest h. h }) (λ w h. h.0) keychain) (λ _.
        Runs-weaken
          (λ w h. (
            h.0,
            merge_record-Below _ (recovered_record k v selection pool f) rs
                (let a = low.0 in let b = h.0.0 in omega arith) h.1,
          ))
          (λ _ w h. h) (λ w h. h) (merge_found-Reserved n next pool found _ low.1))

  store_recovered-Reserved :
      (n : ℕ) (found : List (Recovered Pool)) (pool : Pool)
      → All (λ f. f.nonce < n) found
      → Kept k v selection n (store_recovered k v selection found pool)
  unfolding store_recovered
  store_recovered-Reserved n found pool low = Runs-bind _ _ (notes-Reserved n (id pool)) (λ rs.
      Runs-bind _ _
        (merge_found-Reserved n n pool _ rs (All-keep _ (λ f. pool_eq f.pool pool) found low))
        (λ merged. put_notes-Reserved n (id pool) merged))

  pub recover-Reserved :
      (n : ℕ) (pools : List Pool) (gap : Option ℕ)
      → Kept k v selection n (recover_with_gap k v selection pools gap)
  unfolding recover_with_gap
  recover-Reserved n pools gap =
      Runs-bind _ _ (Runs-each _ pools (check_pool-Reserved k v selection n)) (λ _.
        Runs-bind _ _ (operation_lock-Reserved k v selection n) (λ _.
          Runs-bind _ _ (track-Reserved k v selection n pools) (λ _.
            Runs-bind _ _ (sync_end-Reserved k v selection n) (λ end_block.
              Runs-bind _ _ (Runs-each _ pools (sync_pool-Reserved k v selection n end_block)) (λ _.
                Runs-bind _ _ (Runs-gather _ pools (λ pool. snapshots-Reserved n (id pool)))
                  (λ found. Runs-bind _ _ (attempt-Reserved n keychain) (λ _.
                    Runs-bind
                      {Q = λ next w. All (λ f. f.nonce < next) (v.recover found gap) × Reserved n w}
                      _ _
                      (Runs-lift _ (λ w h. h) (λ next e w h. (recovered_next-above _ next e, h)))
                      (λ next. Runs-given (λ low.
                        Runs-bind _ _
                          (Runs-weaken (λ w h. h)
                            (λ stored w h. ((let a = h.0.0 in let b = h.1 in omega arith), h))
                            (λ w h. h) (next_nonce-Reserved n))
                          (λ stored. Runs-given {F = n ≤ stored} (λ reached.
                            Runs-bind _ _
                              (Runs-weaken (λ w h. (h.0, omega arith)) (λ _ w h. h) (λ w h. h)
                                (put_next_nonce-Reserved n (max next stored)))
                              (λ _.
                                Runs-weaken (λ w h. h) (λ _ w h. (omega arith, h.1))
                                  (λ w h. (omega arith, h.1))
                                  (Runs-each _ pools (λ pool.
                                    store_recovered-Reserved (max next stored) _ pool
                                      (All-map (λ f lt. omega arith) _ low)))))))))))))))
