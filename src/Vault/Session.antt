-- ===== src/Vault/Session.antt =====
-- crates/core/src/vault/tornadocash/mod.rs: sequences of the vault's operations, any of which may
-- fail on the way, and the nonces of the deposits that they return.
use desktop_wallet.Common.{ℕ, suc, ◌≤◌, Option, List, [], ◌∷◌, ◌++◌, arith}
use desktop_wallet.Common.Outcome.{Result, ok, err}
use desktop_wallet.Exec.{return, ◌>>=◌, ◌>>◌}
use desktop_wallet.Exec.Runs.{Runs, Post, Runs-return, Runs-weaken, Runs-bind}
use desktop_wallet.Pools.{Kohaku, TornadoNote, PoolSelection}
use desktop_wallet.Store.{World, Op, VaultError}
use desktop_wallet.Vault.{
  Services, PreparedDeposit, prepare_deposits, sync, vault_notes, clear_pending, recover_with_gap,
}
use desktop_wallet.Vault.Nonces.{next_of, Reserved}
use desktop_wallet.Vault.Reserve.{Ascending, sync-Reserved, prepare_deposits-Ascending}
use desktop_wallet.Vault.Recovery.{clear_pending-Reserved, vault_notes-Reserved, recover-Reserved}

-- the calls of the vault that write its records
pub data Request (P : Type 0) : Type 0 where
  prepare : List P → Request P
  synced : List P → Request P
  list : Request P
  clear : Option ℕ → Request P
  recovered : List P → Option ℕ → Request P

-- the deposits that a call has handed out
abbrev pub handed_out : {A : Type 0} → Result VaultError (List A) → List A
handed_out (ok ds) = ds
handed_out (err e) = []

module _ {P : Type 0} where
  Ascending-low :
      (a b c : ℕ) (ys : List (PreparedDeposit P)) → a ≤ b → Ascending b c ys → Ascending a c ys
  Ascending-low a b c [] le h = omega arith
  Ascending-low a b c (d ∷ ys) le h = (omega arith, h.1)

  Ascending-append :
      (b c : ℕ) (xs ys : List (PreparedDeposit P)) (a : ℕ)
      → Ascending a b xs
      → Ascending b c ys
      → Ascending a c (xs ++ ys)
  Ascending-append b c [] ys a h g = Ascending-low a b c ys h g
  Ascending-append b c (d ∷ xs) ys a h g = (h.0, Ascending-append b c xs ys (suc d.nonce) h.1 g)

module _ (k : Kohaku) (selection : PoolSelection) where
  open k use {Pool}

  pub serve : Services Pool → Request Pool → Op Pool (List (PreparedDeposit Pool))
  serve v (prepare pools) = prepare_deposits k v selection pools
  serve v (synced pools) = sync k v selection pools >> return []
  serve v list = vault_notes k v selection >>= λ _. return []
  serve v (clear nonce) = clear_pending k v selection nonce >>= λ _. return []
  serve v (recovered pools gap) = recover_with_gap k v selection pools gap >> return []

  -- calls in their order, each with the services as it finds them; a call that fails hands out no
  -- deposit, and what it has written stays
  unfoldable pub session :
      List (Services Pool × Request Pool) → World Pool → List (PreparedDeposit Pool) × World Pool
  unfolding serve
  session [] w = ([], w)
  session ((v, r) ∷ calls) w =
      let step = serve v r w in
      let rest = session calls step.1 in (handed_out step.0 ++ rest.0, rest.1)

  -- a call that hands out no deposit
  none_handed :
      (n : ℕ) {m : Op Pool Unit}
      → Runs (Reserved n) m (λ _. Reserved n) (Reserved n)
      → Runs
          (Reserved n)
          (m >> return [])
          (λ ds w. Reserved n w × Ascending {P = Pool} n (next_of w) ds)
          (Reserved n)
  none_handed n run = Runs-bind _ _ run (λ _. Runs-return [] (λ w h. (h, h.0)))

  none_listed :
      (n : ℕ) {m : Op Pool (List (TornadoNote Pool))}
      → Runs (Reserved n) m (λ _. Reserved n) (Reserved n)
      → Runs
          (Reserved n)
          (m >>= λ _. return [])
          (λ ds w. Reserved n w × Ascending {P = Pool} n (next_of w) ds)
          (Reserved n)
  none_listed n run = Runs-bind _ _ run (λ _. Runs-return [] (λ w h. (h, h.0)))

  -- From a state whose counter is above every record, every call hands out ascending nonces, from
  -- the floor `n` of the counter up to the counter that it leaves, and leaves the counter above
  -- every record; if it fails, that holds of the counter all the same.
  pub serve-Ascending :
      (n : ℕ) (v : Services Pool) (r : Request Pool)
      → Runs
          (Reserved n)
          (serve v r)
          (λ ds w. Reserved n w × Ascending n (next_of w) ds)
          (Reserved n)
  unfolding serve
  serve-Ascending n v (prepare pools) =
      Runs-weaken (λ w h. h) (λ ds w h. (h.0, h.1.0)) (λ w h. h)
        (prepare_deposits-Ascending k v selection n pools)
  serve-Ascending n v (synced pools) = none_handed n (sync-Reserved k v selection n pools)
  serve-Ascending n v list = none_listed n (vault_notes-Reserved k v selection n)
  serve-Ascending n v (clear nonce) = none_listed n (clear_pending-Reserved k v selection n nonce)
  serve-Ascending n v (recovered pools gap) =
      none_handed n (recover-Reserved k v selection n pools gap)

  session_step :
      (n : ℕ) (calls : List (Services Pool × Request Pool))
      → ((m : ℕ) (w : World Pool)
          → Reserved m w
          → Ascending m (next_of (session calls w).1) (session calls w).0)
      → (o : Result VaultError (List (PreparedDeposit Pool)) × World Pool)
      → Post (λ ds w. Reserved n w × Ascending n (next_of w) ds) (Reserved n) o
      → Ascending n (next_of (session calls o.1).1) (handed_out o.0 ++ (session calls o.1).0)
  session_step n calls rest (ok ds, w) h =
      Ascending-append (next_of w) _ ds _ n h.1 (rest (next_of w) w (omega arith, h.0.1))
  session_step n calls rest (err e, w) h = rest n w h

  -- Start from a state whose counter is above every record and has reached `n`, and make any calls
  -- of the vault in any order, with any services and any failing accesses: the deposits handed out
  -- by all of them have ascending nonces from `n` on, so no nonce is handed out twice.
  pub session-Ascending :
      (n : ℕ) (calls : List (Services Pool × Request Pool)) (w : World Pool)
      → Reserved n w
      → Ascending n (next_of (session calls w).1) (session calls w).0
  unfolding session
  session-Ascending n [] w h = h.0
  session-Ascending n ((v, r) ∷ calls) w h =
      session_step n calls (λ m. session-Ascending m calls) (serve v r w)
        ((serve-Ascending n v r).at w h)
