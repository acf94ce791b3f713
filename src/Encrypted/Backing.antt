-- ===== src/Encrypted/Backing.antt =====
-- crates/core/src/database/encrypted.rs: what the encrypted database wants of a backend, and what
-- its calls then do.
use desktop_wallet.Common.{ℕ, ◌≡◌, refl, ap, false, Option, none, some, if◌then◌else◌, length}
use desktop_wallet.Common.Outcome.{Result, ok, err}
use desktop_wallet.Exec.{lift}
use desktop_wallet.Exec.Runs.{Runs, Post}
use desktop_wallet.Database.{
  Bytes, bytes_eq, MemoryDatabase, get, put, delete, DatabaseError as MemoryError,
}
use desktop_wallet.Sealing.{Crypto, EncryptedDatabaseError}
use desktop_wallet.Sealing.Bound.{Works}
use desktop_wallet.Encrypted.{
  Backend, Disk, found, written, db_get, db_put, db_delete, boxed_error, boxing, Attempt,
  fill_bytes,
}

-- the records of a database
abbrev pub Records : Type 0
Records = Bytes → Option Bytes

abbrev pub overwrite : Bytes → Option Bytes → Records → Records
overwrite key value f k = if bytes_eq k key then value else f k

-- A backend that works: its calls answer, with a map of records.
pub record IsStore {S E : Type 0} (db : Backend S E) : Type 1 where
  pub IsUp : S → Type 0
  pub view : S → Records
  pub gets : (s : S) (k : Bytes) → IsUp s → db.get s k ≡ ok (view s k)
  pub puts :
      (s : S) (k v : Bytes)
      → IsUp s
      → (t : S) × (db.put s k v ≡ ok t) × IsUp t × (view t ≡ overwrite k (some v) (view s))
  pub deletes :
      (s : S) (k : Bytes)
      → IsUp s
      → (t : S) × (db.delete s k ≡ ok t) × IsUp t × (view t ≡ overwrite k none (view s))

-- no outcome
abbrev pub Never {ℓ} : {A : Type ℓ} → A → Type 0
Never a = ⊥

-- the database in memory is a backend
abbrev pub memory : Backend MemoryDatabase MemoryError
memory = record { get = get; put = put; delete = delete }

-- and works while its mutex is not poisoned
unfoldable pub memory_store : IsStore memory
unfolding get put delete
memory_store = record {
  IsUp = λ s. s.poisoned ≡ false;
  view = λ s. s.store;
  gets = λ s k up. rw up refl;
  puts = λ s k v up. (_, rw up refl, up, refl);
  deletes = λ s k up. (_, rw up refl, up, refl);
}

module _ {S E : Type 0} {db : Backend S E} (works : IsStore db) where
  -- the backend works, and has the records
  abbrev pub Holds : Records → Disk S → Type 0
  Holds m w = works.IsUp w.inner × (works.view w.inner ≡ m)

  module _ {F : Type 0} (from : E → F) (m : Records) where
    pub db_get-Runs :
        (k : Bytes) → Runs (Holds m) (db_get db from k) (λ v w. (v ≡ m k) × Holds m w) Never
    unfolding db_get found
    db_get-Runs k = record { at = λ w h. rw (works.gets w.inner k h.0) (ap (λ f. f k) h.1, h) }

    pub db_put-Runs :
        (k v : Bytes)
        → Runs (Holds m) (db_put db from k v) (λ _. Holds (overwrite k (some v) m)) Never
    unfolding db_put written
    db_put-Runs k v = record {
      at =
          λ w h. let done = works.puts w.inner k v h.0 in rw done.1 (done.2, rw (done.3, h.1) refl);
    }

    pub db_delete-Runs :
        (k : Bytes) → Runs (Holds m) (db_delete db from k) (λ _. Holds (overwrite k none m)) Never
    unfolding db_delete written
    db_delete-Runs k = record {
      at = λ w h.
          let done = works.deletes w.inner k h.0 in rw done.1 (done.2, rw (done.3, h.1) refl);
    }

module _ {S E A : Type 0} where
  Post-boxed_error :
      (Q : A → Disk S → Type 0) (R : Disk S → Type 0)
      (o : Result (EncryptedDatabaseError E) A × Disk S)
      → Post Q R o
      → Post Q R (boxed_error o)
  unfolding boxed_error
  Post-boxed_error Q R (ok a, w) h = h
  Post-boxed_error Q R (err e, w) h = h

  pub Runs-boxing :
      {P R : Disk S → Type 0} {Q : A → Disk S → Type 0} {m : Attempt S E A}
      → Runs P m Q R
      → Runs P (boxing m) Q R
  unfolding boxing
  Runs-boxing {R = R} {Q = Q} {m = m} run = record {
    at = λ w h. Post-boxed_error Q R (m w) (run.at w h);
  }

module _ {S F A : Type 0} where
  -- a computation that succeeds
  pub Runs-lift_ok :
      {P R : Disk S → Type 0} {Q : A → Disk S → Type 0} {r : Result F A} (a : A)
      → r ≡ ok a
      → ((w : Disk S) → P w → Q a w)
      → Runs P (lift r) Q R
  unfolding lift
  Runs-lift_ok a e h = record { at = λ w p. rw e (h w p) }

module _ {S E : Type 0} (V : S → Type 0) (c : Crypto) (works : Works c) where
  -- a draw leaves the backend as it is
  pub fill_bytes-Runs :
      (n : ℕ)
      → Runs
          (λ w. V w.inner)
          (fill_bytes c {S = S} {E = E} n)
          (λ bytes w. (length bytes ≡ n) × V w.inner)
          Never
  unfolding fill_bytes
  fill_bytes-Runs n = record { at = λ w h. (works.draws w.drawn n, h) }
