-- ===== src/Encrypted/Present.antt =====
-- crates/core/src/database/encrypted.rs: a header that is stored is never overwritten by the calls
-- that open or create a database.
use desktop_wallet.Common.{◌≡◌, refl, Option, some, [], ◌∷◌, ◌⊎◌, inl, inr}
use desktop_wallet.Common.Outcome.{Result, ok, err}
use desktop_wallet.Exec.{Exec, lift, resume, ◌>>=◌}
use desktop_wallet.Database.{Bytes}
use desktop_wallet.Sealing.{
  Crypto, KeystoreHeader, EncryptedDatabaseError, header_key, database, already_initialized,
  empty_password, decoded,
}
use desktop_wallet.Encrypted.{
  Backend, Disk, db_get, new_source, read_header, create_with, create, unlock, open_or_create,
  unlock_with, found,
}

module _ (c : Crypto) {S E : Type 0} (db : Backend S E) where
  lift_same :
      {A B : Type 0} (r : Result (EncryptedDatabaseError E) A)
      (f : A → Exec (Disk S) (EncryptedDatabaseError E) B) (w : Disk S)
      → ((a : A) → (f a w).1 ≡ w)
      → (resume f (r, w)).1 ≡ w
  lift_same (ok a) f w h = h a
  lift_same (err e) f w h = refl

  read_keeps :
      {B : Type 0} (f : KeystoreHeader → Exec (Disk S) (EncryptedDatabaseError E) B) (w : Disk S)
      (r : Result E (Option Bytes))
      → ((a : KeystoreHeader) → (f a w).1 ≡ w)
      → (resume f (resume (λ stored. lift (decoded c stored)) (found database w r))).1 ≡ w
  unfolding found lift
  read_keeps f w (ok stored) h = lift_same (decoded c stored) f w h
  read_keeps f w (err e) h = refl

  unlock_keeps : (p : Bytes) (w : Disk S) → (unlock c db p w).1 ≡ w
  unfolding unlock new_source unlock_with read_header db_get ◌>>=◌ found
  unlock_keeps [] w = refl
  unlock_keeps (b ∷ bs) w = read_keeps _ w (db.get w.inner header_key) (λ a. refl)

  -- Whatever the backend does and whatever its header holds: if a header is stored, then
  -- open_or_create writes nothing, and create fails without a write, as already initialized or, on
  -- an empty password, as that.
  pub open_or_create_keeps :
      (p bytes : Bytes) (w : Disk S)
      → db.get w.inner header_key ≡ ok (some bytes)
      → ((open_or_create c db p w).1 ≡ w)
        × ((create c db p w ≡ (err already_initialized, w))
            ⊎ ((create c db p w ≡ (err empty_password, w)) × (p ≡ [])))
  unfolding open_or_create create new_source create_with db_get ◌>>=◌ found
  open_or_create_keeps [] bytes w e =
      let same : (open_or_create c db [] w).1 ≡ w = rw e (unlock_keeps [] w) in
      (same, inr (refl, refl))
  open_or_create_keeps (b ∷ bs) bytes w e =
      let same : (open_or_create c db (b ∷ bs) w).1 ≡ w = rw e (unlock_keeps (b ∷ bs) w) in
      (same, inl (rw e refl))
