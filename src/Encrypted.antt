-- ===== src/Encrypted.antt =====
-- crates/core/src/database/encrypted.rs: the encrypted database over a backend. The state is that
-- of the backend and the number of draws that were made of the random source.
pub mod Backing
pub mod Records
pub mod Commands
pub mod Slots
pub mod Password
pub mod Present
use desktop_wallet.Common.{
  ℕ, suc, ◌+◌, ◌≡◌, Bool, true, false, not, Option, none, some, List, [], ◌∷◌, ◌++◌, map,
  if◌then◌else◌, is_some, keep,
}
use desktop_wallet.Common.Outcome.{Result, ok, err, ok_or}
use desktop_wallet.Exec.{Exec, return, fail, lift, gets, ◌>>=◌, ◌>>◌}
use desktop_wallet.Database.{Bytes, bytes_eq}
use desktop_wallet.Sealing.{
  Crypto, StoredSlot, Argon2idParams, KeystoreHeader, Aad, record_of, slot_of,
  EncryptedDatabaseError, database, already_initialized, not_initialized, no_matching_slot,
  empty_password, key_derivation, serialization, store_version, header_key, header_magic,
  record_key_info, storage_key_info, password_slot_kind, salt_len, key_len, nonce_len,
  argon2_m_cost, argon2_t_cost, argon2_p_cost, sealed, unseal, from_password, unwrap,
  current_params, decode_header, decoded, try_slots,
}

-- The trait `Database`: what a backend in state `S` does, with errors `E`.
pub record Backend (S E : Type 0) : Type 0 where
  pub get : S → Bytes → Result E (Option Bytes)
  pub put : S → Bytes → Bytes → Result E S
  pub delete : S → Bytes → Result E S

pub record Disk (S : Type 0) : Type 0 where
  pub inner : S
  pub drawn : ℕ

-- `DatabaseError` of the encrypted database: one of the backend, or one of its own, boxed
pub data DatabaseError (E : Type 0) : Type 0 where
  backend : E → DatabaseError E
  boxed : EncryptedDatabaseError E → DatabaseError E

abbrev pub Attempt : Type 0 → Type 0 → Type 0 → Type 0
Attempt S E A = Exec (Disk S) (EncryptedDatabaseError E) A

module _ {S E F : Type 0} where
  -- calls of the backend, whose errors `from` takes
  unfoldable pub found :
      (E → F) → Disk S → Result E (Option Bytes) → Result F (Option Bytes) × Disk S
  found from w (ok value) = (ok value, w)
  found from w (err e) = (err (from e), w)

  unfoldable pub written : (E → F) → Disk S → Result E S → Result F Unit × Disk S
  written from w (ok s) = (ok tt, record w { inner = s })
  written from w (err e) = (err (from e), w)

  unfoldable pub db_get : Backend S E → (E → F) → Bytes → Exec (Disk S) F (Option Bytes)
  db_get db from key w = found from w (db.get w.inner key)

  unfoldable pub db_put : Backend S E → (E → F) → Bytes → Bytes → Exec (Disk S) F Unit
  db_put db from key value w = written from w (db.put w.inner key value)

  unfoldable pub db_delete : Backend S E → (E → F) → Bytes → Exec (Disk S) F Unit
  db_delete db from key w = written from w (db.delete w.inner key)

module _ {S E A : Type 0} where
  unfoldable pub boxed_error :
      Result (EncryptedDatabaseError E) A × Disk S → Result (DatabaseError E) A × Disk S
  boxed_error (ok a, w) = (ok a, w)
  boxed_error (err e, w) = (err (boxed e), w)

  -- `?` where the function returns a `DatabaseError`
  unfoldable pub boxing : Attempt S E A → Exec (Disk S) (DatabaseError E) A
  boxing m w = boxed_error (m w)

module _ (c : Crypto) {S E : Type 0} where
  -- `OsRng` fills a buffer of a length
  unfoldable pub fill_bytes : ℕ → Attempt S E Bytes
  fill_bytes n w = (ok (c.random w.drawn n), record w { drawn = suc w.drawn })

  -- `SealingKey::seal`
  unfoldable pub seal_with : Bytes → Aad → Bytes → Attempt S E Bytes
  seal_with key aad plaintext = do
    nonce ← fill_bytes nonce_len
    lift (sealed c key nonce aad plaintext)

  -- `PasswordKeySource::wrap`
  unfoldable pub wrap : Bytes → Bytes → Attempt S E StoredSlot
  wrap password data_key = do
    salt ← fill_bytes salt_len
    key ← lift (from_password c password salt)
    wrapped ← seal_with key (slot_of password_slot_kind) data_key
    encoded ← lift (ok_or serialization (c.write_params (current_params salt)))
    return (record { kind = password_slot_kind; params = encoded; wrapped = wrapped })

-- `PasswordKeySource::new`
unfoldable pub new_source : {S E : Type 0} → Bytes → Attempt S E Bytes
new_source [] = fail empty_password
new_source (b ∷ bs) = return (b ∷ bs)

module _ (c : Crypto) {S E : Type 0} (db : Backend S E) where
  -- `KeystoreHeader::read`
  unfoldable pub read_header : Attempt S E KeystoreHeader
  read_header = do bytes ← db_get db database header_key; lift (decoded c bytes)

  -- `KeystoreHeader::write`
  unfoldable pub write_header : KeystoreHeader → Attempt S E Unit
  write_header header = do
    bytes ← lift (ok_or serialization (c.write_header header))
    db_put db database header_key bytes

  -- `EncryptedDatabase::create_with`, giving the data key, and `create`
  unfoldable pub create_with : Bytes → Attempt S E Bytes
  create_with password = do
    present ← db_get db database header_key
    if is_some present then fail already_initialized else do
      data_key ← fill_bytes c key_len
      slot ← wrap c password data_key
      write_header (record { magic = header_magic; version = store_version; slots = slot ∷ [] })
      return data_key

  unfoldable pub create : Bytes → Attempt S E Bytes
  create password = new_source password >>= create_with

  -- `EncryptedDatabase::unlock_with`, giving the data key, and `unlock`
  unfoldable pub unlock_with : Bytes → Attempt S E Bytes
  unlock_with password = do
    header ← read_header
    let same = keep (λ slot. bytes_eq slot.kind password_slot_kind) header.slots
    lift (try_slots c password same (no_matching_slot password_slot_kind))

  unfoldable pub unlock : Bytes → Attempt S E Bytes
  unlock password = new_source password >>= unlock_with

  -- `EncryptedDatabase::open_or_create`
  unfoldable pub open_or_create : Bytes → Attempt S E Bytes
  open_or_create password = do
    present ← db_get db database header_key
    if is_some present then unlock password else create password

  module _ (data_key : Bytes) where
    -- `EncryptedDatabase::change_password`
    unfoldable pub change_password : Bytes → Attempt S E Unit
    change_password new_password = do
      source ← new_source new_password
      slot ← wrap c source data_key
      header ← read_header
      let rest = keep (λ existing. not (bytes_eq existing.kind password_slot_kind)) header.slots
      write_header (record header { slots = rest ++ slot ∷ [] })

    -- `EncryptedDatabase::expand`
    unfoldable pub expand : Bytes → Bytes → Result (EncryptedDatabaseError E) Bytes
    expand domain key = ok_or key_derivation (c.expand data_key (domain ∷ key ∷ []))

    unfoldable pub storage_key : Bytes → Result (EncryptedDatabaseError E) Bytes
    storage_key key = expand storage_key_info key

    unfoldable pub record_key : Bytes → Result (EncryptedDatabaseError E) Bytes
    record_key key = expand record_key_info key

    -- `EncryptedDatabase::seal` and `open`
    unfoldable pub seal : Bytes → Bytes → Attempt S E Bytes
    seal key value = do sealing ← lift (record_key key); seal_with c sealing (record_of key) value

    unfoldable pub opened : Bytes → Bytes → Attempt S E Bytes
    opened key blob = do
      sealing ← lift (record_key key)
      lift (unseal c sealing (record_of key) blob)

    -- `Database for EncryptedDatabase`
    unfoldable pub opened_if : Bytes → Option Bytes → Exec (Disk S) (DatabaseError E) (Option Bytes)
    opened_if key none = return none
    opened_if key (some blob) = do value ← boxing (opened key blob); return (some value)

    unfoldable pub get : Bytes → Exec (Disk S) (DatabaseError E) (Option Bytes)
    get key = do
      hidden ← boxing (lift (storage_key key))
      blob ← db_get db backend hidden
      opened_if key blob

    unfoldable pub put : Bytes → Bytes → Exec (Disk S) (DatabaseError E) Unit
    put key value = do
      hidden ← boxing (lift (storage_key key))
      blob ← boxing (seal key value)
      db_put db backend hidden blob

    unfoldable pub delete : Bytes → Exec (Disk S) (DatabaseError E) Unit
    delete key = do hidden ← boxing (lift (storage_key key)); db_delete db backend hidden

  -- `EncryptedDatabase::slot_kinds`
  unfoldable pub slot_kinds : Attempt S E (List Bytes)
  slot_kinds = do header ← read_header; return (map (λ slot. slot.kind) header.slots)
