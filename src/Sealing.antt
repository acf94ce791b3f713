-- ===== src/Sealing.antt =====
-- crates/core/src/database/encrypted.rs: the constants, the header's records, the errors, and what
-- is computed of keys without the database: the sealing of a value and its opening, and the data
-- key of a slot. Strings are their bytes. The ciphers, the key derivations and the encoding of the
-- header's records are a parameter.
pub mod Bound
use desktop_wallet.Common.{
  ℕ, ◌≡◌, ◌<◌, ◌^◌, Bool, true, false, not, ◌&&◌, ◌||◌, Option, none, some, List, [], ◌∷◌, ◌++◌,
  ◌==◌, if◌then◌else◌, ltb, length, take, drop,
}
use desktop_wallet.Common.Outcome.{Result, ok, err, ok_or, ◌>>=◌}
use desktop_wallet.Database.{Bytes, bytes_eq}

abbrev pub store_version : ℕ
store_version = 2

-- "edw:keystore:v1"
abbrev pub header_key : Bytes
header_key =
    101 ∷ 100 ∷ 119 ∷ 58 ∷ 107 ∷ 101 ∷ 121 ∷ 115 ∷ 116 ∷ 111 ∷ 114 ∷ 101 ∷ 58 ∷ 118 ∷ 49 ∷ []

-- "EDWSTORE"
abbrev pub header_magic : Bytes
header_magic = 69 ∷ 68 ∷ 87 ∷ 83 ∷ 84 ∷ 79 ∷ 82 ∷ 69 ∷ []

-- "edw:record-key:v1"
abbrev pub record_key_info : Bytes
record_key_info =
    101 ∷ 100 ∷ 119 ∷ 58 ∷ 114 ∷ 101 ∷ 99 ∷ 111 ∷ 114 ∷ 100 ∷ 45 ∷ 107 ∷ 101 ∷ 121 ∷ 58 ∷ 118 ∷ 49
    ∷ []

-- "edw:storage-key:v1"
abbrev pub storage_key_info : Bytes
storage_key_info =
    101 ∷ 100 ∷ 119 ∷ 58 ∷ 115 ∷ 116 ∷ 111 ∷ 114 ∷ 97 ∷ 103 ∷ 101 ∷ 45 ∷ 107 ∷ 101 ∷ 121 ∷ 58 ∷ 118
    ∷ 49 ∷ []

-- "edw:record:"
abbrev pub record_aad_domain : Bytes
record_aad_domain = 101 ∷ 100 ∷ 119 ∷ 58 ∷ 114 ∷ 101 ∷ 99 ∷ 111 ∷ 114 ∷ 100 ∷ 58 ∷ []

-- "edw:slot:"
abbrev pub slot_aad_domain : Bytes
slot_aad_domain = 101 ∷ 100 ∷ 119 ∷ 58 ∷ 115 ∷ 108 ∷ 111 ∷ 116 ∷ 58 ∷ []

-- "argon2id-password"
abbrev pub password_slot_kind : Bytes
password_slot_kind =
    97 ∷ 114 ∷ 103 ∷ 111 ∷ 110 ∷ 50 ∷ 105 ∷ 100 ∷ 45 ∷ 112 ∷ 97 ∷ 115 ∷ 115 ∷ 119 ∷ 111 ∷ 114 ∷ 100
    ∷ []

abbrev pub salt_len : ℕ
salt_len = 16

abbrev pub key_len : ℕ
key_len = 32

abbrev pub nonce_len : ℕ
nonce_len = 24

abbrev pub argon2_m_cost : ℕ
argon2_m_cost = 65536

abbrev pub argon2_t_cost : ℕ
argon2_t_cost = 3

abbrev pub argon2_p_cost : ℕ
argon2_p_cost = 1

pub record StoredSlot : Type 0 where
  pub kind : Bytes
  pub params : Bytes
  pub wrapped : Bytes

pub record Argon2idParams : Type 0 where
  pub m_cost : ℕ
  pub t_cost : ℕ
  pub p_cost : ℕ
  pub salt : Bytes

pub record KeystoreHeader : Type 0 where
  pub magic : Bytes
  pub version : ℕ
  pub slots : List StoredSlot

pub data Aad : Type 0 where
  record_of slot_of : Bytes → Aad

-- `E` is the error of the backend
pub data EncryptedDatabaseError (E : Type 0) : Type 0 where
  database : E → EncryptedDatabaseError E
  invalid_password : EncryptedDatabaseError E
  already_initialized : EncryptedDatabaseError E
  not_initialized : EncryptedDatabaseError E
  corrupt : EncryptedDatabaseError E
  unsupported_version : ℕ → EncryptedDatabaseError E
  unsupported_parameters : EncryptedDatabaseError E
  empty_password : EncryptedDatabaseError E
  key_derivation : EncryptedDatabaseError E
  no_matching_slot : Bytes → EncryptedDatabaseError E
  serialization : EncryptedDatabaseError E

-- The crates argon2, hkdf, chacha20poly1305, postcard and the random source of the system. `stretch`
-- is Argon2id at the costs above; `expand` takes the key, and the parts of the info; `encrypt` and
-- `decrypt` take the key, the nonce and the additional data. `random` gives the bytes of the
-- n-th draw, of the length asked for.
pub record Crypto : Type 0 where
  pub stretch : Bytes → Bytes → Option Bytes
  pub expand : Bytes → List Bytes → Option Bytes
  pub encrypt : Bytes → Bytes → Bytes → Bytes → Option Bytes
  pub decrypt : Bytes → Bytes → Bytes → Bytes → Option Bytes
  pub random : ℕ → ℕ → Bytes
  pub write_params : Argon2idParams → Option Bytes
  pub read_params : Bytes → Option Argon2idParams
  pub write_header : KeystoreHeader → Option Bytes
  pub read_header : Bytes → Option KeystoreHeader

-- the parameters that `wrap` writes
unfoldable pub current_params : Bytes → Argon2idParams
current_params salt = record {
  m_cost = argon2_m_cost;
  t_cost = argon2_t_cost;
  p_cost = argon2_p_cost;
  salt = salt;
}

-- `Aad::bytes`
unfoldable pub aad_bytes : Aad → Bytes
aad_bytes (record_of key) = store_version ∷ (record_aad_domain ++ key)
aad_bytes (slot_of kind) = store_version ∷ (slot_aad_domain ++ kind)

-- the test of `unwrap` on the costs and the salt
unfoldable pub unsupported : Argon2idParams → Bool
unsupported p =
    not (p.m_cost == argon2_m_cost)
    || not (p.t_cost == argon2_t_cost)
    || not (p.p_cost == argon2_p_cost)
    || not (length p.salt == salt_len)

-- any error of `open` is that of a wrong password
unfoldable pub or_invalid :
    {E : Type 0} → Result (EncryptedDatabaseError E) Bytes → Result (EncryptedDatabaseError E) Bytes
or_invalid (ok plaintext) = ok plaintext
or_invalid (err e) = err invalid_password

module _ (c : Crypto) {E : Type 0} where
  -- `DataKey::from_slice`
  unfoldable pub from_slice : Bytes → Result (EncryptedDatabaseError E) Bytes
  from_slice bytes = if length bytes == key_len then ok bytes else err corrupt

  -- `SealingKey::from_password`
  unfoldable pub from_password : Bytes → Bytes → Result (EncryptedDatabaseError E) Bytes
  from_password password salt = ok_or key_derivation (c.stretch password salt)

  -- `SealingKey::cipher`, which wants a key of the cipher's length
  unfoldable pub cipher : Bytes → Result (EncryptedDatabaseError E) Bytes
  cipher key = if length key == key_len then ok key else err key_derivation

  -- `SealingKey::seal`, with the nonce that it has drawn
  unfoldable pub sealed : Bytes → Bytes → Aad → Bytes → Result (EncryptedDatabaseError E) Bytes
  sealed key nonce aad plaintext = cipher key >>= λ k.
      ok_or corrupt (c.encrypt k nonce (aad_bytes aad) plaintext) >>= λ text.
      ok (store_version ∷ (nonce ++ text))

  -- `SealingKey::open`
  unfoldable pub unseal : Bytes → Aad → Bytes → Result (EncryptedDatabaseError E) Bytes
  unseal key aad [] = err corrupt
  unseal key aad (version ∷ rest) =
      if not (version == store_version)
      then err (unsupported_version version)
      else if ltb (length rest) nonce_len
      then err corrupt
      else cipher key >>= λ k.
          ok_or corrupt (c.decrypt k (take nonce_len rest) (aad_bytes aad) (drop nonce_len rest))

  -- `PasswordKeySource::unwrap`
  unfoldable pub unwrap : Bytes → StoredSlot → Result (EncryptedDatabaseError E) Bytes
  unwrap password slot = ok_or serialization (c.read_params slot.params) >>= λ params.
      if unsupported params
      then err unsupported_parameters
      else from_password password params.salt >>= λ key.
          or_invalid (unseal key (slot_of password_slot_kind) slot.wrapped) >>= λ plaintext.
          from_slice plaintext

  -- the tests of `KeystoreHeader::read` on the bytes of a header
  unfoldable pub decode_header : Bytes → Result (EncryptedDatabaseError E) KeystoreHeader
  decode_header bytes = ok_or serialization (c.read_header bytes) >>= λ header.
      if not (bytes_eq header.magic header_magic)
      then err corrupt
      else if not (header.version == store_version)
      then err (unsupported_version header.version)
      else ok header

  -- `KeystoreHeader::read` of the stored bytes
  unfoldable pub decoded : Option Bytes → Result (EncryptedDatabaseError E) KeystoreHeader
  decoded none = err not_initialized
  decoded (some bytes) = decode_header bytes

  -- the loop of `unlock_with` over the slots of the kind
  unfoldable pub try_slots :
      Bytes → List StoredSlot → EncryptedDatabaseError E → Result (EncryptedDatabaseError E) Bytes
  try_slots password [] last_error = err last_error
  try_slots password (slot ∷ slots) last_error = elim (unwrap password slot) [
    | ok data_key ↦ ok data_key
    | err error ↦ try_slots password slots error
  ]
