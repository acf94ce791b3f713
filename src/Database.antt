-- ===== src/Database.antt =====
-- crates/core/src/database/memory.rs and crates/core/src/database/scoped.rs: a map from keys to
-- values in memory, and the keyspace of a scope. Keys and values are lists of bytes.
pub mod Scopes
use desktop_wallet.Common.{
  ℕ, ◌/◌, ◌%◌, Bool, true, false, ◌&&◌, Option, none, some, List, [], ◌∷◌, ◌++◌, ◌==◌,
  if◌then◌else◌, length,
}
use desktop_wallet.Common.Outcome.{Result, ok, err}
use desktop_wallet.Common.U256.{u32_mod}

abbrev pub Bytes : Type 0
Bytes = List ℕ

unfoldable pub bytes_eq : Bytes → Bytes → Bool
bytes_eq [] [] = true
bytes_eq [] (b ∷ ys) = false
bytes_eq (a ∷ xs) [] = false
bytes_eq (a ∷ xs) (b ∷ ys) = a == b && bytes_eq xs ys

pub data DatabaseError : Type 0 where
  -- `Other` of the in-memory database: the mutex is poisoned
  other : DatabaseError

-- the mutex of the map, poisoned when a thread has panicked with it
pub record MemoryDatabase : Type 0 where
  pub store : Bytes → Option Bytes
  pub poisoned : Bool

unfoldable pub get : MemoryDatabase → Bytes → Result DatabaseError (Option Bytes)
get db key = if db.poisoned then err other else ok (db.store key)

unfoldable pub put : MemoryDatabase → Bytes → Bytes → Result DatabaseError MemoryDatabase
unfolding bytes_eq
put db key value =
    if db.poisoned
    then err other
    else ok (record db { store = λ k. if bytes_eq k key then some value else db.store k })

unfoldable pub delete : MemoryDatabase → Bytes → Result DatabaseError MemoryDatabase
unfolding bytes_eq
delete db key =
    if db.poisoned
    then err other
    else ok (record db { store = λ k. if bytes_eq k key then none else db.store k })

-- `u32::to_le_bytes`
pub to_le_bytes : ℕ → Bytes
to_le_bytes n = (n % 256) ∷ (n / 256 % 256) ∷ (n / 65536 % 256) ∷ (n / 16777216 % 256) ∷ []

-- `ScopedDatabase::scoped_key`
pub scoped_key : Bytes → Bytes → Bytes
unfolding to_le_bytes
scoped_key prefix key = to_le_bytes (length prefix % u32_mod) ++ (prefix ++ key)

-- `ScopedDatabase` over the in-memory database
pub scoped_get : Bytes → MemoryDatabase → Bytes → Result DatabaseError (Option Bytes)
unfolding get scoped_key
scoped_get prefix db key = get db (scoped_key prefix key)

pub scoped_put : Bytes → MemoryDatabase → Bytes → Bytes → Result DatabaseError MemoryDatabase
unfolding put scoped_key
scoped_put prefix db key value = put db (scoped_key prefix key) value

pub scoped_delete : Bytes → MemoryDatabase → Bytes → Result DatabaseError MemoryDatabase
unfolding delete scoped_key
scoped_delete prefix db key = delete db (scoped_key prefix key)
