-- ===== src/Lib.antt =====
-- The wallet's core, crates/core/src: its private vault of Tornado Cash notes, the ranges of
-- blocks that the vault syncs from, the index of profiles, and its databases.
--
-- Parts, and the files that model them:
-- - Pools.antt: what the wallet uses of the crate `kohaku_tornadocash`, as a record `Kohaku` of
--   types, functions and their documented behaviour; the notes and the errors.
-- - Amount.antt, Selection.antt and Withdrawal.antt, with their children:
--   crates/core/src/vault/tornadocash/amount.rs. `deposit_pools_for_asset_with_selection` and the
--   functions beside it split an amount over pools; `select_notes` searches the notes that make or
--   cover an amount; `withdrawal_notes` puts the sponsor of the gas first. Amounts are U256 values,
--   whose operators wrap (Common/U256.antt). The fuel of `select_notes` is the number of notes,
--   since every level of the search drops a group of at least one note.
-- - Store.antt: crates/core/src/vault/tornadocash/db.rs. `World` holds one field for each record,
--   and the scope of a pool is found by the pool's id. The bytes that records serialise to are
--   not modelled. Each access consumes one entry of `faults`, which says whether it fails.
-- - Vault.antt and its children: crates/core/src/vault/tornadocash/mod.rs. An operation is an `Exec`
--   action on `World` (Exec.antt): an error keeps what was written before it. The signer, the chain and the
--   syncer are the record `Services`, and each of their calls may fail. The lock admits one
--   operation at a time, so that a history is a sequence of calls (Vault/Session.antt). Of a
--   prepared deposit the calldata is left out, which is a function of its pool and note.
-- - UserOps.antt and its children: crates/core/src/vault/tornadocash/userop.rs, and the padding of
--   estimation.rs. The quotes of the user operation kit are the record `Quoter`, one for each pass and
--   its calls. The passes are counted down from FEE_ATTEMPTS, as in the source.
-- - AddressVaults.antt and its children: crates/core/src/instance/vaults.rs, and the records of
--   crates/core/src/vault/db.rs and crates/core/src/vault/address/db.rs. A vault's scope is its identifier.
-- - Networks.antt and its children: crates/core/src/instance/networks.rs and services.rs there, with the
--   records and defaults under crates/core/src/network. What a text parses to as a URL is a parameter.
-- - Files.antt and its child: crates/core/src/database/file.rs. A write is the sequence of its system calls
--   on a directory; a file has its content and what a loss of power leaves of it.
-- - Broadcast.antt and its children: crates/core/src/broadcast.rs, the transactions of
--   crates/core/src/network/endpoint.rs and the authorizations of crates/core/src/delegate/simple.rs. The
--   state is the list of transactions taken; an endpoint's answers depend on it alone, so that what
--   other parties send in between is left out. Nonces are below 2^64 - 1, as EIP-2681 has it.
-- - Recipients.antt and its children: crates/core/src/recipient.rs. The parsing of addresses, the check of a
--   checksum and the answers of the network are parameters. Texts are lists of code points.
-- - Bundlers.antt and its child: crates/core/src/bundler.rs. What each bundler answers is a parameter, and
--   the state is the index behind the lock.
-- - Sync.antt and its children: the spans of crates/core/src/network/logs.rs, `logs_in_range` of
--   crates/core/src/network/endpoint.rs and crates/core/src/vault/tornadocash/syncer.rs. Blocks
--   are 64-bit numbers. The fuel of the spans is the number of blocks, since each span takes one at least.
-- - Profiles.antt and its children: crates/core/src/profile/index.rs and the records of
--   crates/core/src/profile/db.rs.
-- - Database.antt and its child: crates/core/src/database/memory.rs and scoped.rs.
-- - Sealing.antt, Encrypted.antt and their children: crates/core/src/database/encrypted.rs. What is
--   computed of keys and blobs alone is in Sealing.antt, with the crates for ciphers, key
--   derivations and encoding as the record `Crypto`; the calls of the database are `Exec` actions over
--   any `Backend`, the trait `Database`. Random bytes are the draws of a stream, counted in the state.
-- - Assets.antt and its children: crates/core/src/asset/mod.rs and asset/db.rs. The state holds the
--   record of the network's scope and the two of the profile's; the endpoint's answers and the
--   encoding of calls are the record `Endpoint`.
-- - Fresh.antt and its children: crates/core/src/mnemonic/scan.rs and
--   crates/core/src/instance/address.rs. The fuel of a loop is more than the indices below its limit.
-- - Keyring.antt and its children: crates/core/src/keyring.rs, mnemonic/db.rs, the phrases of
--   mnemonic/mod.rs, and the calls of crates/core/src/instance/profiles.rs that write phrases and
--   profiles. The crate for phrases is the record `Bip39`; what is drawn comes with the call.
-- - Balances.antt and its child: crates/core/src/balance.rs, the balances of
--   crates/core/src/vault/mod.rs, and the balance of the private vault.
-- - Common.antt, with its children: numbers, lists, choices of list elements, sorting and results.
-- - Tests.antt, with its children: concrete inputs.
--
-- The vault calls the syncer for the events of a pool, keeps them as chunks, applies them to the
-- records of notes, and lends notes to the selection of a withdrawal, which reads them as
-- `TornadoNote`.
--
-- Not modelled: proofs, the signing and sending of user operations, the
-- derivation of keys, the public vault,
-- the connection to networks and the command line.
pub mod AddressVaults
pub mod Assets
pub mod Balances
pub mod Common
pub mod Database
pub mod Exec
pub mod Files
pub mod Fresh
pub mod Keyring
pub mod Networks
pub mod Pools
pub mod Amount
pub mod Profiles
pub mod Recipients
pub mod Sealing
pub mod Encrypted
pub mod Selection
pub mod Store
pub mod Sync
pub mod Tests
pub mod Broadcast
pub mod Bundlers
pub mod UserOps
pub mod Vault
pub mod Withdrawal
