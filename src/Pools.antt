-- ===== src/Pools.antt =====
-- What the wallet uses of the crate `kohaku_tornadocash`, and the notes and errors built on it
-- (crates/core/src/vault/tornadocash/mod.rs and amount.rs).
use Prim.Native.String.{String}
use desktop_wallet.Common.{ℕ, ◌^◌, ◌<◌, ◌≡◌, ◌↔◌, Bool, true, ◌||◌, Option, List}

-- A pool and an asset of the crate, with the fields that the wallet reads. `token` is the address
-- of an `Asset::Erc20`, and `native_symbol` the symbol of an `Asset::Native`.
pub record Kohaku : Type 1 where
  pub Asset : Type 0
  pub asset_eq : Asset → Asset → Bool
  pub asset_eq_iff : (a b : Asset) → (asset_eq a b ≡ true) ↔ (a ≡ b)
  pub eth : Asset
  pub native_symbol : Asset → Option String
  pub token : Asset → Option ℕ
  pub decimals : Asset → ℕ
  pub Pool : Type 0
  pub pool_eq : Pool → Pool → Bool
  pub pool_eq_iff : (p q : Pool) → (pool_eq p q ≡ true) ↔ (p ≡ q)
  pub id : Pool → String
  pub symbol : Pool → String
  pub chain_id : Pool → ℕ
  pub asset : Pool → Asset
  pub amount_wei : Pool → ℕ
  pub amount_wei_pos : (p : Pool) → 0 < amount_wei p
  pub amount_wei_u128 : (p : Pool) → amount_wei p < 2 ^ 128
  pub canonical : Pool → Bool
  pub paymaster : Pool → Option ℕ
  pub deployed_block : Pool → ℕ
  -- `Pool::POOLS`
  pub pools : List Pool

-- A note held by the vault. `leaf_index` is `none` until its deposit is mined.
pub record TornadoNote (P : Type 0) : Type 0 where
  pub pool : P
  pub nonce : ℕ
  pub leaf_index : Option ℕ
  pub spent : Bool

pub data PoolSelection : Type 0 where
  classic include_extended : PoolSelection

abbrev pub is_include_extended : PoolSelection → Bool
is_include_extended classic = Bool.false
is_include_extended include_extended = true

pub data AmountError : Type 0 where
  sponsor : String → AmountError
  zero_amount : AmountError
  no_native_pools : ℕ → AmountError
  not_a_denomination_sum : ℕ → ℕ → AmountError
  too_many_notes : ℕ → AmountError
  unsupported_denomination : ℕ → ℕ → AmountError
  cannot_make : ℕ → AmountError
  cannot_cover : ℕ → AmountError
  parse : String → AmountError

module _ (k : Kohaku) where
  open k use {Pool, canonical}

  -- `PoolSelection::includes`
  abbrev pub includes : PoolSelection → Pool → Bool
  includes selection pool = is_include_extended selection || canonical pool
