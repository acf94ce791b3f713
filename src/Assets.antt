-- ===== src/Assets.antt =====
-- crates/core/src/asset/mod.rs and crates/core/src/asset/db.rs: the ERC-20s that a profile tracks.
-- Addresses are 160-bit numbers. Any access of the two databases may fail, as `faults` says. What
-- the endpoint returns of a call, and the encoding of calls, is a parameter.
pub mod Members
pub mod Collect
pub mod Tracked
pub mod Choices
pub mod Leaving
pub mod Reading
use Prim.Native.String.{String}
use desktop_wallet.Common.{
  ℕ, Bool, true, false, not, ◌&&◌, ◌||◌, Option, none, some, List, [], ◌∷◌, ◌++◌, ◌==◌,
  if◌then◌else◌, leb, any, keep, find, position, remove_at, unwrap_or, map, is_some,
}
use desktop_wallet.Common.Outcome.{Result, ok, err, ok_or}
use desktop_wallet.Exec.{Exec, return, fail, lift, gets, modify, ◌>>=◌, ◌>>◌}
use desktop_wallet.Database.{Bytes}

pub record Erc20Asset : Type 0 where
  pub address : ℕ
  pub symbol : String
  pub decimals : ℕ

pub data AssetError : Type 0 where
  database network : AssetError
  no_balance no_decimals unregistered not_tracked transfer_refused : ℕ → AssetError

-- `Erc20Asset::known`
unfoldable pub known : ℕ → String → ℕ → Erc20Asset
known a s d = record { address = a; symbol = s; decimals = d }

unfoldable pub default_erc20s : ℕ → List Erc20Asset
default_erc20s chain =
    if chain == 1
    then known 917551056842671309452305380979543736893630245704 "USDC" 6
      ∷ known 1248875146012964071876423320777688075155124985543 "USDT" 6
      ∷ known 611382286831621467233887798921843936019654057231 "DAI" 18
      ∷ known 196268403159008932410419402999721616371951519129 "WBTC" 8
      ∷ known 1097077688018008265106216665536940668749033598146 "WETH" 18
      ∷ []
    else if chain == 11155111
    then known 162645876805862407557836451532389263558424949304 "USDC" 6
      ∷ known 1456967950781941026232506929948563475793628930903 "DAI" 18
      ∷ known 1461358721292675304620367034492138750323989506836 "WETH" 18
      ∷ []
    else []

-- the records of the wallet's and the profile's scope
pub record AssetStore : Type 0 where
  pub erc20s_record : Option (List Erc20Asset)
  pub in_record : Option (List ℕ)
  pub out_record : Option (List ℕ)
  pub faults : List Bool

abbrev pub Op : Type 0 → Type 0
Op A = Exec AssetStore AssetError A

unfoldable pub attempt_with : AssetStore → List Bool → Result AssetError Unit × AssetStore
attempt_with w [] = (ok tt, record w { faults = [] })
attempt_with w (true ∷ rest) = (err database, record w { faults = rest })
attempt_with w (false ∷ rest) = (ok tt, record w { faults = rest })

-- an access of a database, which fails if the next fault says so
unfoldable pub attempt : Op Unit
attempt w = attempt_with w w.faults

unfoldable pub get_erc20s : Op (List Erc20Asset)
get_erc20s = attempt >> gets (λ w. unwrap_or w.erc20s_record [])

unfoldable pub get_opted_in : Op (List ℕ)
get_opted_in = attempt >> gets (λ w. unwrap_or w.in_record [])

unfoldable pub get_opted_out : Op (List ℕ)
get_opted_out = attempt >> gets (λ w. unwrap_or w.out_record [])

unfoldable pub put_erc20s : List Erc20Asset → Op Unit
put_erc20s assets = attempt >> modify (λ w. record w { erc20s_record = some assets })

unfoldable pub put_opted_in : List ℕ → Op Unit
put_opted_in addresses = attempt >> modify (λ w. record w { in_record = some addresses })

unfoldable pub put_opted_out : List ℕ → Op Unit
put_opted_out addresses = attempt >> modify (λ w. record w { out_record = some addresses })

-- `contains`
unfoldable pub contains : List ℕ → ℕ → Bool
contains xs a = any (λ x. x == a) xs

abbrev pub is_at : ℕ → Erc20Asset → Bool
is_at a asset = asset.address == a

-- the loop of `profile_erc20s` over the opted-in addresses
unfoldable pub push_opted_in :
    List ℕ → List Erc20Asset → List Erc20Asset → List ℕ → Result AssetError (List Erc20Asset)
push_opted_in opted_out registered assets [] = ok assets
push_opted_in opted_out registered assets (a ∷ rest) =
    elim (contains opted_out a || any (is_at a) assets) [
      | true ↦ push_opted_in opted_out registered assets rest
      | false ↦ elim (find (is_at a) registered) [
        | none ↦ err (unregistered a)
        | some asset ↦ push_opted_in opted_out registered (assets ++ asset ∷ []) rest
      ]
    ]

unfoldable pub profile_erc20s : ℕ → Op (List Erc20Asset)
profile_erc20s chain = do
  opted_out ← get_opted_out
  let assets = keep (λ asset. not (contains opted_out asset.address)) (default_erc20s chain)
  registered ← get_erc20s
  opted_in ← get_opted_in
  lift (push_opted_in opted_out registered assets opted_in)

unfoldable pub clear_opt_out : ℕ → Op Unit
clear_opt_out address = do
  opted_out ← get_opted_out
  elim (position (λ opted. opted == address) opted_out) [
    | none ↦ return tt
    | some index ↦ put_opted_out (remove_at opted_out index)
  ]

unfoldable pub remember_opt_out : ℕ → Op Unit
remember_opt_out address = do
  opted_out ← get_opted_out
  if contains opted_out address then return tt else put_opted_out (opted_out ++ address ∷ [])

-- The endpoint's `eth_call` from, to and with the data, which is `none` if it fails; the encodings
-- of calls and returned values of the crate alloy_sol_types.
pub record Endpoint : Type 0 where
  pub eth_call : Option ℕ → ℕ → Bytes → Option Bytes
  pub decimals_call : Bytes
  pub symbol_call : Bytes
  pub balance_of_call : ℕ → Bytes
  pub transfer_call_data : ℕ → ℕ → Bytes
  pub decode_decimals : Bytes → Option ℕ
  pub decode_symbol : Bytes → Option String
  pub decode_balance : Bytes → Option ℕ
  pub decode_transfer : Bytes → Option Bool

-- `Call`
pub record Call : Type 0 where
  pub target : ℕ
  pub data_bytes : Bytes
  pub value : ℕ

-- `Unit::MAX`
abbrev pub max_unit : ℕ
max_unit = 77

module _ (endpoint : Endpoint) where
  -- `call`
  unfoldable pub call : ℕ → Bytes → Op Bytes
  call token function = lift (ok_or network (endpoint.eth_call none token function))

  -- the decimals that `read_erc20` accepts
  unfoldable pub accepted : ℕ → Option ℕ → Result AssetError ℕ
  accepted address none = err (no_decimals address)
  accepted address (some d) = if leb d max_unit then ok d else err (no_decimals address)

  unfoldable pub read_erc20 : ℕ → Op Erc20Asset
  read_erc20 address = do
    bytes ← call address endpoint.decimals_call
    decimals ← lift (accepted address (endpoint.decode_decimals bytes))
    bytes' ← call address endpoint.symbol_call
    let symbol = unwrap_or (endpoint.decode_symbol bytes') "UNKNOWN"
    return (known address symbol decimals)

  -- the asset of `opt_in` that is no default
  unfoldable pub register : ℕ → Op Erc20Asset
  register address = do
    registered ← get_erc20s
    elim (find (is_at address) registered) [
      | some asset ↦ return asset
      | none ↦ read_erc20 address >>= λ asset. put_erc20s (registered ++ asset ∷ []) >> return asset
    ]

  unfoldable pub add_opt_in : ℕ → Op Unit
  add_opt_in address = do
    opted_in ← get_opted_in
    if contains opted_in address then return tt else put_opted_in (opted_in ++ address ∷ [])

  unfoldable pub opt_in : ℕ → ℕ → Op Erc20Asset
  opt_in chain address = elim (find (is_at address) (default_erc20s chain)) [
    | some asset ↦ clear_opt_out address >> return asset
    | none ↦
        register address >>= λ asset. add_opt_in address >> (clear_opt_out address >> return asset)
  ]

  unfoldable pub erc20_balance : ℕ → ℕ → Op ℕ
  erc20_balance token owner = do
    bytes ← call token (endpoint.balance_of_call owner)
    lift (ok_or (no_balance token) (endpoint.decode_balance bytes))

  unfoldable pub transfer_call : ℕ → ℕ → ℕ → Call
  transfer_call token to amount = record {
    target = token;
    data_bytes = endpoint.transfer_call_data to amount;
    value = 0;
  }

  -- `simulate_transfer`
  unfoldable pub judge : ℕ → Bytes → Result AssetError Unit
  judge target [] = ok tt
  judge target (b ∷ bs) =
      if unwrap_or (endpoint.decode_transfer (b ∷ bs)) false
      then ok tt
      else err (transfer_refused target)

  unfoldable pub simulate_transfer : ℕ → Call → Op Unit
  simulate_transfer sender transfer = do
    returned ←
        lift (ok_or network (endpoint.eth_call (some sender) transfer.target transfer.data_bytes))
    lift (judge transfer.target returned)

-- what `opt_out` finds of the asset
unfoldable pub stopped : ℕ → ℕ → Op Erc20Asset
stopped chain address = elim (find (is_at address) (default_erc20s chain)) [
  | some asset ↦ return asset
  | none ↦ get_erc20s >>= λ registered.
      lift (ok_or (not_tracked address) (find (is_at address) registered))
]

-- the removal of an opt-in
unfoldable pub drop_opt_in : ℕ → Bool → Op Unit
drop_opt_in address is_default = do
  opted_in ← get_opted_in
  elim (position (λ opted. opted == address) opted_in) [
    | some index ↦ put_opted_in (remove_at opted_in index)
    | none ↦ if not is_default then fail (not_tracked address) else return tt
  ]

unfoldable pub opt_out : ℕ → ℕ → Op Erc20Asset
opt_out chain address = do
  asset ← stopped chain address
  let is_default = any (is_at address) (default_erc20s chain)
  drop_opt_in address is_default
  if is_default then remember_opt_out address >> return asset else return asset
