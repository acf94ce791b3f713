-- ===== src/Networks.antt =====
-- crates/core/src/instance/networks.rs and crates/core/src/instance/services.rs, with the defaults and
-- the records under crates/core/src/network: the RPCs, the bundlers and the indexer of a network.
-- Texts are lists of code points. Any access of the database may fail, as `faults` says. The parsing
-- of URLs, and the network that an endpoint serves, are parameters.
pub mod Records
pub mod Calls
pub mod Active
use Prim.Native.String.{String}
use Prim.Native.Char.{code}
use desktop_wallet.Common.{
  ℕ, ◌^◌, ◌-◌, Bool, true, false, not, ◌&&◌, Option, none, some, List, [], ◌∷◌, ◌++◌, ◌==◌,
  if◌then◌else◌, any, position, remove_at, get_elem?, length, min, is_some,
}
use desktop_wallet.Common.Outcome.{Result, ok, err, ok_or}
use desktop_wallet.Exec.{Exec, return, fail, lift, gets, modify, ◌>>=◌, ◌>>◌}
use desktop_wallet.Database.{bytes_eq}
use desktop_wallet.Recipients.{Text, trim}

abbrev pub text : String → Text
text String.[] = []
text (String.◌∷◌ c s) = code c ∷ text s

pub record RpcConfig : Type 0 where
  pub name : Text
  -- of `RpcConfigKind::Http`
  pub url : Text
  pub event_block_range : ℕ
  pub call_interval_ms : ℕ

pub record IndexerConfig : Type 0 where
  pub url : Option Text
  pub enabled : Bool

pub data InstanceError : Type 0 where
  database empty_rpc_config_name no_rpc_configs last_bundler_url indexer_url_required :
      InstanceError
  duplicate_rpc_config unknown_rpc_config duplicate_bundler_url unknown_bundler_url :
      Text → InstanceError
  invalid_url unusable_rpc_config : Text → InstanceError
  -- an index past the end, which panics
  out_of_range : InstanceError

-- the records of the network's scope
pub record NetworkStore : Type 0 where
  pub rpc_record : Option (List RpcConfig)
  pub active_record : Option Text
  pub bundler_record : Option (List Text)
  pub indexer_record : Option IndexerConfig
  pub faults : List Bool

abbrev pub Op : Type 0 → Type 0
Op A = Exec NetworkStore InstanceError A

unfoldable pub attempt_with : NetworkStore → List Bool → Result InstanceError Unit × NetworkStore
attempt_with w [] = (ok tt, record w { faults = [] })
attempt_with w (true ∷ rest) = (err database, record w { faults = rest })
attempt_with w (false ∷ rest) = (ok tt, record w { faults = rest })

-- an access of the database, which fails if the next fault says so
unfoldable pub attempt : Op Unit
attempt w = attempt_with w w.faults

abbrev pub or_empty : {A : Type 0} → Option (List A) → List A
or_empty none = []
or_empty (some l) = l

unfoldable pub get_rpc_configs : Op (List RpcConfig)
get_rpc_configs = attempt >> gets (λ w. or_empty w.rpc_record)

unfoldable pub put_rpc_configs : List RpcConfig → Op Unit
put_rpc_configs configs = attempt >> modify (λ w. record w { rpc_record = some configs })

unfoldable pub get_active_rpc_config : Op (Option Text)
get_active_rpc_config = attempt >> gets (λ w. w.active_record)

unfoldable pub put_active_rpc_config : Text → Op Unit
put_active_rpc_config name = attempt >> modify (λ w. record w { active_record = some name })

unfoldable pub get_bundler_config : Op (Option (List Text))
get_bundler_config = attempt >> gets (λ w. w.bundler_record)

unfoldable pub put_bundler_config : List Text → Op Unit
put_bundler_config urls = attempt >> modify (λ w. record w { bundler_record = some urls })

unfoldable pub get_indexer_config : Op (Option IndexerConfig)
get_indexer_config = attempt >> gets (λ w. w.indexer_record)

unfoldable pub put_indexer_config : IndexerConfig → Op Unit
put_indexer_config config = attempt >> modify (λ w. record w { indexer_record = some config })

abbrev pub is_named : Text → RpcConfig → Bool
is_named name config = bytes_eq config.name name

abbrev pub is_empty_text : Text → Bool
is_empty_text [] = true
is_empty_text (c ∷ cs) = false

-- `NetworkPreset::default_rpc_url`, of the preset of a network
unfoldable pub default_rpc_url : ℕ → Option Text
default_rpc_url chain =
    if chain == 1
    then some (text "https://ethereum.publicnode.com")
    else if chain == 11155111
    then some (text "https://ethereum-sepolia-rpc.publicnode.com")
    else none

unfoldable pub default_bundler_urls : ℕ → List Text
default_bundler_urls chain =
    if chain == 1
    then text "https://public.pimlico.io/v2/1/rpc" ∷ []
    else if chain == 11155111
    then text "https://public.pimlico.io/v2/11155111/rpc" ∷ []
    else []

-- `IndexerConfig::default_for`
unfoldable pub default_for : ℕ → IndexerConfig
default_for chain =
    if chain == 1
    then record { url = some (text "https://saga.gordosoluciones.xyz"); enabled = true }
    else if chain == 11155111
    then record { url = some (text "https://saga.gordosoluciones.xyz/sepolia"); enabled = true }
    else record { url = none; enabled = false }

unfoldable pub effective_url : IndexerConfig → Option Text
effective_url config = if config.enabled then config.url else none

unfoldable pub add_rpc_config : RpcConfig → Op Unit
add_rpc_config config =
    if is_empty_text config.name
    then fail empty_rpc_config_name
    else (get_rpc_configs >>= λ configs.
        (if any (is_named config.name) configs then fail (duplicate_rpc_config config.name) else (do
          active ← get_active_rpc_config
          (if is_some active then return tt else put_active_rpc_config config.name)
          put_rpc_configs (configs ++ config ∷ []))))

unfoldable pub use_rpc_config : Text → Op Unit
use_rpc_config name = do
  configs ← get_rpc_configs
  (if any (is_named name) configs
      then put_active_rpc_config name
      else fail (unknown_rpc_config name))

-- the index of the active configuration, or that of the first
unfoldable pub active_index : Option Text → List RpcConfig → ℕ
active_index none configs = 0
active_index (some name) configs = elim (position (is_named name) configs) [ none ↦ 0 | some i ↦ i ]

unfoldable pub active_rpc_config : Op RpcConfig
active_rpc_config = do
  configs ← get_rpc_configs
  elim configs [
    | [] ↦ fail no_rpc_configs
    | c ∷ cs ↦ get_active_rpc_config >>= λ active.
        lift (ok_or out_of_range (get_elem? (c ∷ cs) (active_index active (c ∷ cs))))
  ]

unfoldable pub active_rpc : Op (Option RpcConfig)
active_rpc = do
  configs ← get_rpc_configs
  elim configs [ [] ↦ return none | c ∷ cs ↦ active_rpc_config >>= λ config. return (some config) ]

-- whether a trimmed text parses as a URL of http or https; the network that a URL's endpoint serves
module _ (parses : Text → Bool) (chain : ℕ) where
  unfoldable pub parse_http_url : Text → Result InstanceError Text
  parse_http_url url = if parses (trim url) then ok (trim url) else err (invalid_url (trim url))

  -- `RpcConfig::http`
  unfoldable pub http : Text → Text → ℕ → Result InstanceError RpcConfig
  http name url range =
      let trimmed = trim url in
      elim (parse_http_url trimmed) [
        | err e ↦ err e
        | ok u ↦
            ok (record {
              name = name;
              url = trimmed;
              event_block_range = range;
              call_interval_ms = 0;
            })
      ]

  unfoldable pub with_call_interval : Text → Text → ℕ → ℕ → Result InstanceError RpcConfig
  with_call_interval name url range interval = elim (http name url range) [
    | err e ↦ err e
    | ok config ↦ ok (record config { call_interval_ms = min interval (2 ^ 64 - 1) })
  ]

  unfoldable pub public_default : Option RpcConfig
  public_default = elim (default_rpc_url chain) [
    | none ↦ none
    | some url ↦ elim (with_call_interval (text "publicnode") url 500 500) [
      | err e ↦ none
      | ok config ↦ some config
    ]
  ]

  unfoldable pub install_default_rpc_config : Op Unit
  install_default_rpc_config = elim public_default [
    | none ↦ return tt
    | some config ↦ add_rpc_config config
  ]

  -- `Instance::rpc`, the configuration that it connects through
  unfoldable pub rpc : (Text → Option ℕ) → Op RpcConfig
  rpc serves = do
    config ← active_rpc_config
    lift (parse_http_url config.url) >>= λ url. elim (serves url) [
      | none ↦ fail (unusable_rpc_config config.name)
      | some id ↦ if id == chain then return config else fail (unusable_rpc_config config.name)
    ]

  unfoldable pub normalize_url : Text → Result InstanceError Text
  normalize_url url =
      let trimmed = trim url in elim (parse_http_url trimmed) [ err e ↦ err e | ok u ↦ ok trimmed ]

  unfoldable pub stored_bundler_urls : Op (List Text)
  stored_bundler_urls = do
    stored ← get_bundler_config
    elim stored [
      | some urls ↦ return urls
      | none ↦
          put_bundler_config (default_bundler_urls chain) >> return (default_bundler_urls chain)
    ]

  -- `map(parse_http_url).collect()`
  unfoldable pub parse_all : List Text → Result InstanceError (List Text)
  parse_all [] = ok []
  parse_all (url ∷ urls) =
      let rest = parse_all urls in
      elim (parse_http_url url) [
        | err e ↦ err e
        | ok u ↦ elim rest [ err e ↦ err e | ok us ↦ ok (u ∷ us) ]
      ]

  unfoldable pub bundler_urls : Op (List Text)
  bundler_urls = do urls ← stored_bundler_urls; lift (parse_all urls)

  unfoldable pub add_bundler_url : Text → Op (List Text)
  add_bundler_url given = do
    url ← lift (normalize_url given)
    urls ← stored_bundler_urls
    (if any (λ existing. bytes_eq existing url) urls
        then fail (duplicate_bundler_url url)
        else (put_bundler_config (urls ++ url ∷ []) >> bundler_urls))

  unfoldable pub remove_bundler_url : Text → Op (List Text)
  remove_bundler_url given = do
    url ← lift (normalize_url given)
    urls ← stored_bundler_urls
    elim (position (λ existing. bytes_eq existing url) urls) [
      | none ↦ fail (unknown_bundler_url url)
      | some index ↦
          if length urls == 1
          then fail last_bundler_url
          else (put_bundler_config (remove_at urls index) >> bundler_urls)
    ]

  unfoldable pub indexer_config : Op IndexerConfig
  indexer_config = do
    stored ← get_indexer_config
    elim stored [
      | some config ↦ return config
      | none ↦ put_indexer_config (default_for chain) >> return (default_for chain)
    ]

  unfoldable pub set_indexer_url : Text → Op IndexerConfig
  set_indexer_url given = do
    config ← indexer_config
    url ← lift (normalize_url given)
    let changed = record config { url = some url }
    put_indexer_config changed
    return changed

  unfoldable pub set_indexer_enabled : Bool → Op IndexerConfig
  set_indexer_enabled enabled = do
    config ← indexer_config
    (if enabled && not (is_some config.url)
        then fail indexer_url_required
        else (put_indexer_config (record config { enabled = enabled })
            >> return (record config { enabled = enabled })))

  unfoldable pub install_default_bundler_config : Op Unit
  install_default_bundler_config = do
    stored ← get_bundler_config
    (if is_some stored then return tt else put_bundler_config (default_bundler_urls chain))

  unfoldable pub install_default_indexer_config : Op Unit
  install_default_indexer_config = do
    stored ← get_indexer_config
    (if is_some stored then return tt else put_indexer_config (default_for chain))

-- the calls that may change a record, or seed it
pub data NetworkCall : Type 0 where
  add_rpc : RpcConfig → NetworkCall
  use_rpc add_bundler remove_bundler indexer_at : Text → NetworkCall
  indexer_on : Bool → NetworkCall
  default_rpc read_bundlers default_bundlers read_indexer default_indexer : NetworkCall

module _ (parses : Text → Bool) (chain : ℕ) where
  unfoldable pub serve : NetworkCall → Op Unit
  serve (add_rpc config) = add_rpc_config config
  serve (use_rpc name) = use_rpc_config name
  serve default_rpc = install_default_rpc_config parses chain
  serve read_bundlers = bundler_urls parses chain >>= λ _. return tt
  serve (add_bundler url) = add_bundler_url parses chain url >>= λ _. return tt
  serve (remove_bundler url) = remove_bundler_url parses chain url >>= λ _. return tt
  serve default_bundlers = install_default_bundler_config parses chain
  serve read_indexer = indexer_config parses chain >>= λ _. return tt
  serve (indexer_at url) = set_indexer_url parses chain url >>= λ _. return tt
  serve (indexer_on on) = set_indexer_enabled parses chain on >>= λ _. return tt
  serve default_indexer = install_default_indexer_config parses chain

  -- one call after the other, whatever fails
  unfoldable pub after_calls : List NetworkCall → NetworkStore → NetworkStore
  after_calls [] w = w
  after_calls (c ∷ cs) w = after_calls cs (serve c w).1
