-- ===== src/Tests/Configuring.antt =====
-- The theorem on the configuration of a network, at a concrete input.
use desktop_wallet.Common.{◌≡◌, refl, Bool, true, false, none, some, List, [], ◌∷◌}
use desktop_wallet.Exec.Runs.{Post}
use desktop_wallet.Database.{bytes_eq}
use desktop_wallet.Recipients.{Text}
use desktop_wallet.Networks.{
  NetworkStore, NetworkCall, RpcConfig, text, or_empty, add_rpc, use_rpc, add_bundler,
  remove_bundler, indexer_on, active_rpc, bundler_urls, after_calls, default_bundler_urls,
}
use desktop_wallet.Networks.Records.{Configured, is_nonempty}
use desktop_wallet.Networks.Active.{Chosen, Never, Quiet, calls-usable}

-- every text is a URL
abbrev parses : Text → Bool
parses url = true

abbrev local : Text → RpcConfig
local given = record {
  name = given;
  url = text "http://127.0.0.1:8545";
  event_block_range = 500;
  call_interval_ms = 0;
}

abbrev store : NetworkStore
store = record {
  rpc_record = some (local (text "a") ∷ []);
  active_record = some (text "gone");
  bundler_record = some (text "http://b" ∷ []);
  indexer_record = none;
  faults = false ∷ true ∷ [];
}

abbrev calls : List NetworkCall
calls =
    add_rpc (local (text "c"))
    ∷ use_rpc (text "c")
    ∷ add_bundler (text "http://d")
    ∷ remove_bundler (text "http://b")
    ∷ indexer_on true
    ∷ []

calls-usable_example :
    Configured parses true (after_calls parses 31337 calls store)
    × ((v : NetworkStore)
        → Quiet (after_calls parses 31337 calls store) v
        → Post
            (λ o _.
              Chosen
                (or_empty (after_calls parses 31337 calls store).rpc_record)
                (after_calls parses 31337 calls store).active_record
                o)
            Never
            (active_rpc v)
          × Post (λ us _. true ≡ true → is_nonempty us ≡ true) Never (bundler_urls parses 31337 v))
unfolding default_bundler_urls bytes_eq
calls-usable_example =
    calls-usable parses 31337 true calls store tt
      (((refl, tt), (refl, tt)), ((refl, tt), (refl, tt), λ e. refl), tt)
