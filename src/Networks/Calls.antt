-- ===== src/Networks/Calls.antt =====
-- crates/core/src/instance/networks.rs and crates/core/src/instance/services.rs: every call keeps a
-- network configured, whatever accesses fail.
use desktop_wallet.Common.{
  ℕ, zero, suc, ◌≡◌, ◌∙◌, refl, sym, ap, subst, Bool, true, false, not, ◌&&◌, Option, none, some,
  List, [], ◌∷◌, ◌++◌, ◌==◌, any, All, All-append, Bool-cases, Option-cases, inl, inr, remove_at,
  length, is_some, position, arith,
}
use desktop_wallet.Common.Outcome.{Result, ok, err, ok-injective}
use desktop_wallet.Exec.{return, ◌>>=◌}
use desktop_wallet.Exec.Runs.{
  Runs, Post, Runs-bind, Runs-given, Runs-weaken, Runs-return, Runs-lift, Runs-fail, Runs-test,
}
use desktop_wallet.Database.{bytes_eq}
use desktop_wallet.Recipients.{Text, trim}
use desktop_wallet.Networks.{
  RpcConfig, NetworkStore, Op, is_empty_text, is_named, add_rpc_config, use_rpc_config,
  public_default, install_default_rpc_config, default_bundler_urls, default_for, parse_http_url,
  normalize_url, stored_bundler_urls, parse_all, bundler_urls, add_bundler_url, remove_bundler_url,
  indexer_config, set_indexer_url, set_indexer_enabled, install_default_bundler_config,
  install_default_indexer_config, InstanceError, NetworkCall, add_rpc, use_rpc, default_rpc,
  read_bundlers, add_bundler, remove_bundler, default_bundlers, read_indexer, indexer_at,
  indexer_on, default_indexer, serve, after_calls,
}
use desktop_wallet.Networks.Records.{
  Keyed, Keyed-snoc, Keyed-remove_at, All-remove_at, Bundled, BundledRecord, Indexed, is_nonempty,
  Configured, Keeps, get_rpc_configs-Runs, get_active_rpc_config-Keeps, get_bundler_config-Runs,
  get_indexer_config-Runs, put_rpc_configs-Keeps, put_active_rpc_config-Keeps,
  put_bundler_config-Keeps, put_indexer_config-Keeps,
}

default-Keyed : (chain : ℕ) → Keyed (λ u. u) (default_bundler_urls chain)
unfolding default_bundler_urls
default-Keyed chain = elim (Bool-cases (chain == 1)) [
  | inl e ↦ rw e (refl, tt)
  | inr e ↦
      rw e (elim (Bool-cases (chain == 11155111)) [ inl f ↦ rw f (refl, tt) | inr f ↦ rw f tt ])
]

default-Indexed : (chain : ℕ) → Indexed (some (default_for chain))
unfolding default_for
default-Indexed chain = elim (Bool-cases (chain == 1)) [
  | inl e ↦ rw e (λ h. refl)
  | inr e ↦
      rw e (elim (Bool-cases (chain == 11155111)) [
        | inl f ↦ rw f (λ h. refl)
        | inr f ↦ rw f (λ h. cc)
      ])
]

has_url : (enabled url : Bool) → enabled ≡ true → (enabled && not url) ≡ false → url ≡ true
has_url enabled url e f = ground arith

nonempty_snoc : (xs : List Text) (x : Text) → is_nonempty (xs ++ x ∷ []) ≡ true
nonempty_snoc [] x = refl
nonempty_snoc (y ∷ ys) x = refl

nonempty_remove :
    (xs : List Text) (i : ℕ)
    → is_nonempty xs ≡ true
    → (length xs == 1) ≡ false
    → is_nonempty (remove_at xs i) ≡ true
nonempty_remove [] i h e = h
nonempty_remove (x ∷ []) i h e = absurd (cc)
nonempty_remove (x ∷ y ∷ ys) zero h e = refl
nonempty_remove (x ∷ y ∷ ys) (suc i) h e = refl

module _ (parses : Text → Bool) (full : Bool) where
  pub add_rpc_config-Keeps : (config : RpcConfig) → Keeps parses full (add_rpc_config config)
  unfolding add_rpc_config
  add_rpc_config-Keeps config =
      Runs-test (is_empty_text config.name) _ _ (λ _. Runs-fail _ (λ w h. h))
        (λ filled. Runs-bind _ _ (get_rpc_configs-Runs parses full) (λ configs. Runs-given (λ named.
          Runs-test (any (is_named config.name) configs) _ _ (λ _. Runs-fail _ (λ w h. h))
            (λ new. Runs-bind _ _ (get_active_rpc_config-Keeps parses full) (λ active.
              Runs-bind _ _
                (Runs-test (is_some active) _ _ (λ _. Runs-return tt (λ w h. h))
                  (λ _. put_active_rpc_config-Keeps parses full config.name))
                (λ _. put_rpc_configs-Keeps parses full (configs ++ config ∷ []) (
                  Keyed-snoc (λ c. c.name) configs config new named.0,
                  All-append (λ c. is_empty_text c.name ≡ false) configs (config ∷ []) named.1
                      (filled, tt),
                )))))))

  pub use_rpc_config-Keeps : (name : Text) → Keeps parses full (use_rpc_config name)
  unfolding use_rpc_config
  use_rpc_config-Keeps name = Runs-bind _ _ (get_rpc_configs-Runs parses full) (λ configs.
      Runs-given (λ _.
        Runs-test (any (is_named name) configs) _ _
          (λ _. put_active_rpc_config-Keeps parses full name) (λ _. Runs-fail _ (λ w h. h))))

module _ (parses : Text → Bool) (chain : ℕ) where
  normalized :
      (given url : Text) → normalize_url parses chain given ≡ ok url → parses (trim url) ≡ true
  unfolding normalize_url parse_http_url
  normalized given url e = elim (Bool-cases (parses (trim (trim given)))) [
    | inl t ↦
        subst (λ u. parses (trim u) ≡ true)
          (ok-injective refl (rw (t, normalize_url, parse_http_url) at e)) t
    | inr f ↦ absurd (let bad = rw (f, normalize_url, parse_http_url) at e in cc)
  ]

  pub parse_all-ok :
      (urls : List Text)
      → All (λ u. parses (trim u) ≡ true) urls
      → (parsed : List Text) × (parse_all parses chain urls ≡ ok parsed)
        × (length parsed ≡ length urls)
  unfolding parse_all parse_http_url
  parse_all-ok [] h = ([], refl, refl)
  parse_all-ok (u ∷ us) h =
      let later = parse_all-ok us h.1 in
      (trim u ∷ later.0, rw (parse_all, h.0, later.1), ap suc later.2)

  module _ (full : Bool)
      (parsed : All (λ u. parses (trim u) ≡ true) (default_bundler_urls chain)) where
    unset :
        (o : Option (List Text)) → BundledRecord parses full o → is_some o ≡ false → full ≡ false
    unset none b e = b
    unset (some urls) b e = absurd (cc)

    ignored-Keeps :
        {A : Type 0} (m : Op A) → Keeps parses full m → Keeps parses full (m >>= λ _. return tt)
    ignored-Keeps m k = Runs-bind _ _ k (λ _. Runs-return tt (λ w h. h))

    default-Bundled : full ≡ false → Bundled parses full (default_bundler_urls chain)
    default-Bundled e = (default-Keyed chain, parsed, λ t. absurd (let bad = sym t ∙ e in cc))

    install_default_rpc_config-Keeps : Keeps parses full (install_default_rpc_config parses chain)
    unfolding install_default_rpc_config
    install_default_rpc_config-Keeps = elim (Option-cases (public_default parses chain)) [
      | inl e ↦ rw (e, install_default_rpc_config) (Runs-return tt (λ w h. h))
      | inr f ↦ rw (f.1, install_default_rpc_config) (add_rpc_config-Keeps parses full f.0)
    ]

    pub stored_bundler_urls-Runs :
        Runs
          (Configured parses full)
          (stored_bundler_urls parses chain)
          (λ urls w. Bundled parses full urls × Configured parses full w)
          (Configured parses full)
    unfolding stored_bundler_urls
    stored_bundler_urls-Runs = Runs-bind _ _ (get_bundler_config-Runs parses full) (λ stored.
        Runs-given (λ b. elim (Option-cases stored) [
          | inl e ↦
              let made = default-Bundled (subst (BundledRecord parses full) e b) in
              rw e (
                Runs-bind _ _ (put_bundler_config-Keeps parses full _ made)
                  (λ _. Runs-return _ (λ w h. (made, h))))
          | inr f ↦
              let there = subst (BundledRecord parses full) f.1 b in
              rw f.1 (Runs-return _ (λ w h. (there, h)))
        ]))

    bundler_urls-Keeps : Keeps parses full (bundler_urls parses chain)
    unfolding bundler_urls
    bundler_urls-Keeps =
        Runs-bind _ _ stored_bundler_urls-Runs
          (λ urls. Runs-given (λ _. Runs-lift _ (λ w h. h) (λ us e w h. h)))

    add_bundler_url-Keeps : (given : Text) → Keeps parses full (add_bundler_url parses chain given)
    unfolding add_bundler_url
    add_bundler_url-Keeps given =
        Runs-bind _ _
          (Runs-lift {Q = λ u w. (parses (trim u) ≡ true) × Configured parses full w}
            (normalize_url parses chain given) (λ w h. h) (λ u e w h. (normalized given u e, h)))
          (λ url. Runs-given (λ good. Runs-bind _ _ stored_bundler_urls-Runs (λ urls.
            Runs-given (λ b.
              Runs-test (any (λ existing. bytes_eq existing url) urls) _ _
                (λ _. Runs-fail _ (λ w h. h))
                (λ new.
                  Runs-bind _ _
                    (put_bundler_config-Keeps parses full (urls ++ url ∷ []) (
                      Keyed-snoc (λ u. u) urls url new b.0,
                      All-append (λ u. parses (trim u) ≡ true) urls (url ∷ []) b.1 (good, tt),
                      λ _. nonempty_snoc urls url,
                    ))
                    (λ _. bundler_urls-Keeps))))))

    remove_bundler_url-Keeps :
        (given : Text) → Keeps parses full (remove_bundler_url parses chain given)
    unfolding remove_bundler_url
    remove_bundler_url-Keeps given =
        Runs-bind _ _ (Runs-lift (normalize_url parses chain given) (λ w h. h) (λ u e w h. h))
          (λ url. Runs-bind _ _ stored_bundler_urls-Runs (λ urls. Runs-given (λ b.
            elim (Option-cases (position (λ existing. bytes_eq existing url) urls)) [
              | inl e ↦ rw e (Runs-fail _ (λ w h. h))
              | inr f ↦ rw f.1 (
                  Runs-test (length urls == 1) _ _ (λ _. Runs-fail _ (λ w h. h))
                    (λ more.
                      Runs-bind _ _
                        (put_bundler_config-Keeps parses full (remove_at urls f.0) (
                          Keyed-remove_at (λ u. u) urls f.0 b.0,
                          All-remove_at (λ u. parses (trim u) ≡ true) urls f.0 b.1,
                          λ t. nonempty_remove urls f.0 (b.2 t) more,
                        ))
                        (λ _. bundler_urls-Keeps)))
            ])))

    indexer_config-Runs :
        Runs
          (Configured parses full)
          (indexer_config parses chain)
          (λ config w. Indexed (some config) × Configured parses full w)
          (Configured parses full)
    unfolding indexer_config
    indexer_config-Runs = Runs-bind _ _ (get_indexer_config-Runs parses full) (λ stored.
        Runs-given (λ i. elim (Option-cases stored) [
          | inl e ↦ rw e (
              Runs-bind _ _ (put_indexer_config-Keeps parses full _ (default-Indexed chain))
                (λ _. Runs-return _ (λ w h. (default-Indexed chain, h))))
          | inr f ↦ let there = subst Indexed f.1 i in rw f.1 (Runs-return _ (λ w h. (there, h)))
        ]))

    set_indexer_url-Keeps : (given : Text) → Keeps parses full (set_indexer_url parses chain given)
    unfolding set_indexer_url
    set_indexer_url-Keeps given = Runs-bind _ _ indexer_config-Runs (λ config. Runs-given (λ _.
        Runs-bind _ _ (Runs-lift (normalize_url parses chain given) (λ w h. h) (λ u e w h. h))
          (λ url.
            Runs-bind _ _ (put_indexer_config-Keeps parses full _ (λ e. refl))
              (λ _. Runs-return _ (λ w h. h)))))

    set_indexer_enabled-Keeps :
        (enabled : Bool) → Keeps parses full (set_indexer_enabled parses chain enabled)
    unfolding set_indexer_enabled
    set_indexer_enabled-Keeps enabled = Runs-bind _ _ indexer_config-Runs (λ config.
        Runs-given (λ _.
          Runs-test (enabled && not (is_some config.url)) _ _ (λ _. Runs-fail _ (λ w h. h))
            (λ fine.
              Runs-bind _ _
                (put_indexer_config-Keeps parses full _
                  (λ e. has_url enabled (is_some config.url) e fine))
                (λ _. Runs-return _ (λ w h. h)))))

    install_default_bundler_config-Keeps :
        Keeps parses full (install_default_bundler_config parses chain)
    unfolding install_default_bundler_config
    install_default_bundler_config-Keeps =
        Runs-bind _ _ (get_bundler_config-Runs parses full) (λ stored. Runs-given (λ b.
          Runs-test (is_some stored) _ _ (λ _. Runs-return tt (λ w h. h))
            (λ e. put_bundler_config-Keeps parses full _ (default-Bundled (unset stored b e)))))

    install_default_indexer_config-Keeps :
        Keeps parses full (install_default_indexer_config parses chain)
    unfolding install_default_indexer_config
    install_default_indexer_config-Keeps =
        Runs-bind _ _ (get_indexer_config-Runs parses full) (λ stored. Runs-given (λ _.
          Runs-test (is_some stored) _ _ (λ _. Runs-return tt (λ w h. h))
            (λ _. put_indexer_config-Keeps parses full _ (default-Indexed chain))))

    -- a call and its result, which is not looked at
    serve-Keeps : (call : NetworkCall) → Keeps parses full (serve parses chain call)
    unfolding serve
    serve-Keeps (add_rpc config) = add_rpc_config-Keeps parses full config
    serve-Keeps (use_rpc name) = use_rpc_config-Keeps parses full name
    serve-Keeps default_rpc = install_default_rpc_config-Keeps
    serve-Keeps read_bundlers = ignored-Keeps _ bundler_urls-Keeps
    serve-Keeps (add_bundler url) = ignored-Keeps _ (add_bundler_url-Keeps url)
    serve-Keeps (remove_bundler url) = ignored-Keeps _ (remove_bundler_url-Keeps url)
    serve-Keeps default_bundlers = install_default_bundler_config-Keeps
    serve-Keeps read_indexer =
        ignored-Keeps _ (Runs-weaken (λ w h. h) (λ c w h. h.1) (λ w h. h) indexer_config-Runs)
    serve-Keeps (indexer_at url) = ignored-Keeps _ (set_indexer_url-Keeps url)
    serve-Keeps (indexer_on on) = ignored-Keeps _ (set_indexer_enabled-Keeps on)
    serve-Keeps default_indexer = install_default_indexer_config-Keeps

    outcome-Configured :
        {A : Type 0} (o : Result InstanceError A × NetworkStore)
        → Post (λ _. Configured parses full) (Configured parses full) o
        → Configured parses full o.1
    outcome-Configured (ok a, w) h = h
    outcome-Configured (err e, w) h = h

    pub after_calls-Configured :
        (calls : List NetworkCall) (w : NetworkStore)
        → Configured parses full w
        → Configured parses full (after_calls parses chain calls w)
    unfolding after_calls
    after_calls-Configured [] w h = h
    after_calls-Configured (c ∷ cs) w h =
        after_calls-Configured cs (serve parses chain c w).1
          (outcome-Configured (serve parses chain c w) ((serve-Keeps c).at w h))
