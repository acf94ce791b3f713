-- ===== src/Networks/Records.antt =====
-- crates/core/src/instance/networks.rs and crates/core/src/instance/services.rs: what is kept of the
-- records of a network.
use desktop_wallet.Common.{
  ℕ, zero, suc, ◌≡◌, ◌∙◌, refl, sym, Bool, true, false, ◌||◌, Option, none, some, List, [], ◌∷◌,
  ◌++◌, any, All, Bool-cases, inl, inr, remove_at, is_some,
}
use desktop_wallet.Exec.Runs.{Runs, Post, Runs-bind, Runs-gets, Runs-modify}
use desktop_wallet.Database.{bytes_eq}
use desktop_wallet.Database.Scopes.{bytes_eq_iff}
use desktop_wallet.Recipients.{Text, trim}
use desktop_wallet.Networks.{
  RpcConfig, IndexerConfig, NetworkStore, Op, or_empty, attempt, attempt_with, get_rpc_configs,
  put_rpc_configs, get_active_rpc_config, put_active_rpc_config, get_bundler_config,
  put_bundler_config, get_indexer_config, put_indexer_config, is_empty_text,
}

bytes_eq_comm : (xs ys : Text) → bytes_eq xs ys ≡ bytes_eq ys xs
bytes_eq_comm xs ys = elim (Bool-cases (bytes_eq xs ys)) [
  | inl e ↦ e ∙ sym ((bytes_eq_iff ys xs).1 (sym ((bytes_eq_iff xs ys).0 e)))
  | inr e ↦ elim (Bool-cases (bytes_eq ys xs)) [
    | inl f ↦ absurd (
        let bad : true ≡ false =
          sym ((bytes_eq_iff xs ys).1 (sym ((bytes_eq_iff ys xs).0 f))) ∙ e in
        cc)
    | inr f ↦ e ∙ sym f
  ]
]

or_false : (a b : Bool) → (a || b) ≡ false → (a ≡ false) × (b ≡ false)
or_false true b e = absurd (cc)
or_false false b e = (refl, e)

module _ {A : Type 0} (key : A → Text) where
  -- no key twice
  abbrev pub Keyed : List A → Type 0
  Keyed [] = Unit
  Keyed (x ∷ xs) = (any (λ y. bytes_eq (key y) (key x)) xs ≡ false) × Keyed xs

  any-snoc :
      (p : A → Bool) (xs : List A) (x : A)
      → any p xs ≡ false
      → p x ≡ false
      → any p (xs ++ x ∷ []) ≡ false
  any-snoc p [] x e f = rw f
  any-snoc p (y ∷ ys) x e f =
      let parts = or_false (p y) (any p ys) e in rw parts.0 (any-snoc p ys x parts.1 f)

  pub Keyed-snoc :
      (xs : List A) (x : A)
      → any (λ y. bytes_eq (key y) (key x)) xs ≡ false
      → Keyed xs
      → Keyed (xs ++ x ∷ [])
  Keyed-snoc [] x e k = (refl, tt)
  Keyed-snoc (y ∷ ys) x e k =
      let parts = or_false (bytes_eq (key y) (key x)) (any (λ z. bytes_eq (key z) (key x)) ys) e in
      (
        any-snoc (λ z. bytes_eq (key z) (key y)) ys x k.0 (bytes_eq_comm (key x) (key y) ∙ parts.0),
        Keyed-snoc ys x parts.1 k.1,
      )

  any-remove_at :
      (p : A → Bool) (xs : List A) (i : ℕ) → any p xs ≡ false → any p (remove_at xs i) ≡ false
  any-remove_at p [] i e = e
  any-remove_at p (x ∷ xs) zero e = (or_false (p x) (any p xs) e).1
  any-remove_at p (x ∷ xs) (suc i) e =
      let parts = or_false (p x) (any p xs) e in rw parts.0 (any-remove_at p xs i parts.1)

  pub Keyed-remove_at : (xs : List A) (i : ℕ) → Keyed xs → Keyed (remove_at xs i)
  Keyed-remove_at [] i k = k
  Keyed-remove_at (x ∷ xs) zero k = k.1
  Keyed-remove_at (x ∷ xs) (suc i) k =
      (any-remove_at (λ y. bytes_eq (key y) (key x)) xs i k.0, Keyed-remove_at xs i k.1)

pub All-remove_at :
    {A : Type 0} (P : A → Type 0) (xs : List A) (i : ℕ) → All P xs → All P (remove_at xs i)
All-remove_at P [] i h = h
All-remove_at P (x ∷ xs) zero h = h.1
All-remove_at P (x ∷ xs) (suc i) h = (h.0, All-remove_at P xs i h.1)

-- configurations with names, each its own
abbrev pub Named : List RpcConfig → Type 0
Named configs = Keyed (λ c. c.name) configs × All (λ c. is_empty_text c.name ≡ false) configs

abbrev pub is_nonempty : {A : Type 0} → List A → Bool
is_nonempty [] = false
is_nonempty (x ∷ xs) = true

-- an indexer that is on has a URL
abbrev pub Indexed : Option IndexerConfig → Type 0
Indexed none = Unit
Indexed (some config) = config.enabled ≡ true → is_some config.url ≡ true

-- whether there is a bundler for good
module _ (parses : Text → Bool) (full : Bool) where
  abbrev pub Bundled : List Text → Type 0
  Bundled urls =
      Keyed (λ u. u) urls
      × All (λ u. parses (trim u) ≡ true) urls
      × (full ≡ true → is_nonempty urls ≡ true)

  abbrev pub BundledRecord : Option (List Text) → Type 0
  BundledRecord none = full ≡ false
  BundledRecord (some urls) = Bundled urls

  abbrev pub Configured : NetworkStore → Type 0
  Configured w =
      Named (or_empty w.rpc_record) × BundledRecord w.bundler_record × Indexed w.indexer_record

  -- an operation after which the network is configured as before, also if it fails
  abbrev pub Keeps : {A : Type 0} → Op A → Type 0
  Keeps m = Runs Configured m (λ _. Configured) Configured

  by_fault :
      (w : NetworkStore) (faults : List Bool)
      → Configured w
      → Post (λ _. Configured) Configured (attempt_with w faults)
  unfolding attempt_with
  by_fault w [] h = h
  by_fault w (true ∷ rest) h = h
  by_fault w (false ∷ rest) h = h

  attempt-Keeps : Keeps attempt
  unfolding attempt
  attempt-Keeps = record { at = λ w h. by_fault w w.faults h }

  pub get_rpc_configs-Runs :
      Runs Configured get_rpc_configs (λ l w. Named l × Configured w) Configured
  unfolding get_rpc_configs
  get_rpc_configs-Runs = Runs-bind _ _ attempt-Keeps (λ _. Runs-gets _ (λ w h. (h.0, h)))

  pub get_active_rpc_config-Keeps : Keeps get_active_rpc_config
  unfolding get_active_rpc_config
  get_active_rpc_config-Keeps = Runs-bind _ _ attempt-Keeps (λ _. Runs-gets _ (λ w h. h))

  pub get_bundler_config-Runs :
      Runs Configured get_bundler_config (λ o w. BundledRecord o × Configured w) Configured
  unfolding get_bundler_config
  get_bundler_config-Runs = Runs-bind _ _ attempt-Keeps (λ _. Runs-gets _ (λ w h. (h.1, h)))

  pub get_indexer_config-Runs :
      Runs Configured get_indexer_config (λ o w. Indexed o × Configured w) Configured
  unfolding get_indexer_config
  get_indexer_config-Runs = Runs-bind _ _ attempt-Keeps (λ _. Runs-gets _ (λ w h. (h.2, h)))

  pub put_rpc_configs-Keeps : (l : List RpcConfig) → Named l → Keeps (put_rpc_configs l)
  unfolding put_rpc_configs
  put_rpc_configs-Keeps l n =
      Runs-bind _ _ attempt-Keeps (λ _. Runs-modify _ (λ w h. (n, h.1, h.2)))

  pub put_active_rpc_config-Keeps : (name : Text) → Keeps (put_active_rpc_config name)
  unfolding put_active_rpc_config
  put_active_rpc_config-Keeps name = Runs-bind _ _ attempt-Keeps (λ _. Runs-modify _ (λ w h. h))

  pub put_bundler_config-Keeps : (l : List Text) → Bundled l → Keeps (put_bundler_config l)
  unfolding put_bundler_config
  put_bundler_config-Keeps l b =
      Runs-bind _ _ attempt-Keeps (λ _. Runs-modify _ (λ w h. (h.0, b, h.2)))

  pub put_indexer_config-Keeps :
      (c : IndexerConfig) → Indexed (some c) → Keeps (put_indexer_config c)
  unfolding put_indexer_config
  put_indexer_config-Keeps c i =
      Runs-bind _ _ attempt-Keeps (λ _. Runs-modify _ (λ w h. (h.0, h.1, i)))
