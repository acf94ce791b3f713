-- ===== src/Networks/Active.antt =====
-- crates/core/src/instance/networks.rs and crates/core/src/instance/services.rs: which RPC is active,
-- and that the bundlers can be read, after any calls.
use desktop_wallet.Common.{
  ℕ, zero, suc, ◌≡◌, ◌⊎◌, ◌∙◌, refl, sym, ap, subst, Bool, true, false, Option, none, some, List,
  [], ◌∷◌, any, All, Bool-cases, Option-cases, inl, inr, get_elem?, position, FoundAt,
  position-FoundAt, length, arith,
}
use desktop_wallet.Common.Outcome.{ok}
use desktop_wallet.Exec.{lift}
use desktop_wallet.Exec.Runs.{
  Runs, Post, Runs-bind, Runs-given, Runs-return, Runs-gets, Runs-modify,
}
use desktop_wallet.Recipients.{Text, trim}
use desktop_wallet.Networks.{
  RpcConfig, NetworkStore, InstanceError, NetworkCall, or_empty, is_named, attempt, attempt_with,
  get_rpc_configs, get_active_rpc_config, get_bundler_config, put_bundler_config, active_index,
  active_rpc_config, active_rpc, default_bundler_urls, stored_bundler_urls, parse_all, bundler_urls,
  after_calls,
}
use desktop_wallet.Networks.Records.{Configured, BundledRecord, is_nonempty}
use desktop_wallet.Networks.Calls.{parse_all-ok, after_calls-Configured}

-- the configuration of the active name, if there is one, and else the first
abbrev pub Choice : Option Text → List RpcConfig → RpcConfig → Type 0
Choice none l found = get_elem? l 0 ≡ some found
Choice (some name) l found =
    (any (is_named name) l ≡ true → is_named name found ≡ true)
    × (any (is_named name) l ≡ false → get_elem? l 0 ≡ some found)

abbrev pub Chosen : List RpcConfig → Option Text → Option RpcConfig → Type 0
Chosen [] active o = o ≡ none
Chosen (c ∷ cs) active o =
    (found : RpcConfig) × (o ≡ some found)
    × ((i : ℕ) × (get_elem? (c ∷ cs) i ≡ some found))
    × Choice active (c ∷ cs) found

some-injective : {A : Type 0} {x y : A} → some x ≡ some y → x ≡ y
some-injective e = cc

module _ {A : Type 0} (p : A → Bool) where
  any-at : (xs : List A) (i : ℕ) (x : A) → get_elem? xs i ≡ some x → p x ≡ true → any p xs ≡ true
  any-at [] i x e h = absurd (cc)
  any-at (y ∷ ys) zero x e h = rw (ap p (some-injective e) ∙ h) refl
  any-at (y ∷ ys) (suc i) x e h = elim (Bool-cases (p y)) [
    | inl t ↦ rw t refl
    | inr f ↦ rw f (any-at ys i x e h)
  ]

  position-any : (xs : List A) → any p xs ≡ true → (i : ℕ) × (position p xs ≡ some i)
  position-any [] e = absurd (cc)
  position-any (x ∷ xs) e = elim (Bool-cases (p x)) [
    | inl t ↦ (0, rw t refl)
    | inr f ↦ let later = position-any xs (rw f at e) in (suc later.0, rw (f, later.1) refl)
  ]

chosen_named :
    (name : Text) (c : RpcConfig) (cs : List RpcConfig) (o : Option ℕ)
    → position (is_named name) (c ∷ cs) ≡ o
    → FoundAt (is_named name) (c ∷ cs) o
    → (found : RpcConfig) × (get_elem? (c ∷ cs) (elim o [ none ↦ 0 | some i ↦ i ]) ≡ some found)
      × Choice (some name) (c ∷ cs) found
chosen_named name c cs none e h = (
  c,
  refl,
  (
    λ t.
        let there = position-any (is_named name) (c ∷ cs) t in
        absurd (let bad = sym e ∙ there.1 in cc),
    λ _. refl,
  ),
)
chosen_named name c cs (some i) e h = (
  h.0,
  h.1,
  (
    λ _. h.2,
    λ f.
        absurd
          (let bad : true ≡ false = sym (any-at (is_named name) (c ∷ cs) i h.0 h.1 h.2) ∙ f in cc),
  ),
)

chosen :
    (active : Option Text) (c : RpcConfig) (cs : List RpcConfig)
    → (found : RpcConfig) × (get_elem? (c ∷ cs) (active_index active (c ∷ cs)) ≡ some found)
      × Choice active (c ∷ cs) found
unfolding active_index
chosen none c cs = (c, refl, refl)
chosen (some name) c cs =
    chosen_named name c cs (position (is_named name) (c ∷ cs)) refl
      (position-FoundAt (is_named name) (c ∷ cs))

abbrev pub Never : NetworkStore → Type 0
Never w = ⊥

List-cases : {A : Type 0} (xs : List A) → (xs ≡ []) ⊎ ((x : A) × (ys : List A) × (xs ≡ x ∷ ys))
List-cases [] = inl refl
List-cases (x ∷ xs) = inr (x, xs, refl)

as_many :
    (us vs : List Text) → length us ≡ length vs → is_nonempty vs ≡ true → is_nonempty us ≡ true
as_many [] [] e h = h
as_many [] (v ∷ vs) e h = absurd (omega (arith, e))
as_many (u ∷ us) vs e h = refl

module _ {A : Type 0} {P : NetworkStore → Type 0} {Q : A → NetworkStore → Type 0} where
  Runs-ok :
      (a : A)
      → ((w : NetworkStore) → P w → Q a w)
      → Runs P (lift {E = InstanceError} (ok a)) Q Never
  unfolding lift
  Runs-ok a h = record { at = h }

-- the records of a state, and no faults to come
module _ (v : NetworkStore) where
  abbrev pub Quiet : NetworkStore → Type 0
  Quiet w =
      (w.rpc_record ≡ v.rpc_record)
      × (w.active_record ≡ v.active_record)
      × (w.bundler_record ≡ v.bundler_record)
      × (w.faults ≡ [])

  attempt-Quiet : Runs Quiet attempt (λ _. Quiet) Never
  unfolding attempt attempt_with
  attempt-Quiet = record {
    at = λ w h.
        subst (λ f. Post (λ _. Quiet) Never (attempt_with w f)) (sym h.3) (h.0, h.1, h.2, refl);
  }

  get_rpc_configs-Quiet :
      Runs Quiet get_rpc_configs (λ l w. (l ≡ or_empty v.rpc_record) × Quiet w) Never
  unfolding get_rpc_configs
  get_rpc_configs-Quiet =
      Runs-bind _ _ attempt-Quiet (λ _. Runs-gets _ (λ w h. (ap or_empty h.0, h)))

  active_rpc_config-Quiet :
      (c : RpcConfig) (cs : List RpcConfig)
      → or_empty v.rpc_record ≡ c ∷ cs
      → Runs Quiet active_rpc_config
          (λ found w.
            ((i : ℕ) × (get_elem? (c ∷ cs) i ≡ some found)) × Choice v.active_record (c ∷ cs) found)
          Never
  unfolding active_rpc_config get_active_rpc_config
  active_rpc_config-Quiet c cs e = Runs-bind _ _ get_rpc_configs-Quiet (λ l. Runs-given (λ here.
      rw (here ∙ e) (
        Runs-bind _ _
          (Runs-bind _ _ attempt-Quiet
            (λ _. Runs-gets {Q = λ o w. (o ≡ v.active_record) × Quiet w} _ (λ w h. (h.1, h))))
          (λ active. Runs-given (λ same.
            let answer = chosen active c cs in
            rw answer.1 (
              Runs-ok answer.0 (λ w h. (
                (active_index active (c ∷ cs), answer.1),
                subst (λ a. Choice a (c ∷ cs) answer.0) same answer.2,
              ))))))))

  active_rpc-Quiet :
      Runs Quiet active_rpc (λ o w. Chosen (or_empty v.rpc_record) v.active_record o) Never
  unfolding active_rpc
  active_rpc-Quiet = Runs-bind _ _ get_rpc_configs-Quiet (λ l. Runs-given (λ here.
      elim (List-cases (or_empty v.rpc_record)) [
        | inl e ↦
            rw (here ∙ e)
              (Runs-return none (λ w h. subst (λ t. Chosen t v.active_record none) (sym e) refl))
        | inr f ↦ rw (here ∙ f.2) (
            Runs-bind _ _ (active_rpc_config-Quiet f.0 f.1 f.2) (λ found.
              Runs-return (some found) (λ w h.
                subst (λ t. Chosen t v.active_record (some found)) (sym f.2)
                  (found, refl, h.0, h.1))))
      ]))

module _ (parses : Text → Bool) (chain : ℕ) (full : Bool) where
  parse_all-Quiet :
      (P : NetworkStore → Type 0) (urls : List Text)
      → All (λ u. parses (trim u) ≡ true) urls
      → (full ≡ true → is_nonempty urls ≡ true)
      → Runs P
          (lift (parse_all parses chain urls))
          (λ us w. full ≡ true → is_nonempty us ≡ true)
          Never
  parse_all-Quiet P urls good most =
      let answer = parse_all-ok parses chain urls good in
      rw answer.1 (Runs-ok answer.0 (λ w h t. as_many answer.0 urls answer.2 (most t)))

  bundler_urls-Quiet :
      (v : NetworkStore)
      → All (λ u. parses (trim u) ≡ true) (default_bundler_urls chain)
      → BundledRecord parses full v.bundler_record
      → Runs
          (Quiet v)
          (bundler_urls parses chain)
          (λ us w. full ≡ true → is_nonempty us ≡ true)
          Never
  unfolding bundler_urls stored_bundler_urls get_bundler_config put_bundler_config
  bundler_urls-Quiet v parsed b =
      Runs-bind
        {Q = λ urls w.
          All (λ u. parses (trim u) ≡ true) urls × (full ≡ true → is_nonempty urls ≡ true)}
        _ _
        (Runs-bind _ _
          (Runs-bind _ _ (attempt-Quiet v)
            (λ _. Runs-gets {Q = λ o w. (o ≡ v.bundler_record) × Quiet v w} _ (λ w h. (h.2, h))))
          (λ o. Runs-given (λ same.
            let there = subst (BundledRecord parses full) (sym same) b in
            elim (Option-cases o) [
              | inl e ↦
                  let empty = subst (BundledRecord parses full) e there in
                  rw e (
                    Runs-bind _ _
                      (Runs-bind _ _ (attempt-Quiet v)
                        (λ _. Runs-modify {Q = λ w. Unit} _ (λ w h. tt)))
                      (λ _.
                        Runs-return
                          {Q = λ urls w.
                            All (λ u. parses (trim u) ≡ true) urls
                            × (full ≡ true → is_nonempty urls ≡ true)}
                          (default_bundler_urls chain)
                          (λ w h. (parsed, λ t. absurd (let bad = sym t ∙ empty in cc)))))
              | inr f ↦
                  let list = subst (BundledRecord parses full) f.1 there in
                  rw f.1 (Runs-return f.0 (λ w h. (list.1, list.2)))
            ])))
        (λ urls. record { at = λ w h. (parse_all-Quiet (λ _. Unit) urls h.0 h.1).at w tt })

-- The names of the RPCs given are not empty and differ, the stored bundlers differ and parse as URLs,
-- and an indexer that is on has a URL: this is so after any calls, whatever fails, if it was before,
-- and a list of bundlers that was not empty is not. Then, if no access fails: the active RPC is that
-- of the active name if there is one of this name, and else the first, or none if there are none; and
-- the bundlers are read. The default bundlers of the network parse as URLs.
pub calls-usable :
    (parses : Text → Bool) (chain : ℕ) (full : Bool) (calls : List NetworkCall) (w : NetworkStore)
    → All (λ u. parses (trim u) ≡ true) (default_bundler_urls chain)
    → Configured parses full w
    → Configured parses full (after_calls parses chain calls w)
      × ((v : NetworkStore)
          → Quiet (after_calls parses chain calls w) v
          → Post
              (λ o _.
                Chosen
                  (or_empty (after_calls parses chain calls w).rpc_record)
                  (after_calls parses chain calls w).active_record
                  o)
              Never
              (active_rpc v)
            × Post
                (λ us _. full ≡ true → is_nonempty us ≡ true)
                Never
                (bundler_urls parses chain v))
calls-usable parses chain full calls w parsed h =
    let later = after_calls-Configured parses chain full parsed calls w h in
    (
      later,
      λ v q. (
        (active_rpc-Quiet (after_calls parses chain calls w)).at v q,
        (bundler_urls-Quiet parses chain full (after_calls parses chain calls w) parsed later.1).at
            v q,
      ),
    )
