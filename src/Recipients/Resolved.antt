-- ===== src/Recipients/Resolved.antt =====
-- crates/core/src/recipient.rs: where the funds go that are sent to a recipient.
use desktop_wallet.Common.{
  ◌≡◌, ◌⊎◌, inl, inr, refl, sym, subst, Bool, true, false, not, if◌then◌else◌, Option, none, some,
}
use desktop_wallet.Common.Outcome.{Result, ok, err, ok_or, >>=-eq-ok, ok-injective}
use desktop_wallet.Recipients.{
  Text, Recipient, RecipientError, ResolvedRecipient, Endpoint, EnsError, resolver_not_found,
  other_ens, no_ens, no_provider, network_failed, is_empty, address, name, to_ascii_lowercase, trim,
  from_str, looked_up, resolve_name, resolve,
}
use desktop_wallet.Recipients.Names.{from_str-Reads, Reads, passed}

module _ {A : Type 0} (from_text : Text → Option A) (checksummed : Text → Bool) (is_zero : A → Bool)
    (endpoint : Endpoint A) where
  -- the address in a text, or the one that the name in the text resolves to
  abbrev pub Leads : Text → ResolvedRecipient A → Type 0
  Leads text r =
      ((r.from_name ≡ none) × (from_text text ≡ some r.to))
      ⊎ ((r.from_name ≡ some (to_ascii_lowercase text))
          × (endpoint.resolves (to_ascii_lowercase text) ≡ ok r.to))

  looked_up-ok :
      (n : Text) (asked : Bool) (answer : Result EnsError A) (a : A)
      → looked_up is_zero endpoint n asked answer ≡ ok a
      → answer ≡ ok a
  unfolding looked_up
  looked_up-ok n asked (ok found) a h = cc
  looked_up-ok n true (err source) a h = absurd cc
  looked_up-ok n false (err resolver_not_found) a h = absurd cc
  looked_up-ok n false (err other_ens) a h = absurd cc

  resolve_name-ok :
      (n : Text) (r : ResolvedRecipient A)
      → resolve_name is_zero endpoint n ≡ ok r
      → (is_zero r.to ≡ false) × (r.from_name ≡ some n) × (endpoint.resolves n ≡ ok r.to)
  unfolding resolve_name
  resolve_name-ok n r h =
      let found = >>=-eq-ok _ _ h in
      let nonzero = passed _ _ found.2 in
      subst (λ r. (is_zero r.to ≡ false) × (r.from_name ≡ some n) × (endpoint.resolves n ≡ ok r.to))
        nonzero.1 (nonzero.0, refl, looked_up-ok n _ _ found.0 found.1)

  provided :
      (b : Bool) (e : RecipientError) {rest : Result RecipientError (ResolvedRecipient A)}
      {r : ResolvedRecipient A}
      → (if b then err e else rest) ≡ ok r
      → rest ≡ ok r
  provided true e h = absurd cc
  provided false e h = h

  resolved-Leads :
      (text : Text) (to : Recipient A) (r : ResolvedRecipient A)
      → Reads from_text checksummed is_zero text to
      → resolve is_zero endpoint to ≡ ok r
      → (is_zero r.to ≡ false) × Leads text r
  unfolding resolve
  resolved-Leads text (address a) r reads h =
      subst (λ r. (is_zero r.to ≡ false) × Leads text r) (ok-injective refl h)
        (reads.1, inl (refl, reads.0))
  resolved-Leads text (name n) r reads h =
      let coded =
        >>=-eq-ok (ok_or network_failed endpoint.resolver_code)
          (λ code. if is_empty code then err no_ens else resolve_name is_zero endpoint n)
          (provided (not endpoint.has_provider) no_provider h) in
      let facts = resolve_name-ok n r (provided (is_empty coded.0) no_ens coded.2) in
      (
        facts.0,
        inr (
            subst (λ n. (r.from_name ≡ some n) × (endpoint.resolves n ≡ ok r.to)) (sym reads.2)
              (facts.1, facts.2)),
      )

  -- If a text is read as a recipient and this is resolved, then the address reached is not zero. It is
  -- the address of the text without the white space around it, and then no name is kept; or it is what
  -- the network resolves this text in lowercase to, and then this name is kept.
  pub resolve-from_str :
      (text : Text) (to : Recipient A) (r : ResolvedRecipient A)
      → from_str from_text checksummed is_zero text ≡ ok to
      → resolve is_zero endpoint to ≡ ok r
      → (is_zero r.to ≡ false) × Leads (trim text) r
  resolve-from_str text to r read h =
      resolved-Leads (trim text) to r (from_str-Reads from_text checksummed is_zero text to read) h
