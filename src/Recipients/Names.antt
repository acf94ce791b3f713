-- ===== src/Recipients/Names.antt =====
-- crates/core/src/recipient.rs: what holds of a recipient that was read.
use desktop_wallet.Common.{
  ℕ, ◌≡◌, ◌∙◌, refl, ap, subst, Bool, true, false, not, ◌&&◌, Option, none, some, [], ◌∷◌,
  if◌then◌else◌, ◌==◌, is_some, arith,
}
use desktop_wallet.Common.Outcome.{Result, ok, err, ok_or, ◌>>=◌, >>=-eq-ok, ok-injective}
use desktop_wallet.Recipients.{
  Text, Recipient, RecipientError, invalid, address, name, lower, to_ascii_lowercase, labels,
  all_labels, normalized_name, trim, any_char, mixed_case, digits, parse_address, recipient_address,
  from_trimmed, from_str,
}

lower-lower : (c : ℕ) → lower (lower c) ≡ lower c
lower-lower c = ground arith

lowercase_twice :
    (text : Text) → to_ascii_lowercase (to_ascii_lowercase text) ≡ to_ascii_lowercase text
lowercase_twice [] = refl
lowercase_twice (c ∷ cs) = λ j. lower-lower c j ∷ lowercase_twice cs j

-- a test that an answer has passed
pub passed :
    {E A : Type 0} (b : Bool) (e : E) {x y : A}
    → ◌≡◌ {A = Result E A} (if b then err e else ok x) (ok y)
    → (b ≡ false) × (x ≡ y)
passed true e h = absurd cc
passed false e h = (refl, cc)

kept :
    {E A : Type 0} (b : Bool) (e : E) {x y : A}
    → ◌≡◌ {A = Result E A} (if b then ok x else err e) (ok y)
    → (b ≡ true) × (x ≡ y)
kept true e h = (refl, cc)
kept false e h = absurd cc

-- the text of a name: lowercase already, of labels that are all allowed
abbrev pub Normalized : Text → Type 0
Normalized text = (to_ascii_lowercase text ≡ text) × (all_labels (labels text) ≡ true)

normalized_name-Normalized :
    (text : Text) {lowered : Text}
    → normalized_name text ≡ ok lowered
    → Normalized lowered × (to_ascii_lowercase text ≡ lowered)
unfolding normalized_name
normalized_name-Normalized text h =
    let facts = kept _ _ h in (subst Normalized facts.1 (lowercase_twice text, facts.0), facts.1)

module _ {A : Type 0} (from_text : Text → Option A) (checksummed : Text → Bool)
    (is_zero : A → Bool) where
  -- what a recipient that was read from a text is
  abbrev pub Reads : Text → Recipient A → Type 0
  Reads text (address a) =
      (from_text text ≡ some a)
      × (is_zero a ≡ false)
      × ((mixed_case (digits text) && not (checksummed (48 ∷ 120 ∷ digits text))) ≡ false)
  Reads text (name n) =
      (from_text text ≡ none)
      × (any_char (λ c. c == 46) text ≡ true)
      × (to_ascii_lowercase text ≡ n)
      × Normalized n

  some_of : {E : Type 0} (e : E) (o : Option A) {a : A} → ok_or e o ≡ ok a → o ≡ some a
  some_of e none h = absurd cc
  some_of e (some b) h = cc

  recipient_address-Reads :
      (text : Text) (a : A)
      → recipient_address from_text checksummed is_zero text ≡ ok a
      → Reads text (address a)
  unfolding recipient_address parse_address
  recipient_address-Reads text a h =
      let first = >>=-eq-ok _ _ h in
      let nonzero = passed _ _ first.2 in
      let parsed = >>=-eq-ok _ _ first.1 in
      let checked = passed _ _ parsed.2 in
      (
        some_of _ (from_text text) parsed.1 ∙ ap some (checked.1 ∙ nonzero.1),
        subst (λ x. is_zero x ≡ false) nonzero.1 nonzero.0,
        checked.0,
      )

  named-Reads :
      (text : Text) (dot : Bool) (r : Recipient A)
      → from_text text ≡ none
      → any_char (λ c. c == 46) text ≡ dot
      → ◌≡◌ {A = Result RecipientError (Recipient A)}
          (if dot
            then (normalized_name text >>= λ lowered. ok (name lowered))
            else err (invalid text))
          (ok r)
      → Reads text r
  named-Reads text false r e f h = absurd cc
  named-Reads text true r e f h =
      let taken = >>=-eq-ok _ _ h in
      let facts = normalized_name-Normalized text taken.1 in
      subst (Reads text) (ok-injective refl taken.2) (e, f, facts.1, facts.0)

  branch-Reads :
      (text : Text) (o : Option A) (r : Recipient A)
      → from_text text ≡ o
      → ◌≡◌ {A = Result RecipientError (Recipient A)}
          (if is_some o
            then (recipient_address from_text checksummed is_zero text >>= λ found.
                ok (address found))
            else (if any_char (λ c. c == 46) text
                then (normalized_name text >>= λ lowered. ok (name lowered))
                else err (invalid text)))
          (ok r)
      → Reads text r
  branch-Reads text none r e h = named-Reads text (any_char (λ c. c == 46) text) r e refl h
  branch-Reads text (some a) r e h =
      let taken = >>=-eq-ok _ _ h in
      subst (Reads text) (ok-injective refl taken.2) (recipient_address-Reads text taken.0 taken.1)

  -- A text that is read as a recipient, without the white space around it: an address is what the
  -- text is the address of; it is not zero, and with letters of both cases its checksum is right.
  -- A name is the text in lowercase; the text is no address and has a dot, and the name is in
  -- lowercase with every label allowed.
  pub from_str-Reads :
      (text : Text) (r : Recipient A)
      → from_str from_text checksummed is_zero text ≡ ok r
      → Reads (trim text) r
  unfolding from_str from_trimmed
  from_str-Reads text r h = branch-Reads (trim text) (from_text (trim text)) r refl h
