-- ===== src/Recipients.antt =====
-- crates/core/src/recipient.rs: the text a person gives, read as an address or as an ENS name.
-- A text is the list of its code points. The parsing of addresses, and the check of a checksum,
-- are parameters, and so are the answers of the network. The causes that errors of the network and of
-- ENS carry are left out.
pub mod Names
pub mod Resolved
use desktop_wallet.Common.{
  ℕ, ◌-◌, ◌+◌, Bool, true, false, not, ◌&&◌, ◌||◌, Option, none, some, List, [], ◌∷◌, ◌++◌, map,
  if◌then◌else◌, ◌==◌, leb, is_some, unwrap_or,
}
use desktop_wallet.Common.Outcome.{Result, ok, err, ok_or, ◌>>=◌}

abbrev pub Text : Type 0
Text = List ℕ

pub data RecipientError : Type 0 where
  checksum : Text → RecipientError
  invalid : Text → RecipientError
  zero_address : Text → RecipientError
  unsupported_name : Text → RecipientError
  no_ens : RecipientError
  no_record : Text → RecipientError
  offchain : Text → RecipientError
  no_provider : RecipientError
  network_failed : RecipientError
  ens_failed : Text → RecipientError

pub data Recipient (A : Type 0) : Type 0 where
  address : A → Recipient A
  name : Text → Recipient A

abbrev pub within : ℕ → ℕ → ℕ → Bool
within first last c = leb first c && leb c last

abbrev pub any_char : (ℕ → Bool) → Text → Bool
any_char test [] = false
any_char test (c ∷ cs) = test c || any_char test cs

abbrev pub all_char : (ℕ → Bool) → Text → Bool
all_char test [] = true
all_char test (c ∷ cs) = test c && all_char test cs

abbrev pub is_upper : ℕ → Bool
is_upper c = within 65 90 c

abbrev pub is_lower : ℕ → Bool
is_lower c = within 97 122 c

-- `char::is_whitespace`
abbrev pub is_whitespace : ℕ → Bool
is_whitespace c =
    within 9 13 c
    || c == 32
    || c == 133
    || c == 160
    || c == 5760
    || within 8192 8202 c
    || within 8232 8233 c
    || c == 8239
    || c == 8287
    || c == 12288

abbrev trim_start : (ℕ → Bool) → Text → Text
trim_start test [] = []
trim_start test (c ∷ cs) = if test c then trim_start test cs else c ∷ cs

abbrev trim_end : (ℕ → Bool) → Text → Text
trim_end test [] = []
trim_end test (c ∷ cs) = if test c && all_char test cs then [] else c ∷ trim_end test cs

abbrev pub trim : Text → Text
trim text = trim_end is_whitespace (trim_start is_whitespace text)

abbrev pub lower : ℕ → ℕ
lower c = if is_upper c then c + 32 else c

abbrev pub to_ascii_lowercase : Text → Text
to_ascii_lowercase text = map lower text

-- `split('.')`, the label that was begun first
abbrev split_from : Text → Text → List Text
split_from label [] = label ∷ []
split_from label (c ∷ cs) =
    let rest = split_from [] cs in
    let longer = split_from (label ++ c ∷ []) cs in if c == 46 then label ∷ rest else longer

abbrev pub labels : Text → List Text
labels text = split_from [] text

abbrev pub is_empty : Text → Bool
is_empty [] = true
is_empty (c ∷ cs) = false

abbrev is_label_char : ℕ → Bool
is_label_char c = is_upper c || is_lower c || within 48 57 c || c == 45 || c == 36

-- whether the third and the fourth are hyphens
abbrev hyphens_inside : Text → Bool
hyphens_inside (a ∷ b ∷ c ∷ d ∷ cs) = c == 45 && d == 45
hyphens_inside _ = false

unfoldable pub label_ok : Text → Bool
label_ok label =
    not (is_empty label)
    && all_char is_label_char (trim_start (λ c. c == 95) label)
    && not (hyphens_inside label)

unfoldable pub all_labels : List Text → Bool
all_labels [] = true
all_labels (label ∷ rest) = label_ok label && all_labels rest

unfoldable pub normalized_name : Text → Result RecipientError Text
normalized_name text =
    let lowered = to_ascii_lowercase text in
    if all_labels (labels lowered) then ok lowered else err (unsupported_name text)

-- without a leading `0x` or `0X`
abbrev pub digits : Text → Text
digits [] = []
digits (z ∷ []) = z ∷ []
digits (z ∷ c ∷ cs) = if z == 48 && (c == 120 || c == 88) then cs else z ∷ c ∷ cs

abbrev pub mixed_case : Text → Bool
mixed_case text = any_char is_upper text && any_char is_lower text

module _ {A : Type 0} (from_text : Text → Option A) (checksummed : Text → Bool)
    (is_zero : A → Bool) where
  unfoldable pub parse_address : Text → Result RecipientError A
  parse_address text = ok_or (invalid text) (from_text text) >>= λ found.
      (if mixed_case (digits text) && not (checksummed (48 ∷ 120 ∷ digits text))
        then err (checksum text)
        else ok found)

  unfoldable pub recipient_address : Text → Result RecipientError A
  recipient_address text =
      parse_address text >>= λ found. (if is_zero found then err (zero_address text) else ok found)

  -- `Recipient::from_str`, of a text that is trimmed
  unfoldable pub from_trimmed : Text → Result RecipientError (Recipient A)
  from_trimmed text =
      if is_some (from_text text)
      then (recipient_address text >>= λ found. ok (address found))
      else (if any_char (λ c. c == 46) text
          then (normalized_name text >>= λ lowered. ok (name lowered))
          else err (invalid text))

  unfoldable pub from_str : Text → Result RecipientError (Recipient A)
  from_str text = from_trimmed (trim text)

pub record ResolvedRecipient (A : Type 0) : Type 0 where
  pub from_name : Option Text
  pub to : A

pub data EnsError : Type 0 where
  resolver_not_found : EnsError
  other_ens : EnsError

-- What the network answers: whether it has a provider; the code at the Universal Resolver, if it can be read; and, for a
-- name, whether its lookup asked an off-chain gateway, and what it gave.
pub record Endpoint (A : Type 0) : Type 0 where
  pub has_provider : Bool
  pub resolver_code : Option Text
  pub asked_gateway : Text → Bool
  pub resolves : Text → Result EnsError A

module _ {A : Type 0} (is_zero : A → Bool) (endpoint : Endpoint A) where
  unfoldable pub looked_up : Text → Bool → Result EnsError A → Result RecipientError A
  looked_up n asked (ok found) = ok found
  looked_up n true (err source) = err (offchain n)
  looked_up n false (err resolver_not_found) = err (no_record n)
  looked_up n false (err other_ens) = err (ens_failed n)

  unfoldable pub resolve_name : Text → Result RecipientError (ResolvedRecipient A)
  resolve_name n = looked_up n (endpoint.asked_gateway n) (endpoint.resolves n) >>= λ found.
      (if is_zero found then err (no_record n) else ok (record { from_name = some n; to = found }))

  -- `Recipient::resolve`
  unfoldable pub resolve : Recipient A → Result RecipientError (ResolvedRecipient A)
  resolve (address a) = ok (record { from_name = none; to = a })
  resolve (name n) =
      if not endpoint.has_provider
      then err no_provider
      else (ok_or network_failed endpoint.resolver_code >>= λ code.
          (if is_empty code then err no_ens else resolve_name n))
