-- ===== src/Tests/Addressing.antt =====
-- The theorems on reading and resolving a recipient, at concrete inputs.
use desktop_wallet.Common.{
  ℕ, ◌≡◌, refl, Bool, true, false, length, ◌==◌, Option, none, some, [], ◌∷◌,
}
use desktop_wallet.Recipients.{
  Text, Endpoint, resolve, resolve_name, looked_up, name, from_str, from_trimmed, normalized_name,
  all_labels, label_ok,
}
use desktop_wallet.Common.Outcome.{ok}
use desktop_wallet.Recipients.Resolved.{Leads, resolve-from_str}
use desktop_wallet.Recipients.Names.{Reads, from_str-Reads}

-- an address of two digits
abbrev short_address : Text → Option ℕ
short_address (z ∷ x ∷ a ∷ b ∷ []) = some b
short_address _ = none

abbrev any_checksum : Text → Bool
any_checksum text = true

abbrev zero_digit : ℕ → Bool
zero_digit a = a == 48

-- " Abb.c " gives the name "abb.c"
from_str-Reads_example :
    Reads short_address any_checksum zero_digit
      (65 ∷ 98 ∷ 98 ∷ 46 ∷ 99 ∷ [])
      (name (97 ∷ 98 ∷ 98 ∷ 46 ∷ 99 ∷ []))
unfolding from_str from_trimmed normalized_name all_labels label_ok
from_str-Reads_example =
    from_str-Reads short_address any_checksum zero_digit (32 ∷ 65 ∷ 98 ∷ 98 ∷ 46 ∷ 99 ∷ 32 ∷ [])
      (name (97 ∷ 98 ∷ 98 ∷ 46 ∷ 99 ∷ [])) refl

-- a network where each name leads to its length
abbrev network_answers : Endpoint ℕ
network_answers = record {
  has_provider = true;
  resolver_code = some (96 ∷ []);
  asked_gateway = λ n. false;
  resolves = λ n. ok (length n);
}

resolve-from_str_example :
    (zero_digit 5 ≡ false)
    × Leads short_address any_checksum zero_digit network_answers
        (65 ∷ 98 ∷ 98 ∷ 46 ∷ 99 ∷ [])
        (record { from_name = some (97 ∷ 98 ∷ 98 ∷ 46 ∷ 99 ∷ []); to = 5 })
unfolding from_str from_trimmed normalized_name all_labels label_ok resolve resolve_name looked_up
resolve-from_str_example =
    resolve-from_str short_address any_checksum zero_digit network_answers
      (32 ∷ 65 ∷ 98 ∷ 98 ∷ 46 ∷ 99 ∷ 32 ∷ []) (name (97 ∷ 98 ∷ 98 ∷ 46 ∷ 99 ∷ []))
      (record { from_name = some (97 ∷ 98 ∷ 98 ∷ 46 ∷ 99 ∷ []); to = 5 }) refl refl
