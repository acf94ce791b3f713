-- ===== src/Bundlers.antt =====
-- crates/core/src/bundler.rs: a list of bundlers, tried in their order, of which the one that has
-- accepted a user operation is asked for its receipt. What each bundler answers is a parameter.
-- Of the errors, those of a bundler have their text; the messages of the list's own are left out.
pub mod Sends
use Prim.Native.String.{String}
use desktop_wallet.Common.{
  ℕ, suc, ◌+◌, Bool, true, false, Option, none, some, List, [], ◌∷◌, get_elem?, if◌then◌else◌, map,
  ◌==◌, ◌&&◌, ◌||◌,
}
use desktop_wallet.Common.Outcome.{Result, ok, err, ok_or}
use desktop_wallet.Exec.{Exec, return, fail, lift, ◌>>=◌, ◌>>◌}
use desktop_wallet.Recipients.{Text, to_ascii_lowercase}
use desktop_wallet.UserOps.{Gas, SignableUserOperation}

pub data BundlerError : Type 0 where
  -- an error of a bundler, and what it is printed as
  answered : Text → BundlerError
  poisoned : BundlerError
  no_bundler : BundlerError
  every_bundler_failed : BundlerError
  not_in_list : BundlerError
  not_accepted : BundlerError

-- A bundler as the kit gives it: operations that are signed are `O`, receipts `R`; hashes are
-- numbers.
pub record Bundler (O R : Type 0) : Type 0 where
  pub url : String
  pub estimates : SignableUserOperation → Result BundlerError Gas
  pub sends : O → Result BundlerError ℕ
  pub receipts : ℕ → Result BundlerError (Option R)
  pub waits : ℕ → Result BundlerError R

-- the bundler that has accepted, behind a lock
pub record Accepted : Type 0 where
  pub index : Option ℕ
  pub lock_poisoned : Bool

abbrev pub Op : Type 0 → Type 0
Op A = Exec Accepted BundlerError A

unfoldable pub accepted_index : Op (Option ℕ)
accepted_index w = if w.lock_poisoned then (err poisoned, w) else (ok w.index, w)

-- `BundlerList::record`
unfoldable pub record_index : ℕ → Op Unit
record_index i w =
    if w.lock_poisoned then (err poisoned, w) else (ok tt, record w { index = some i })

-- `str::starts_with` and `str::contains`
unfoldable pub starts_with : Text → Text → Bool
starts_with text [] = true
starts_with [] (p ∷ ps) = false
starts_with (c ∷ cs) (p ∷ ps) = c == p && starts_with cs ps

unfoldable pub contains_text : Text → Text → Bool
contains_text [] words = starts_with [] words
contains_text (c ∷ cs) words = starts_with (c ∷ cs) words || contains_text cs words

-- the code points of "already known"
abbrev pub known_words : Text
known_words = 97 ∷ 108 ∷ 114 ∷ 101 ∷ 97 ∷ 100 ∷ 121 ∷ 32 ∷ 107 ∷ 110 ∷ 111 ∷ 119 ∷ 110 ∷ []

-- the list's own errors do not say it
unfoldable pub already_known : BundlerError → Bool
already_known (answered text) = contains_text (to_ascii_lowercase text) known_words
already_known _ = false

-- `failed`, by whether a bundler was there to fail
unfoldable pub failed : Bool → BundlerError
failed true = every_bundler_failed
failed false = no_bundler

-- what the loop of `send_user_operation` makes of an answer
unfoldable pub on_answer :
    {O : Type 0} (op_hash : O → ℕ) → ℕ → O → Result BundlerError ℕ → Op ℕ → Op ℕ
on_answer op_hash i op (ok hash) next = record_index i >> return hash
on_answer op_hash i op (err e) next =
    if already_known e then (record_index i >> return (op_hash op)) else next

module _ {O R : Type 0} where
  -- the loop of `estimate_gas`
  unfoldable pub estimate_first :
      SignableUserOperation → List (Bundler O R) → Bool → Result BundlerError Gas
  estimate_first op [] failures = err (failed failures)
  estimate_first op (b ∷ bs) failures = elim (b.estimates op) [
    | ok estimate ↦ ok estimate
    | err e ↦ estimate_first op bs true
  ]

  unfoldable pub estimate_gas : List (Bundler O R) → SignableUserOperation → Result BundlerError Gas
  estimate_gas endpoints op = estimate_first op endpoints false

  module _ (op_hash : O → ℕ) where
    -- the loop of `send_user_operation`, from the bundler of index `i` on
    unfoldable pub send_from : O → ℕ → List (Bundler O R) → Bool → Op ℕ
    send_from op i [] failures = fail (failed failures)
    send_from op i (b ∷ bs) failures =
        on_answer op_hash i op (b.sends op) (send_from op (suc i) bs true)

    unfoldable pub send_user_operation : List (Bundler O R) → O → Op ℕ
    send_user_operation endpoints op = send_from op 0 endpoints false

  unfoldable pub receipt_at : List (Bundler O R) → ℕ → Option ℕ → Result BundlerError (Option R)
  receipt_at endpoints hash none = ok none
  receipt_at endpoints hash (some i) = elim (get_elem? endpoints i) [
    | none ↦ err not_in_list
    | some b ↦ b.receipts hash
  ]

  unfoldable pub receipt : List (Bundler O R) → ℕ → Op (Option R)
  receipt endpoints hash = accepted_index >>= λ i. lift (receipt_at endpoints hash i)

  unfoldable pub wait_at : List (Bundler O R) → ℕ → Option ℕ → Result BundlerError R
  wait_at endpoints hash none = err not_accepted
  wait_at endpoints hash (some i) = elim (get_elem? endpoints i) [
    | none ↦ err not_in_list
    | some b ↦ b.waits hash
  ]

  unfoldable pub wait_for_receipt : List (Bundler O R) → ℕ → Op R
  wait_for_receipt endpoints hash = accepted_index >>= λ i. lift (wait_at endpoints hash i)
