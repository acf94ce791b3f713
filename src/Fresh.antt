-- ===== src/Fresh.antt =====
-- crates/core/src/mnemonic/scan.rs and crates/core/src/instance/address.rs: the scan of a profile's
-- standard addresses, and its next address that is unused. Derivation and activity are given.
pub mod Batches
pub mod Scans
use desktop_wallet.Common.{
  ℕ, zero, suc, ◌+◌, ◌-◌, ◌≡◌, Bool, true, false, Option, none, some, List, [], ◌∷◌, ◌++◌, ltb, leb,
  if◌then◌else◌, unwrap_or, min, take, is_some, ◌||◌,
}
use desktop_wallet.Common.Outcome.{Result, ok, err, ◌>>=◌}
use desktop_wallet.Common.U256.{u32_mod}

abbrev pub max_index : ℕ
max_index = 1000

abbrev pub batch_size : ℕ
batch_size = 10

-- `u32::saturating_add`
abbrev pub add_u32 : ℕ → ℕ → ℕ
add_u32 a b = min (a + b) (u32_mod - 1)

pub data MnemonicError (E : Type 0) : Type 0 where
  scan_limit : ℕ → MnemonicError E
  -- an error of derivation or of the endpoint
  failed : E → MnemonicError E

pub record EoaScan (Address : Type 0) : Type 0 where
  pub addresses : List (ℕ × Address)
  pub last_used : Option ℕ
  pub next_unused : ℕ

-- the variables of the loops of `scan_with`
pub record Progress (Address : Type 0) : Type 0 where
  pub scanned : List (ℕ × Address)
  pub last : Option ℕ
  pub batch_used : Bool

pub finish_scan : {Address : Type 0} → Progress Address → EoaScan Address
finish_scan s = elim s.last [
  | none ↦ record { addresses = []; last_used = none; next_unused = 0 }
  | some last ↦ record {
    addresses = take (last + 1) s.scanned;
    last_used = some last;
    next_unused = add_u32 last 1;
  }
]

module _ {Address E : Type 0} (standard_address : ℕ → Result (MnemonicError E) Address)
    (is_used : Address → Result (MnemonicError E) Bool) where
  -- one address of the inner loop
  pub inspect : ℕ → Progress Address → Result (MnemonicError E) (Progress Address)
  inspect index s = do
    address ← standard_address index
    used ← is_used address
    ok (record {
      scanned = s.scanned ++ (index, address) ∷ [];
      last = if used then some index else s.last;
      batch_used = used || s.batch_used;
    })

  -- the inner loop, with the addresses left and the next index
  pub scan_batch : ℕ → ℕ → Progress Address → Result (MnemonicError E) (Progress Address)
  unfolding inspect
  scan_batch zero index s = ok s
  scan_batch (suc left) index s = inspect index s >>= scan_batch left (suc index)

  -- the outer loop, on fuel
  pub scan_loop : ℕ → ℕ → Progress Address → Result (MnemonicError E) (EoaScan Address)
  unfolding scan_batch finish_scan
  scan_loop zero start s = err (scan_limit max_index)
  scan_loop (suc fuel) start s =
      if leb max_index start
      then err (scan_limit max_index)
      else (scan_batch batch_size start (record s { batch_used = false }) >>= λ t.
          let rest = scan_loop fuel (add_u32 start batch_size) t in
          if t.batch_used then rest else ok (finish_scan t))

  -- `scan_with`; at most 100 batches start below `max_index`, and the loop ends on the next
  pub scan_with : Result (MnemonicError E) (EoaScan Address)
  unfolding scan_loop
  scan_with = scan_loop 101 0 (record { scanned = []; last = none; batch_used = false })

  -- the loop of `fresh_address`, on fuel
  pub fresh_loop : ℕ → ℕ → Result (MnemonicError E) (ℕ × Address)
  fresh_loop zero index = err (scan_limit max_index)
  fresh_loop (suc fuel) index = if leb max_index index then err (scan_limit max_index) else (do
    address ← standard_address index
    used ← is_used address
    let rest = fresh_loop fuel (add_u32 index 1)
    if used then rest else ok (index, address))

  -- `fresh_address`, given the stored next address
  pub fresh_address : Result (MnemonicError E) ℕ → Result (MnemonicError E) (ℕ × Address)
  unfolding fresh_loop
  fresh_address next_address = next_address >>= fresh_loop (suc max_index)

-- `commit_fresh_address`, on the record of the next address: what is written, if anything
pub commit_fresh_address : Option ℕ → ℕ → Option ℕ
commit_fresh_address stored index =
    let current : ℕ = unwrap_or stored 0 in
    let next = add_u32 index 1 in if ltb current next then some next else stored
