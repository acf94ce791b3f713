-- ===== src/AddressVaults.antt =====
-- crates/core/src/instance/vaults.rs, with the records of crates/core/src/vault/db.rs and
-- crates/core/src/vault/address/db.rs: the vaults that a profile lists, and those of its standard
-- addresses. Any access of the database may fail, as `faults` says.
pub mod Indices
pub mod Adding
pub mod Sorting
pub mod Listing
pub mod Missing
use Prim.Native.String.{String}
use text.Mathlib.Text.{◌==◌ as str_eq}
use desktop_wallet.Common.{
  ℕ, suc, ◌+◌, Bool, true, false, not, Option, none, some, List, [], ◌∷◌, ◌++◌, ◌==◌, leb,
  if◌then◌else◌, keep, unwrap_or, map,
}
use desktop_wallet.Common.Outcome.{Result, ok, err, ok_or}
use desktop_wallet.Exec.{Exec, return, lift, gets, modify, each, gather, ◌>>=◌, ◌>>◌}
use desktop_wallet.Assets.{contains}
use desktop_wallet.Fresh.{EoaScan}

-- an identifier stands for a UUID, and so for the scope of the vault's own records
pub record VaultRecord : Type 0 where
  pub tag : String
  pub id : ℕ

pub record DerivedAddress : Type 0 where
  pub address : ℕ
  pub index : ℕ

pub data VaultsError : Type 0 where
  database missing_address : VaultsError
  -- an error of the derivation of an address
  derivation : VaultsError

-- the record of the profile's vaults, and of each vault's address; how many identifiers were drawn
pub record ProfileStore : Type 0 where
  pub vaults_record : Option (List VaultRecord)
  pub derived_record : ℕ → Option DerivedAddress
  pub drawn : ℕ
  pub faults : List Bool

abbrev pub Op : Type 0 → Type 0
Op A = Exec ProfileStore VaultsError A

abbrev pub address_vault_tag : String
address_vault_tag = "address"

unfoldable pub attempt_with : ProfileStore → List Bool → Result VaultsError Unit × ProfileStore
attempt_with w [] = (ok tt, record w { faults = [] })
attempt_with w (true ∷ rest) = (err database, record w { faults = rest })
attempt_with w (false ∷ rest) = (ok tt, record w { faults = rest })

-- an access of the database, which fails if the next fault says so
unfoldable pub attempt : Op Unit
attempt w = attempt_with w w.faults

unfoldable pub vault_records : Op (List VaultRecord)
vault_records = attempt >> gets (λ w. unwrap_or w.vaults_record [])

unfoldable pub put_vault_records : List VaultRecord → Op Unit
put_vault_records records = attempt >> modify (λ w. record w { vaults_record = some records })

unfoldable pub get_derived_address : ℕ → Op DerivedAddress
get_derived_address vault = do
  attempt
  derived ← gets (λ w. w.derived_record vault)
  lift (ok_or missing_address derived)

abbrev pub update : ℕ → DerivedAddress → (ℕ → Option DerivedAddress) → ℕ → Option DerivedAddress
update vault derived records k = if k == vault then some derived else records k

unfoldable pub put_derived_address : ℕ → DerivedAddress → Op Unit
put_derived_address vault derived =
    attempt >> modify (λ w. record w { derived_record = update vault derived w.derived_record })

unfoldable pub is_address_vault : VaultRecord → Bool
is_address_vault listed = str_eq listed.tag address_vault_tag

-- the address of a listed vault, if it is an address vault
unfoldable pub listed_address : VaultRecord → Op (List DerivedAddress)
listed_address listed =
    if is_address_vault listed
    then (get_derived_address listed.id >>= λ derived. return (derived ∷ []))
    else return []

-- `sort_by_key(|address| address.index)`
unfoldable pub insert_index : DerivedAddress → List DerivedAddress → List DerivedAddress
insert_index x [] = x ∷ []
insert_index x (y ∷ ys) = if leb x.index y.index then x ∷ y ∷ ys else y ∷ insert_index x ys

unfoldable pub sort_by_index : List DerivedAddress → List DerivedAddress
sort_by_index [] = []
sort_by_index (x ∷ xs) = insert_index x (sort_by_index xs)

-- `dedup_by_key(|address| address.index)`, behind an address that is kept
unfoldable pub dedup_after : ℕ → List DerivedAddress → List DerivedAddress
dedup_after last [] = []
dedup_after last (x ∷ xs) =
    let same = dedup_after last xs in
    let other = x ∷ dedup_after x.index xs in if x.index == last then same else other

unfoldable pub dedup_by_index : List DerivedAddress → List DerivedAddress
dedup_by_index [] = []
dedup_by_index (x ∷ xs) = x ∷ dedup_after x.index xs

unfoldable pub stored_address_accounts : Op (List DerivedAddress)
stored_address_accounts = do
  records ← vault_records
  addresses ← gather listed_address records
  return (dedup_by_index (sort_by_index addresses))

unfoldable pub add_vault : VaultRecord → Op Unit
add_vault added = do records ← vault_records; put_vault_records (records ++ added ∷ [])

unfoldable pub not_yet_stored : List (ℕ × ℕ) → Op (List (ℕ × ℕ))
not_yet_stored addresses = do
  records ← vault_records
  stored ← gather listed_address records
  return (keep (λ a. not (contains (map (λ d. d.index) stored) a.0)) addresses)

-- `build_vaults`, with the factories as a parameter
unfoldable pub build_vaults : {V : Type 0} → (String → ℕ → V) → List VaultRecord → List V
build_vaults build records = map (λ r. build r.tag r.id) records

-- The identifiers that are drawn, one after the other; and the derivation of the
-- profile's standard address 0.
module _ (uuid : ℕ → ℕ) where
  unfoldable pub new_vault : String → Op VaultRecord
  new_vault tag = do
    n ← gets (λ w. w.drawn)
    modify (λ w. record w { drawn = suc w.drawn })
    return (record { tag = tag; id = uuid n })

  unfoldable pub add_one : ℕ × ℕ → Op Unit
  add_one (index, address) = do
    added ← new_vault address_vault_tag
    put_derived_address added.id (record { address = address; index = index })
    add_vault added

  unfoldable pub add_address_vaults : List (ℕ × ℕ) → Op Unit
  add_address_vaults addresses = each add_one addresses

  unfoldable pub add_address_vault : ℕ → ℕ → Op Unit
  add_address_vault index address = do
    missing ← not_yet_stored ((index, address) ∷ [])
    add_address_vaults missing

  module _ (first_address : Result VaultsError ℕ) where
    -- `scan` is none, or found no address, or some
    unfoldable pub addresses_to_add : Option (EoaScan ℕ) → Op (List (ℕ × ℕ))
    addresses_to_add none = lift first_address >>= λ a. return ((0, a) ∷ [])
    addresses_to_add (some scan) = elim scan.addresses [
      | [] ↦ lift first_address >>= λ a. return ((0, a) ∷ [])
      | a ∷ rest ↦ return (a ∷ rest)
    ]

    unfoldable pub add_scanned_address_vaults : Option (EoaScan ℕ) → Op Unit
    add_scanned_address_vaults scan = do
      addresses ← addresses_to_add scan
      add_address_vaults addresses

    unfoldable pub add_missing_address_vaults : EoaScan ℕ → Op (List (ℕ × ℕ))
    add_missing_address_vaults scan = do
      addresses ← addresses_to_add (some scan)
      missing ← not_yet_stored addresses
      add_address_vaults missing
      return missing
