-- ===== src/Profiles.antt =====
-- crates/core/src/profile/index.rs and the records of crates/core/src/profile/db.rs: the index of
-- the instance's profiles. Any access of the database may fail, as `faults` says.
pub mod Holes
pub mod Unique
pub mod Edits
pub mod Rooted
use Prim.Native.String.{String, ◌++◌ as append_str}
use Prim.Native.Char.{code}
use text.Mathlib.Text.{◌==◌ as str_eq}
use desktop_wallet.Common.{
  leb, ◌*◌, ℕ, zero, suc, ◌+◌, ◌-◌, ◌/◌, ◌%◌, ◌^◌, Bool, true, false, not, ◌&&◌, ◌||◌, Option, none,
  some, List, [], ◌∷◌, ◌++◌, ltb, ◌==◌, if◌then◌else◌, unwrap_or, any, keep, find, map, min,
}
use desktop_wallet.Common.Outcome.{Result, ok, err}
use desktop_wallet.Common.U256.{u32_mod}
use desktop_wallet.Exec.{Exec, return, fail, lift, gets, modify, ◌>>=◌, ◌>>◌}

abbrev pub max_profile_index : ℕ
max_profile_index = 2 ^ 31 - 1

pub record ProfileRecord : Type 0 where
  pub mnemonic_index : ℕ
  pub profile_index : ℕ
  pub name : Option String

pub data ProfileError : Type 0 where
  ambiguous : String → ProfileError
  database : ProfileError
  duplicate : ℕ → ℕ → ProfileError
  duplicate_name : String → ProfileError
  index_out_of_range : ℕ → ProfileError
  unresolved : String → ProfileError

-- decimal digits of a 32-bit number, which has at most ten
digit : ℕ → String
digit n =
    if n == 0
    then "0"
    else if n == 1
    then "1"
    else if n == 2
    then "2"
    else if n == 3
    then "3"
    else if n == 4
    then "4"
    else if n == 5
    then "5"
    else if n == 6
    then "6"
    else if n == 7
    then "7"
    else if n == 8
    then "8"
    else "9"

decimal_digits : ℕ → ℕ → String
unfolding digit
decimal_digits zero n = digit n
decimal_digits (suc fuel) n =
    let front = decimal_digits fuel (n / 10) in
    if ltb n 10 then digit n else append_str front (digit (n % 10))

pub decimal : ℕ → String
unfolding decimal_digits
decimal n = decimal_digits 9 n

-- `ProfileRecord::new`
unfoldable pub new_record : ℕ → ℕ → Option String → ProfileRecord
new_record m p none = record { mnemonic_index = m; profile_index = p; name = none }
new_record m p (some name) = record {
  mnemonic_index = m;
  profile_index = p;
  name = if not (str_eq name "") && not (str_eq name "-") then some name else none;
}

abbrev pub key : ProfileRecord → ℕ × ℕ
key r = (r.mnemonic_index, r.profile_index)

abbrev pub key_eq : ℕ × ℕ → ℕ × ℕ → Bool
key_eq a b = a.0 == b.0 && a.1 == b.1

pub scope : ProfileRecord → String
unfolding decimal
scope r =
    append_str "profile:"
      (append_str (decimal r.mnemonic_index) (append_str ":" (decimal r.profile_index)))

numbered : ℕ → String
unfolding decimal
numbered i = if i == 0 then "default" else append_str "profile #" (decimal i)

pub display_name : ProfileRecord → String
unfolding numbered
display_name r = elim r.name [
  | none ↦ numbered r.profile_index
  | some name ↦ if not (str_eq name "") then name else numbered r.profile_index
]

-- `check_unique_name`
pub check_unique_name : ProfileRecord → List ProfileRecord → Result ProfileError Unit
unfolding display_name
check_unique_name r profiles =
    if any (λ p. not (key_eq (key p) (key r)) && str_eq (display_name p) (display_name r)) profiles
    then err (duplicate_name (display_name r))
    else ok tt

pub check_index : ProfileRecord → Result ProfileError Unit
check_index r =
    if ltb max_profile_index r.profile_index
    then err (index_out_of_range r.profile_index)
    else ok tt

-- `sort_unstable` on numbers
insert_asc : ℕ → List ℕ → List ℕ
insert_asc x [] = x ∷ []
insert_asc x (y ∷ ys) = if ltb y x then y ∷ insert_asc x ys else x ∷ y ∷ ys

sort_asc : List ℕ → List ℕ
unfolding insert_asc
sort_asc [] = []
sort_asc (x ∷ xs) = insert_asc x (sort_asc xs)

-- the loop over the used indices, in ascending order
first_hole : ℕ → List ℕ → ℕ
first_hole next [] = next
first_hole next (index ∷ rest) =
    if index == next
    then first_hole (min (next + 1) (u32_mod - 1)) rest
    else if ltb next index
    then next
    else first_hole next rest

-- the profile indices in use on a mnemonic
pub used_on : ℕ → List ProfileRecord → List ℕ
used_on m profiles = map (λ p. p.profile_index) (keep (λ p. p.mnemonic_index == m) profiles)

-- the default of `create`
pub unused_index : ℕ → List ProfileRecord → ℕ
unfolding sort_asc first_hole used_on
unused_index m profiles = first_hole 0 (sort_asc (used_on m profiles))

-- the database: the record of the index, and the pointer in the scope of each profile
pub record Profiles : Type 0 where
  pub index : Option (List ProfileRecord)
  pub pointer : String → Option (ℕ × ℕ)
  pub faults : List Bool

abbrev pub Op : Type 0 → Type 0
Op A = Exec Profiles ProfileError A

unfoldable pub access_with : Profiles → List Bool → Result ProfileError Unit × Profiles
access_with w [] = (ok tt, record w { faults = [] })
access_with w (true ∷ rest) = (err database, record w { faults = rest })
access_with w (false ∷ rest) = (ok tt, record w { faults = rest })

-- an access of the database, which fails if the next fault says so
unfoldable pub access : Op Unit
unfolding access_with
access w = access_with w w.faults

unfoldable pub list_profiles : Op (List ProfileRecord)
unfolding access
list_profiles = access >> gets (λ w. unwrap_or w.index [])

unfoldable pub put_profiles : List ProfileRecord → Op Unit
unfolding access
put_profiles profiles = access >> modify (λ w. record w { index = some profiles })

unfoldable pub put_pointer : String → ℕ × ℕ → Op Unit
unfolding access
put_pointer s k =
    access >> modify (λ w. record w { pointer = λ t. if str_eq t s then some k else w.pointer t })

-- what `create` writes once its checks have passed
unfoldable pub write_record : ProfileRecord → List ProfileRecord → Op ProfileRecord
unfolding put_pointer put_profiles scope
write_record r profiles = do
  put_pointer (scope r) (key r)
  put_profiles (profiles ++ r ∷ [])
  return r

-- `create` at an index
unfoldable pub create_at : ProfileRecord → ℕ × ℕ → List ProfileRecord → Op ProfileRecord
unfolding check_index check_unique_name write_record
create_at r k profiles =
    if any (λ profile. key_eq (key profile) k) profiles
    then fail (duplicate k.0 k.1)
    else (do lift (check_index r); lift (check_unique_name r profiles); write_record r profiles)

unfoldable pub create : ℕ → Option ℕ → Option String → Op ProfileRecord
unfolding list_profiles unused_index new_record create_at
create m p name = do
  profiles ← list_profiles
  let chosen = unwrap_or p (unused_index m profiles)
  create_at (new_record m chosen name) (m, chosen) profiles

unfoldable pub check_can_create : ProfileRecord → Op Unit
unfolding list_profiles check_index check_unique_name
check_can_create candidate = do
  lift (check_index candidate)
  profiles ← list_profiles
  lift (check_unique_name candidate profiles)

-- the first record with the key of `r` becomes `r`; `none` if there is none
pub replace_first : ProfileRecord → List ProfileRecord → Option (List ProfileRecord)
replace_first r [] = none
replace_first r (p ∷ rest) =
    if key_eq (key p) (key r)
    then some (r ∷ rest)
    else elim (replace_first r rest) [ none ↦ none | some others ↦ some (p ∷ others) ]

-- what `set_name` does with the records
finish_rename : ProfileRecord → Option (List ProfileRecord) → Op ProfileRecord
unfolding put_profiles check_unique_name decimal
finish_rename r none =
    fail (
      unresolved (append_str (decimal r.mnemonic_index) (append_str "/" (decimal r.profile_index))))
finish_rename r (some profiles) = do
  lift (check_unique_name r profiles)
  put_profiles profiles
  return r

pub set_name : ℕ → ℕ → Option String → Op ProfileRecord
unfolding list_profiles new_record replace_first finish_rename
set_name m p name = do
  profiles ← list_profiles
  let r = new_record m p name
  finish_rename r (replace_first r profiles)

-- `str::parse::<u32>`: an optional plus sign, then digits
parse_digits : String → ℕ → Option ℕ
parse_digits String.[] acc = some acc
parse_digits (String.◌∷◌ c s) acc =
    let next = acc * 10 + (code c - 48) in
    let rest = parse_digits s next in
    if leb 48 (code c) && leb (code c) 57 && ltb next u32_mod then rest else none

parse_u32 : String → Option ℕ
unfolding parse_digits
parse_u32 String.[] = none
parse_u32 (String.◌∷◌ c s) =
    if code c == 43
    then (if str_eq s "" then none else parse_digits s 0)
    else parse_digits (String.◌∷◌ c s) 0

-- `split_once('/')`
split_slash : String → Option (String × String)
split_slash String.[] = none
split_slash (String.◌∷◌ c s) =
    let rest = split_slash s in
    if code c == 47
    then some ("", s)
    else elim rest [ none ↦ none | some parts ↦ some (String.◌∷◌ c parts.0, parts.1) ]

pair_of : String × String → Option (ℕ × ℕ)
unfolding parse_u32
pair_of parts = elim (parse_u32 parts.0) [
  | none ↦ none
  | some m ↦ elim (parse_u32 parts.1) [ none ↦ none | some p ↦ some (m, p) ]
]

-- the pair that a selector names, if it has the form of one
pub selected_pair : String → Option (ℕ × ℕ)
unfolding split_slash pair_of
selected_pair selector = elim (split_slash selector) [ none ↦ none | some parts ↦ pair_of parts ]

pub has_name : String → ProfileRecord → Bool
has_name selector p = elim p.name [ none ↦ false | some name ↦ str_eq name selector ]

-- the match on the records of a name: the only one, none, or more
only :
    String
    → List ProfileRecord
    → Result ProfileError ProfileRecord
    → Result ProfileError ProfileRecord
only selector [] otherwise = otherwise
only selector (r ∷ []) otherwise = ok r
only selector (r ∷ q ∷ rest) otherwise = err (ambiguous selector)

pub find_named : String → List ProfileRecord → Result ProfileError ProfileRecord
unfolding has_name display_name only
find_named selector profiles = only selector (keep (has_name selector) profiles) (
    only selector (keep (λ p. str_eq (display_name p) selector) profiles)
      (err (unresolved selector)))

find_keyed : String → Option ProfileRecord → List ProfileRecord → Result ProfileError ProfileRecord
unfolding find_named
find_keyed selector (some r) profiles = ok r
find_keyed selector none profiles = find_named selector profiles

keyed_record : Option (ℕ × ℕ) → List ProfileRecord → Option ProfileRecord
keyed_record none profiles = none
keyed_record (some pair) profiles = find (λ profile. key_eq (key profile) pair) profiles

-- `ProfileIndex::find`
pub find_profile : String → Op ProfileRecord
unfolding list_profiles selected_pair keyed_record find_keyed
find_profile selector = do
  profiles ← list_profiles
  let keyed = keyed_record (selected_pair selector) profiles
  lift (find_keyed selector keyed profiles)

pub rename : String → Option String → Op ProfileRecord
unfolding find_profile set_name
rename selector name = do r ← find_profile selector; set_name r.mnemonic_index r.profile_index name
