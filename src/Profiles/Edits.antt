-- ===== src/Profiles/Edits.antt =====
-- crates/core/src/profile/index.rs: the calls that write the index keep its profiles apart, whatever
-- accesses fail.
use Prim.Native.String.{String}
use desktop_wallet.Common.{
  ℕ, ◌≡◌, ◌≢◌, refl, sym, subst, Bool, true, false, Option, none, some, List, [], ◌∷◌, ◌++◌,
  unwrap_or, any, All, All-map, All-zip, Bool-cases, inl, inr,
}
use desktop_wallet.Common.Outcome.{Result, ok, err}
use desktop_wallet.Exec.Runs.{
  Post, Runs, Runs-gets, Runs-return, Runs-fail, Runs-lift, Runs-bind, Runs-modify, Runs-given,
}
use desktop_wallet.Profiles.{
  ProfileRecord, ProfileError, Profiles, Op, key, key_eq, new_record, check_unique_name,
  check_index, access, access_with, list_profiles, put_profiles, put_pointer, write_record,
  create_at, create, replace_first, finish_rename, set_name, find_profile, unused_index, rename,
}
use desktop_wallet.Profiles.Unique.{
  Distinct, Unique, any-false, key_eq-false, check_unique_name-ok, new_record-key, Distinct-snoc,
  replace_first-Replaced, Replaced-Distinct,
}

module _ {S : Profiles → Type 0}
    (stored : (w : Profiles) (rest : List Bool) → S w → S (record w { faults = rest })) where
  access_with-Runs : (w : Profiles) (fs : List Bool) → S w → Post (λ _. S) S (access_with w fs)
  unfolding access_with
  access_with-Runs w [] h = stored w [] h
  access_with-Runs w (true ∷ rest) h = stored w rest h
  access_with-Runs w (false ∷ rest) h = stored w rest h

  pub access-Runs : Runs S access (λ _. S) S
  unfolding access
  access-Runs = record { at = λ w h. access_with-Runs w w.faults h }

abbrev pub Kept : {A : Type 0} → Op A → Type 0
Kept m = Runs Unique m (λ _. Unique) Unique

list_profiles-Runs : Runs Unique list_profiles (λ ps w. Distinct ps × Unique w) Unique
unfolding list_profiles
list_profiles-Runs = Runs-bind _ _ (access-Runs (λ w rest h. h)) (λ _. Runs-gets _ (λ w h. (h, h)))

put_profiles-Kept : (ps : List ProfileRecord) → Distinct ps → Kept (put_profiles ps)
unfolding put_profiles
put_profiles-Kept ps d = Runs-bind _ _ (access-Runs (λ w rest h. h)) (λ _. Runs-modify _ (λ w h. d))

write_record-Kept :
    (r : ProfileRecord) (ps : List ProfileRecord)
    → Distinct (ps ++ r ∷ [])
    → Kept (write_record r ps)
unfolding write_record put_pointer
write_record-Kept r ps d =
    Runs-bind _ _ (Runs-bind _ _ (access-Runs (λ w rest h. h)) (λ _. Runs-modify _ (λ w h. h)))
      (λ _. Runs-bind _ _ (put_profiles-Kept _ d) (λ _. Runs-return r (λ w h. h)))

create_at-Kept :
    (r : ProfileRecord) (k : ℕ × ℕ) (ps : List ProfileRecord)
    → key r ≡ k
    → Distinct ps
    → Kept (create_at r k ps)
unfolding create_at
create_at-Kept r k ps same d =
    let taken : ProfileRecord → Bool = λ p. key_eq (key p) k in
    elim (Bool-cases (any taken ps)) [
      | inl e ↦ rw e (Runs-fail _ (λ w h. h))
      | inr e ↦
          let other_keys : All (λ p. key p ≢ key r) ps =
            All-map (λ p h. subst (λ c. key p ≢ c) (sym same) (key_eq-false (key p) k h)) ps
              (any-false taken ps e) in
          rw e (
            Runs-bind _ _ (Runs-lift (check_index r) (λ w h. h) (λ _ _ w h. h)) (λ _.
              Runs-bind {Q = λ _ w. (check_unique_name r ps ≡ ok tt) × Unique w} _ _
                (Runs-lift (check_unique_name r ps) (λ w h. h) (λ u ok w h. (ok, h)))
                (λ u. Runs-given (λ passed. write_record-Kept r ps (
                  Distinct-snoc ps r
                    (All-map (λ p h. (h.0, h.1 h.0)) ps
                      (All-zip _ _ ps other_keys (check_unique_name-ok r ps passed)))
                    d)))))
    ]

finish_rename-Kept :
    (r : ProfileRecord) (ps : List ProfileRecord) (o : Option (List ProfileRecord))
    → replace_first r ps ≡ o
    → Distinct ps
    → Kept (finish_rename r o)
unfolding finish_rename
finish_rename-Kept r ps none e d = Runs-fail _ (λ w h. h)
finish_rename-Kept r ps (some qs) e d =
    Runs-bind {Q = λ _ w. (check_unique_name r qs ≡ ok tt) × Unique w} _ _
      (Runs-lift (check_unique_name r qs) (λ w h. h) (λ u ok w h. (ok, h)))
      (λ u. Runs-given (λ passed.
        Runs-bind _ _
          (put_profiles-Kept qs (
            Replaced-Distinct (replace_first-Replaced r ps qs e) d
              (check_unique_name-ok r qs passed)))
          (λ _. Runs-return r (λ w h. h))))

set_name-Kept : (m p : ℕ) (name : Option String) → Kept (set_name m p name)
unfolding set_name
set_name-Kept m p name =
    Runs-bind _ _ list_profiles-Runs
      (λ ps. Runs-given (λ d. finish_rename-Kept (new_record m p name) ps _ refl d))

create-Kept : (m : ℕ) (p : Option ℕ) (name : Option String) → Kept (create m p name)
unfolding create
create-Kept m p name = Runs-bind _ _ list_profiles-Runs (λ ps. Runs-given (λ d.
    create_at-Kept (new_record m (unwrap_or p (unused_index m ps)) name) _ ps
      (new_record-key m _ name) d))

find_profile-Kept : (selector : String) → Kept (find_profile selector)
unfolding find_profile
find_profile-Kept selector =
    Runs-bind _ _ list_profiles-Runs (λ ps. Runs-given (λ d. Runs-lift _ (λ w h. h) (λ _ _ w h. h)))

rename-Kept : (selector : String) (name : Option String) → Kept (rename selector name)
unfolding rename
rename-Kept selector name =
    Runs-bind _ _ (find_profile-Kept selector)
      (λ r. set_name-Kept r.mnemonic_index r.profile_index name)

-- the calls that write the index
pub data Edit : Type 0 where
  created : ℕ → Option ℕ → Option String → Edit
  renamed : String → Option String → Edit
  name_set : ℕ → ℕ → Option String → Edit

abbrev pub edit : Edit → Op ProfileRecord
edit (created m p name) = create m p name
edit (renamed selector name) = rename selector name
edit (name_set m p name) = set_name m p name

-- what the index is after some calls, whether they succeed or fail
abbrev pub edited : List Edit → Profiles → Profiles
edited [] w = w
edited (e ∷ es) w = edited es (edit e w).1

pub edit-Kept : (e : Edit) → Kept (edit e)
edit-Kept (created m p name) = create-Kept m p name
edit-Kept (renamed selector name) = rename-Kept selector name
edit-Kept (name_set m p name) = set_name-Kept m p name

after :
    (o : Result ProfileError ProfileRecord × Profiles) → Post (λ _. Unique) Unique o → Unique o.1
after (ok r, w) h = h
after (err e, w) h = h

-- If no two profiles share a key or a display name, then none do after any calls of `create`,
-- `rename` and `set_name`, in any order, whatever accesses of the database fail.
pub edited-Unique : (es : List Edit) (w : Profiles) → Unique w → Unique (edited es w)
edited-Unique [] w h = h
edited-Unique (e ∷ es) w h = edited-Unique es (edit e w).1 (after (edit e w) ((edit-Kept e).at w h))
