-- ===== src/Profiles/Rooted.antt =====
-- crates/core/src/profile/index.rs: the calls that write the index keep the mnemonics of its profiles
-- below a bound, beside keeping the profiles apart.
use Prim.Native.String.{String}
use desktop_wallet.Common.{
  ℕ, ◌<◌, ◌≡◌, refl, sym, subst, Option, none, some, List, [], ◌∷◌, unwrap_or, All, All-append,
}
use desktop_wallet.Exec.Runs.{
  Runs, Runs-gets, Runs-return, Runs-fail, Runs-lift, Runs-bind, Runs-modify, Runs-given, Runs-if,
  Runs-and,
}
use desktop_wallet.Profiles.{
  ProfileRecord, Profiles, new_record, check_unique_name, check_index, list_profiles, put_profiles,
  put_pointer, write_record, create_at, create, replace_first, finish_rename, set_name,
  find_profile, unused_index, rename, check_can_create,
}
use desktop_wallet.Profiles.Unique.{
  Unique, new_record-key, Replaced, here, there, replace_first-Replaced, Replaced-All,
}
use desktop_wallet.Profiles.Edits.{Edit, created, renamed, name_set, edit, access-Runs, edit-Kept}

-- a profile on one of the first `n` mnemonics
abbrev pub On : ℕ → ProfileRecord → Type 0
On n p = p.mnemonic_index < n

abbrev pub Bounded : ℕ → Profiles → Type 0
Bounded n w = All (On n) (unwrap_or w.index [])

Replaced-On :
    (n : ℕ) {r : ProfileRecord} {ps qs : List ProfileRecord}
    → Replaced r ps qs
    → All (On n) ps
    → On n r
Replaced-On n (here same) h = subst (λ k. k.0 < n) same h.0
Replaced-On n (there other s) h = Replaced-On n s h.1

module _ (n : ℕ) where
  list_profiles-Bounded :
      Runs (Bounded n) list_profiles (λ ps w. All (On n) ps × Bounded n w) (Bounded n)
  unfolding list_profiles
  list_profiles-Bounded =
      Runs-bind _ _ (access-Runs (λ w rest h. h)) (λ _. Runs-gets _ (λ w h. (h, h)))

  put_profiles-Bounded :
      (ps : List ProfileRecord)
      → All (On n) ps
      → Runs (Bounded n) (put_profiles ps) (λ _. Bounded n) (Bounded n)
  unfolding put_profiles
  put_profiles-Bounded ps h =
      Runs-bind _ _ (access-Runs (λ w rest h. h)) (λ _. Runs-modify _ (λ w g. h))

  write_record-Bounded :
      (r : ProfileRecord) (ps : List ProfileRecord)
      → On n r
      → All (On n) ps
      → Runs (Bounded n) (write_record r ps) (λ _. Bounded n) (Bounded n)
  unfolding write_record put_pointer
  write_record-Bounded r ps new h =
      Runs-bind _ _ (Runs-bind _ _ (access-Runs (λ w rest h. h)) (λ _. Runs-modify _ (λ w h. h)))
        (λ _.
          Runs-bind _ _ (put_profiles-Bounded _ (All-append (On n) ps (r ∷ []) h (new, tt)))
            (λ _. Runs-return r (λ w h. h)))

  create-Bounded :
      (m : ℕ) (p : Option ℕ) (name : Option String)
      → m < n
      → Runs (Bounded n) (create m p name) (λ _. Bounded n) (Bounded n)
  unfolding create create_at
  create-Bounded m p name lt = Runs-bind _ _ list_profiles-Bounded (λ ps. Runs-given (λ h.
      let r = new_record m (unwrap_or p (unused_index m ps)) name in
      let new : On n r = subst (λ k. k.0 < n) (sym (new_record-key m _ name)) lt in
      Runs-if _ _ _ (Runs-fail _ (λ w h. h)) (
        Runs-bind _ _ (Runs-lift (check_index r) (λ w h. h) (λ _ _ w h. h)) (λ _.
          Runs-bind _ _ (Runs-lift (check_unique_name r ps) (λ w h. h) (λ _ _ w h. h))
            (λ _. write_record-Bounded r ps new h)))))

  finish_rename-Bounded :
      (r : ProfileRecord) (ps : List ProfileRecord) (o : Option (List ProfileRecord))
      → replace_first r ps ≡ o
      → All (On n) ps
      → Runs (Bounded n) (finish_rename r o) (λ _. Bounded n) (Bounded n)
  unfolding finish_rename
  finish_rename-Bounded r ps none e h = Runs-fail _ (λ w h. h)
  finish_rename-Bounded r ps (some qs) e h =
      let step = replace_first-Replaced r ps qs e in
      Runs-bind _ _ (Runs-lift (check_unique_name r qs) (λ w h. h) (λ _ _ w h. h)) (λ _.
        Runs-bind _ _ (put_profiles-Bounded qs (Replaced-All (On n) step (Replaced-On n step h) h))
          (λ _. Runs-return r (λ w h. h)))

  set_name-Bounded :
      (m p : ℕ) (name : Option String)
      → Runs (Bounded n) (set_name m p name) (λ _. Bounded n) (Bounded n)
  unfolding set_name
  set_name-Bounded m p name =
      Runs-bind _ _ list_profiles-Bounded
        (λ ps. Runs-given (λ h. finish_rename-Bounded (new_record m p name) ps _ refl h))

  rename-Bounded :
      (selector : String) (name : Option String)
      → Runs (Bounded n) (rename selector name) (λ _. Bounded n) (Bounded n)
  unfolding rename find_profile
  rename-Bounded selector name =
      Runs-bind _ _
        (Runs-bind _ _ list_profiles-Bounded
          (λ ps. Runs-given (λ d. Runs-lift _ (λ w h. h) (λ _ _ w h. h))))
        (λ r. set_name-Bounded r.mnemonic_index r.profile_index name)

  -- what a new profile's mnemonic must be
  abbrev pub Allowed : Edit → Type 0
  Allowed (created m p name) = m < n
  Allowed (renamed selector name) = Unit
  Allowed (name_set m p name) = Unit

  abbrev pub Sound : Profiles → Type 0
  Sound w = Unique w × Bounded n w

  edit-Bounded : (e : Edit) → Allowed e → Runs (Bounded n) (edit e) (λ _. Bounded n) (Bounded n)
  edit-Bounded (created m p name) lt = create-Bounded m p name lt
  edit-Bounded (renamed selector name) _ = rename-Bounded selector name
  edit-Bounded (name_set m p name) _ = set_name-Bounded m p name

  pub edit-Sound : (e : Edit) → Allowed e → Runs Sound (edit e) (λ _. Sound) Sound
  edit-Sound e allowed = Runs-and (edit-Kept e) (edit-Bounded e allowed)

pub check_can_create-Sound :
    (n : ℕ) (candidate : ProfileRecord)
    → Runs (Sound n) (check_can_create candidate) (λ _. Sound n) (Sound n)
unfolding check_can_create list_profiles
check_can_create-Sound n candidate =
    Runs-bind _ _ (Runs-lift (check_index candidate) (λ w h. h) (λ _ _ w h. h)) (λ _.
      Runs-bind _ _ (Runs-bind _ _ (access-Runs (λ w rest h. h)) (λ _. Runs-gets _ (λ w h. h)))
        (λ ps. Runs-lift (check_unique_name candidate ps) (λ w h. h) (λ _ _ w h. h)))
