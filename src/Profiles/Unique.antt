-- ===== src/Profiles/Unique.antt =====
-- crates/core/src/profile/index.rs: no two profiles have a key or a display name in common.
use text.Mathlib.Text.{◌==◌ as str_eq}
use text.Mathlib.TextEquality.{eq_iff}
use mathlib.Core.Option.{some-injective}
use Prim.Native.String.{String}
use desktop_wallet.Common.{
  ℕ, ◌≡◌, ◌≢◌, ◌∙◌, refl, sym, subst, Bool, true, false, not, ◌&&◌, ◌||◌, Option, none, some, List,
  [], ◌∷◌, ◌++◌, ◌==◌, if◌then◌else◌, unwrap_or, any, All, All-map, All-append, All-zip, Bool-cases,
  Option-cases, inl, inr, ==_iff,
}
use desktop_wallet.Common.Outcome.{ok, err}
use desktop_wallet.Profiles.{
  ProfileRecord, ProfileError, Profiles, key, key_eq, display_name, new_record, check_unique_name,
  replace_first,
}

-- two profiles with neither their keys nor their display names in common
abbrev pub Apart : ProfileRecord → ProfileRecord → Type 0
Apart a b = (key a ≢ key b) × (display_name a ≢ display_name b)

abbrev pub Distinct : List ProfileRecord → Type 0
Distinct [] = Unit
Distinct (p ∷ ps) = All (Apart p) ps × Distinct ps

-- the indexed profiles are pairwise apart
abbrev pub Unique : Profiles → Type 0
Unique w = Distinct (unwrap_or w.index [])

pub Distinct-snoc :
    (ps : List ProfileRecord) (r : ProfileRecord)
    → All (λ p. Apart p r) ps
    → Distinct ps
    → Distinct (ps ++ r ∷ [])
Distinct-snoc [] r h d = (tt, tt)
Distinct-snoc (p ∷ ps) r h d =
    (All-append (Apart p) ps (r ∷ []) d.0 (h.0, tt), Distinct-snoc ps r h.1 d.1)

and-true : (a b : Bool) → (a && b) ≡ true → (a ≡ true) × (b ≡ true)
and-true true b e = (refl, e)
and-true false b e = absurd cc

pub key_eq-true : (a b : ℕ × ℕ) → key_eq a b ≡ true → a ≡ b
key_eq-true a b e =
    let parts = and-true (a.0 == b.0) (a.1 == b.1) e in
    let p : a.0 ≡ b.0 = (==_iff a.0 b.0).0 parts.0 in
    let q : a.1 ≡ b.1 = (==_iff a.1 b.1).0 parts.1 in λ i. (p i, q i)

key_eq_refl : (a : ℕ × ℕ) → key_eq a a ≡ true
key_eq_refl a = rw ((==_iff a.0 a.0).1 refl, (==_iff a.1 a.1).1 refl) refl

pub key_eq-false : (a b : ℕ × ℕ) → key_eq a b ≡ false → a ≢ b
key_eq-false a b e same =
    let bad : key_eq a a ≡ false = subst (λ c. key_eq a c ≡ false) (sym same) e in
    let good = key_eq_refl a in cc

key_eq-differs : (a b : ℕ × ℕ) → a ≢ b → key_eq a b ≡ false
key_eq-differs a b n = elim (Bool-cases (key_eq a b)) [
  | inl e ↦ absurd (n (key_eq-true a b e))
  | inr e ↦ e
]

pub any-false :
    {A : Type 0} (p : A → Bool) (xs : List A) → any p xs ≡ false → All (λ x. p x ≡ false) xs
any-false p [] e = tt
any-false p (x ∷ xs) e = elim (Bool-cases (p x)) [
  | inl f ↦
      absurd (let g : (true || any p xs) ≡ false = subst (λ b. (b || any p xs) ≡ false) f e in cc)
  | inr f ↦ (f, any-false p xs (subst (λ b. (b || any p xs) ≡ false) f e))
]

abbrev pub Named : ProfileRecord → ProfileRecord → Type 0
Named r p = key p ≢ key r → display_name p ≢ display_name r

clash : (a b : Bool) → (not a && b) ≡ false → a ≡ false → b ≢ true
clash true b e f g = absurd cc
clash false b e f g = absurd (let h : true ≡ false = sym g ∙ e in cc)

named :
    (r p : ProfileRecord)
    → (not (key_eq (key p) (key r)) && str_eq (display_name p) (display_name r)) ≡ false
    → Named r p
named r p e n same =
    clash _ _ e (key_eq-differs (key p) (key r) n)
      ((eq_iff (display_name p) (display_name r)).1 same)

-- a record that passes the check shares its display name with no record of another key
pub check_unique_name-ok :
    (r : ProfileRecord) (ps : List ProfileRecord)
    → check_unique_name r ps ≡ ok tt
    → All (Named r) ps
unfolding check_unique_name
check_unique_name-ok r ps e =
    let taken : ProfileRecord → Bool =
      λ p. not (key_eq (key p) (key r)) && str_eq (display_name p) (display_name r) in
    elim (Bool-cases (any taken ps)) [
      | inl f ↦ absurd (
          let g : (if true then err (ProfileError.duplicate_name (display_name r)) else ok tt)
              ≡ ok tt =
            subst
              (λ b.
                (if b then err (ProfileError.duplicate_name (display_name r)) else ok tt) ≡ ok tt)
              f e in
          cc)
      | inr f ↦ All-map (λ p h. named r p h) ps (any-false taken ps f)
    ]

-- what `new_record` keeps
pub new_record-key : (m p : ℕ) (name : Option String) → key (new_record m p name) ≡ (m, p)
unfolding new_record
new_record-key m p none = refl
new_record-key m p (some name) = refl

-- `r` in the place of the first record of its key
pub data Replaced (r : ProfileRecord) : List ProfileRecord → List ProfileRecord → Type 0 where
  here :
      {p : ProfileRecord} {ps : List ProfileRecord} → key p ≡ key r → Replaced r (p ∷ ps) (r ∷ ps)
  there :
      {p : ProfileRecord} {ps qs : List ProfileRecord}
      → key p ≢ key r
      → Replaced r ps qs
      → Replaced r (p ∷ ps) (p ∷ qs)

pub replace_first-Replaced :
    (r : ProfileRecord) (ps qs : List ProfileRecord)
    → replace_first r ps ≡ some qs
    → Replaced r ps qs
unfolding replace_first
replace_first-Replaced r [] qs e = absurd cc
replace_first-Replaced r (p ∷ ps) qs e = elim (Bool-cases (key_eq (key p) (key r))) [
  | inl f ↦
      let same : r ∷ ps ≡ qs = some-injective _ _ (rw f at e) in
      subst (Replaced r (p ∷ ps)) same (here (key_eq-true (key p) (key r) f))
  | inr f ↦ elim (Option-cases (replace_first r ps)) [
    | inl g ↦ absurd (let h = rw (f, g) at e in cc)
    | inr g ↦
        let same : p ∷ g.0 ≡ qs = some-injective _ _ (rw (f, g.1) at e) in
        subst (Replaced r (p ∷ ps)) same
          (there (key_eq-false (key p) (key r) f) (replace_first-Replaced r ps g.0 g.1))
  ]
]

pub Replaced-All :
    (P : ProfileRecord → Type 0) {r : ProfileRecord} {ps qs : List ProfileRecord}
    → Replaced r ps qs
    → P r
    → All P ps
    → All P qs
Replaced-All P (here same) new h = (new, h.1)
Replaced-All P (there other s) new h = (h.0, Replaced-All P s new h.1)

-- the new record is apart from the others, if none of them has its display name
pub Replaced-Distinct :
    {r : ProfileRecord} {ps qs : List ProfileRecord}
    → Replaced r ps qs
    → Distinct ps
    → All (Named r) qs
    → Distinct qs
Replaced-Distinct {r = r} (here {p = p} {ps = ps} same) d h = (
  All-map
      (λ q t.
        let n : key q ≢ key r = λ e. t.0.0 (same ∙ sym e) in
        ((λ e. n (sym e)), (λ e. t.1 n (sym e))))
      ps (All-zip _ _ ps d.0 h.1),
  d.1,
)
Replaced-Distinct (there {p = p} other s) d h =
    (Replaced-All (Apart p) s (other, h.0 other) d.0, Replaced-Distinct s d.1 h.1)
