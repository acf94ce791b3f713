-- ===== src/Keyring/Stored.antt =====
-- crates/core/src/keyring.rs: the stored phrases are numbered in order, differ, and stay.
use desktop_wallet.Common.{
  ℕ, suc, ◌+◌, ◌≤◌, ◌<◌, ◌≡◌, ◌≢◌, refl, sym, none, some, List, [], ◌∷◌, ◌++◌, ◌==◌, ==_iff, ltb,
  unwrap_or, find, length, length-append, All, All-map, All-append, arith, Bool-cases, inl, inr,
}
use desktop_wallet.Common.Outcome.{ok, ok_or}
use desktop_wallet.Common.U256.{u32_mod}
use desktop_wallet.Recipients.{Text}
use desktop_wallet.Database.{bytes_eq}
use desktop_wallet.Database.Scopes.{bytes_eq_iff}
use desktop_wallet.Profiles.{Profiles}
use desktop_wallet.Profiles.Rooted.{Sound}
use desktop_wallet.Keyring.{MnemonicRecord, KeyringError, unresolved, Wallet, count_of, has_phrase}

-- the records have the indices from `n` on, in order
abbrev pub Counted : ℕ → List MnemonicRecord → Type 0
Counted n [] = Unit
Counted n (r ∷ rs) = (r.index ≡ n) × Counted (suc n) rs

-- no two records have the same phrase
abbrev pub Different : List MnemonicRecord → Type 0
Different [] = Unit
Different (r ∷ rs) = All (λ q. q.phrase ≢ r.phrase) rs × Different rs

abbrev pub stored_mnemonics : Wallet → List MnemonicRecord
stored_mnemonics w = unwrap_or w.mnemonics_record []

-- the phrases are as said, the profiles are apart, and each is on a stored phrase
abbrev pub Rooted : List MnemonicRecord → Profiles → Type 0
Rooted rs p = Counted 0 rs × Different rs × Sound (length rs) p

Counted-snoc :
    (n : ℕ) (rs : List MnemonicRecord) (r : MnemonicRecord)
    → Counted n rs
    → r.index ≡ n + length rs
    → Counted n (rs ++ r ∷ [])
Counted-snoc n [] r h e = (omega arith, tt)
Counted-snoc n (q ∷ rs) r h e = (h.0, Counted-snoc (suc n) rs r h.1 (omega arith))

Different-snoc :
    (rs : List MnemonicRecord) (r : MnemonicRecord)
    → Different rs
    → All (λ q. q.phrase ≢ r.phrase) rs
    → Different (rs ++ r ∷ [])
Different-snoc [] r h new = (tt, tt)
Different-snoc (q ∷ rs) r h new =
    (All-append _ rs (r ∷ []) h.0 ((λ e. new.0 (sym e)), tt), Different-snoc rs r h.1 new.1)

-- one more phrase
pub Rooted-snoc :
    (rs : List MnemonicRecord) (r : MnemonicRecord) (p : Profiles)
    → Rooted rs p
    → r.index ≡ length rs
    → All (λ q. q.phrase ≢ r.phrase) rs
    → Rooted (rs ++ r ∷ []) p
Rooted-snoc rs r p h e new =
    let more : length (rs ++ r ∷ []) ≡ suc (length rs) = omega (arith, length-append rs (r ∷ [])) in
    let profiles = unwrap_or p.index [] in
    (
      Counted-snoc 0 rs r h.0 (omega arith),
      Different-snoc rs r h.1 new,
      (h.2.0, rw more (All-map (λ q lt. omega arith) profiles h.2.1)),
    )

pub count_of-ok :
    {E : Type 0} (rs : List MnemonicRecord) (n : ℕ) → count_of {E = E} rs ≡ ok n → n ≡ length rs
unfolding count_of
count_of-ok rs n e = elim (Bool-cases (ltb (length rs) u32_mod)) [
  | inl f ↦ let g = rw f at e in cc
  | inr f ↦ absurd (let g = rw f at e in cc)
]

-- where the records are numbered, the search for an index below their number finds it
pub find-Counted :
    (n : ℕ) (rs : List MnemonicRecord) (i : ℕ)
    → Counted n rs
    → n ≤ i
    → i < n + length rs
    → (r : MnemonicRecord) × (find (λ r. r.index == i) rs ≡ some r)
find-Counted n [] i h le lt = absurd (omega arith)
find-Counted n (r ∷ rs) i h le lt = elim (Bool-cases (r.index == i)) [
  | inl e ↦ (r, rw e refl)
  | inr e ↦
      let other : r.index ≢ i = ground arith in
      let rest = find-Counted (suc n) rs i h.1 (omega (arith, h.0)) (omega arith) in
      (rest.0, rw e rest.1)
]

-- where no record with the phrase is found, none has it
pub find-fresh :
    (phrase : Text) (rs : List MnemonicRecord)
    → find (has_phrase phrase) rs ≡ none
    → All (λ q. q.phrase ≢ phrase) rs
find-fresh phrase [] e = tt
find-fresh phrase (r ∷ rs) e = elim (Bool-cases (bytes_eq r.phrase phrase)) [
  | inl f ↦ absurd (let g = rw f at e in cc)
  | inr f ↦
      let other : r.phrase ≢ phrase = λ same. let g = (bytes_eq_iff r.phrase phrase).1 same in cc in
      (other, find-fresh phrase rs (rw f at e))
]

-- and what is found has an index below their number
pub found-lt :
    {E : Type 0} (n : ℕ) (rs : List MnemonicRecord) (i : ℕ) (r : MnemonicRecord)
    → Counted n rs
    → ok_or {E = KeyringError E} (unresolved i) (find (λ r. r.index == i) rs) ≡ ok r
    → i < n + length rs
found-lt n [] i r h e = absurd (cc)
found-lt n (q ∷ rs) i r h e = elim (Bool-cases (q.index == i)) [
  | inl f ↦ let g = (==_iff q.index i).0 f in let k = h.0 in omega arith
  | inr f ↦ let below = found-lt (suc n) rs i r h.1 (rw f at e) in omega arith
]
