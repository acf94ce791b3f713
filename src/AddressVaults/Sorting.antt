-- ===== src/AddressVaults/Sorting.antt =====
-- crates/core/src/instance/vaults.rs: the sort and the removal of duplicates of stored accounts.
use desktop_wallet.Common.{
  ℕ, ◌≤◌, ◌<◌, ◌≡◌, ◌∙◌, refl, ap, Bool, true, false, ◌||◌, List, [], ◌∷◌, ◌==◌, ==_iff, leb, map,
  All, Bool-cases, inl, inr, arith,
}
use desktop_wallet.Assets.{contains}
use desktop_wallet.AddressVaults.{
  DerivedAddress, insert_index, sort_by_index, dedup_after, dedup_by_index,
}

abbrev pub keys : List DerivedAddress → List ℕ
keys ds = map (λ d. d.index) ds

-- each no less than those before
abbrev pub Weak : List ℕ → Type 0
Weak [] = Unit
Weak (x ∷ xs) = All (λ y. x ≤ y) xs × Weak xs

-- each greater than those before
abbrev pub Ascending : List ℕ → Type 0
Ascending [] = Unit
Ascending (x ∷ xs) = All (λ y. x < y) xs × Ascending xs

swapped : (a b c : Bool) → (a || (b || c)) ≡ (b || (a || c))
swapped true true c = refl
swapped true false c = refl
swapped false b c = refl

contains-insert_index :
    (x : DerivedAddress) (xs : List DerivedAddress) (i : ℕ)
    → contains (keys (insert_index x xs)) i ≡ (x.index == i || contains (keys xs) i)
unfolding contains insert_index
contains-insert_index x [] i = refl
contains-insert_index x (y ∷ ys) i = elim (Bool-cases (leb x.index y.index)) [
  | inl e ↦ rw e
  | inr e ↦ rw e (
      ap (λ t. y.index == i || t) (contains-insert_index x ys i)
      ∙ swapped (y.index == i) (x.index == i) (contains (keys ys) i))
]

pub contains-sort_by_index :
    (xs : List DerivedAddress) (i : ℕ) → contains (keys (sort_by_index xs)) i ≡ contains (keys xs) i
unfolding contains sort_by_index
contains-sort_by_index [] i = refl
contains-sort_by_index (x ∷ xs) i =
    contains-insert_index x (sort_by_index xs) i
    ∙ ap (λ t. x.index == i || t) (contains-sort_by_index xs i)

All-insert_index :
    (m : ℕ) (x : DerivedAddress) (xs : List DerivedAddress)
    → m ≤ x.index
    → All (λ y. m ≤ y) (keys xs)
    → All (λ y. m ≤ y) (keys (insert_index x xs))
unfolding insert_index
All-insert_index m x [] h hs = (h, tt)
All-insert_index m x (y ∷ ys) h hs = elim (Bool-cases (leb x.index y.index)) [
  | inl e ↦ rw e (h, hs)
  | inr e ↦ rw e (hs.0, All-insert_index m x ys h hs.1)
]

raise : (m n : ℕ) (xs : List ℕ) → m ≤ n → All (λ y. n ≤ y) xs → All (λ y. m ≤ y) xs
raise m n [] h hs = tt
raise m n (x ∷ xs) h hs = (let e = hs.0 in omega arith, raise m n xs h hs.1)

insert_index-Weak :
    (x : DerivedAddress) (xs : List DerivedAddress)
    → Weak (keys xs)
    → Weak (keys (insert_index x xs))
unfolding insert_index
insert_index-Weak x [] h = (tt, tt)
insert_index-Weak x (y ∷ ys) h = elim (Bool-cases (leb x.index y.index)) [
  | inl e ↦
      let le : x.index ≤ y.index = ground arith in
      rw e ((le, raise x.index y.index (keys ys) le h.0), h)
  | inr e ↦
      let le : y.index ≤ x.index = ground arith in
      rw e (All-insert_index y.index x ys le h.0, insert_index-Weak x ys h.1)
]

pub sort_by_index-Weak : (xs : List DerivedAddress) → Weak (keys (sort_by_index xs))
unfolding sort_by_index
sort_by_index-Weak [] = tt
sort_by_index-Weak (x ∷ xs) = insert_index-Weak x (sort_by_index xs) (sort_by_index-Weak xs)

above : (m n : ℕ) (xs : List ℕ) → m < n → All (λ y. n < y) xs → All (λ y. m < y) xs
above m n [] h hs = tt
above m n (x ∷ xs) h hs = (let e = hs.0 in omega arith, above m n xs h hs.1)

dedup_after-Ascending :
    (last : ℕ) (xs : List DerivedAddress)
    → All (λ y. last ≤ y) (keys xs)
    → Weak (keys xs)
    → All (λ y. last < y) (keys (dedup_after last xs)) × Ascending (keys (dedup_after last xs))
unfolding dedup_after
dedup_after-Ascending last [] h w = (tt, tt)
dedup_after-Ascending last (x ∷ xs) h w = elim (Bool-cases (x.index == last)) [
  | inl e ↦ rw e (dedup_after-Ascending last xs h.1 w.1)
  | inr e ↦
      let le = h.0 in
      let lt : last < x.index = ground arith in
      let rest = dedup_after-Ascending x.index xs w.0 w.1 in
      rw e ((lt, above last x.index (keys (dedup_after x.index xs)) lt rest.0), rest)
]

repeated : (same here later : Bool) → (here ≡ same) → (same || later) ≡ (same || (here || later))
repeated true here later e = refl
repeated false true later e = absurd (cc)
repeated false false later e = refl

contains-dedup_after :
    (last : ℕ) (xs : List DerivedAddress) (i : ℕ)
    → (last == i || contains (keys (dedup_after last xs)) i) ≡ (last == i || contains (keys xs) i)
unfolding contains dedup_after
contains-dedup_after last [] i = refl
contains-dedup_after last (x ∷ xs) i = elim (Bool-cases (x.index == last)) [
  | inl e ↦ rw e (
      contains-dedup_after last xs i
      ∙ repeated (last == i) (x.index == i) (contains (keys xs) i)
          (ap (λ k. k == i) ((==_iff x.index last).0 e)))
  | inr e ↦ rw e (ap (λ t. last == i || t) (contains-dedup_after x.index xs i))
]

-- sorted and without duplicates: in order, of the same indices
pub dedup_by_index-Ascending :
    (xs : List DerivedAddress) → Weak (keys xs) → Ascending (keys (dedup_by_index xs))
unfolding dedup_by_index
dedup_by_index-Ascending [] w = tt
dedup_by_index-Ascending (x ∷ xs) w = dedup_after-Ascending x.index xs w.0 w.1

pub contains-dedup_by_index :
    (xs : List DerivedAddress) (i : ℕ)
    → contains (keys (dedup_by_index xs)) i ≡ contains (keys xs) i
unfolding contains dedup_by_index
contains-dedup_by_index [] i = refl
contains-dedup_by_index (x ∷ xs) i = contains-dedup_after x.index xs i
