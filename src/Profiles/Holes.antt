-- ===== src/Profiles/Holes.antt =====
-- crates/core/src/profile/index.rs: the index that `create` chooses.
use desktop_wallet.Common.{
  ℕ, suc, ◌+◌, ◌-◌, ◌≤◌, ◌<◌, ◌≡◌, ◌≢◌, ◌∙◌, refl, sym, ap, Bool, true, false, ◌||◌, List, [], ◌∷◌,
  ltb, ◌==◌, any, min, All, All-map, Bool-cases, arith, inl, inr, ltb→lt, ==_iff,
}
use desktop_wallet.Common.U256.{u32_mod}
use desktop_wallet.Profiles.{insert_asc, sort_asc, first_hole, used_on, unused_index, ProfileRecord}

-- whether an index is among some
abbrev pub has : ℕ → List ℕ → Bool
has j = any (λ u. u == j)

abbrev Above : ℕ → List ℕ → Type 0
Above n = All (λ u. n ≤ u)

-- in ascending order
abbrev IsAscending : List ℕ → Type 0
IsAscending [] = Unit
IsAscending (x ∷ xs) = Above x xs × IsAscending xs

insert_asc-Above : (n x : ℕ) (xs : List ℕ) → n ≤ x → Above n xs → Above n (insert_asc x xs)
unfolding insert_asc
insert_asc-Above n x [] le h = (le, tt)
insert_asc-Above n x (y ∷ ys) le h = elim (Bool-cases (ltb y x)) [
  | inl e ↦ rw e (h.0, insert_asc-Above n x ys le h.1)
  | inr e ↦ rw e (le, h)
]

insert_asc-IsAscending : (x : ℕ) (xs : List ℕ) → IsAscending xs → IsAscending (insert_asc x xs)
unfolding insert_asc
insert_asc-IsAscending x [] h = (tt, tt)
insert_asc-IsAscending x (y ∷ ys) h = elim (Bool-cases (ltb y x)) [
  | inl e ↦ rw e (
    insert_asc-Above y x ys (let l = ltb→lt y x e in omega arith) h.0,
    insert_asc-IsAscending x ys h.1,
  )
  | inr e ↦ let le : x ≤ y = ground arith in rw e ((le, All-map (λ u l. omega arith) ys h.0), h)
]

sort_asc-IsAscending : (xs : List ℕ) → IsAscending (sort_asc xs)
unfolding sort_asc
sort_asc-IsAscending [] = tt
sort_asc-IsAscending (x ∷ xs) = insert_asc-IsAscending x _ (sort_asc-IsAscending xs)

or-swap : (a b c : Bool) → a || (b || c) ≡ b || (a || c)
or-swap true true c = refl
or-swap true false c = refl
or-swap false b c = refl

has-insert_asc : (j x : ℕ) (xs : List ℕ) → has j (insert_asc x xs) ≡ (x == j || has j xs)
unfolding insert_asc
has-insert_asc j x [] = refl
has-insert_asc j x (y ∷ ys) = elim (Bool-cases (ltb y x)) [
  | inl e ↦
      rw e (ap (λ b. y == j || b) (has-insert_asc j x ys) ∙ or-swap (y == j) (x == j) (has j ys))
  | inr e ↦ rw e refl
]

has-sort_asc : (j : ℕ) (xs : List ℕ) → has j (sort_asc xs) ≡ has j xs
unfolding sort_asc
has-sort_asc j [] = refl
has-sort_asc j (x ∷ xs) =
    has-insert_asc j x (sort_asc xs) ∙ ap (λ b. x == j || b) (has-sort_asc j xs)

==-false : (a b : ℕ) → (a == b) ≡ false → a ≢ b
==-false a b e = ground arith

differs : (a b : ℕ) → a ≢ b → (a == b) ≡ false
differs a b n = ground arith

has-Above : (n : ℕ) (xs : List ℕ) → Above (suc n) xs → has n xs ≡ false
has-Above n [] h = refl
has-Above n (x ∷ xs) h = rw (differs x n (let l = h.0 in omega arith)) (has-Above n xs h.1)

-- the result of the loop from `next`: from there on, all before it is used, and it is not, unless it
-- is the largest 32-bit number
pub record Hole (next : ℕ) (used : List ℕ) (found : ℕ) : Type 0 where
  pub later : next ≤ found
  pub full : (j : ℕ) → next ≤ j → j < found → has j used ≡ true
  pub free : found < u32_mod - 1 → has found used ≡ false

first_hole-Hole :
    (next : ℕ) (used : List ℕ)
    → next < u32_mod
    → IsAscending used
    → Hole next used (first_hole next used)
unfolding first_hole
first_hole-Hole next [] small h = record {
  later = omega arith;
  full = λ j le lt. absurd (omega arith);
  free = λ lt. refl;
}
first_hole-Hole next (x ∷ xs) small h = elim (Bool-cases (x == next)) [
  | inl e ↦
      let same : x ≡ next = (==_iff x next).0 e in
      let rest = first_hole-Hole (min (next + 1) (u32_mod - 1)) xs (omega arith) h.1 in
      let above : next ≤ first_hole (min (next + 1) (u32_mod - 1)) xs =
        let l = rest.later in omega arith in
      rw e (record {
        later = above;
        full = λ j le lt. elim (Bool-cases (x == j)) [
          | inl f ↦ rw f refl
          | inr f ↦ rw f (rest.full j (let n = ==-false x j f in omega arith) lt)
        ];
        free = λ lt.
            rw
              (differs x (first_hole (min (next + 1) (u32_mod - 1)) xs)
                (let l = rest.later in omega arith))
              (rest.free lt);
      })
  | inr e ↦ elim (Bool-cases (ltb next x)) [
    | inl f ↦
        let lt : next < x = ltb→lt next x f in
        rw (e, f)
          (record {
            later = omega arith;
            full = λ j le l. absurd (omega arith);
            free = λ l. has-Above next (x ∷ xs) (omega arith, All-map (λ u k. omega arith) xs h.0);
          })
    | inr f ↦
        let rest = first_hole-Hole next xs small h.1 in
        let lt : x < next = let n = ==-false x next e in ground arith in
        rw (e, f)
          (record {
            later = rest.later;
            full = λ j le l. rw (differs x j (omega arith)) (rest.full j le l);
            free = λ l.
                rw (differs x (first_hole next xs) (let k = rest.later in omega arith))
                  (rest.free l);
          })
  ]
]

-- On 32-bit indices, `create` with no index takes the smallest one that no profile of the mnemonic
-- uses: every smaller index is used and it is not, unless it is the largest of 32 bits.
pub unused_index-smallest :
    (m : ℕ) (profiles : List ProfileRecord)
    → ((j : ℕ) → j < unused_index m profiles → has j (used_on m profiles) ≡ true)
      × (unused_index m profiles < u32_mod - 1
          → has (unused_index m profiles) (used_on m profiles) ≡ false)
unfolding unused_index
unused_index-smallest m profiles =
    let used = used_on m profiles in
    let hole = first_hole-Hole 0 (sort_asc used) (omega arith) (sort_asc-IsAscending used) in
    (
      λ j lt. sym (has-sort_asc j used) ∙ hole.full j (omega arith) lt,
      λ lt. sym (has-sort_asc _ used) ∙ hole.free lt,
    )
