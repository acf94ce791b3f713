-- ===== src/Selection/Sound.antt =====
-- Whatever the search chooses is a selection of the notes that it was given, worth the amount, or
-- no less than it when it covers.
use mathlib.Core.List.{append_assoc, append-nil}
use desktop_wallet.Common.{
  ℕ, zero, suc, ◌+◌, ◌-◌, ◌*◌, ◌/◌, ◌≤◌, ◌<◌, ◌≡◌, refl, ap, ◌∙◌, inl, inr, Bool-cases, Bool, true,
  false, Option, none, some, ◌||◌, List, [], ◌∷◌, ◌++◌, arith, length-take, total, total-append,
  take, drop, All-take-le, ltb, ◌==◌,
}
use desktop_wallet.Common.Sub.{Sub, Sub-nil, Sub-take, Sub-take-drop}
use desktop_wallet.Common.Sort.{total-Sub-le, total-equal}
use desktop_wallet.Common.U256.{u256_mod, ◌*ᵤ◌, *ᵤ_exact}
use desktop_wallet.Pools.{Kohaku}
use desktop_wallet.Selection.{
  Note, denom, note_sum, better, leaf, hopeless, most, group_size, select_notes,
}
use desktop_wallet.Selection.Facts.{try_counts-keeps, group-All, group_size-le}

-- `value` is what was asked for: exactly, or at least
abbrev pub Meets : Bool → ℕ → ℕ → Type 0
Meets false amount value = value ≡ amount
Meets true amount value = amount ≤ value

Meets-step :
    (cover : Bool) (amount made part remaining : ℕ)
    → (cover ≡ false → part ≤ remaining)
    → Meets cover amount (made + remaining)
    → Meets cover amount (made + part + (remaining - part))
Meets-step false amount made part remaining le h = omega (arith, le refl)
Meets-step true amount made part remaining le h = omega arith

module _ (k : Kohaku) where
  open k use {amount_wei_pos}

  most-le : (cover : Bool) (remaining unit size : ℕ) → most k cover remaining unit size ≤ size
  unfolding most
  most-le cover remaining unit size = ground arith

  most-exact-le :
      (remaining unit size n : ℕ)
      → 0 < unit
      → n ≤ most k false remaining unit size
      → unit * n ≤ remaining
  unfolding most
  most-exact-le remaining unit size n pos h =
      let below : n ≤ remaining / unit = ground arith in grind arith

  module _ (cover : Bool) (amount : ℕ) (all : List (Note k))
      (fits : total (denom k) all < u256_mod) where
    abbrev pub Good : Option (List (Note k)) → Type 0
    Good none = Unit
    Good (some sel) = Sub sel all × Meets cover amount (total (denom k) sel)

    leaf-Good :
        (chosen : List (Note k)) (best : Option (List (Note k)))
        → Good (some chosen)
        → Good best
        → Good (leaf k cover chosen best)
    unfolding leaf
    leaf-Good chosen best h g = elim (Bool-cases (better k cover chosen best)) [
      | inl e ↦ rw e h
      | inr e ↦ rw e g
    ]

    -- the choice so far extends to selections of all the notes, and leaves `remaining` to make
    pub record Partial (notes : List (Note k)) (remaining : ℕ) (chosen : List (Note k))
        : Type 0 where
      pub extends : (u : List (Note k)) → Sub u notes → Sub (chosen ++ u) all
      pub leaves : Meets cover amount (total (denom k) chosen + remaining)

    Partial-done :
        (notes : List (Note k)) (remaining : ℕ) (chosen : List (Note k))
        → Partial notes remaining chosen
        → (remaining == 0) ≡ true
        → Good (some chosen)
    Partial-done notes remaining chosen p z =
        let e : remaining ≡ 0 = ground arith in
        let e' : total (denom k) chosen + remaining ≡ total (denom k) chosen = omega arith in
        (rw append-nil at (p.extends [] (Sub-nil notes)), rw e' at p.leaves)

    take_group :
        (first : Note k) (rest : List (Note k)) (n : ℕ)
        → n ≤ group_size k (denom k first) (first ∷ rest)
        → total (denom k) (take n (first ∷ rest)) ≡ denom k first * n
    take_group first rest n le =
        let size = group_size k (denom k first) (first ∷ rest) in
        let same =
          total-equal (denom k) (denom k first) (take n (first ∷ rest))
            (All-take-le _ n size (first ∷ rest) le (group-All k (denom k first) (first ∷ rest))) in
        same
        ∙ ap (λ m. denom k first * m)
            (length-take n (first ∷ rest)
              (omega (arith, group_size-le k (denom k first) (first ∷ rest))))

    Partial-step :
        (first : Note k) (rest : List (Note k)) (remaining n : ℕ) (chosen : List (Note k))
        → Partial (first ∷ rest) remaining chosen
        → n ≤ most k cover remaining (denom k first) (group_size k (denom k first) (first ∷ rest))
        → Partial
            (drop (group_size k (denom k first) (first ∷ rest)) (first ∷ rest))
            (remaining - denom k first *ᵤ n)
            (chosen ++ take n (first ∷ rest))
    Partial-step first rest remaining n chosen p le =
        let unit = denom k first in
        let size = group_size k unit (first ∷ rest) in
        let in_group : n ≤ size = omega (arith, most-le cover remaining unit size) in
        let taken = take_group first rest n in_group in
        let part =
          total-Sub-le (denom k) (p.extends (take n (first ∷ rest)) (Sub-take n (first ∷ rest))) in
        let both = total-append (denom k) chosen (take n (first ∷ rest)) in
        let product = *ᵤ_exact unit n (omega arith) in
        record {
          extends = λ u s.
              rw append_assoc
                (p.extends _ (Sub-take-drop {n = n} {m = size} (first ∷ rest) in_group s));
          leaves =
              rw (product, both, taken)
                (Meets-step cover amount (total (denom k) chosen) (unit * n) remaining
                  (λ e.
                    most-exact-le remaining unit size n (amount_wei_pos first.pool) (rw e at le))
                  p.leaves);
        }

    -- the search keeps a good choice good, from any point that it can reach
    pub select_notes-Good :
        (fuel : ℕ) (notes : List (Note k)) (remaining : ℕ) (chosen : List (Note k))
        (best : Option (List (Note k)))
        → Partial notes remaining chosen
        → Good best
        → Good (select_notes k fuel notes remaining cover chosen best)
    unfolding select_notes
    select_notes-Good zero notes remaining chosen best p g = elim (Bool-cases (remaining == 0)) [
      | inl z ↦ rw z (leaf-Good chosen best (Partial-done notes remaining chosen p z) g)
      | inr z ↦ rw z g
    ]
    select_notes-Good (suc fuel) [] remaining chosen best p g = elim (Bool-cases (remaining == 0)) [
      | inl z ↦ rw z (leaf-Good chosen best (Partial-done [] remaining chosen p z) g)
      | inr z ↦ rw z g
    ]
    select_notes-Good (suc fuel) (first ∷ rest) remaining chosen best p g =
        elim (Bool-cases (remaining == 0)) [
          | inl z ↦
              rw z (leaf-Good chosen best (Partial-done (first ∷ rest) remaining chosen p z) g)
          | inr z ↦
              elim (Bool-cases (
                hopeless k cover remaining (denom k first) chosen best
                || ltb (note_sum k (first ∷ rest)) remaining)) [
                  | inl q ↦ rw (z, q) g
                  | inr q ↦
                      rw (z, q)
                        (try_counts-keeps Good _ _
                          (λ n b le gb.
                            select_notes-Good fuel _ _ _ b
                              (Partial-step first rest remaining n chosen p le) gb)
                          g)
                ]
        ]
