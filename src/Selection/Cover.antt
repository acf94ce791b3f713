-- ===== src/Selection/Cover.antt =====
-- crates/core/src/vault/tornadocash/amount.rs: the search for notes that cover an amount finds some
-- whenever there are enough.
use native.Mathlib.Nat.{mod-lt, mod-add-div, le-mul_of_pos_right, mul-le-mul_left}
use desktop_wallet.Common.{
  ℕ, zero, suc, ◌-◌, ◌*◌, ◌/◌, ◌%◌, ◌≤◌, ◌<◌, ◌≡◌, ◌⊎◌, refl, ap, ◌∙◌, sym, subst, ==_iff, inl, inr,
  Bool-cases, true, false, not, ◌&&◌, Option, none, some, ◌||◌, List, [], ◌∷◌, ◌++◌, arith,
  length-take, if◌then◌else◌, total, total-append, take, drop, ltb, ◌==◌, take-append-drop, is_some,
  min,
}
use desktop_wallet.Common.Sort.{total-equal}
use desktop_wallet.Common.U256.{u64_mod, u256_mod, u64_from, ◌+ᵤ◌, ◌*ᵤ◌, +ᵤ_exact, *ᵤ_exact}
use desktop_wallet.Pools.{Kohaku}
use desktop_wallet.Selection.{
  Note, denom, note_sum, better, leaf, hopeless, most, group_size, select_notes,
}
use desktop_wallet.Selection.Facts.{
  try_counts-keeps, try_counts-reaches, note_sum-total, group-All, group_size-le,
}
use desktop_wallet.Selection.Exact.{Fits, drop-Fits}

clipped :
    (x size : ℕ) → size < u64_mod → (min (u64_from x) size ≡ size) ⊎ (min (u64_from x) size ≡ x)
clipped x size few = elim (Bool-cases (ltb x u64_mod)) [
  | inl e ↦ elim (Bool-cases (ltb x size)) [
    | inl f ↦ inr (rw e (ground arith))
    | inr f ↦ inl (rw e (ground arith))
  ]
  | inr e ↦ inl (rw e (omega arith))
]

not_below : (a b : ℕ) → b ≤ a → ltb a b ≡ false
not_below a b le = ground arith

-- the quotient rounded up, which makes the amount
rounded :
    (remaining unit : ℕ)
    → 0 < unit
    → remaining < u256_mod
    → remaining
      ≤ unit * (remaining / unit +ᵤ (if true && not (remaining % unit == 0) then 1 else 0))
rounded remaining unit pos small =
    let parts = mod-add-div remaining unit in
    let less = mod-lt remaining pos in
    let grows : remaining / unit ≤ remaining / unit * unit =
      le-mul_of_pos_right (remaining / unit) pos in
    elim (Bool-cases (remaining % unit == 0)) [
      | inl e ↦
          let even : remaining % unit ≡ 0 = (==_iff (remaining % unit) 0).0 e in
          let exact = +ᵤ_exact (remaining / unit) 0 (grind arith) in rw (e, exact) (grind arith)
      | inr e ↦
          let exact = +ᵤ_exact (remaining / unit) 1 (grind arith) in rw (e, exact) (grind arith)
    ]

module _ (k : Kohaku) where
  open k use {amount_wei_pos}

  -- there is a choice
  abbrev pub Chosen : Option (List (Note k)) → Type 0
  Chosen best = is_some best ≡ true

  leaf-Chosen :
      (chosen : List (Note k)) (best : Option (List (Note k))) → Chosen (leaf k true chosen best)
  unfolding leaf better
  leaf-Chosen chosen none = refl
  leaf-Chosen chosen (some prior) = elim (Bool-cases (better k true chosen (some prior))) [
    | inl e ↦ rw e refl
    | inr e ↦ rw e refl
  ]

  select_notes-keeps :
      (fuel : ℕ) (notes : List (Note k)) (remaining : ℕ) (chosen : List (Note k))
      (best : Option (List (Note k)))
      → Chosen best
      → Chosen (select_notes k fuel notes remaining true chosen best)
  unfolding select_notes
  select_notes-keeps zero notes remaining chosen best h = elim (Bool-cases (remaining == 0)) [
    | inl e ↦ rw e (leaf-Chosen chosen best)
    | inr e ↦ rw e h
  ]
  select_notes-keeps (suc fuel) [] remaining chosen best h = elim (Bool-cases (remaining == 0)) [
    | inl e ↦ rw e (leaf-Chosen chosen best)
    | inr e ↦ rw e h
  ]
  select_notes-keeps (suc fuel) (first ∷ rest) remaining chosen best h =
      elim (Bool-cases (remaining == 0)) [
        | inl e ↦ rw e (leaf-Chosen chosen best)
        | inr e ↦
            elim (Bool-cases (
              hopeless k true remaining (denom k first) chosen best
              || ltb (note_sum k (first ∷ rest)) remaining)) [
                | inl p ↦ rw (e, p) h
                | inr p ↦
                    rw (e, p)
                      (try_counts-keeps Chosen _ _ (λ m b _ hb. select_notes-keeps fuel _ _ _ b hb)
                        h)
              ]
      ]

  -- a group is taken whole, or as far as the amount needs
  most-enough :
      (remaining unit size : ℕ)
      → 0 < unit
      → remaining < u256_mod
      → size < u64_mod
      → (most k true remaining unit size ≡ size)
        ⊎ (remaining ≤ unit * most k true remaining unit size)
  unfolding most
  most-enough remaining unit size pos small few =
      let x = remaining / unit +ᵤ (if true && not (remaining % unit == 0) then 1 else 0) in
      elim (clipped x size few) [
        | inl e ↦ inl e
        | inr e ↦ inr (subst (λ m. remaining ≤ unit * m) (sym e) (rounded remaining unit pos small))
      ]

  most-le : (remaining unit size : ℕ) → most k true remaining unit size ≤ size
  unfolding most
  most-le remaining unit size = ground arith

  -- what is left to make after a group is no more than what the other groups are worth
  left_covered :
      (fuel : ℕ) (first : Note k) (rest : List (Note k)) (remaining : ℕ)
      → Fits k (suc fuel) (first ∷ rest)
      → remaining ≤ total (denom k) (first ∷ rest)
      → remaining
          - denom k first
            *ᵤ most k true remaining (denom k first) (group_size k (denom k first) (first ∷ rest))
        ≤ total (denom k) (drop (group_size k (denom k first) (first ∷ rest)) (first ∷ rest))
  left_covered fuel first rest remaining f le =
      let notes = first ∷ rest in
      let unit = denom k first in
      let size = group_size k unit notes in
      let m = most k true remaining unit size in
      let few = group_size-le k unit notes in
      let halves = total-append (denom k) (take size notes) (drop size notes) in
      let whole = ap (total (denom k)) (take-append-drop size notes) in
      let group : total (denom k) (take size notes) ≡ unit * size =
        total-equal (denom k) unit (take size notes) (group-All k unit notes)
        ∙ ap (λ n. unit * n) (length-take size notes few) in
      let within : unit * m ≤ unit * size = mul-le-mul_left unit (most-le remaining unit size) in
      let exact = *ᵤ_exact unit m (omega (arith, within, group, halves, whole, f.worth)) in
      let counted : size < u64_mod = omega (arith, few, f.counted) in
      let small : remaining < u256_mod = omega (arith, le, f.worth) in
      elim (most-enough remaining unit size (amount_wei_pos first.pool) small counted) [
        | inl e ↦
            let all : unit * m ≡ unit * size = ap (λ n. unit * n) e in
            omega (arith, exact, all, group, halves, whole, le)
        | inr e ↦ omega (arith, exact, e)
      ]

  none_left : (remaining : ℕ) → remaining ≤ 0 → (remaining == 0) ≡ true
  none_left remaining le = ground arith

  -- the search finds a choice, whatever was chosen before, if the notes are worth what remains
  pub select_notes-covers :
      (fuel : ℕ) (notes : List (Note k)) (remaining : ℕ) (chosen : List (Note k))
      (best : Option (List (Note k)))
      → Fits k fuel notes
      → remaining ≤ total (denom k) notes
      → Chosen (select_notes k fuel notes remaining true chosen best)
  unfolding select_notes hopeless
  select_notes-covers zero [] remaining chosen best f le =
      rw (none_left remaining le) (leaf-Chosen chosen best)
  select_notes-covers zero (first ∷ rest) remaining chosen best f le =
      let bad = f.fuelled in absurd (omega (arith, bad))
  select_notes-covers (suc fuel) [] remaining chosen best f le =
      rw (none_left remaining le) (leaf-Chosen chosen best)
  select_notes-covers (suc fuel) (first ∷ rest) remaining chosen (some prior) f le =
      select_notes-keeps (suc fuel) (first ∷ rest) remaining chosen (some prior) refl
  select_notes-covers (suc fuel) (first ∷ rest) remaining chosen none f le =
      let same = note_sum-total k (first ∷ rest) f.worth in
      let enough : ltb (note_sum k (first ∷ rest)) remaining ≡ false =
        rw same (not_below (total (denom k) (first ∷ rest)) remaining le) in
      let size = group_size k (denom k first) (first ∷ rest) in
      let m = most k true remaining (denom k first) size in
      elim (Bool-cases (remaining == 0)) [
        | inl e ↦ rw e (leaf-Chosen chosen none)
        | inr e ↦
            rw (e, enough)
              (try_counts-reaches Chosen _ m m none (omega arith)
                (λ n b h. select_notes-keeps fuel _ _ _ b h)
                (λ b.
                  select_notes-covers fuel (drop size (first ∷ rest))
                    (remaining - denom k first *ᵤ m) (chosen ++ take m (first ∷ rest)) b
                    (drop-Fits k fuel first rest f) (left_covered fuel first rest remaining f le)))
      ]
