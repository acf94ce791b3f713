-- ===== src/Selection/Exact.antt =====
-- The exact search finds a selection with the fewest notes, whenever there is one.
use native.Mathlib.Nat.{le_refl}
use desktop_wallet.Common.{
  ℕ, zero, suc, ◌+◌, ◌-◌, ◌*◌, ◌/◌, ◌≤◌, ◌<◌, ◌≡◌, ap, ◌∙◌, inl, inr, Bool-cases, true, false,
  Option, none, some, ◌||◌, List, [], ◌∷◌, ◌++◌, arith, length, length-append, length-take,
  length-drop, total, total-append, take, drop, leb, ltb, ltb→lt, ◌==◌, take-append-drop,
}
use desktop_wallet.Common.Sub.{Sub, Sub-cut, Sub-All, length-Sub-le}
use desktop_wallet.Common.Sort.{IsSorted, drop-IsSorted, total-Sub-le, total-bounded, total-equal}
use desktop_wallet.Common.U256.{u64_mod, u256_mod, ◌*ᵤ◌, +ᵤ_exact, *ᵤ_exact, div_ceil}
use desktop_wallet.Pools.{Kohaku}
use desktop_wallet.Selection.{
  try_counts, Note, denom, note_sum, better, leaf, hopeless, most, group_size, select_notes,
}
use desktop_wallet.Selection.Facts.{
  try_counts-keeps, try_counts-reaches, div_ceil-le, le-div, note_sum-total, group-All,
  group_size-le, group_size-pos,
}

module _ (k : Kohaku) where
  open k use {amount_wei_pos}

  -- there is a choice, of at most `n` notes
  abbrev pub Within : ℕ → Option (List (Note k)) → Type 0
  Within n none = ⊥
  Within n (some prior) = length prior ≤ n

  leaf-keeps :
      (n : ℕ) (chosen : List (Note k)) (best : Option (List (Note k)))
      → Within n best
      → Within n (leaf k false chosen best)
  unfolding leaf better
  leaf-keeps n chosen none h = elim h [ ]
  leaf-keeps n chosen (some prior) h = ground arith

  leaf-reaches :
      (chosen : List (Note k)) (best : Option (List (Note k)))
      → Within (length chosen) (leaf k false chosen best)
  unfolding leaf better
  leaf-reaches chosen none = omega arith
  leaf-reaches chosen (some prior) = ground arith

  -- the search never loses a choice that is as short
  select_notes-keeps :
      (fuel : ℕ) (notes : List (Note k)) (remaining n : ℕ) (chosen : List (Note k))
      (best : Option (List (Note k)))
      → Within n best
      → Within n (select_notes k fuel notes remaining false chosen best)
  unfolding select_notes
  select_notes-keeps zero notes remaining n chosen best h = elim (Bool-cases (remaining == 0)) [
    | inl e ↦ rw e (leaf-keeps n chosen best h)
    | inr e ↦ rw e h
  ]
  select_notes-keeps (suc fuel) [] remaining n chosen best h = elim (Bool-cases (remaining == 0)) [
    | inl e ↦ rw e (leaf-keeps n chosen best h)
    | inr e ↦ rw e h
  ]
  select_notes-keeps (suc fuel) (first ∷ rest) remaining n chosen best h =
      elim (Bool-cases (remaining == 0)) [
        | inl e ↦ rw e (leaf-keeps n chosen best h)
        | inr e ↦
            elim (Bool-cases (
              hopeless k false remaining (denom k first) chosen best
              || ltb (note_sum k (first ∷ rest)) remaining)) [
                | inl p ↦ rw (e, p) h
                | inr p ↦
                    rw (e, p)
                      (try_counts-keeps (Within n) _ _
                        (λ m b _ hb. select_notes-keeps fuel _ _ n _ b hb) h)
              ]
      ]

  pub record Fits (fuel : ℕ) (notes : List (Note k)) : Type 0 where
    pub sorted : IsSorted (denom k) notes
    pub fuelled : length notes ≤ fuel
    pub worth : total (denom k) notes < u256_mod
    pub counted : length notes < u64_mod

  pub Within-mono :
      {n m : ℕ} (best : Option (List (Note k))) → n ≤ m → Within n best → Within m best
  Within-mono none le h = h
  Within-mono (some prior) le h = omega arith

  most-ge :
      (remaining unit size n : ℕ)
      → 0 < unit
      → remaining < u256_mod
      → size < u64_mod
      → unit * n ≤ remaining
      → n ≤ size
      → n ≤ most k false remaining unit size
  unfolding most
  most-ge remaining unit size n pos small few fits le =
      let bound = le-div remaining unit n pos fits in
      let quotient : remaining / unit ≤ remaining = grind arith in
      let exact = +ᵤ_exact (remaining / unit) 0 (omega arith) in rw exact (ground arith)

  -- what the best choice so far rules out is no shorter
  hopeless-Within :
      (remaining unit n : ℕ) (chosen : List (Note k)) (best : Option (List (Note k)))
      → div_ceil remaining unit ≤ n
      → hopeless k false remaining unit chosen best ≡ true
      → Within (length chosen + n) best
  unfolding hopeless
  hopeless-Within remaining unit n chosen none le h = cc
  hopeless-Within remaining unit n chosen (some prior) le h =
      elim (Bool-cases (leb (length prior) (length chosen))) [
        | inl p ↦ ground arith
        | inr p ↦
            let more : ltb (length prior - length chosen) (div_ceil remaining unit) ≡ true =
              rw p at h in
            let more' = ltb→lt _ _ more in omega arith
      ]

  -- one group of a selection: how many notes it takes there, and what it takes beyond
  record Parts (first : Note k) (rest t : List (Note k)) : Type 0 where
    here : ℕ
    beyond : List (Note k)
    sub : Sub beyond (drop (group_size k (denom k first) (first ∷ rest)) (first ∷ rest))
    count : length t ≡ here + length beyond
    worth : total (denom k) t ≡ denom k first * here + total (denom k) beyond
    few : here ≤ group_size k (denom k first) (first ∷ rest)

  parts :
      (first : Note k) (rest : List (Note k)) {t : List (Note k)}
      → Sub t (first ∷ rest)
      → Parts first rest t
  parts first rest {t} s =
      let unit = denom k first in
      let size = group_size k unit (first ∷ rest) in
      let (u, v, e, su, sv) = Sub-cut size (first ∷ rest) s in
      let uniform = total-equal (denom k) unit u (Sub-All _ su (group-All k unit (first ∷ rest))) in
      record {
        here = length u;
        beyond = v;
        sub = sv;
        count = ap length e ∙ length-append u v;
        worth =
            ap (total (denom k)) e
            ∙ total-append (denom k) u v
            ∙ ap (λ a. a + total (denom k) v) uniform;
        few = omega (
          arith,
          length-Sub-le su,
          length-take size (first ∷ rest) (group_size-le k unit (first ∷ rest)),
        );
      }

  pub drop-Fits :
      (fuel : ℕ) (first : Note k) (rest : List (Note k))
      → Fits (suc fuel) (first ∷ rest)
      → Fits fuel (drop (group_size k (denom k first) (first ∷ rest)) (first ∷ rest))
  drop-Fits fuel first rest f =
      let size = group_size k (denom k first) (first ∷ rest) in
      let pos = group_size-pos k first rest in
      let len = length-drop size (first ∷ rest) in
      let parts' = total-append (denom k) (take size (first ∷ rest)) (drop size (first ∷ rest)) in
      let whole = ap (total (denom k)) (take-append-drop size (first ∷ rest)) in
      record {
        sorted = drop-IsSorted (denom k) size (first ∷ rest) f.sorted;
        fuelled = omega arith;
        worth = omega arith;
        counted = omega arith;
      }

  search_pass :
      (fuel : ℕ) (first : Note k) (rest : List (Note k)) (remaining : ℕ) (chosen : List (Note k))
      (best : Option (List (Note k))) {t : List (Note k)}
      → Fits (suc fuel) (first ∷ rest)
      → Sub t (first ∷ rest)
      → total (denom k) t ≡ remaining
      → ((p : Parts first rest t) (b : Option (List (Note k))) (chosen' : List (Note k))
            (remaining' : ℕ)
          → total (denom k) p.beyond ≡ remaining'
          → Within (length chosen' + length p.beyond) (
              select_notes k fuel
                (drop (group_size k (denom k first) (first ∷ rest)) (first ∷ rest))
                remaining'
                false
                chosen'
                b))
      → Within (length chosen + length t) (
          try_counts
            (λ count b.
              select_notes k fuel
                (drop (group_size k (denom k first) (first ∷ rest)) (first ∷ rest))
                (remaining - denom k first *ᵤ count)
                false
                (chosen ++ take count (first ∷ rest))
                b)
            (most k false remaining (denom k first) (group_size k (denom k first) (first ∷ rest)))
            best)
  search_pass fuel first rest remaining chosen best {t} f s e ih =
      let p = parts first rest s in
      let unit = denom k first in
      let size = group_size k unit (first ∷ rest) in
      let room = total-Sub-le (denom k) s in
      let size-le = group_size-le k unit (first ∷ rest) in
      let product = *ᵤ_exact unit p.here (omega arith) in
      let taken = length-take p.here (first ∷ rest) (omega arith) in
      let together = length-append chosen (take p.here (first ∷ rest)) in
      try_counts-reaches (Within (length chosen + length t)) _ _ p.here best
        (most-ge remaining unit size p.here (amount_wei_pos first.pool) (omega arith) (omega arith)
          (omega arith) p.few)
        (λ m b h. select_notes-keeps fuel _ _ _ _ b h)
        (λ b. Within-mono _ (omega arith) (
          ih p b (chosen ++ take p.here (first ∷ rest)) (remaining - unit *ᵤ p.here) (omega arith)))

  zero_test : (n : ℕ) → n ≡ 0 → (n == 0) ≡ true
  zero_test n h = ground arith

  bound :
      {fuel : ℕ} (first : Note k) (rest : List (Note k)) {t : List (Note k)} {remaining : ℕ}
      → Fits fuel (first ∷ rest)
      → Sub t (first ∷ rest)
      → total (denom k) t ≡ remaining
      → div_ceil remaining (denom k first) ≤ length t
  bound first rest {t} {remaining} f s e =
      let most_each =
        total-bounded (denom k) (denom k first) t (Sub-All _ s (le_refl _, f.sorted.0)) in
      div_ceil-le remaining (denom k first) (length t) (amount_wei_pos first.pool) (omega arith)

  poor :
      {fuel : ℕ} (first : Note k) (rest : List (Note k)) {t : List (Note k)} {remaining : ℕ}
      → Fits fuel (first ∷ rest)
      → Sub t (first ∷ rest)
      → total (denom k) t ≡ remaining
      → ¬ (ltb (note_sum k (first ∷ rest)) remaining ≡ true)
  poor first rest {t} {remaining} f s e q =
      let sum = note_sum-total k (first ∷ rest) f.worth in
      let less = ltb→lt _ _ q in let room = total-Sub-le (denom k) s in omega arith

  -- with fuel for every note, the search ends with a choice as short as any that makes `remaining`
  pub select_notes-reaches :
      (fuel : ℕ) (notes : List (Note k)) (remaining : ℕ) (chosen : List (Note k))
      (best : Option (List (Note k))) {t : List (Note k)}
      → Fits fuel notes
      → Sub t notes
      → total (denom k) t ≡ remaining
      → Within (length chosen + length t) (select_notes k fuel notes remaining false chosen best)
  unfolding select_notes
  select_notes-reaches zero [] remaining chosen best f s e =
      let none_left = total-Sub-le (denom k) s in
      rw (zero_test remaining (omega arith))
        (Within-mono _ (omega arith) (leaf-reaches chosen best))
  select_notes-reaches (suc fuel) [] remaining chosen best f s e =
      let none_left = total-Sub-le (denom k) s in
      rw (zero_test remaining (omega arith))
        (Within-mono _ (omega arith) (leaf-reaches chosen best))
  select_notes-reaches zero (first ∷ rest) remaining chosen best f s e = absurd (omega arith)
  select_notes-reaches (suc fuel) (first ∷ rest) remaining chosen best {t} f s e =
      elim (Bool-cases (remaining == 0)) [
        | inl z ↦ rw z (Within-mono _ (omega arith) (leaf-reaches chosen best))
        | inr z ↦ elim (Bool-cases (hopeless k false remaining (denom k first) chosen best)) [
          | inl p ↦
              rw (z, p)
                (hopeless-Within remaining (denom k first) (length t) chosen best
                  (bound first rest f s e) p)
          | inr p ↦ elim (Bool-cases (ltb (note_sum k (first ∷ rest)) remaining)) [
            | inl q ↦ absurd (poor first rest f s e q)
            | inr q ↦
                rw (z, p, q)
                  (search_pass fuel first rest remaining chosen best f s e
                    (λ r b chosen' remaining' w.
                      select_notes-reaches fuel _ remaining' chosen' b (drop-Fits fuel first rest f)
                        r.sub w))
          ]
        ]
      ]
