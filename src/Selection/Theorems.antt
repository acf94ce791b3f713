-- ===== src/Selection/Theorems.antt =====
-- What `exact_notes_for_asset` promises.
use mathlib.Core.List.{Perm, append_assoc}
use mathlib.Core.List.Perm
use desktop_wallet.Common.{
  ℕ, ◌+◌, ◌≤◌, ◌<◌, ◌≡◌, ◌≢◌, refl, ◌∙◌, Bool, true, false, Option, none, some, List, [], ◌++◌,
  arith, length, total, keep, All, All-keep_self,
}
use desktop_wallet.Common.Outcome.{ok}
use desktop_wallet.Common.Sub.{Sub, Sub-All, Sub-keep, keep-Sub, Sub-Perm, length-Sub-le}
use desktop_wallet.Common.Sort.{
  sort_desc, sort_desc-perm, sort_desc-IsSorted, Alike-sort_desc, All-sort_desc, total-sort_desc,
  total-Sub-le, length-sort_desc,
}
use desktop_wallet.Common.U256.{u64_mod, u256_mod}
use desktop_wallet.Pools.{Kohaku}
use desktop_wallet.Selection.{Note, denom, holds, search_notes, exact_notes_for_asset}
use desktop_wallet.Selection.Exact.{Within, Within-mono, Fits, select_notes-reaches}
use desktop_wallet.Selection.Sound.{Meets, select_notes-Good}

Meets-self : (cover : Bool) (amount : ℕ) → Meets cover amount (0 + amount)
Meets-self false amount = omega arith
Meets-self true amount = omega arith

module _ (k : Kohaku) where
  open k use {Asset, asset_eq, asset_eq_iff, asset}

  -- the wallet's notes are fewer than 2^64 and worth less than 2^256 wei
  pub record Holdings (notes : List (Note k)) : Type 0 where
    pub worth : total (denom k) notes < u256_mod
    pub counted : length notes < u64_mod

  -- `sel` takes each held note at most once, and is worth `value` in the mode of the search
  pub record Selects (test : Note k → Bool) (cover : Bool) (amount : ℕ) (notes sel : List (Note k))
      : Type 0 where
    pub left : List (Note k)
    pub taken : Perm (sel ++ left) notes
    pub made : Meets cover amount (total (denom k) sel)
    pub passes : All (λ note. test note ≡ true) sel

  module _ (test : Note k → Bool) (amount : ℕ) (notes : List (Note k)) (h : Holdings notes) where
    abbrev pub available : List (Note k)
    available = sort_desc (denom k) (keep test notes)

    available-worth : total (denom k) available < u256_mod
    available-worth = omega (
      arith,
      total-sort_desc (denom k) (keep test notes),
      total-Sub-le (denom k) (keep-Sub test notes),
      h.worth,
    )

    pub available-Fits : Fits k (length available) available
    available-Fits = record {
      sorted = sort_desc-IsSorted (denom k) (keep test notes);
      fuelled = omega arith;
      worth = available-worth;
      counted = omega (
        arith,
        length-sort_desc (denom k) (keep test notes),
        length-Sub-le (keep-Sub test notes),
        h.counted,
      );
    }

    complete :
        {sel : List (Note k)}
        → Sub sel available
        → (left : List (Note k)) × Perm (sel ++ left) notes
    complete {sel} s =
        let (l, p) = Sub-Perm s in
        let (m, q) = Sub-Perm (keep-Sub test notes) in
        (
          l ++ m,
          rw (← append_assoc) (
              Perm.trans (Perm.append p (Perm.refl m)) (
                Perm.trans (Perm.append (sort_desc-perm (denom k) (keep test notes)) (Perm.refl m))
                  q)),
        )

    pub search_notes-Selects :
        (cover : Bool) {sel : List (Note k)}
        → search_notes k test cover amount notes ≡ some sel
        → Selects test cover amount notes sel
    unfolding search_notes
    search_notes-Selects cover {sel} e =
        let good =
          select_notes-Good k cover amount available available-worth (length available) available
            amount [] none (record { extends = λ u s. s; leaves = Meets-self cover amount }) tt in
        let (s, m) = rw e at good in
        let (l, p) = complete s in
        record {
          left = l;
          taken = p;
          made = m;
          passes = Sub-All _ s (All-sort_desc (denom k) _ _ (All-keep_self test notes));
        }

    search_notes-shortest :
        {t : List (Note k)}
        → Sub t notes
        → All (λ note. test note ≡ true) t
        → total (denom k) t ≡ amount
        → Within k (length t) (search_notes k test false amount notes)
    unfolding search_notes
    search_notes-shortest {t} s passes e =
        let (u, su, len, worth) = Alike-sort_desc (denom k) (Sub-keep test s passes) in
        Within-mono k _ (omega arith) (
          select_notes-reaches k (length available) available amount [] none available-Fits su
            (worth ∙ e))

  module _ (amount : ℕ) (notes : List (Note k)) (a : Asset) (h : Holdings notes) where
    -- The notes that `exact_notes_for_asset` returns are mined and unspent notes of the asset, each
    -- held note taken at most once, and are worth exactly the amount.
    pub exact_notes_sound :
        {sel : List (Note k)}
        → exact_notes_for_asset k amount notes a ≡ ok sel
        → Selects (holds k a) false amount notes sel
    unfolding exact_notes_for_asset
    exact_notes_sound e = search_notes-Selects (holds k a) amount notes h false (ground arith)

    -- Whenever some mined and unspent notes of the asset are worth exactly a positive amount,
    -- `exact_notes_for_asset` returns a selection, and one with no more notes than they are.
    pub exact_notes-shortest :
        {t : List (Note k)}
        → amount ≢ 0
        → Sub t notes
        → All (λ note. holds k a note ≡ true) t
        → total (denom k) t ≡ amount
        → (sel : List (Note k)) × (exact_notes_for_asset k amount notes a ≡ ok sel)
          × (length sel ≤ length t)
    unfolding exact_notes_for_asset
    exact_notes-shortest {t} positive s passes e =
        found (search_notes k (holds k a) false amount notes) refl
          (search_notes-shortest (holds k a) amount notes h s passes e)
      where
        found :
            (r : Option (List (Note k)))
            → search_notes k (holds k a) false amount notes ≡ r
            → Within k (length t) r
            → (sel : List (Note k)) × (exact_notes_for_asset k amount notes a ≡ ok sel)
              × (length sel ≤ length t)
        found none r w = elim w [ ]
        found (some sel) r w = (sel, ground arith, w)
