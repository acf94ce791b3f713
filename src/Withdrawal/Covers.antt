-- ===== src/Withdrawal/Covers.antt =====
-- crates/core/src/vault/tornadocash/amount.rs: `cover_notes` covers an amount whenever the eligible
-- notes are worth it.
use desktop_wallet.Common.{
  ℕ, ◌≤◌, ◌<◌, ◌≡◌, ◌≢◌, ◌⊎◌, refl, ap, ◌∙◌, sym, inl, inr, Bool-cases, Option-cases, true, false,
  Option, none, List, [], ltb, ltb→lt, ◌==◌, ==_iff, arith, total, length, keep, is_some,
}
use desktop_wallet.Common.Outcome.{ok, err}
use desktop_wallet.Common.Sort.{total-sort_desc}
use desktop_wallet.Pools.{Kohaku, cannot_cover}
use desktop_wallet.Selection.{Note, denom, search_notes}
use desktop_wallet.Selection.Cover.{select_notes-covers}
use desktop_wallet.Selection.Theorems.{
  Holdings, Selects, search_notes-Selects, available, available-Fits,
}
use desktop_wallet.Withdrawal.{is_eligible, cover_notes}

not_zero : (amount : ℕ) → amount ≢ 0 → (amount == 0) ≡ false
not_zero amount positive = elim (Bool-cases (amount == 0)) [
  | inl e ↦ absurd (positive ((==_iff amount 0).0 e))
  | inr e ↦ e
]

enough : (a b amount : ℕ) → ltb a amount ≡ false → b ≡ a → amount ≤ b
enough a b amount e same = ground arith

module _ (k : Kohaku) where
  no_choice : {A : Type 0} {o : Option A} → is_some o ≡ true → ¬ (o ≡ none)
  no_choice h e = let bad : true ≡ false = sym h ∙ ap is_some e in cc

  -- For holdings below 2^64 notes and 2^256 wei and a positive amount: cover_notes returns eligible
  -- held notes, each taken at most once, worth at least the amount; or it fails with CannotCover,
  -- and then all eligible notes together are worth less.
  pub cover_notes-cases :
      (amount : ℕ) (notes : List (Note k))
      → Holdings k notes
      → amount ≢ 0
      → ((sel : List (Note k)) × (cover_notes k amount notes ≡ ok sel)
          × Selects k (is_eligible k) true amount notes sel)
        ⊎ ((cover_notes k amount notes ≡ err (cannot_cover amount))
            × (total (denom k) (keep (is_eligible k) notes) < amount))
  unfolding cover_notes search_notes
  cover_notes-cases amount notes h positive =
      let test = is_eligible k in
      let zero' : (amount == 0) ≡ false = not_zero amount positive in
      elim (Option-cases (search_notes k test true amount notes)) [
        | inr f ↦
            inl (f.0, rw (zero', f.1) refl, search_notes-Selects k test amount notes h true f.1)
        | inl n ↦ inr (
          rw (zero', n) refl,
          elim (Bool-cases (ltb (total (denom k) (keep test notes)) amount)) [
            | inl e ↦ ltb→lt _ _ e
            | inr e ↦ absurd (
                no_choice
                  (select_notes-covers k (length (available k test amount notes h)) _ amount [] none
                    (available-Fits k test amount notes h)
                    (enough (total (denom k) (keep test notes)) _ amount e
                      (total-sort_desc (denom k) (keep test notes))))
                  n)
          ],
        )
      ]
