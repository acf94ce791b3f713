-- ===== src/Balances/Sums.antt =====
-- The balance of notes, and the totals over vaults, are saturated sums.
use desktop_wallet.Common.{
  refl, sym, ℕ, ◌+◌, ◌-◌, ◌≡◌, ◌∙◌, ap, Bool, not, ◌&&◌, List, [], ◌∷◌, is_some, keep, min, total,
  Bool-cases, arith, inl, inr,
}
use desktop_wallet.Common.U256.{u256_mod, saturating_add}
use desktop_wallet.Pools.{Kohaku, TornadoNote}
use desktop_wallet.Balances.{
  Balance, no_balance, add_note, balance_from, note_balance, unspent_note, unspent_holdings,
}

-- a sum that stays at the largest 256-bit number once it would pass it
abbrev pub capped : ℕ → ℕ
capped n = min n (u256_mod - 1)

module _ (k : Kohaku) where
  open k use {Pool, amount_wei}

  -- the worth of the notes that pass a test
  abbrev pub worth : (TornadoNote Pool → Bool) → List (TornadoNote Pool) → ℕ
  worth test notes = total (λ note. amount_wei note.pool) (keep test notes)

  abbrev pub mined : TornadoNote Pool → Bool
  mined note = not note.spent && is_some note.leaf_index

  abbrev pub unmined : TornadoNote Pool → Bool
  unmined note = not note.spent && not (is_some note.leaf_index)

  balance_from-capped :
      (notes : List (TornadoNote Pool)) (b : Balance) (s p : ℕ)
      → b.spendable ≡ capped s
      → b.pending ≡ capped p
      → ((balance_from k b notes).spendable ≡ capped (s + worth mined notes))
        × ((balance_from k b notes).pending ≡ capped (p + worth unmined notes))
  unfolding balance_from add_note
  balance_from-capped [] b s p e f = (omega arith, omega arith)
  balance_from-capped (note ∷ notes) b s p e f = elim (Bool-cases note.spent) [
    | inl g ↦
        let same : add_note k note b ≡ b = simp g in
        let spendable : worth mined (note ∷ notes) ≡ worth mined notes = simp g in
        let pending : worth unmined (note ∷ notes) ≡ worth unmined notes = simp g in
        let rest =
          balance_from-capped notes (add_note k note b) s p (ap (λ c. c.spendable) same ∙ e)
            (ap (λ c. c.pending) same ∙ f) in
        (rest.0 ∙ omega arith, rest.1 ∙ omega arith)
    | inr g ↦ elim (Bool-cases (is_some note.leaf_index)) [
      | inl h ↦
          let d = amount_wei note.pool in
          let same : add_note k note b ≡ record b { spendable = saturating_add b.spendable d } =
            simp (g, h) in
          let spendable : worth mined (note ∷ notes) ≡ d + worth mined notes = simp (g, h) in
          let pending : worth unmined (note ∷ notes) ≡ worth unmined notes = simp (g, h) in
          let rest =
            balance_from-capped notes (add_note k note b) (s + d) p
              (ap (λ c. c.spendable) same ∙ omega arith) (ap (λ c. c.pending) same ∙ f) in
          (rest.0 ∙ omega arith, rest.1 ∙ omega arith)
      | inr h ↦
          let d = amount_wei note.pool in
          let same : add_note k note b ≡ record b { pending = saturating_add b.pending d } =
            simp (g, h) in
          let spendable : worth mined (note ∷ notes) ≡ worth mined notes = simp (g, h) in
          let pending : worth unmined (note ∷ notes) ≡ d + worth unmined notes = simp (g, h) in
          let rest =
            balance_from-capped notes (add_note k note b) s (p + d) (ap (λ c. c.spendable) same ∙ e)
              (ap (λ c. c.pending) same ∙ omega arith) in
          (rest.0 ∙ omega arith, rest.1 ∙ omega arith)
    ]
  ]

  -- The spendable balance of some notes is the worth of those mined and unspent, the pending one the
  -- worth of those unspent and not mined, each held at the largest 256-bit number.
  pub note_balance-capped :
      (notes : List (TornadoNote Pool))
      → ((note_balance k notes).spendable ≡ capped (worth mined notes))
        × ((note_balance k notes).pending ≡ capped (worth unmined notes))
  unfolding note_balance
  note_balance-capped notes =
      let h = balance_from-capped notes no_balance 0 0 (omega arith) (omega arith) in
      (h.0 ∙ ap capped (omega arith), h.1 ∙ ap capped (omega arith))

  unspent_holdings-worth :
      (notes : List (TornadoNote Pool))
      → (total (λ h. h.amount_wei) (keep (λ h. not h.pending) (unspent_holdings k notes))
          ≡ worth mined notes)
        × (total (λ h. h.amount_wei) (keep (λ h. h.pending) (unspent_holdings k notes))
            ≡ worth unmined notes)
  unfolding unspent_holdings unspent_note
  unspent_holdings-worth [] = (refl, refl)
  unspent_holdings-worth (note ∷ notes) =
      let rest = unspent_holdings-worth notes in
      elim (Bool-cases note.spent) [
        | inl g ↦ (simp (g, rest.0), simp (g, rest.1))
        | inr g ↦ elim (Bool-cases (is_some note.leaf_index)) [
          | inl h ↦ (simp (g, h, rest.0), simp (g, h, rest.1))
          | inr h ↦ (simp (g, h, rest.0), simp (g, h, rest.1))
        ]
      ]

  -- The balance of some notes is the sum of their unspent holdings: the spendable balance that of the
  -- holdings that are not pending, the pending one that of the pending holdings, each held at the
  -- largest 256-bit number.
  pub note_balance-unspent_holdings :
      (notes : List (TornadoNote Pool))
      → ((note_balance k notes).spendable
          ≡ capped
              (total (λ h. h.amount_wei) (keep (λ h. not h.pending) (unspent_holdings k notes))))
        × ((note_balance k notes).pending
            ≡ capped (total (λ h. h.amount_wei) (keep (λ h. h.pending) (unspent_holdings k notes))))
  note_balance-unspent_holdings notes =
      let balance = note_balance-capped notes in
      let holdings = unspent_holdings-worth notes in
      (balance.0 ∙ ap capped (sym holdings.0), balance.1 ∙ ap capped (sym holdings.1))
