-- ===== src/Bundlers/Sends.antt =====
-- crates/core/src/bundler.rs: a user operation is sent to the first bundler that takes it, and its
-- receipt is asked of that one.
use desktop_wallet.Common.{
  ℕ, suc, ◌+◌, ◌≡◌, ◌∙◌, ◌⊎◌, refl, sym, ap, subst, Bool, true, false, Option, some, List, [], ◌∷◌,
  ◌++◌, length, get_elem?, if◌then◌else◌, All, inl, inr, Bool-cases, arith,
}
use desktop_wallet.Common.Outcome.{Result, ok, err, ok-injective}
use desktop_wallet.Exec.{return, fail, lift, ◌>>=◌}
use desktop_wallet.Bundlers.{
  Bundler, BundlerError, Accepted, already_known, record_index, accepted_index, on_answer,
  send_from, send_user_operation, receipt, receipt_at, wait_for_receipt, wait_at, failed,
}

Result-cases : {E A : Type 0} (r : Result E A) → ((a : A) × (r ≡ ok a)) ⊎ ((e : E) × (r ≡ err e))
Result-cases (ok a) = inl (a, refl)
Result-cases (err e) = inr (e, refl)

noted :
    (hash a b : ℕ) (index : Option ℕ) (lock : Bool)
    → lock ≡ false
    → a ≡ b
    → (record_index a >>= λ _. return hash) (record { index = index; lock_poisoned = lock })
      ≡ (ok hash, record { index = some b; lock_poisoned = lock })
unfolding record_index ◌>>=◌ return
noted hash a b index true e f = absurd cc
noted hash a b index false e f =
    λ j. (ok hash, record { index = some (f j); lock_poisoned = false })

moved :
    (hash a b : ℕ) (w : Accepted)
    → a ≡ b
    → ◌≡◌ {A = Result BundlerError ℕ × Accepted}
        (ok hash, record w { index = some a })
        (ok hash, record w { index = some b })
moved hash a b w e = λ j. (ok hash, record w { index = some (e j) })

module _ {O R : Type 0} (op_hash : O → ℕ) (op : O) where
  -- the bundler has taken the operation, or knows it already, with this hash
  abbrev pub Takes : Bundler O R → ℕ → Type 0
  Takes b hash =
      (b.sends op ≡ ok hash)
      ⊎ ((e : BundlerError) × (b.sends op ≡ err e) × (already_known e ≡ true) × (hash ≡ op_hash op))

  abbrev pub Refuses : Bundler O R → Type 0
  Refuses b = (e : BundlerError) × (b.sends op ≡ err e) × (already_known e ≡ false)

  -- the operation is sent to the first that takes it, which is noted; or all have refused it
  abbrev pub Sent : ℕ → List (Bundler O R) → Accepted → Result BundlerError ℕ × Accepted → Type 0
  Sent i bs w outcome =
      ((before : List (Bundler O R)) × (b : Bundler O R) × (rest : List (Bundler O R)) × (hash : ℕ)
        × (bs ≡ before ++ b ∷ rest)
        × All Refuses before
        × Takes b hash
        × (outcome ≡ (ok hash, record w { index = some (i + length before) })))
      ⊎ (All Refuses bs × ((e : BundlerError) × (outcome ≡ (err e, w))))

  send_from-Sent :
      (i : ℕ) (bs : List (Bundler O R)) (failures : Bool) (w : Accepted)
      → w.lock_poisoned ≡ false
      → Sent i bs w (send_from op_hash op i bs failures w)
  unfolding send_from fail on_answer
  send_from-Sent i [] failures w free = inr (tt, (failed failures, refl))
  send_from-Sent i (b ∷ bs) failures w free = elim (Result-cases (b.sends op)) [
    | inl f ↦ inl (
      [],
      b,
      bs,
      f.0,
      refl,
      tt,
      inl f.1,
      ap (λ r. on_answer op_hash i op r (send_from op_hash op (suc i) bs true) w) f.1
          ∙ noted f.0 i (i + 0) w.index w.lock_poisoned free (omega arith),
    )
    | inr g ↦ elim (Bool-cases (already_known g.0)) [
      | inl known ↦ inl (
        [],
        b,
        bs,
        op_hash op,
        refl,
        tt,
        inr (g.0, g.1, known, refl),
        ap (λ r. on_answer op_hash i op r (send_from op_hash op (suc i) bs true) w) g.1
            ∙ ap
                (λ t.
                  (if t
                      then (record_index i >>= λ _. return (op_hash op))
                      else send_from op_hash op (suc i) bs true)
                    w)
                known
            ∙ noted (op_hash op) i (i + 0) w.index w.lock_poisoned free (omega arith),
      )
      | inr unknown ↦
          let skip : send_from op_hash op i (b ∷ bs) failures w
              ≡ send_from op_hash op (suc i) bs true w =
            ap (λ r. on_answer op_hash i op r (send_from op_hash op (suc i) bs true) w) g.1
            ∙ ap
                (λ t.
                  (if t
                      then (record_index i >>= λ _. return (op_hash op))
                      else send_from op_hash op (suc i) bs true)
                    w)
                unknown in
          elim (send_from-Sent (suc i) bs true w free) [
            | inl s ↦ inl (
              b ∷ s.0,
              s.1,
              s.2,
              s.3,
              ap (λ t. b ∷ t) s.4,
              ((g.0, g.1, unknown), s.5),
              s.6,
              skip ∙ s.7 ∙ moved s.3 (suc i + length s.0) (i + suc (length s.0)) w (omega arith),
            )
            | inr s ↦ inr (((g.0, g.1, unknown), s.0), (s.1.0, skip ∙ s.1.1))
          ]
    ]
  ]

  -- With the lock not poisoned: the operation goes to the first bundler that accepts it or knows it
  -- already, all before it having refused it, and that one is noted, with the hash it gave or that of
  -- the operation; or all have refused it, and nothing is noted.
  pub send_user_operation-Sent :
      (endpoints : List (Bundler O R)) (w : Accepted)
      → w.lock_poisoned ≡ false
      → Sent 0 endpoints w (send_user_operation op_hash endpoints op w)
  unfolding send_user_operation
  send_user_operation-Sent endpoints w free = send_from-Sent 0 endpoints false w free

zero_add : (n : ℕ) → 0 + n ≡ n
zero_add n = omega arith

at_length :
    {A : Type 0} (xs : List A) (y : A) (ys : List A) → get_elem? (xs ++ y ∷ ys) (length xs) ≡ some y
at_length [] y ys = refl
at_length (x ∷ xs) y ys = at_length xs y ys

module _ {O R : Type 0} (endpoints : List (Bundler O R)) (hash n : ℕ) (b : Bundler O R) where
  receipt-noted :
      (lock : Bool)
      → lock ≡ false
      → get_elem? endpoints n ≡ some b
      → receipt endpoints hash (record { index = some n; lock_poisoned = lock })
        ≡ (b.receipts hash, record { index = some n; lock_poisoned = lock })
  unfolding receipt receipt_at accepted_index ◌>>=◌ lift
  receipt-noted true e found = absurd cc
  receipt-noted false e found = rw (receipt_at, found) refl

  wait-noted :
      (lock : Bool)
      → lock ≡ false
      → get_elem? endpoints n ≡ some b
      → wait_for_receipt endpoints hash (record { index = some n; lock_poisoned = lock })
        ≡ (b.waits hash, record { index = some n; lock_poisoned = lock })
  unfolding wait_for_receipt wait_at accepted_index ◌>>=◌ lift
  wait-noted true e found = absurd cc
  wait-noted false e found = rw (wait_at, found) refl

not_both : {A E : Type 0} {a : A} {e : E} → ¬ (◌≡◌ {A = Result E A} (ok a) (err e))
not_both e = cc

-- With the lock not poisoned, after an operation was sent with success: its receipt is asked of, and
-- waited for with, the first bundler of the list that took it, which is at the index noted, and all
-- before it in the list have refused the operation.
pub sent-receipt :
    {O R : Type 0} (op_hash : O → ℕ) (op : O) (endpoints : List (Bundler O R)) (w after : Accepted)
    (hash : ℕ)
    → w.lock_poisoned ≡ false
    → send_user_operation op_hash endpoints op w ≡ (ok hash, after)
    → (before : List (Bundler O R)) × (b : Bundler O R) × (rest : List (Bundler O R)) × (endpoints
        ≡ before ++ b ∷ rest)
      × All (Refuses op_hash op) before
      × Takes op_hash op b hash
      × (after.index ≡ some (length before))
      × (receipt endpoints hash after ≡ (b.receipts hash, after))
      × (wait_for_receipt endpoints hash after ≡ (b.waits hash, after))
sent-receipt op_hash op endpoints w after hash free sent =
    elim (send_user_operation-Sent op_hash op endpoints w free) [
      | inl s ↦
          let same = sym sent ∙ s.7 in
          let hashes : s.3 ≡ hash = ok-injective (ap (λ t. t.0) same) refl in
          let ends : record w { index = some (0 + length s.0) } ≡ after =
            sym (ap (λ t. t.1) same) in
          let found : get_elem? endpoints (0 + length s.0) ≡ some s.1 =
            ap (λ t. get_elem? t (0 + length s.0)) s.4
            ∙ ap (get_elem? (s.0 ++ s.1 ∷ s.2)) (zero_add (length s.0))
            ∙ at_length s.0 s.1 s.2 in
          (
            s.0,
            s.1,
            s.2,
            s.4,
            s.5,
            subst (Takes op_hash op s.1) hashes s.6,
            sym (ap (λ t. t.index) ends) ∙ ap some (zero_add (length s.0)),
            subst (λ t. receipt endpoints hash t ≡ (s.1.receipts hash, t)) ends
                (receipt-noted endpoints hash (0 + length s.0) s.1 w.lock_poisoned free found),
            subst (λ t. wait_for_receipt endpoints hash t ≡ (s.1.waits hash, t)) ends
                (wait-noted endpoints hash (0 + length s.0) s.1 w.lock_poisoned free found),
          )
      | inr s ↦ absurd (not_both (ap (λ t. t.0) (sym sent ∙ s.1.1)))
    ]
