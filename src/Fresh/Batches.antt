-- ===== src/Fresh/Batches.antt =====
-- crates/core/src/mnemonic/scan.rs: what the scan of the standard addresses answers, where the
-- derivation and the endpoint answer.
use desktop_wallet.Common.{
  ℕ, zero, suc, ◌+◌, ◌*◌, ◌≤◌, ◌<◌, ◌≡◌, refl, sym, ap, subst, Bool, true, false, Option, none,
  some, List, [], ◌∷◌, ◌++◌, ltb, leb, leb→le, ltb→lt, if◌then◌else◌, arith, ◌||◌, take, length,
  length-append, Bool-cases, inl, inr, ◌==◌, ==_iff,
}
use desktop_wallet.Common.Outcome.{Result, ok, err}
use desktop_wallet.Common.U256.{u32_mod}
use desktop_wallet.Fresh.{
  max_index, batch_size, add_u32, MnemonicError, scan_limit, EoaScan, Progress, inspect, scan_batch,
  finish_scan, scan_loop, scan_with,
}

take-all : {A : Type 0} (n : ℕ) (xs : List A) → n ≡ length xs → take n xs ≡ xs
take-all zero [] h = refl
take-all zero (x ∷ xs) h = absurd (omega arith)
take-all (suc n) [] h = refl
take-all (suc n) (x ∷ xs) h = ap (λ ys. x ∷ ys) (take-all n xs (omega arith))

take-within : {A : Type 0} (n : ℕ) (xs ys : List A) → n ≤ length xs → take n (xs ++ ys) ≡ take n xs
take-within zero xs ys h = refl
take-within (suc n) [] ys h = absurd (omega arith)
take-within (suc n) (x ∷ xs) ys h = ap (λ zs. x ∷ zs) (take-within n xs ys (omega arith))

module _ {Address : Type 0} (derive : ℕ → Address) where
  -- the first `n` addresses, with their indices
  unfoldable pub numbered : ℕ → List (ℕ × Address)
  numbered zero = []
  numbered (suc n) = numbered n ++ (n, derive n) ∷ []

  length-numbered : (n : ℕ) → length (numbered n) ≡ n
  unfolding numbered
  length-numbered zero = refl
  length-numbered (suc n) =
      omega (arith, length-append (numbered n) ((n, derive n) ∷ []), length-numbered n)

  take-numbered : (n m : ℕ) → n ≤ m → take n (numbered m) ≡ numbered n
  unfolding numbered
  take-numbered zero zero le = refl
  take-numbered (suc n) zero le = absurd (omega arith)
  take-numbered n (suc m) le = elim (Bool-cases (n == suc m)) [
    | inl e ↦
        let same : n ≡ suc m = (==_iff n (suc m)).0 e in
        subst (λ k. take k (numbered (suc m)) ≡ numbered k) (sym same)
          (take-all (suc m) (numbered (suc m)) (sym (length-numbered (suc m))))
    | inr e ↦
        let below : n ≤ m = ground arith in
        let room : n ≤ length (numbered m) = rw (length-numbered m) below in
        rw (take-within n (numbered m) ((m, derive m) ∷ []) room) (take-numbered n m below)
  ]

last_or-lt :
    (b : Bool) (n l : ℕ) (o : Option ℕ)
    → (if b then some n else o) ≡ some l
    → (o ≡ some l → l < n)
    → l < suc n
last_or-lt true n l o h lower = let at_n : n ≡ l = cc in omega arith
last_or-lt false n l o h lower = let below = lower h in omega arith

module _ (used : ℕ → Bool) where
  -- the last used index below a bound
  unfoldable pub last_below : ℕ → Option ℕ
  last_below zero = none
  last_below (suc n) = if used n then some n else last_below n

  -- whether any of so many indices from the second argument on is used
  unfoldable pub any_used : ℕ → ℕ → Bool
  any_used zero from = false
  any_used (suc left) from = used from || any_used left (suc from)

  last_below-lt : (n : ℕ) (l : ℕ) → last_below n ≡ some l → l < n
  unfolding last_below
  last_below-lt zero l h = absurd (cc)
  last_below-lt (suc n) l h = last_or-lt (used n) n l (last_below n) h (last_below-lt n l)

module _ {Address : Type 0} (derive : ℕ → Address) (used : ℕ → Bool) where
  -- the variables of the scan before index `n`
  abbrev pub before_index : ℕ → Bool → Progress Address
  before_index n b = record {
    scanned = numbered derive n;
    last = last_below used n;
    batch_used = b;
  }

  -- what a scan of the indices below `n` answers
  -- the answer of a scan whose last used index is given
  abbrev pub scan_of : Option ℕ → EoaScan Address
  scan_of none = record { addresses = []; last_used = none; next_unused = 0 }
  scan_of (some l) = record {
    addresses = numbered derive (suc l);
    last_used = some l;
    next_unused = suc l;
  }

  finish_last :
      (n : ℕ) (o : Option ℕ) (b : Bool)
      → last_below used n ≡ o
      → n < u32_mod
      → finish_scan (before_index n b) ≡ scan_of o
  unfolding finish_scan
  finish_last n none b e lt = rw e refl
  finish_last n (some l) b e lt =
      let below : l < n = last_below-lt used n l e in
      let room : add_u32 l 1 ≡ suc l = omega arith in
      let one : l + 1 ≡ suc l = omega arith in
      rw (e, room, one, take-numbered derive (suc l) n (omega arith)) refl

  -- the answer when batch `k` is the first without a used index, or there is none for 100
  abbrev pub answer : {E : Type 0} → ℕ → Result (MnemonicError E) (EoaScan Address)
  answer k =
      if ltb k 100
      then ok (scan_of (last_below used (batch_size * suc k)))
      else err (scan_limit max_index)

module _ {Address E : Type 0} (standard_address : ℕ → Result (MnemonicError E) Address)
    (is_used : Address → Result (MnemonicError E) Bool) (derive : ℕ → Address) (used : ℕ → Bool)
    (derives : (i : ℕ) → i < max_index → standard_address i ≡ ok (derive i))
    (answers : (i : ℕ) → i < max_index → is_used (derive i) ≡ ok (used i)) where
  inspect-before :
      (i : ℕ) (b : Bool)
      → i < max_index
      → inspect standard_address is_used i (before_index derive used i b)
        ≡ ok (before_index derive used (suc i) (used i || b))
  unfolding inspect numbered last_below
  inspect-before i b lt = rw (derives i lt, answers i lt) refl

  scan_batch-before :
      (left i : ℕ) (b : Bool)
      → i + left ≤ max_index
      → scan_batch standard_address is_used left i (before_index derive used i b)
        ≡ ok (before_index derive used (i + left) (any_used used left i || b))
  unfolding scan_batch any_used
  scan_batch-before zero i b le = let same : i + 0 ≡ i = omega arith in rw same refl
  scan_batch-before (suc left) i b le =
      rw
        (
          inspect-before i b (omega arith),
          scan_batch-before left (suc i) (used i || b) (omega arith),
        )
        (let index : suc i + left ≡ i + suc left = omega arith in
          let either : (any_used used left (suc i) || (used i || b))
              ≡ ((used i || any_used used left (suc i)) || b) =
            ground arith in
          rw (index, either) refl)

  scan_loop-answer :
      (fuel j k : ℕ) (b : Bool)
      → j ≤ k
      → k < j + fuel
      → k ≤ 100
      → ((i : ℕ) → i < k → any_used used batch_size (batch_size * i) ≡ true)
      → (k < 100 → any_used used batch_size (batch_size * k) ≡ false)
      → scan_loop standard_address is_used fuel
          (batch_size * j)
          (before_index derive used (batch_size * j) b)
        ≡ answer derive used k
  unfolding scan_loop
  scan_loop-answer zero j k b le enough top full empty = absurd (omega arith)
  scan_loop-answer (suc fuel) j k b le enough top full empty =
      elim (Bool-cases (leb max_index (batch_size * j))) [
        | inl e ↦
            let past = leb→le max_index (batch_size * j) e in
            let last : ltb k 100 ≡ false = ground arith in rw (e, last) refl
        | inr e ↦
            let room : batch_size * j + batch_size ≤ max_index = ground arith in
            let scanned = scan_batch-before batch_size (batch_size * j) false room in
            elim (Bool-cases (j == k)) [
              | inl here ↦
                  let same : j ≡ k = (==_iff j k).0 here in
                  let more : ltb k 100 ≡ true = ground arith in
                  let none_used : any_used used batch_size (batch_size * j) ≡ false =
                    rw same (empty (ltb→lt k 100 more)) in
                  let index : batch_size * j + batch_size ≡ batch_size * suc k = omega arith in
                  rw (e, scanned, none_used, more, index)
                    (ap ok
                      (finish_last derive used (batch_size * suc k) _ false refl (omega arith)))
              | inr there ↦
                  let below : j < k = ground arith in
                  let next : add_u32 (batch_size * j) batch_size ≡ batch_size * suc j =
                    omega arith in
                  let index : batch_size * j + batch_size ≡ batch_size * suc j = omega arith in
                  rw (e, scanned, full j below, next, index)
                    (scan_loop-answer fuel (suc j) k true (omega arith) (omega arith) top full
                      empty)
            ]
      ]

  -- Where the derivation and the endpoint answer for every index below 1000, and `k`, at most 100,
  -- is the first batch of ten indices without a used one, or is 100 and every batch has a used one:
  -- the scan ends, within its fuel. Below 100 it answers the last used index up to the end of batch
  -- `k`, the index after it, and every address from index 0 through the last used one, in order;
  -- with no used index it answers no address and index 0. At 100 it fails with the limit.
  pub scan_with-answer :
      (k : ℕ)
      → k ≤ 100
      → ((i : ℕ) → i < k → any_used used batch_size (batch_size * i) ≡ true)
      → (k < 100 → any_used used batch_size (batch_size * k) ≡ false)
      → scan_with standard_address is_used ≡ answer derive used k
  unfolding scan_with numbered last_below
  scan_with-answer k top full empty =
      scan_loop-answer 101 0 k false (omega arith) (omega arith) top full empty
