-- ===== src/Encrypted/Slots.antt =====
-- crates/core/src/database/encrypted.rs: creating and unlocking an encrypted database, and the
-- change of its password.
use desktop_wallet.Common.{
  ℕ, ◌<◌, ◌^◌, ◌≡◌, ◌∙◌, refl, sym, ap, Bool, not, Option, some, List, [], ◌∷◌, ◌++◌, length, keep,
  Bool-cases, inl, inr, arith,
}
use desktop_wallet.Common.Outcome.{Result, ok, err}
use desktop_wallet.Exec.{◌>>=◌}
use desktop_wallet.Exec.Runs.{Runs, Runs-bind, Runs-given, Runs-weaken, Runs-return}
use desktop_wallet.Database.{Bytes, bytes_eq}
use desktop_wallet.Database.Scopes.{bytes_eq_iff}
use desktop_wallet.Sealing.{
  Crypto, slot_of, StoredSlot, KeystoreHeader, EncryptedDatabaseError, header_key, header_magic,
  database, password_slot_kind, decode_header, invalid_password, no_matching_slot, from_password,
  current_params, store_version, sealed, decoded, try_slots,
}
use desktop_wallet.Sealing.Bound.{
  Works, Binds, Differ, IsWrapped, sealed-unseal, unwrap-right, unwrap-wrong,
}
use desktop_wallet.Encrypted.{
  Backend, Disk, db_get, seal_with, wrap, new_source, read_header, write_header, unlock_with,
  unlock, found,
}
use desktop_wallet.Encrypted.Backing.{
  Records, overwrite, IsStore, Never, Holds, db_get-Runs, db_put-Runs, Runs-lift_ok,
  fill_bytes-Runs,
}

-- a header that postcard reads from the stored bytes, and this version accepts
abbrev pub Decodes : Crypto → Option Bytes → KeystoreHeader → Type 0
Decodes c stored header =
    (bytes : Bytes) × (stored ≡ some bytes)
    × (c.read_header bytes ≡ some header)
    × (header.magic ≡ header_magic)
    × (header.version ≡ store_version)

module _ (c : Crypto) {S E : Type 0} (works : Works c) where
  pub wrap-Runs :
      (V : S → Type 0) (p d : Bytes)
      → length p < 2 ^ 32
      → length d ≡ 32
      → Runs
          (λ w. V w.inner)
          (wrap c {S = S} {E = E} p d)
          (λ slot w. IsWrapped c E p d slot × V w.inner)
          Never
  unfolding wrap from_password seal_with
  wrap-Runs V p d small size = Runs-bind _ _ (fill_bytes-Runs V c works 16) (λ salt.
      Runs-given (λ long.
        let key = works.stretches p salt small long in
        Runs-bind _ _
          (Runs-lift_ok {Q = λ x w. (x ≡ key.0) × V w.inner} key.0 (rw key.1 refl)
            (λ w g. (refl, g)))
          (λ k. Runs-given (λ same.
            Runs-bind
              {Q = λ x w.
                ((n : Bytes) × (length n ≡ 24)
                  × (sealed c {E = E} k n (slot_of password_slot_kind) d ≡ ok x))
                × V w.inner}
              _ _
              (Runs-bind _ _ (fill_bytes-Runs V c works 24) (λ n. Runs-given (λ long'.
                let box =
                  sealed-unseal c works k n d (slot_of password_slot_kind) (ap length same ∙ key.2)
                    long' (omega (arith, size)) in
                Runs-lift_ok box.0 box.1 (λ w g. ((n, long', box.1), g)))))
              (λ wrapped. Runs-given (λ made.
                let coded = works.params_kept (current_params salt) in
                Runs-bind _ _
                  (Runs-lift_ok {Q = λ x w. (x ≡ coded.0) × V w.inner} coded.0 (rw coded.1 refl)
                    (λ w g. (refl, g)))
                  (λ b. Runs-given (λ same'. Runs-return _ (λ w g. (
                    record {
                      salt = salt;
                      nonce = made.0;
                      key = k;
                      kind_kept = refl;
                      params_read = ap c.read_params same' ∙ coded.2;
                      salt_length = long;
                      stretched = key.1 ∙ ap some (sym same);
                      key_length = ap length same ∙ key.2;
                      nonce_length = made.1;
                      sealed_as = made.2;
                    },
                    g,
                  ))))))))))

module _ (c : Crypto) {E : Type 0} where
  decoded-Decodes :
      (stored : Option Bytes) (header : KeystoreHeader)
      → Decodes c stored header
      → decoded c {E = E} stored ≡ ok header
  unfolding decoded decode_header
  decoded-Decodes stored header h =
      rw (h.1, h.2, h.3, h.4, (bytes_eq_iff header_magic header_magic).1 refl) refl

  module _ (works : Works c) where
    pub try_slots-right :
        (p d : Bytes) (slot : StoredSlot) (e : EncryptedDatabaseError E)
        → IsWrapped c E p d slot
        → length d ≡ 32
        → try_slots c p (slot ∷ []) e ≡ ok d
    unfolding try_slots
    try_slots-right p d slot e s size = rw (try_slots, unwrap-right c works p d slot s size) refl

    pub try_slots-wrong :
        (p q d : Bytes) (slot : StoredSlot) (e : EncryptedDatabaseError E)
        → Binds c
        → IsWrapped c E p d slot
        → length d ≡ 32
        → length q < 2 ^ 32
        → Differ c p q
        → try_slots c q (slot ∷ []) e ≡ err invalid_password
    unfolding try_slots
    try_slots-wrong p q d slot e binds s size small apart =
        rw (try_slots, unwrap-wrong c works p q d slot binds s size small apart) refl

abbrev pub is_password : StoredSlot → Bool
is_password slot = bytes_eq slot.kind password_slot_kind

module _ {A : Type 0} (f : A → Bool) where
  pub keep_both : (xs : List A) → keep f (keep (λ x. not (f x)) xs) ≡ []
  keep_both [] = refl
  keep_both (x ∷ xs) = elim (Bool-cases (f x)) [
    | inl e ↦ rw e (keep_both xs)
    | inr e ↦ rw e (rw e (keep_both xs))
  ]

  pub keep_twice : (xs : List A) → keep f (keep f xs) ≡ keep f xs
  keep_twice [] = refl
  keep_twice (x ∷ xs) = elim (Bool-cases (f x)) [
    | inl e ↦ rw (e, keep_twice xs) (rw e refl)
    | inr e ↦ rw e (keep_twice xs)
  ]

  pub keep-append : (xs ys : List A) → keep f (xs ++ ys) ≡ keep f xs ++ keep f ys
  keep-append [] ys = refl
  keep-append (x ∷ xs) ys = elim (Bool-cases (f x)) [
    | inl e ↦ rw (e, keep-append xs ys) refl
    | inr e ↦ rw (e, keep-append xs ys) refl
  ]

-- The stored header holds one slot of the password kind, in which the password has wrapped the data
-- key, and beside it the slots `others`.
pub record IsLocked (c : Crypto) (E : Type 0) (p d : Bytes) (others : List StoredSlot)
    (stored : Option Bytes) : Type 0 where
  pub header : KeystoreHeader
  pub slot : StoredSlot
  pub decodes : Decodes c stored header
  pub wrapped : IsWrapped c E p d slot
  pub mine : keep is_password header.slots ≡ slot ∷ []
  pub rest : keep (λ s. not (is_password s)) header.slots ≡ others

module _ (c : Crypto) {S E : Type 0} {db : Backend S E} (store : IsStore db) (works : Works c) where
  pub new_source-Runs :
      (P : Disk S → Type 0) (b : ℕ) (bs : Bytes)
      → Runs P (new_source {S = S} {E = E} (b ∷ bs)) (λ p w. (p ≡ b ∷ bs) × P w) Never
  unfolding new_source
  new_source-Runs P b bs = Runs-return (b ∷ bs) (λ w g. (refl, g))

  pub write_header-Runs :
      (m : Records) (header : KeystoreHeader)
      → Runs
          (Holds store m)
          (write_header c db header)
          (λ _ w.
            (bytes : Bytes) × (c.read_header bytes ≡ some header)
            × Holds store (overwrite header_key (some bytes) m) w)
          Never
  unfolding write_header
  write_header-Runs m header =
      let coded = works.header_kept header in
      Runs-bind _ _
        (Runs-lift_ok {Q = λ x w. (x ≡ coded.0) × Holds store m w} coded.0 (rw coded.1 refl)
          (λ w g. (refl, g)))
        (λ b. Runs-given (λ same.
          Runs-weaken (λ w g. g) (λ _ w g. (b, ap c.read_header same ∙ coded.2, g)) (λ w g. g)
            (db_put-Runs store database m header_key b)))

  pub read_header-Runs :
      (m : Records) (header : KeystoreHeader)
      → Decodes c (m header_key) header
      → Runs (Holds store m) (read_header c db) (λ h w. (h ≡ header) × Holds store m w) Never
  unfolding read_header
  read_header-Runs m header decodes =
      Runs-bind _ _ (db_get-Runs store database m header_key) (λ stored. Runs-given (λ same.
        Runs-lift_ok header (ap (decoded c) same ∙ decoded-Decodes c (m header_key) header decodes)
          (λ w g. (refl, g))))

  -- what `unlock_with` gives is computed from the header
  pub unlock-lem :
      (m : Records) (p d : Bytes) (others : List StoredSlot) (b : ℕ) (bs : Bytes)
      (r : Result (EncryptedDatabaseError E) Bytes)
      → (locked : IsLocked c E p d others (m header_key))
      → try_slots c (b ∷ bs) (locked.slot ∷ []) (no_matching_slot password_slot_kind) ≡ r
      → (w : Disk S) → Holds store m w
      → unlock c db (b ∷ bs) w ≡ (r, w)
  unfolding unlock new_source unlock_with read_header db_get found ◌>>=◌
  unlock-lem m p d others b bs r locked tried w holds =
      let seen : store.view w.inner header_key ≡ m header_key = ap (λ f. f header_key) holds.1 in
      rw
        (
          store.gets w.inner header_key holds.0,
          seen,
          decoded-Decodes c {E = E} (m header_key) locked.header locked.decodes,
          locked.mine,
          tried,
        )
        refl
