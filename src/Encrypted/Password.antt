-- ===== src/Encrypted/Password.antt =====
-- crates/core/src/database/encrypted.rs: a database is unlocked with the password it was created
-- with, or with the one it was last changed to, and gives the same data key.
use mathlib.Core.List.{append-nil}
use desktop_wallet.Common.{
  ℕ, ◌<◌, ◌^◌, ◌≡◌, ◌∙◌, refl, ap, subst, true, not, none, some, List, [], ◌∷◌, ◌++◌, length, keep,
}
use desktop_wallet.Common.Outcome.{ok, err}
use desktop_wallet.Exec.Runs.{Runs, Post, Runs-bind, Runs-given, Runs-weaken, Runs-return}
use desktop_wallet.Database.{Bytes, bytes_eq}
use desktop_wallet.Database.Scopes.{bytes_eq_iff}
use desktop_wallet.Sealing.{
  Crypto, StoredSlot, header_key, header_magic, database, password_slot_kind, invalid_password,
  no_matching_slot, store_version,
}
use desktop_wallet.Sealing.Bound.{Works, Binds, Differ, IsWrapped}
use desktop_wallet.Encrypted.{Backend, Disk, create_with, create, unlock, change_password}
use desktop_wallet.Encrypted.Backing.{
  Records, overwrite, IsStore, Never, Holds, db_get-Runs, fill_bytes-Runs,
}
use desktop_wallet.Encrypted.Slots.{
  IsLocked, is_password, wrap-Runs, try_slots-right, try_slots-wrong, keep_both, keep_twice,
  keep-append, new_source-Runs, write_header-Runs, read_header-Runs, unlock-lem,
}

-- the slots of a header of which the password's slot has been replaced
replaced :
    (slots : List StoredSlot) (slot : StoredSlot)
    → is_password slot ≡ true
    → (keep is_password (keep (λ s. not (is_password s)) slots ++ slot ∷ []) ≡ slot ∷ [])
      × (keep (λ s. not (is_password s)) (keep (λ s. not (is_password s)) slots ++ slot ∷ [])
          ≡ keep (λ s. not (is_password s)) slots)
replaced slots slot e =
    let others = keep (λ s. not (is_password s)) slots in
    (
      keep-append is_password others (slot ∷ []) ∙ rw (keep_both is_password slots, e) refl,
      keep-append (λ s. not (is_password s)) others (slot ∷ [])
          ∙ rw (keep_twice (λ s. not (is_password s)) slots, e) (append-nil others),
    )

module _ (c : Crypto) {S E : Type 0} {db : Backend S E} (store : IsStore db) (works : Works c) where
  -- the records `m`, beside a header that locks the data key
  abbrev pub Locked : Bytes → Bytes → List StoredSlot → Records → Disk S → Type 0
  Locked p d others m w =
      (bytes : Bytes) × Holds store (overwrite header_key (some bytes) m) w
      × IsLocked c E p d others (some bytes)

  create-Runs :
      (m : Records) (b : ℕ) (bs : Bytes)
      → length (b ∷ bs) < 2 ^ 32
      → m header_key ≡ none
      → Runs
          (Holds store m)
          (create c db (b ∷ bs))
          (λ d w. (length d ≡ 32) × Locked (b ∷ bs) d [] m w)
          Never
  unfolding create create_with
  create-Runs m b bs small empty =
      Runs-bind _ _ (new_source-Runs c store works (Holds store m) b bs) (λ p. Runs-given (λ same.
        Runs-bind _ _ (db_get-Runs store database m header_key) (λ present. Runs-given (λ got.
          (rw (got, empty)
            (Runs-bind _ _
              (fill_bytes-Runs (λ s. Holds store m (record { inner = s; drawn = 0 })) c works 32)
              (λ d. Runs-given (λ size.
                Runs-bind _ _
                  (wrap-Runs c works (λ s. Holds store m (record { inner = s; drawn = 0 })) p d
                    (rw same small) size)
                  (λ slot. Runs-given (λ wrapped.
                    Runs-bind {Q = λ _ w. (length d ≡ 32) × Locked (b ∷ bs) d [] m w} _ _
                      (Runs-weaken (λ w g. g)
                        (λ _ w g. (
                          size,
                          (
                            g.0,
                            g.2,
                            record {
                              header = record {
                                magic = header_magic;
                                version = store_version;
                                slots = slot ∷ [];
                              };
                              slot = slot;
                              decodes = (g.0, refl, g.1, refl, refl);
                              wrapped = subst (λ t. IsWrapped c E t d slot) same wrapped;
                              mine =
                                  rw
                                    ((bytes_eq_iff slot.kind password_slot_kind).1
                                      wrapped.kind_kept)
                                    refl;
                              rest =
                                  rw
                                    ((bytes_eq_iff slot.kind password_slot_kind).1
                                      wrapped.kind_kept)
                                    refl;
                            },
                          ),
                        ))
                        (λ w g. g) (write_header-Runs c store works m _))
                      (λ _. Runs-return d (λ w g. g))))))))))))

  change_password-Runs :
      (m : Records) (p d : Bytes) (others : List StoredSlot) (b : ℕ) (bs : Bytes)
      → length (b ∷ bs) < 2 ^ 32
      → length d ≡ 32
      → IsLocked c E p d others (m header_key)
      → Runs
          (Holds store m)
          (change_password c db d (b ∷ bs))
          (λ _. Locked (b ∷ bs) d others m)
          Never
  unfolding change_password
  change_password-Runs m p d others b bs small size locked =
      Runs-bind _ _ (new_source-Runs c store works (Holds store m) b bs) (λ q. Runs-given (λ same.
        Runs-bind _ _
          (wrap-Runs c works (λ s. Holds store m (record { inner = s; drawn = 0 })) q d
            (rw same small) size)
          (λ slot. Runs-given (λ wrapped.
            Runs-bind _ _ (read_header-Runs c store works m locked.header locked.decodes) (λ header.
              Runs-given (λ same'.
                Runs-weaken (λ w g. g)
                  (λ _ w g. (
                    g.0,
                    g.2,
                    let swap =
                          replaced header.slots slot
                            ((bytes_eq_iff slot.kind password_slot_kind).1 wrapped.kind_kept) in
                        record {
                          header = record header {
                            slots = keep (λ s. not (is_password s)) header.slots ++ slot ∷ [];
                          };
                          slot = slot;
                          decodes = (
                            g.0,
                            refl,
                            g.1,
                            ap (λ h. h.magic) same' ∙ locked.decodes.3,
                            ap (λ h. h.version) same' ∙ locked.decodes.4,
                          );
                          wrapped = subst (λ t. IsWrapped c E t d slot) same wrapped;
                          mine = swap.0;
                          rest =
                              swap.1
                              ∙ ap (λ h. keep (λ s. not (is_password s)) h.slots) same'
                              ∙ locked.rest;
                        },
                  ))
                  (λ w g. g) (write_header-Runs c store works m _)))))))

  unlock-right :
      (m : Records) (d : Bytes) (others : List StoredSlot) (b : ℕ) (bs : Bytes) (w : Disk S)
      → length d ≡ 32
      → Locked (b ∷ bs) d others m w
      → unlock c db (b ∷ bs) w ≡ (ok d, w)
  unfolding bytes_eq
  unlock-right m d others b bs w size l =
      unlock-lem c store works (overwrite header_key (some l.0) m) (b ∷ bs) d others b bs (ok d) l.2
        (try_slots-right c works (b ∷ bs) d l.2.slot (no_matching_slot password_slot_kind)
          l.2.wrapped size)
        w l.1

  unlock-wrong :
      (m : Records) (p d : Bytes) (others : List StoredSlot) (b : ℕ) (bs : Bytes) (w : Disk S)
      → Binds c
      → length d ≡ 32
      → length (b ∷ bs) < 2 ^ 32
      → Differ c p (b ∷ bs)
      → Locked p d others m w
      → unlock c db (b ∷ bs) w ≡ (err invalid_password, w)
  unfolding bytes_eq
  unlock-wrong m p d others b bs w binds size small apart l =
      unlock-lem c store works (overwrite header_key (some l.0) m) p d others b bs
        (err invalid_password) l.2
        (try_slots-wrong c works p (b ∷ bs) d l.2.slot (no_matching_slot password_slot_kind) binds
          l.2.wrapped size small apart)
        w l.1

  -- Over a backend that works and has no header, a database is created with a password that is not
  -- empty; unlocking it with this password gives the data key of 32 bytes that it was created with.
  pub create-unlock :
      (m : Records) (b : ℕ) (bs : Bytes) (w : Disk S)
      → length (b ∷ bs) < 2 ^ 32
      → m header_key ≡ none
      → Holds store m w
      → Post
          (λ d after. (length d ≡ 32) × (unlock c db (b ∷ bs) after ≡ (ok d, after)))
          Never
          (create c db (b ∷ bs) w)
  create-unlock m b bs w small empty holds =
      (Runs-weaken (λ w g. g) (λ d w g. (g.0, unlock-right m d [] b bs w g.0 g.1)) (λ w g. g)
          (create-Runs m b bs small empty)).at
        w holds

  -- Over a backend that works, and with ciphers that bind: the change of the password of a database
  -- succeeds and keeps its records, the data key and the slots of other kinds; the database is then
  -- unlocked with the new password, to the same data key, and any password that is not empty
  -- and that no salt takes to the key of the new one is refused as invalid.
  pub change_password-unlock :
      (p d : Bytes) (others : List StoredSlot) (m : Records) (b : ℕ) (bs : Bytes) (w : Disk S)
      → Binds c
      → length (b ∷ bs) < 2 ^ 32
      → length d ≡ 32
      → Holds store m w
      → IsLocked c E p d others (m header_key)
      → Post
          (λ _ after.
            Locked (b ∷ bs) d others m after
            × (unlock c db (b ∷ bs) after ≡ (ok d, after))
            × ((a : ℕ) (rest : Bytes)
                → length (a ∷ rest) < 2 ^ 32
                → Differ c (b ∷ bs) (a ∷ rest)
                → unlock c db (a ∷ rest) after ≡ (err invalid_password, after)))
          Never
          (change_password c db d (b ∷ bs) w)
  change_password-unlock p d others m b bs w binds small size holds locked =
      (Runs-weaken (λ w g. g)
          (λ _ w g. (
            g,
            unlock-right m d others b bs w size g,
            λ a rest short apart.
                unlock-wrong m (b ∷ bs) d others a rest w binds size short apart g,
          ))
          (λ w g. g) (change_password-Runs m p d others b bs small size locked)).at
        w holds
