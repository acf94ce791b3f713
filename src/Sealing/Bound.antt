-- ===== src/Sealing/Bound.antt =====
-- crates/core/src/database/encrypted.rs: a sealed value opens under its key and what it was sealed
-- for, and under nothing else; and the data key comes back from the slot it was wrapped in.
use desktop_wallet.Common.{
  ℕ, ◌<◌, ◌^◌, ◌≡◌, ◌≢◌, refl, sym, ap, subst, false, Option, none, some, [], ◌∷◌, ◌++◌, List,
  length, take, drop, arith, suc, zero, length-append, ltb, ◌∙◌,
}
use desktop_wallet.Common.Outcome.{Result, ok, err, ok_or, ok-injective}
use desktop_wallet.Database.{Bytes}
use desktop_wallet.Database.Scopes.{∷-injective, append-injective}
use desktop_wallet.Sealing.{
  Crypto, StoredSlot, KeystoreHeader, Argon2idParams, Aad, record_of, slot_of,
  EncryptedDatabaseError, corrupt, invalid_password, cipher, sealed, unseal, unwrap, aad_bytes,
  from_password, from_slice, or_invalid, unsupported, current_params, record_aad_domain,
  slot_aad_domain, password_slot_kind,
}

-- What the wallet relies on. Argon2id takes passwords below 2^32 bytes and this salt; HKDF expands
-- to a key of 32 bytes; the cipher seals values below 2^32 bytes and opens what it has sealed;
-- postcard reads what it has written.
pub record Works (c : Crypto) : Type 0 where
  pub stretches :
      (p salt : Bytes)
      → length p < 2 ^ 32
      → length salt ≡ 16
      → (k : Bytes) × (c.stretch p salt ≡ some k) × (length k ≡ 32)
  pub expands :
      (d : Bytes) (parts : List Bytes)
      → length d ≡ 32
      → (k : Bytes) × (c.expand d parts ≡ some k) × (length k ≡ 32)
  pub encrypts :
      (k n a text : Bytes)
      → length k ≡ 32
      → length n ≡ 24
      → length text < 2 ^ 32
      → (x : Bytes) × (c.encrypt k n a text ≡ some x)
  pub decrypts :
      (k n a text x : Bytes) → c.encrypt k n a text ≡ some x → c.decrypt k n a x ≡ some text
  pub draws : (i n : ℕ) → length (c.random i n) ≡ n
  pub params_kept :
      (p : Argon2idParams) → (b : Bytes) × (c.write_params p ≡ some b) × (c.read_params b ≡ some p)
  pub header_kept :
      (h : KeystoreHeader) → (b : Bytes) × (c.write_header h ≡ some b) × (c.read_header b ≡ some h)

-- No collisions: what opens was sealed with the same key and additional data.
pub record Binds (c : Crypto) : Type 0 where
  pub bound :
      (k l n a b text other x : Bytes)
      → c.encrypt k n a text ≡ some x
      → c.decrypt l n b x ≡ some other
      → (k ≡ l) × (a ≡ b)

-- no salt takes the two passwords to one key
abbrev pub Differ : Crypto → Bytes → Bytes → Type 0
Differ c p q = (salt k : Bytes) → c.stretch p salt ≡ some k → c.stretch q salt ≢ some k

take_front : (xs ys : Bytes) (n : ℕ) → length xs ≡ n → take n (xs ++ ys) ≡ xs
take_front [] ys zero e = refl
take_front [] ys (suc n) e = absurd (omega arith)
take_front (x ∷ xs) ys zero e = absurd (omega arith)
take_front (x ∷ xs) ys (suc n) e = ap (λ t. x ∷ t) (take_front xs ys n (omega arith))

drop_front : (xs ys : Bytes) (n : ℕ) → length xs ≡ n → drop n (xs ++ ys) ≡ ys
drop_front [] ys zero e = refl
drop_front [] ys (suc n) e = absurd (omega arith)
drop_front (x ∷ xs) ys zero e = absurd (omega arith)
drop_front (x ∷ xs) ys (suc n) e = drop_front xs ys n (omega arith)

-- the domains differ in their fifth byte
domains_apart : (k l : Bytes) → record_aad_domain ++ k ≢ slot_aad_domain ++ l
domains_apart k l e =
    let fourth = (∷-injective (∷-injective (∷-injective (∷-injective e).1).1).1).1 in
    let bad = (∷-injective fourth).0 in omega arith

-- the additional data of records and of slots are never equal, nor those of two keys or two kinds
aad_bytes-injective : (a b : Aad) → aad_bytes a ≡ aad_bytes b → a ≡ b
unfolding aad_bytes
aad_bytes-injective (record_of k) (record_of l) e =
    ap record_of (append-injective record_aad_domain record_aad_domain refl (∷-injective e).1).1
aad_bytes-injective (slot_of k) (slot_of l) e =
    ap slot_of (append-injective slot_aad_domain slot_aad_domain refl (∷-injective e).1).1
aad_bytes-injective (record_of k) (slot_of l) e = absurd (domains_apart k l (∷-injective e).1)
aad_bytes-injective (slot_of k) (record_of l) e = absurd (domains_apart l k (sym (∷-injective e).1))

ok_or-some : {F : Type 0} (e : F) {a : Bytes} (o : Option Bytes) → ok_or e o ≡ ok a → o ≡ some a
ok_or-some e none h = absurd cc
ok_or-some e (some b) h = cc

module _ (c : Crypto) {E : Type 0} where
  cipher-key : (k : Bytes) → length k ≡ 32 → cipher c {E = E} k ≡ ok k
  unfolding cipher
  cipher-key k e = rw e refl

  -- how a blob opens
  unseal-sealed_lem :
      (l n x : Bytes) (b : Aad)
      → length l ≡ 32
      → length n ≡ 24
      → unseal c {E = E} l b (2 ∷ (n ++ x)) ≡ ok_or corrupt (c.decrypt l n (aad_bytes b) x)
  unfolding unseal
  unseal-sealed_lem l n x b size size' =
      let long : ltb (length (n ++ x)) 24 ≡ false = let both = length-append n x in ground arith in
      rw (long, take_front n x 24 size', drop_front n x 24 size', cipher-key l size) refl

  module _ (works : Works c) where
    -- a value is sealed, and opens
    pub sealed-unseal :
        (k n text : Bytes) (a : Aad)
        → length k ≡ 32
        → length n ≡ 24
        → length text < 2 ^ 32
        → (blob : Bytes) × (sealed c {E = E} k n a text ≡ ok blob)
          × (unseal c {E = E} k a blob ≡ ok text)
    unfolding sealed
    sealed-unseal k n text a size size' small =
        let box = works.encrypts k n (aad_bytes a) text size size' small in
        (
          2 ∷ (n ++ box.0),
          rw (cipher-key k size, box.1) refl,
          rw
              (
                unseal-sealed_lem k n box.0 a size size',
                works.decrypts k n (aad_bytes a) text box.0 box.1,
              )
              refl,
        )

    -- With a cipher that binds, a value that was sealed for a record or a slot and opens under some
    -- key of 32 bytes is opened under the key and for the record or the slot that it was sealed with.
    pub unseal-bound :
        (k l n text plain blob : Bytes) (a b : Aad)
        → Binds c
        → length k ≡ 32
        → length l ≡ 32
        → length n ≡ 24
        → length text < 2 ^ 32
        → sealed c {E = E} k n a text ≡ ok blob
        → unseal c {E = E} l b blob ≡ ok plain
        → (k ≡ l) × (a ≡ b)
    unfolding sealed
    unseal-bound k l n text plain blob a b binds size size' size'' small made opens =
        let box = works.encrypts k n (aad_bytes a) text size size'' small in
        let shape : sealed c {E = E} k n a text ≡ ok (2 ∷ (n ++ box.0)) =
          rw (cipher-key k size, box.1) refl in
        let same : blob ≡ 2 ∷ (n ++ box.0) = ok-injective made shape in
        let seen : ok_or corrupt (c.decrypt l n (aad_bytes b) box.0) ≡ ok plain =
          sym (unseal-sealed_lem l n box.0 b size' size'')
          ∙ subst (λ t. unseal c {E = E} l b t ≡ ok plain) same opens in
        let both =
          binds.bound k l n (aad_bytes a) (aad_bytes b) text plain box.0 box.1
            (ok_or-some _ _ seen) in
        (both.0, aad_bytes-injective a b both.1)

-- a slot in which a password has wrapped a data key
pub record IsWrapped (c : Crypto) (E : Type 0) (p d : Bytes) (slot : StoredSlot) : Type 0 where
  pub salt : Bytes
  pub nonce : Bytes
  pub key : Bytes
  pub kind_kept : slot.kind ≡ password_slot_kind
  pub params_read : c.read_params slot.params ≡ some (current_params salt)
  pub salt_length : length salt ≡ 16
  pub stretched : c.stretch p salt ≡ some key
  pub key_length : length key ≡ 32
  pub nonce_length : length nonce ≡ 24
  pub sealed_as : sealed c {E = E} key nonce (slot_of password_slot_kind) d ≡ ok slot.wrapped

supported : (salt : Bytes) → length salt ≡ 16 → unsupported (current_params salt) ≡ false
unfolding unsupported current_params
supported salt e = rw e refl

module _ (c : Crypto) {E : Type 0} (works : Works c) where
  -- the password opens its slot
  pub unwrap-right :
      (p d : Bytes) (slot : StoredSlot)
      → IsWrapped c E p d slot
      → length d ≡ 32
      → unwrap c {E = E} p slot ≡ ok d
  unfolding unwrap from_password or_invalid from_slice current_params
  unwrap-right p d slot s size =
      let again =
        sealed-unseal c works s.key s.nonce d (slot_of password_slot_kind) s.key_length
          s.nonce_length (omega (arith, size)) in
      let same : again.0 ≡ slot.wrapped = ok-injective again.1 s.sealed_as in
      let opens : unseal c {E = E} s.key (slot_of password_slot_kind) slot.wrapped ≡ ok d =
        subst (λ t. unseal c {E = E} s.key (slot_of password_slot_kind) t ≡ ok d) same again.2 in
      rw (s.params_read, supported s.salt s.salt_length, s.stretched, opens, size) refl

  refused :
      (r : Result (EncryptedDatabaseError E) Bytes)
      → ((other : Bytes) → r ≢ ok other)
      → or_invalid r ≡ err invalid_password
  unfolding or_invalid
  refused (ok t) h = absurd (h t refl)
  refused (err e) h = refl

  -- any other password does not
  pub unwrap-wrong :
      (p q d : Bytes) (slot : StoredSlot)
      → Binds c
      → IsWrapped c E p d slot
      → length d ≡ 32
      → length q < 2 ^ 32
      → Differ c p q
      → unwrap c {E = E} q slot ≡ err invalid_password
  unfolding unwrap from_password from_slice current_params
  unwrap-wrong p q d slot binds s size small apart =
      let mine = works.stretches q s.salt small s.salt_length in
      let shut : (t : Bytes)
          → unseal c {E = E} mine.0 (slot_of password_slot_kind) slot.wrapped ≢ ok t =
        λ t opens.
          let same =
            unseal-bound c works s.key mine.0 s.nonce d t slot.wrapped (slot_of password_slot_kind)
              (slot_of password_slot_kind) binds s.key_length mine.2 s.nonce_length
              (omega (arith, size)) s.sealed_as opens in
          apart s.salt s.key s.stretched (rw same.0 mine.1) in
      rw (s.params_read, supported s.salt s.salt_length, mine.1, refused _ shut) refl
