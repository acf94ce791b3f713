-- ===== src/Tests/Ciphers.antt =====
-- A concrete cipher, key derivation and encoding, which have the laws that the theorems ask for.
use desktop_wallet.Common.{
  ℕ, suc, zero, ◌+◌, ◌≡◌, ◌∙◌, refl, sym, ap, subst, false, Option, none, some, List, [], ◌∷◌, ◌++◌,
  if◌then◌else◌, length, replicate, length-replicate, length-append, take-append-drop, take, drop,
  arith, Bool-cases, inl, inr,
}
use desktop_wallet.Database.{Bytes, bytes_eq}
use desktop_wallet.Database.Scopes.{bytes_eq_iff, append-injective, ∷-injective}
use desktop_wallet.Sealing.{Crypto, Argon2idParams, KeystoreHeader, StoredSlot}
use desktop_wallet.Sealing.Bound.{Works, Binds}

-- what a text is prefixed with
abbrev pub tag : Bytes → Bytes → Bytes
tag k a = length k ∷ length a ∷ (k ++ a)

abbrev pub toy_encrypt : Bytes → Bytes → Bytes → Bytes → Option Bytes
toy_encrypt k n a text = some (tag k a ++ text)

abbrev pub toy_decrypt : Bytes → Bytes → Bytes → Bytes → Option Bytes
toy_decrypt k n a x =
    if bytes_eq (take (length (tag k a)) x) (tag k a)
    then some (drop (length (tag k a)) x)
    else none

-- 32 bytes, the first of them as given
abbrev pub key_of : ℕ → Bytes
key_of b = b ∷ replicate 31 0

abbrev pub first : Bytes → ℕ
first [] = 0
first (b ∷ bs) = b

-- the derived key tells the kinds of keys by the length of their name, and keys by their first byte
abbrev pub toy_expand : Bytes → List Bytes → Option Bytes
toy_expand d [] = some (key_of 0)
toy_expand d (domain ∷ []) = some (key_of 0)
toy_expand d (domain ∷ key ∷ rest) = some (key_of (length domain + first key))

-- chunks of bytes: each byte after a 1, and a 0 at the end
abbrev pub chunk : Bytes → Bytes → Bytes
chunk [] rest = 0 ∷ rest
chunk (b ∷ bs) rest = 1 ∷ b ∷ chunk bs rest

abbrev on_head : ℕ → List Bytes → List Bytes
on_head b [] = (b ∷ []) ∷ []
on_head b (x ∷ xs) = (b ∷ x) ∷ xs

abbrev chunks : Bytes → List Bytes
chunks [] = []
chunks (zero ∷ rest) = [] ∷ chunks rest
chunks (suc n ∷ []) = []
chunks (suc n ∷ b ∷ rest) = on_head b (chunks rest)

chunks-chunk : (x rest : Bytes) → chunks (chunk x rest) ≡ x ∷ chunks rest
chunks-chunk [] rest = refl
chunks-chunk (b ∷ bs) rest = ap (on_head b) (chunks-chunk bs rest)

abbrev pub write_slots : List StoredSlot → Bytes
write_slots [] = []
write_slots (s ∷ ss) = chunk s.kind (chunk s.params (chunk s.wrapped (write_slots ss)))

abbrev read_slots : List Bytes → List StoredSlot
read_slots (a ∷ b ∷ c ∷ rest) = record { kind = a; params = b; wrapped = c } ∷ read_slots rest
read_slots _ = []

slots_kept : (ss : List StoredSlot) → read_slots (chunks (write_slots ss)) ≡ ss
slots_kept [] = refl
slots_kept (s ∷ ss) =
    rw
      (
        chunks-chunk s.kind (chunk s.params (chunk s.wrapped (write_slots ss))),
        chunks-chunk s.params (chunk s.wrapped (write_slots ss)),
        chunks-chunk s.wrapped (write_slots ss),
      )
      (ap (λ t. s ∷ t) (slots_kept ss))

abbrev toy_write_header : KeystoreHeader → Option Bytes
toy_write_header h = some (h.version ∷ chunk h.magic (write_slots h.slots))

abbrev header_from : ℕ → List Bytes → Option KeystoreHeader
header_from v [] = none
header_from v (m ∷ rest) = some (record { magic = m; version = v; slots = read_slots rest })

abbrev toy_read_header : Bytes → Option KeystoreHeader
toy_read_header [] = none
toy_read_header (v ∷ rest) = header_from v (chunks rest)

abbrev toy_read_params : Bytes → Option Argon2idParams
toy_read_params (m ∷ t ∷ p ∷ salt) =
    some (record { m_cost = m; t_cost = t; p_cost = p; salt = salt })
toy_read_params _ = none

abbrev pub toy : Crypto
toy = record {
  stretch = λ p salt. some (key_of (first p));
  expand = toy_expand;
  encrypt = toy_encrypt;
  decrypt = toy_decrypt;
  random = λ i n. replicate n i;
  write_params = λ p. some (p.m_cost ∷ p.t_cost ∷ p.p_cost ∷ p.salt);
  read_params = toy_read_params;
  write_header = toy_write_header;
  read_header = toy_read_header;
}

take_all : (xs ys : Bytes) → take (length xs) (xs ++ ys) ≡ xs
take_all [] ys = refl
take_all (x ∷ xs) ys = ap (λ t. x ∷ t) (take_all xs ys)

drop_all : (xs ys : Bytes) → drop (length xs) (xs ++ ys) ≡ ys
drop_all [] ys = refl
drop_all (x ∷ xs) ys = drop_all xs ys

expands :
    (d : Bytes) (parts : List Bytes) → (k : Bytes) × (toy_expand d parts ≡ some k) × (length k ≡ 32)
expands d [] = (_, refl, refl)
expands d (domain ∷ []) = (_, refl, refl)
expands d (domain ∷ key ∷ rest) = (_, refl, refl)

same_some : {a b : Bytes} → some a ≡ some b → a ≡ b
same_some e = cc

toy_opens : (k n a text : Bytes) → toy_decrypt k n a (tag k a ++ text) ≡ some text
toy_opens k n a text =
    rw (take_all (tag k a) text, drop_all (tag k a) text, (bytes_eq_iff (tag k a) (tag k a)).1 refl)
      refl

-- a tag is that of one key and one text only
tag_bound : (k l a b text rest : Bytes) → tag k a ++ text ≡ tag l b ++ rest → (k ≡ l) × (a ≡ b)
tag_bound k l a b text rest e =
    let first_length = ∷-injective e in
    let second_length = ∷-injective first_length.1 in
    let sizes : length (k ++ a) ≡ length (l ++ b) =
      let p = length-append k a in
      let q = length-append l b in
      let r = first_length.0 in let t = second_length.0 in omega (arith, p, q, r, t) in
    append-injective k l first_length.0 (append-injective (k ++ a) (l ++ b) sizes second_length.1).0

refused :
    (l n b x text : Bytes)
    → bytes_eq (take (length (tag l b)) x) (tag l b) ≡ false
    → ¬ (toy_decrypt l n b x ≡ some text)
refused l n b x text e opens =
    let shut : toy_decrypt l n b x ≡ none = rw e refl in
    let clash : none ≡ some text = sym shut ∙ opens in absurd cc

pub toy-Works : Works toy
toy-Works = record {
  stretches = λ p salt small long. (_, refl, refl);
  expands = λ d parts size. expands d parts;
  encrypts = λ k n a text size size' small. (_, refl);
  decrypts = λ k n a text x made.
      subst (λ t. toy_decrypt k n a t ≡ some text) (same_some made) (toy_opens k n a text);
  draws = λ i n. length-replicate n i;
  params_kept = λ p. (_, refl, refl);
  header_kept =
      λ h. (_, refl, rw (chunks-chunk h.magic (write_slots h.slots), slots_kept h.slots) refl);
}

pub toy-Binds : Binds toy
toy-Binds = record {
  bound = λ k l n a b text other x made opens.
      elim (Bool-cases (bytes_eq (take (length (tag l b)) x) (tag l b))) [
        | inl e ↦ tag_bound k l a b text (drop (length (tag l b)) x) (
            same_some made
            ∙ sym (take-append-drop (length (tag l b)) x)
            ∙ ap (λ t. t ++ drop (length (tag l b)) x) ((bytes_eq_iff _ _).0 e))
        | inr e ↦ absurd (refused l n b x other e opens)
      ];
}
