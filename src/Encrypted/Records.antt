-- ===== src/Encrypted/Records.antt =====
-- crates/core/src/database/encrypted.rs: over a backend that works, the records of an encrypted
-- database are a plain map.
use desktop_wallet.Common.{
  ◌<◌, ◌^◌, ◌≡◌, ◌≢◌, ◌∙◌, refl, sym, ap, subst, false, Option, none, some, [], ◌∷◌, length,
  Bool-cases, inl, inr, arith,
}
use desktop_wallet.Common.Outcome.{ok}
use desktop_wallet.Exec.{Exec, lift}
use desktop_wallet.Exec.Runs.{Runs, Runs-bind, Runs-given, Runs-weaken, Runs-return}
use desktop_wallet.Database.{Bytes, bytes_eq}
use desktop_wallet.Database.Scopes.{bytes_eq_iff}
use desktop_wallet.Sealing.{
  Crypto, record_of, unseal, record_key_info, storage_key_info, header_key,
}
use desktop_wallet.Sealing.Bound.{Works, sealed-unseal}
use desktop_wallet.Encrypted.{
  Backend, Disk, DatabaseError, backend, boxing, seal_with, expand, storage_key, record_key, seal,
  opened, opened_if, get, put, delete,
}
use desktop_wallet.Encrypted.Backing.{
  Records, overwrite, IsStore, Never, Holds, db_get-Runs, db_put-Runs, db_delete-Runs, Runs-boxing,
  Runs-lift_ok, fill_bytes-Runs,
}

module _ (c : Crypto) (E : Type 0) (d : Bytes) where
  -- a stored record is missing, or opens to the value
  abbrev pub Reads : Bytes → Option Bytes → Option Bytes → Type 0
  Reads k none none = Unit
  Reads k (some blob) (some v) =
      (key : Bytes) × (c.expand d (record_key_info ∷ k ∷ []) ≡ some key)
      × (unseal c {E = E} key (record_of k) blob ≡ ok v)
  Reads k _ _ = ⊥

  -- the stored records are those of the map, for the keys used
  abbrev pub Shows : (Bytes → Type 0) → Records → Records → Type 0
  Shows Used m f =
      (k h : Bytes) → Used k → c.expand d (storage_key_info ∷ k ∷ []) ≡ some h → Reads k (m h) (f k)

-- no two used keys share a storage key
abbrev pub Separate : Crypto → Bytes → (Bytes → Type 0) → Type 0
Separate c d Used =
    (k l : Bytes)
    → Used k
    → Used l
    → c.expand d (storage_key_info ∷ k ∷ []) ≡ c.expand d (storage_key_info ∷ l ∷ [])
    → k ≡ l

same_some : {a b : Bytes} → some a ≡ some b → a ≡ b
same_some e = cc

differ : (a b : Bytes) → a ≢ b → bytes_eq a b ≡ false
differ a b n = elim (Bool-cases (bytes_eq a b)) [
  | inl e ↦ absurd (n ((bytes_eq_iff a b).0 e))
  | inr e ↦ e
]

module _ (c : Crypto) {S E : Type 0} {db : Backend S E} (store : IsStore db) (works : Works c)
    (d : Bytes) (size : length d ≡ 32) where
  seal-Runs :
      (V : S → Type 0) (k v : Bytes)
      → length v < 2 ^ 32
      → Runs
          (λ w. V w.inner)
          (seal c db d k v)
          (λ blob w. Reads c E d k (some blob) (some v) × V w.inner)
          Never
  unfolding seal record_key expand seal_with
  seal-Runs V k v small =
      let key = works.expands d (record_key_info ∷ k ∷ []) size in
      Runs-bind _ _
        (Runs-lift_ok {Q = λ x w. (x ≡ key.0) × V w.inner} key.0 (rw key.1 refl) (λ w p. (refl, p)))
        (λ x. Runs-given (λ same. Runs-bind _ _ (fill_bytes-Runs V c works 24) (λ nonce.
          Runs-given (λ long.
            let box = sealed-unseal c works key.0 nonce v (record_of k) key.2 long small in
            Runs-lift_ok box.0 (rw (same, box.1) refl) (λ w p. ((key.0, key.1, box.2), p))))))

  module _ (Used : Bytes → Type 0) (apart : Separate c d Used) (f m : Records) where
    -- a write to the storage key of a used key
    Shows-overwrite :
        (k h : Bytes) (stored value : Option Bytes)
        → Used k
        → c.expand d (storage_key_info ∷ k ∷ []) ≡ some h
        → Reads c E d k stored value
        → Shows c E d Used m f
        → Shows c E d Used (overwrite h stored m) (overwrite k value f)
    Shows-overwrite k h stored value used made reads shows j i used' made' =
        elim (Bool-cases (bytes_eq j k)) [
          | inl e ↦
              let same = (bytes_eq_iff j k).0 e in
              let here : some i ≡ some h =
                sym made' ∙ ap (λ t. c.expand d (storage_key_info ∷ t ∷ [])) same ∙ made in
              rw (e, (bytes_eq_iff i h).1 (same_some here))
                (subst (λ t. Reads c E d t stored value) (sym same) reads)
          | inr e ↦
              let off : bytes_eq i h ≡ false = differ i h (λ here.
                let same = apart j k used' used (made' ∙ ap some here ∙ sym made) in
                let hit = (bytes_eq_iff j k).1 same in cc) in
              rw (e, off) (shows j i used' made')
        ]

    -- the header's key is no storage key
    header_kept :
        (h : Bytes) (stored : Option Bytes)
        → length h ≡ 32
        → overwrite h stored m header_key ≡ m header_key
    header_kept h stored long =
        rw (differ header_key h (λ e. let short = ap length e in omega (arith, short, long))) refl

  -- The database shows the map to the used keys, with `header` as the stored header.
  abbrev pub Represents : (Bytes → Type 0) → Option Bytes → Records → Disk S → Type 0
  Represents Used header f w =
      (m : Records) × Holds store m w × Shows c E d Used m f × (m header_key ≡ header)

  module _ (Used : Bytes → Type 0) (apart : Separate c d Used) (header : Option Bytes)
      (f : Records) where
    storage_key-Runs :
        (V : Disk S → Type 0) (k h : Bytes)
        → c.expand d (storage_key_info ∷ k ∷ []) ≡ some h
        → Runs V (boxing (lift (storage_key c db d k))) (λ x w. (x ≡ h) × V w) Never
    unfolding storage_key expand
    storage_key-Runs V k h made = Runs-boxing (Runs-lift_ok h (rw made refl) (λ w p. (refl, p)))

    write-Runs :
        {A : Type 0} (call : Exec (Disk S) (DatabaseError E) A) (k h : Bytes)
        (stored value : Option Bytes)
        → Used k
        → c.expand d (storage_key_info ∷ k ∷ []) ≡ some h
        → length h ≡ 32
        → Reads c E d k stored value
        → ((m : Records)
            → Runs (Holds store m) call (λ _. Holds store (overwrite h stored m)) Never)
        → Runs
            (Represents Used header f)
            call
            (λ _. Represents Used header (overwrite k value f))
            Never
    write-Runs call k h stored value used made long reads run = record {
      at = λ w p.
          (Runs-weaken (λ w g. g)
              (λ _ w g. (
                overwrite h stored p.0,
                g,
                Shows-overwrite Used apart f p.0 k h stored value used made reads p.2,
                header_kept Used apart f p.0 h stored long ∙ p.3,
              ))
              (λ w g. g) (run p.0)).at
            w p.1;
    }

    pub put-Runs :
        (k v : Bytes)
        → Used k
        → length v < 2 ^ 32
        → Runs
            (Represents Used header f)
            (put c db d k v)
            (λ _. Represents Used header (overwrite k (some v) f))
            Never
    unfolding put
    put-Runs k v used small =
        let h = works.expands d (storage_key_info ∷ k ∷ []) size in
        let sealing =
          seal-Runs (λ s. Represents Used header f (record { inner = s; drawn = 0 })) k v small in
        Runs-bind _ _ (storage_key-Runs (Represents Used header f) k h.0 h.1) (λ x.
          Runs-given (λ same. Runs-bind _ _ (Runs-boxing sealing) (λ blob. Runs-given (λ opens.
            write-Runs _ k x (some blob) (some v) used (h.1 ∙ ap some (sym same))
              (ap length same ∙ h.2) opens (λ m. db_put-Runs store backend m x blob)))))

    pub delete-Runs :
        (k : Bytes)
        → Used k
        → Runs
            (Represents Used header f)
            (delete c db d k)
            (λ _. Represents Used header (overwrite k none f))
            Never
    unfolding delete
    delete-Runs k used =
        let h = works.expands d (storage_key_info ∷ k ∷ []) size in
        Runs-bind _ _ (storage_key-Runs (Represents Used header f) k h.0 h.1) (λ x.
          Runs-given (λ same.
            write-Runs _ k x none none used (h.1 ∙ ap some (sym same)) (ap length same ∙ h.2) tt
              (λ m. db_delete-Runs store backend m x)))

    -- what a stored record opens to
    opened_if-Runs :
        (V : Disk S → Type 0) (k : Bytes) (stored value : Option Bytes)
        → Reads c E d k stored value
        → Runs V (opened_if c db d k stored) (λ v w. (v ≡ value) × V w) Never
    unfolding opened_if opened record_key expand
    opened_if-Runs V k none none reads = Runs-return none (λ w p. (refl, p))
    opened_if-Runs V k none (some v) reads = absurd reads
    opened_if-Runs V k (some blob) none reads = absurd reads
    opened_if-Runs V k (some blob) (some v) reads =
        Runs-bind _ _
          (Runs-boxing (
            Runs-bind _ _
              (Runs-lift_ok {Q = λ x w. (x ≡ reads.0) × V w} reads.0 (rw reads.1 refl)
                (λ w p. (refl, p)))
              (λ x. Runs-given (λ same.
                Runs-lift_ok {Q = λ x w. (x ≡ v) × V w} v (rw (same, reads.2) refl)
                  (λ w p. (refl, p))))))
          (λ x. Runs-given (λ same. Runs-return (some x) (λ w p. (ap some same, p))))

    pub get-Runs :
        (k : Bytes)
        → Used k
        → Runs
            (Represents Used header f)
            (get c db d k)
            (λ v w. (v ≡ f k) × Represents Used header f w)
            Never
    unfolding get
    get-Runs k used =
        let h = works.expands d (storage_key_info ∷ k ∷ []) size in
        record {
          at = λ w p.
              (Runs-bind _ _ (storage_key-Runs (Holds store p.0) k h.0 h.1) (λ x.
                  Runs-given (λ same. Runs-bind _ _ (db_get-Runs store backend p.0 x) (λ stored.
                    Runs-given (λ read.
                      Runs-weaken (λ w g. g) (λ v w g. (g.0, (p.0, g.1, p.2, p.3))) (λ w g. g)
                        (opened_if-Runs (Holds store p.0) k stored (f k) (
                          subst (λ t. Reads c E d k t (f k)) (sym read)
                            (p.2 k x used (h.1 ∙ ap some (sym same)))))))))).at
                w p.1;
        }
