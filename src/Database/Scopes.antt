-- ===== src/Database/Scopes.antt =====
-- crates/core/src/database/scoped.rs: no two pairs of a scope and a key share a composed key, so
-- scopes do not see each other's records.
use desktop_wallet.Common.{
  ℕ, ◌<◌, ◌^◌, ◌≡◌, ◌↔◌, refl, sym, subst, true, false, ◌&&◌, Option, some, [], ◌∷◌, ◌++◌, ◌==◌,
  if◌then◌else◌, length, Bool-cases, arith, inl, inr, ◌⊎◌, ==_iff,
}
use desktop_wallet.Common.Outcome.{ok, err}
use desktop_wallet.Database.{
  Bytes, bytes_eq, other, MemoryDatabase, get, put, to_le_bytes, scoped_key, scoped_get, scoped_put,
}

pub ∷-injective : {a b : ℕ} {xs ys : Bytes} → a ∷ xs ≡ b ∷ ys → (a ≡ b) × (xs ≡ ys)
∷-injective e = (cc, cc)

pub append-injective :
    (xs ys : Bytes) {us vs : Bytes}
    → length xs ≡ length ys
    → xs ++ us ≡ ys ++ vs
    → (xs ≡ ys) × (us ≡ vs)
append-injective [] [] len e = (refl, e)
append-injective [] (b ∷ ys) len e = absurd (omega arith)
append-injective (a ∷ xs) [] len e = absurd (omega arith)
append-injective (a ∷ xs) (b ∷ ys) len e =
    let parts = ∷-injective e in
    let rest = append-injective xs ys (omega arith) parts.1 in (rw (parts.0, rest.0) refl, rest.1)

-- The composed keys of scopes shorter than 2^32 bytes are equal only for the same scope and key.
pub scoped_key-injective :
    (p q k l : Bytes)
    → length p < 2 ^ 32
    → length q < 2 ^ 32
    → scoped_key p k ≡ scoped_key q l
    → (p ≡ q) × (k ≡ l)
unfolding scoped_key to_le_bytes
scoped_key-injective p q k l small small' e =
    let a = ∷-injective e in
    let b = ∷-injective a.1 in
    let c = ∷-injective b.1 in
    let d = ∷-injective c.1 in
    let same : length p ≡ length q =
      let x = a.0 in let y = b.0 in let z = c.0 in let w = d.0 in omega arith in
    append-injective p q same d.1

pub bytes_eq_iff : (xs ys : Bytes) → (bytes_eq xs ys ≡ true) ↔ (xs ≡ ys)
unfolding bytes_eq
bytes_eq_iff [] [] = (λ e. refl, λ e. refl)
bytes_eq_iff [] (b ∷ ys) = (λ e. cc, λ e. cc)
bytes_eq_iff (a ∷ xs) [] = (λ e. cc, λ e. cc)
bytes_eq_iff (a ∷ xs) (b ∷ ys) = (
  λ e. elim (Bool-cases (a == b)) [
    | inl f ↦
        rw
          ((==_iff a b).0 f, (bytes_eq_iff xs ys).0 (subst (λ t. (t && bytes_eq xs ys) ≡ true) f e))
          refl
    | inr f ↦ cc
  ],
  λ e.
      let parts = ∷-injective e in rw ((==_iff a b).1 parts.0, (bytes_eq_iff xs ys).1 parts.1) refl,
)

-- the composed keys of two scopes are not equal, nor those of two keys of a scope
differ :
    (p q k l : Bytes)
    → length p < 2 ^ 32
    → length q < 2 ^ 32
    → (¬ (p ≡ q)) ⊎ (¬ (k ≡ l))
    → bytes_eq (scoped_key q l) (scoped_key p k) ≡ false
differ p q k l small small' apart = elim (Bool-cases (bytes_eq (scoped_key q l) (scoped_key p k))) [
  | inr e ↦ e
  | inl e ↦
      let same = scoped_key-injective q p l k small' small ((bytes_eq_iff _ _).0 e) in
      elim apart [ inl n ↦ absurd (n (sym same.0)) | inr n ↦ absurd (n (sym same.1)) ]
]

-- what a write of one record does to the reads of all
pub record Writes (p k : Bytes) (value : Option Bytes) (db after : MemoryDatabase) : Type 0 where
  pub read : scoped_get p after k ≡ ok value
  pub others :
      (q l : Bytes)
      → length q < 2 ^ 32
      → (¬ (p ≡ q)) ⊎ (¬ (k ≡ l))
      → scoped_get q after l ≡ scoped_get q db l

-- On a mutex that is not poisoned, a write to a key of a scope shorter than 2^32 bytes succeeds;
-- the key then reads as written, and every other key of the scope, and every key of any other such
-- scope, reads as before. On a poisoned one it fails.
pub scoped_put-Writes :
    (p k value : Bytes) (db : MemoryDatabase)
    → length p < 2 ^ 32
    → ((after : MemoryDatabase) × (scoped_put p db k value ≡ ok after)
        × Writes p k (some value) db after)
      ⊎ ((scoped_put p db k value ≡ err other) × (db.poisoned ≡ true))
unfolding scoped_put scoped_get get put
scoped_put-Writes p k value db small = elim (Bool-cases db.poisoned) [
  | inl e ↦ inr (rw e refl, e)
  | inr e ↦ inl (
    record db { store = λ j. if bytes_eq j (scoped_key p k) then some value else db.store j },
    rw e refl,
    record {
      read = rw (e, (bytes_eq_iff (scoped_key p k) (scoped_key p k)).1 refl) refl;
      others = λ q l small' n. rw (e, differ p q k l small small' n) refl;
    },
  )
]
