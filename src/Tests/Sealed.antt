-- ===== src/Tests/Sealed.antt =====
-- The theorems on the encrypted database, at concrete inputs.
use desktop_wallet.Common.{
  ℕ, ◌<◌, ◌^◌, ◌≡◌, ◌≢◌, ◌∙◌, ◌⊎◌, refl, sym, ap, false, Option, none, some, List, [], ◌∷◌, ◌++◌,
  length, replicate, if◌then◌else◌, unwrap_or, arith, inl, inr,
}
use desktop_wallet.Common.Outcome.{ok, err}
use desktop_wallet.Exec.{each, ◌>>=◌}
use desktop_wallet.Exec.Runs.{Post}
use desktop_wallet.Database.{
  Bytes, MemoryDatabase, bytes_eq, DatabaseError as MemoryError, get as read,
}
use desktop_wallet.Sealing.{
  StoredSlot, KeystoreHeader, record_of, header_key, header_magic, storage_key_info,
  password_slot_kind, current_params, sealed, unseal, cipher, aad_bytes, slot_aad_domain,
  already_initialized, empty_password, invalid_password,
}
use desktop_wallet.Sealing.Bound.{IsWrapped, Differ, unseal-bound}
use desktop_wallet.Encrypted.{Disk, get, create, unlock, change_password, open_or_create}
use desktop_wallet.Encrypted.Backing.{memory, memory_store, Never, Records}
use desktop_wallet.Encrypted.Records.{Separate}
use desktop_wallet.Encrypted.Commands.{Command, set, erase, perform, commands-refine}
use desktop_wallet.Encrypted.Slots.{IsLocked}
use desktop_wallet.Encrypted.Password.{Locked, create-unlock, change_password-unlock}
use desktop_wallet.Encrypted.Present.{open_or_create_keeps}
use desktop_wallet.Tests.Ciphers.{toy, key_of, first, toy-Works, toy-Binds, tag, chunk, write_slots}

abbrev empty : Disk MemoryDatabase
empty = record { inner = record { store = λ k. none; poisoned = false }; drawn = 0 }

abbrev data_key : Bytes
data_key = key_of 7

abbrev OneOrTwo : Bytes → Type 0
OneOrTwo k = (k ≡ 1 ∷ []) ⊎ (k ≡ 2 ∷ [])

keys_differ :
    toy.expand data_key (storage_key_info ∷ (1 ∷ []) ∷ [])
    ≢ toy.expand data_key (storage_key_info ∷ (2 ∷ []) ∷ [])
keys_differ e =
    let bytes : key_of 19 ≡ key_of 20 = ap (λ o. unwrap_or o []) e in
    let bad : 19 ≡ 20 = ap first bytes in omega (arith, bad)

abbrev hidden : Bytes → Option Bytes
hidden k = toy.expand data_key (storage_key_info ∷ k ∷ [])

OneOrTwo-Separate : Separate toy data_key OneOrTwo
OneOrTwo-Separate k l (inl p) (inl q) e = p ∙ sym q
OneOrTwo-Separate k l (inr p) (inr q) e = p ∙ sym q
OneOrTwo-Separate k l (inl p) (inr q) e = absurd (keys_differ (ap hidden (sym p) ∙ e ∙ ap hidden q))
OneOrTwo-Separate k l (inr p) (inl q) e =
    absurd (keys_differ (ap hidden (sym q) ∙ sym e ∙ ap hidden p))

abbrev some_commands : List Command
some_commands = set (1 ∷ []) (5 ∷ 6 ∷ []) ∷ set (2 ∷ []) (9 ∷ []) ∷ erase (1 ∷ []) ∷ []

commands-refine_example :
    Post
      (λ v after. (v ≡ some (9 ∷ [])) × (memory.get after.inner header_key ≡ ok none))
      Never
      ((each (perform toy memory data_key) some_commands >>= λ _. get toy memory data_key (2 ∷ []))
        empty)
unfolding memory_store
commands-refine_example =
    commands-refine toy memory_store toy-Works data_key refl OneOrTwo OneOrTwo-Separate none
      (λ k. none) some_commands (2 ∷ []) empty
      ((inl refl, omega arith), ((inr refl, omega arith), (inl refl, tt))) (inr refl)
      ((λ k. none), (refl, refl), (λ k h used made. tt), refl)

create-unlock_example :
    Post
      (λ d after. (length d ≡ 32) × (unlock toy memory (5 ∷ []) after ≡ (ok d, after)))
      Never
      (create toy memory (5 ∷ []) empty)
unfolding memory_store
create-unlock_example =
    create-unlock toy memory_store toy-Works (λ k. none) 5 [] empty (omega arith) refl (refl, refl)

-- a store with the password 5
abbrev old_sealed : Bytes
old_sealed =
    2
    ∷ (replicate 24 0 ++ (tag (key_of 5) (2 ∷ (slot_aad_domain ++ password_slot_kind)) ++ data_key))

abbrev old_slot : StoredSlot
old_slot = record {
  kind = password_slot_kind;
  params = 65536 ∷ 3 ∷ 1 ∷ replicate 16 0;
  wrapped = old_sealed;
}

abbrev old_header : KeystoreHeader
old_header = record { magic = header_magic; version = 2; slots = old_slot ∷ [] }

abbrev old_bytes : Bytes
old_bytes = 2 ∷ chunk header_magic (write_slots (old_slot ∷ []))

abbrev old_store : Records
old_store k = if bytes_eq k header_key then some old_bytes else none

abbrev locked : Disk MemoryDatabase
locked = record { inner = record { store = old_store; poisoned = false }; drawn = 0 }

old_slot-IsWrapped : IsWrapped toy MemoryError (5 ∷ []) data_key old_slot
unfolding sealed cipher aad_bytes current_params
old_slot-IsWrapped = record {
  salt = replicate 16 0;
  nonce = replicate 24 0;
  key = key_of 5;
  kind_kept = refl;
  params_read = refl;
  salt_length = refl;
  stretched = refl;
  key_length = refl;
  nonce_length = refl;
  sealed_as = refl;
}

old_store-IsLocked : IsLocked toy MemoryError (5 ∷ []) data_key [] (some old_bytes)
unfolding bytes_eq
old_store-IsLocked = record {
  header = old_header;
  slot = old_slot;
  decodes = (old_bytes, refl, refl, refl, refl);
  wrapped = old_slot-IsWrapped;
  mine = refl;
  rest = refl;
}

change_password-unlock_example :
    Post
      (λ _ after.
        Locked toy memory_store toy-Works (6 ∷ []) data_key [] old_store after
        × (unlock toy memory (6 ∷ []) after ≡ (ok data_key, after))
        × ((a : ℕ) (rest : Bytes)
            → length (a ∷ rest) < 2 ^ 32
            → Differ toy (6 ∷ []) (a ∷ rest)
            → unlock toy memory (a ∷ rest) after ≡ (err invalid_password, after)))
      Never
      (change_password toy memory data_key (6 ∷ []) locked)
unfolding bytes_eq memory_store
change_password-unlock_example =
    change_password-unlock toy memory_store toy-Works (5 ∷ []) data_key [] old_store 6 [] locked
      toy-Binds (omega arith) refl (refl, refl) old_store-IsLocked

unseal-bound_example : (key_of 5 ≡ key_of 5) × (record_of (3 ∷ []) ≡ record_of (3 ∷ []))
unfolding sealed cipher aad_bytes unseal bytes_eq
unseal-bound_example =
    unseal-bound toy {E = MemoryError} toy-Works (key_of 5) (key_of 5) (replicate 24 1) (8 ∷ [])
      (8 ∷ []) _ (record_of (3 ∷ [])) (record_of (3 ∷ [])) toy-Binds refl refl refl (omega arith)
      refl refl

open_or_create_keeps_example :
    ((open_or_create toy memory (6 ∷ []) locked).1 ≡ locked)
    × ((create toy memory (6 ∷ []) locked ≡ (err already_initialized, locked))
        ⊎ ((create toy memory (6 ∷ []) locked ≡ (err empty_password, locked))
            × (◌≡◌ {A = Bytes} (6 ∷ []) [])))
unfolding read bytes_eq
open_or_create_keeps_example = open_or_create_keeps toy memory (6 ∷ []) old_bytes locked refl
