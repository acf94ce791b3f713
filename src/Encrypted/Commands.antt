-- ===== src/Encrypted/Commands.antt =====
-- crates/core/src/database/encrypted.rs: sequences of writes and deletes, against a plain map.
use desktop_wallet.Common.{◌<◌, ◌^◌, ◌≡◌, ◌∙◌, ap, Option, none, some, List, [], ◌∷◌, length, All}
use desktop_wallet.Common.Outcome.{ok}
use desktop_wallet.Exec.{Exec, each, ◌>>=◌}
use desktop_wallet.Exec.Runs.{Runs, Post, Runs-bind, Runs-return, Runs-weaken}
use desktop_wallet.Database.{Bytes}
use desktop_wallet.Sealing.{Crypto, header_key}
use desktop_wallet.Sealing.Bound.{Works}
use desktop_wallet.Encrypted.{Backend, Disk, DatabaseError, get, put, delete}
use desktop_wallet.Encrypted.Backing.{Records as Map, overwrite, IsStore, Never}
use desktop_wallet.Encrypted.Records.{Separate, Represents, put-Runs, delete-Runs, get-Runs}

pub data Command : Type 0 where
  set : Bytes → Bytes → Command
  erase : Bytes → Command

-- what a command does to a map
abbrev pub applied : Command → Map → Map
applied (set key value) f = overwrite key (some value) f
applied (erase key) f = overwrite key none f

abbrev pub applied_all : List Command → Map → Map
applied_all [] f = f
applied_all (x ∷ xs) f = applied_all xs (applied x f)

-- a command on a used key, with a value below 2^32 bytes
abbrev pub Fits : (Bytes → Type 0) → Command → Type 0
Fits Used (set key value) = Used key × (length value < 2 ^ 32)
Fits Used (erase key) = Used key

-- what a command does to the database
unfoldable pub perform :
    (c : Crypto) {S E : Type 0} (db : Backend S E) (d : Bytes)
    → Command
    → Exec (Disk S) (DatabaseError E) Unit
unfolding put delete
perform c db d (set key value) = put c db d key value
perform c db d (erase key) = delete c db d key

module _ (c : Crypto) {S E : Type 0} {db : Backend S E} (store : IsStore db) (works : Works c)
    (d : Bytes) (size : length d ≡ 32) (Used : Bytes → Type 0) (apart : Separate c d Used)
    (header : Option Bytes) where
  perform-Runs :
      (f : Map) (x : Command)
      → Fits Used x
      → Runs
          (Represents c store works d size Used header f)
          (perform c db d x)
          (λ _. Represents c store works d size Used header (applied x f))
          Never
  unfolding perform
  perform-Runs f (set key value) fits =
      put-Runs c store works d size Used apart header f key value fits.0 fits.1
  perform-Runs f (erase key) fits = delete-Runs c store works d size Used apart header f key fits

  each-Runs :
      (xs : List Command) (f : Map)
      → All (Fits Used) xs
      → Runs
          (Represents c store works d size Used header f)
          (each (perform c db d) xs)
          (λ _. Represents c store works d size Used header (applied_all xs f))
          Never
  unfolding each
  each-Runs [] f fits = Runs-return tt (λ w p. p)
  each-Runs (x ∷ xs) f fits =
      Runs-bind _ _ (perform-Runs f x fits.0) (λ _. each-Runs xs (applied x f) fits.1)

  -- Over a backend that works, and with ciphers that work, commands on keys whose storage keys
  -- differ all succeed; a read after them gives what a plain map gives after the same commands,
  -- and the stored header is as before.
  pub commands-refine :
      (f : Map) (xs : List Command) (k : Bytes) (w : Disk S)
      → All (Fits Used) xs
      → Used k
      → Represents c store works d size Used header f w
      → Post
          (λ v after. (v ≡ applied_all xs f k) × (db.get after.inner header_key ≡ ok header))
          Never
          ((each (perform c db d) xs >>= λ _. get c db d k) w)
  commands-refine f xs k w fits used shown =
      (Runs-weaken (λ w p. p)
          (λ v w g. (
            g.0,
            store.gets w.inner header_key g.1.1.0 ∙ ap ok (ap (λ m. m header_key) g.1.1.1 ∙ g.1.3),
          ))
          (λ w p. p)
          (Runs-bind _ _ (each-Runs xs f fits)
            (λ _. get-Runs c store works d size Used apart header (applied_all xs f) k used))).at
        w shown
