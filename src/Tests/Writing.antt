-- ===== src/Tests/Writing.antt =====
-- The theorem on the writes of records in files, at a concrete input.
use desktop_wallet.Common.{
  refl, true, Option, none, some, [], ◌∷◌, if◌then◌else◌, Bool-cases, inl, inr,
}
use desktop_wallet.Exec.Runs.{Post}
use desktop_wallet.Database.{bytes_eq}
use desktop_wallet.Files.{FileName, published, temporary, File, stopped, Directory, smooth, put}
use desktop_wallet.Files.Atomic.{Settled, Whole, Replaced, put-atomic}

abbrev one_file : FileName → Option File
one_file (published h) =
    if bytes_eq h (1 ∷ []) then some (record { content = 5 ∷ []; stored = 5 ∷ [] }) else none
one_file (temporary h) = none

-- the process ends in the middle of the second step, the write of the temporary file
abbrev start : Directory
start = record {
  live = one_file;
  durable = one_file;
  events = smooth ∷ record { ending = stopped; written = 1; torn = []; at_once = true } ∷ [];
}

start-Settled : Settled start
start-Settled h = elim (Bool-cases (bytes_eq h (1 ∷ []))) [
  | inl e ↦ rw e (refl, refl)
  | inr e ↦ rw e (refl, refl)
]

put-atomic_example :
    Post
      (λ _. Replaced start (1 ∷ []) (7 ∷ 8 ∷ []))
      (Whole start (1 ∷ []) (7 ∷ 8 ∷ []))
      (put (λ key. key) (1 ∷ []) (7 ∷ 8 ∷ []) start)
put-atomic_example = put-atomic (λ key. key) start (1 ∷ []) (7 ∷ 8 ∷ []) start-Settled
