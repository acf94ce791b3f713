-- ===== src/Files.antt =====
-- crates/core/src/database/file.rs: a database with one file for each record, in a directory. A file
-- has what is read of it, and what a loss of power leaves of it; a directory has the names that are
-- seen, and those that a loss of power leaves. Each step of a write may fail, or be the last before
-- the process ends, as `events` say. The digest of a key is a parameter; locks are left out.
pub mod Atomic
use desktop_wallet.Common.{
  ℕ, ◌+◌, ◌%◌, ◌==◌, Bool, true, false, Option, none, some, List, [], ◌∷◌, take, if◌then◌else◌,
}
use desktop_wallet.Common.Outcome.{Result, ok, err}
use desktop_wallet.Exec.{Exec, ◌>>=◌, ◌>>◌}
use desktop_wallet.Database.{Bytes, bytes_eq}

-- the names of a digest in hexadecimal, which has no dot: alone, and with the extension `tmp`
pub data FileName : Type 0 where
  published temporary : Bytes → FileName

abbrev pub same_name : FileName → FileName → Bool
same_name (published a) (published b) = bytes_eq a b
same_name (temporary a) (temporary b) = bytes_eq a b
same_name (published a) (temporary b) = false
same_name (temporary a) (published b) = false

pub record File : Type 0 where
  pub content : Bytes
  -- after a loss of power
  pub stored : Bytes

pub data Ending : Type 0 where
  done failed stopped : Ending

-- How a step ends; how many bytes a write has then written; what a loss of power leaves of a file
-- that is not synchronised; and whether a change of names is kept at once.
pub record Event : Type 0 where
  pub ending : Ending
  pub written : ℕ
  pub torn : Bytes
  pub at_once : Bool

pub record Directory : Type 0 where
  pub live : FileName → Option File
  pub durable : FileName → Option File
  pub events : List Event

pub data FileDatabaseError : Type 0 where
  io : FileDatabaseError
  -- the process has ended
  ended : FileDatabaseError

abbrev pub Op : Type 0 → Type 0
Op A = Exec Directory FileDatabaseError A

abbrev pub smooth : Event
smooth = record { ending = done; written = 0; torn = []; at_once = false }

abbrev pub Change : Type 0
Change = Event → Directory → Directory

-- the end of a step, with the directory after all of it and after a part
abbrev pub ends : Ending → Directory → Directory → Result FileDatabaseError Unit × Directory
ends done whole part = (ok tt, whole)
ends failed whole part = (err io, part)
ends stopped whole part = (err ended, part)

unfoldable pub step_on :
    Change → Change → List Event → Directory → Result FileDatabaseError Unit × Directory
step_on whole part [] d = (ok tt, whole smooth d)
step_on whole part (e ∷ rest) d =
    ends e.ending (whole e (record d { events = rest })) (part e (record d { events = rest }))

unfoldable pub step : Change → Change → Op Unit
step whole part d = step_on whole part d.events d

abbrev pub named : FileName → Option File → (FileName → Option File) → FileName → Option File
named n file names m = if same_name m n then file else names m

abbrev pub unchanged : Change
unchanged e d = d

-- `create_private_file`, which truncates
unfoldable pub create_file : FileName → Op Unit
create_file n =
    step
      (λ e d. record d { live = named n (some (record { content = []; stored = e.torn })) d.live })
      unchanged

unfoldable pub write_all : FileName → Bytes → Op Unit
write_all n value =
    step
      (λ e d. record d {
        live = named n (some (record { content = value; stored = e.torn })) d.live;
      })
      (λ e d. record d {
        live = named n (some (record { content = take e.written value; stored = e.torn })) d.live;
      })

abbrev pub flushed : Option File → Option File
flushed none = none
flushed (some file) = some (record file { stored = file.content })

-- `sync_all` of a file
unfoldable pub sync_file : FileName → Op Unit
sync_file n = step (λ e d. record d { live = named n (flushed (d.live n)) d.live }) unchanged

abbrev pub moved : FileName → FileName → (FileName → Option File) → FileName → Option File
moved from to names = named from none (named to (names from) names)

unfoldable pub rename : FileName → FileName → Op Unit
rename from to =
    step
      (λ e d. record d {
        live = moved from to d.live;
        durable = if e.at_once then named to (d.live from) d.durable else d.durable;
      })
      unchanged

-- `sync_all` of the directory
unfoldable pub sync_directory : Op Unit
sync_directory = step (λ e d. record d { durable = d.live }) unchanged

unfoldable pub remove_file : FileName → Op Unit
remove_file n =
    step
      (λ e d. record d {
        live = named n none d.live;
        durable = if e.at_once then named n none d.durable else d.durable;
      })
      unchanged

-- the closure of `put`
unfoldable pub write : Bytes → Bytes → Op Unit
write digest value = do
  create_file (temporary digest)
  write_all (temporary digest) value
  sync_file (temporary digest)
  rename (temporary digest) (published digest)
  sync_directory

-- `map_err`, which removes the temporary file; a process that has ended does no more
unfoldable pub clean_up :
    Bytes → Result FileDatabaseError Unit × Directory → Result FileDatabaseError Unit × Directory
clean_up digest (ok x, d) = (ok x, d)
clean_up digest (err io, d) = (err io, (remove_file (temporary digest) d).1)
clean_up digest (err ended, d) = (err ended, d)

-- `create_private_dir`: the mode of the directory, if there is one, and that after
unfoldable pub create_private_dir : Option ℕ → ℕ
create_private_dir none = 448
create_private_dir (some mode) = if mode % 64 == 0 then mode else 448

-- The keys' digests.
module _ (digest : Bytes → Bytes) where
  unfoldable pub key_path : Bytes → FileName
  key_path key = published (digest key)

  unfoldable pub put : Bytes → Bytes → Op Unit
  put key value d = clean_up (digest key) (write (digest key) value d)

abbrev pub content_of : Option File → Option Bytes
content_of none = none
content_of (some file) = some file.content

abbrev pub stored_of : Option File → Option Bytes
stored_of none = none
stored_of (some file) = some file.stored

module _ (digest : Bytes → Bytes) where
  -- a read, which may fail
  unfoldable pub get : Bytes → Op (Option Bytes)
  unfolding key_path
  get key =
      step unchanged unchanged >>= λ _. λ d. (ok (content_of (d.live (key_path digest key))), d)

  -- a file that is not there is no error
  unfoldable pub delete : Bytes → Op Unit
  unfolding key_path
  delete key = remove_file (key_path digest key)
