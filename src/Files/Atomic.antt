-- ===== src/Files/Atomic.antt =====
-- crates/core/src/database/file.rs: a write of a record is whole or is not there, whatever fails.
use desktop_wallet.Common.{
  ◌≡◌, ◌⊎◌, ◌∙◌, refl, sym, ap, subst, Bool, true, false, Option, none, some, List, [], ◌∷◌,
  if◌then◌else◌, Bool-cases, inl, inr,
}
use desktop_wallet.Common.Outcome.{Result, ok, err}
use desktop_wallet.Exec.Runs.{Runs, Post, Runs-bind}
use desktop_wallet.Database.{Bytes, bytes_eq}
use desktop_wallet.Database.Scopes.{bytes_eq_iff}
use desktop_wallet.Files.{
  published, temporary, File, Event, Ending, done, failed, stopped, Directory, FileDatabaseError,
  io, ended, Change, smooth, ends, step, step_on, named, create_file, write_all, sync_file, flushed,
  rename, moved, sync_directory, remove_file, write, clean_up, put, content_of, stored_of,
}

-- what the records are, and what a loss of power would leave of them
abbrev pub seen : Directory → Bytes → Option Bytes
seen d h = content_of (d.live (published h))

abbrev pub left : Directory → Bytes → Option Bytes
left d h = stored_of (d.durable (published h))

-- a directory of which a loss of power leaves every record, also after a rename of it is kept
abbrev pub Settled : Directory → Type 0
Settled d = (h : Bytes) → (stored_of (d.live (published h)) ≡ seen d h) × (left d h ≡ seen d h)

by_ending :
    (Q R : Directory → Type 0) (x : Ending) (whole part : Directory)
    → Q whole
    → R part
    → Post (λ _. Q) R (ends x whole part)
by_ending Q R done whole part q r = q
by_ending Q R failed whole part q r = r
by_ending Q R stopped whole part q r = r

by_event :
    (P Q R : Directory → Type 0) (whole part : Change) (es : List Event) (d : Directory)
    → ((d : Directory) (es : List Event) → P d → P (record d { events = es }))
    → ((e : Event) (d : Directory) → P d → Q (whole e d))
    → ((e : Event) (d : Directory) → P d → R (part e d))
    → P d
    → Post (λ _. Q) R (step_on whole part es d)
unfolding step_on
by_event P Q R whole part [] d keep good bad h = good smooth d h
by_event P Q R whole part (e ∷ rest) d keep good bad h =
    by_ending Q R e.ending _ _ (good e (record d { events = rest }) (keep d rest h))
      (bad e (record d { events = rest }) (keep d rest h))

step-Runs :
    {P Q R : Directory → Type 0} (whole part : Change)
    → ((d : Directory) (es : List Event) → P d → P (record d { events = es }))
    → ((e : Event) (d : Directory) → P d → Q (whole e d))
    → ((e : Event) (d : Directory) → P d → R (part e d))
    → Runs P (step whole part) (λ _. Q) R
unfolding step
step-Runs {P} {Q} {R} whole part keep good bad = record {
  at = λ d h. by_event P Q R whole part d.events d keep good bad h;
}

same_bytes : (k : Bytes) → bytes_eq k k ≡ true
same_bytes k = (bytes_eq_iff k k).1 refl

-- a write of `value` for the digest `k`, in a directory that was settled
module _ (start : Directory) (k value : Bytes) where
  -- a record is as it was, or is the new one
  abbrev pub OldOrNew : Bytes → Option Bytes → Type 0
  OldOrNew h o = (o ≡ seen start h) ⊎ ((h ≡ k) × (o ≡ some value))

  abbrev pub Whole : Directory → Type 0
  Whole d = (h : Bytes) → OldOrNew h (seen d h) × OldOrNew h (left d h)

  abbrev Same : Directory → Type 0
  Same d =
      (h : Bytes)
      → (d.live (published h) ≡ start.live (published h))
        × (d.durable (published h) ≡ start.durable (published h))

  abbrev new_file : File
  new_file = record { content = value; stored = value }

  abbrev Filled : Directory → Type 0
  Filled d =
      Same d
      × ((t : Bytes) × (d.live (temporary k) ≡ some (record { content = value; stored = t })))

  abbrev Flushed : Directory → Type 0
  Flushed d = Same d × (d.live (temporary k) ≡ some new_file)

  abbrev new_live : Bytes → Option File
  new_live h = if bytes_eq h k then some new_file else start.live (published h)

  abbrev Renamed : Directory → Type 0
  Renamed d =
      (h : Bytes)
      → (d.live (published h) ≡ new_live h)
        × ((d.durable (published h) ≡ start.durable (published h))
            ⊎ ((h ≡ k) × (d.durable (published h) ≡ some new_file)))

  abbrev Kept : Directory → Type 0
  Kept d =
      (h : Bytes) → (d.live (published h) ≡ new_live h) × (d.durable (published h) ≡ new_live h)

  abbrev pub Replaced : Directory → Type 0
  Replaced d =
      Settled d × ((h : Bytes) → seen d h ≡ (if bytes_eq h k then some value else seen start h))

  module _ (settled : Settled start) where
    Same-Whole : (d : Directory) → Same d → Whole d
    Same-Whole d s h = (inl (ap content_of (s h).0), inl (ap stored_of (s h).1 ∙ (settled h).1))

    new_live-OldOrNew : (h : Bytes) → OldOrNew h (content_of (new_live h))
    new_live-OldOrNew h = elim (Bool-cases (bytes_eq h k)) [
      | inl e ↦ rw e (inr ((bytes_eq_iff h k).0 e, refl))
      | inr e ↦ rw e (inl refl)
    ]

    durable_case :
        (d : Directory) (h : Bytes)
        → (d.durable (published h) ≡ start.durable (published h))
          ⊎ ((h ≡ k) × (d.durable (published h) ≡ some new_file))
        → OldOrNew h (left d h)
    durable_case d h (inl e) = inl (ap stored_of e ∙ (settled h).1)
    durable_case d h (inr e) = inr (e.0, ap stored_of e.1)

    moved_live :
        (d : Directory)
        → Flushed d
        → (h : Bytes) → moved (temporary k) (published k) d.live (published h) ≡ new_live h
    moved_live d s h = elim (Bool-cases (bytes_eq h k)) [
      | inl e ↦ rw e s.1
      | inr e ↦ rw e (s.0 h).0
    ]

    moved_durable :
        (now : Bool) (d : Directory)
        → Flushed d
        → (h : Bytes)
        → ((if now then named (published k) (d.live (temporary k)) d.durable else d.durable)
              (published h)
            ≡ start.durable (published h))
          ⊎ ((h ≡ k)
              × ((if now then named (published k) (d.live (temporary k)) d.durable else d.durable)
                    (published h)
                  ≡ some new_file))
    moved_durable false d s h = inl (s.0 h).1
    moved_durable true d s h = elim (Bool-cases (bytes_eq h k)) [
      | inl e ↦ rw e (inr ((bytes_eq_iff h k).0 e, s.1))
      | inr e ↦ rw e (inl (s.0 h).1)
    ]

    Renamed-Whole : (d : Directory) → Renamed d → Whole d
    Renamed-Whole d s h = (
      subst (OldOrNew h) (sym (ap content_of (s h).0)) (new_live-OldOrNew h),
      durable_case d h (s h).1,
    )

    create-Runs : Runs Same (create_file (temporary k)) (λ _. Same) Whole
    unfolding create_file
    create-Runs = step-Runs _ _ (λ d es s. s) (λ e d s. s) (λ e d s. Same-Whole d s)

    write_all-Runs : Runs Same (write_all (temporary k) value) (λ _. Filled) Whole
    unfolding write_all
    write_all-Runs =
        step-Runs _ _ (λ d es s. s) (λ e d s. (s, (e.torn, rw (same_bytes k) refl)))
          (λ e d s. Same-Whole d s)

    sync_file-Runs : Runs Filled (sync_file (temporary k)) (λ _. Flushed) Whole
    unfolding sync_file
    sync_file-Runs =
        step-Runs _ _ (λ d es s. s) (λ e d s. (s.0, rw (same_bytes k) (ap flushed s.1.1)))
          (λ e d s. Same-Whole d s.0)

    rename-Runs : Runs Flushed (rename (temporary k) (published k)) (λ _. Renamed) Whole
    unfolding rename
    rename-Runs =
        step-Runs _ _ (λ d es s. s) (λ e d s h. (moved_live d s h, moved_durable e.at_once d s h))
          (λ e d s. Same-Whole d s.0)

    sync_directory-Runs : Runs Renamed sync_directory (λ _. Kept) Whole
    unfolding sync_directory
    sync_directory-Runs =
        step-Runs _ _ (λ d es s. s) (λ e d s h. ((s h).0, (s h).0)) (λ e d s. Renamed-Whole d s)

    write-Runs : Runs Same (write k value) (λ _. Kept) Whole
    unfolding write
    write-Runs = Runs-bind _ _ create-Runs (λ _. Runs-bind _ _ write_all-Runs (λ _.
        Runs-bind _ _ sync_file-Runs (λ _. Runs-bind _ _ rename-Runs (λ _. sync_directory-Runs))))

    temporary_gone :
        (now : Bool) (d : Directory) (e : Event)
        → Whole d
        → (h : Bytes)
        → OldOrNew h (seen d h)
          × OldOrNew h (
              stored_of
                ((if now then named (temporary k) none d.durable else d.durable) (published h)))
    temporary_gone true d e w h = w h
    temporary_gone false d e w h = w h

    remove-Runs : Runs Whole (remove_file (temporary k)) (λ _. Whole) Whole
    unfolding remove_file
    remove-Runs = step-Runs _ _ (λ d es s. s) (λ e d s. temporary_gone e.at_once d e s) (λ e d s. s)

    after_removal :
        (o : Result FileDatabaseError Unit × Directory) → Post (λ _. Whole) Whole o → Whole o.1
    after_removal (ok x, d) h = h
    after_removal (err e, d) h = h

    removed-Whole :
        (o : Result FileDatabaseError Unit × Directory)
        → Post (λ _. Kept) Whole o
        → Post (λ _. Kept) Whole (clean_up k o)
    unfolding clean_up
    removed-Whole (ok x, d) h = h
    removed-Whole (err io, d) h = after_removal ((remove_file (temporary k)) d) (remove-Runs.at d h)
    removed-Whole (err ended, d) h = h

    new_live-stored : (h : Bytes) → stored_of (new_live h) ≡ content_of (new_live h)
    new_live-stored h = elim (Bool-cases (bytes_eq h k)) [
      | inl e ↦ rw e
      | inr e ↦ rw e (settled h).0
    ]

    new_live-content :
        (h : Bytes) → content_of (new_live h) ≡ (if bytes_eq h k then some value else seen start h)
    new_live-content h = elim (Bool-cases (bytes_eq h k)) [ inl e ↦ rw e | inr e ↦ rw e ]

    Kept-Replaced : (d : Directory) → Kept d → Replaced d
    Kept-Replaced d s = (
      λ h. (
        ap stored_of (s h).0 ∙ new_live-stored h ∙ sym (ap content_of (s h).0),
        ap stored_of (s h).1 ∙ new_live-stored h ∙ sym (ap content_of (s h).0),
      ),
      λ h. ap content_of (s h).0 ∙ new_live-content h,
    )

    replaced :
        (o : Result FileDatabaseError Unit × Directory)
        → Post (λ _. Kept) Whole o
        → Post (λ _. Replaced) Whole o
    replaced (ok x, d) h = Kept-Replaced d h
    replaced (err e, d) h = h

-- Whatever steps of a write fail, at whichever the process ends, and also after a loss of power: each
-- record is read as before or, if its file is that of the key written, as the new value, whole. If the
-- write succeeds, then that file has the new value and all others are as before, and a loss of power
-- changes this no more. A loss of power would have changed no record before.
pub put-atomic :
    (digest : Bytes → Bytes) (start : Directory) (key value : Bytes)
    → Settled start
    → Post
        (λ _. Replaced start (digest key) value)
        (Whole start (digest key) value)
        (put digest key value start)
unfolding put
put-atomic digest start key value settled =
    let k = digest key in
    replaced start k value settled (clean_up k (write k value start)) (
      removed-Whole start k value settled (write k value start)
        ((write-Runs start k value settled).at start (λ h. (refl, refl))))
