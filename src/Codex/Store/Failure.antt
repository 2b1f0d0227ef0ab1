-- ===== src/Codex/Store/Failure.antt =====
-- What a write that fails leaves behind, and what is never forgotten.
use skillmeter_claude_code_m.Prelude.{
  Bool, true, false, Option, none, some, if◌then◌else◌, Bool-cases, List, [], ◌∷◌, All, ◌≡◌, ◌≢◌,
  inl, inr, refl, sym, ap, ◌∙◌, arith,
}
use skillmeter_claude_code_m.Codex.Record.{ConsentRecord, validate_policy, raw_record}
use skillmeter_claude_code_m.Codex.Store.{
  ConsentError, observer_failed, durability_uncertain, made_by_other, File, absent, unmarked,
  marked, Disk, Marking, Run, LockTry, acquired, taken, unavailable, Read, nothing, loaded, Saved,
  saved, observe, read_policy, Expected, first_use, is_usable, roll_back, publish, publish_valid,
  is_expected, bumped, unlock, or_empty, stale_policy, change, change_read, change_locked,
  change_after, mutate,
}
use skillmeter_claude_code_m.Codex.Store.Commit.{
  read_policy-file, change_read-failed, mutate_lem, read_of,
}

unlock_works : (unlocks : Bool) (r : Saved × Disk) → unlocks ≡ true → unlock unlocks r ≡ r
unlock_works true r e = refl
unlock_works false r e = absurd (ground (arith, e))

module _ (mutator : ConsentRecord → ConsentRecord) (expected : Expected) (run : Run) where
  change_locked-failed :
      (lock : LockTry) (d d' : Disk) (e : ConsentError)
      → run.owned ≡ true
      → run.unlocks ≡ true
      → change_locked mutator expected run lock d ≡ (Saved.failed e, d')
      → e ≢ observer_failed
      → e ≢ durability_uncertain
      → d'.file ≡ d.file
  change_locked-failed acquired d d' e owned unlocks same o u =
      change_read-failed mutator expected run (read_policy run.reading_again d) d' e owned
        (sym (unlock_works run.unlocks _ unlocks) ∙ same) o u
      ∙ read_policy-file run.reading_again d
  change_locked-failed taken d d' e owned unlocks same o u = ground (arith, same)
  change_locked-failed unavailable d d' e owned unlocks same o u = ground (arith, same)

  change_after-failed :
      (r : Read × Disk) (d' : Disk) (e : ConsentError)
      → run.owned ≡ true
      → run.unlocks ≡ true
      → ((x : Disk) → (run.meanwhile x).file ≡ x.file)
      → change_after mutator expected run r ≡ (Saved.failed e, d')
      → e ≢ observer_failed
      → e ≢ durability_uncertain
      → d'.file ≡ r.1.file
  change_after-failed (nothing, d) d' e owned unlocks quiet same o u =
      change_locked-failed run.lock (run.meanwhile d) d' e owned unlocks same o u ∙ quiet d
  change_after-failed (loaded p, d) d' e owned unlocks quiet same o u =
      change_locked-failed run.lock (run.meanwhile d) d' e owned unlocks same o u ∙ quiet d
  change_after-failed (Read.failed error, d) d' e owned unlocks quiet same o u =
      ground (arith, same)

-- Where the lock is not lost, its file can be removed in the end, and no other process writes the
-- record before it is taken, a write that reports an error has left the file as it was, unless the
-- error is one of the two that say that the record was saved.
pub mutate-failed :
    (mutator : ConsentRecord → ConsentRecord) (expected : Expected) (run : Run) (d d' : Disk)
    (e : ConsentError)
    → run.owned ≡ true
    → run.unlocks ≡ true
    → ((x : Disk) → (run.meanwhile x).file ≡ x.file)
    → mutate mutator expected run d ≡ (Saved.failed e, d')
    → e ≢ observer_failed
    → e ≢ durability_uncertain
    → d'.file ≡ d.file
unfolding mutate
mutate-failed mutator expected run d d' e owned unlocks quiet same o u =
    elim (Bool-cases (is_usable expected)) [
      | inl usable ↦
          change_after-failed mutator expected run (read_policy run.reading d) d' e owned unlocks
            quiet (rw usable at same) o u
          ∙ read_policy-file run.reading d
      | inr not_usable ↦ ground (arith, not_usable, same)
    ]

abbrev pub blank : Disk
blank = record { file = absent; marker = unmarked }

publish_first-failed :
    (run : Run) (next : ConsentRecord) (v : Option ConsentRecord) (d' : Disk) (e : ConsentError)
    → run.owned ≡ true
    → run.still_owned ≡ true
    → run.marking ≢ made_by_other
    → publish_valid run none next v blank ≡ (Saved.failed e, d')
    → e ≢ observer_failed
    → e ≢ durability_uncertain
    → d' ≡ blank
unfolding publish observe roll_back
publish_first-failed run next none d' e owned still own same o u = ground (arith, same)
publish_first-failed run next (some q) d' e owned still own same o u =
    ground (arith, owned, still, own, same, o, u)

first_locked-failed :
    (mutator : ConsentRecord → ConsentRecord) (run : Run) (lock : LockTry) (d' : Disk)
    (e : ConsentError)
    → run.owned ≡ true
    → run.still_owned ≡ true
    → run.unlocks ≡ true
    → run.marking ≢ made_by_other
    → change_locked mutator first_use run lock blank ≡ (Saved.failed e, d')
    → e ≢ observer_failed
    → e ≢ durability_uncertain
    → d' ≡ blank
unfolding change read_policy
first_locked-failed mutator run acquired d' e owned still unlocks own same o u =
    publish_first-failed run _ _ d' e owned still own
      (sym (unlock_works run.unlocks _ unlocks) ∙ same) o u
first_locked-failed mutator run taken d' e owned still unlocks own same o u = ground (arith, same)
first_locked-failed mutator run unavailable d' e owned still unlocks own same o u =
    ground (arith, same)

-- Where the lock is held to the end and then removed, and no other process writes or makes the marker meanwhile, a
-- first write that fails, unless it says that the record was saved, leaves neither a record nor
-- the marker, so that a later write can still be the first.
pub first_use-failed :
    (mutator : ConsentRecord → ConsentRecord) (run : Run) (d' : Disk) (e : ConsentError)
    → run.owned ≡ true
    → run.still_owned ≡ true
    → run.unlocks ≡ true
    → run.marking ≢ made_by_other
    → ((x : Disk) → run.meanwhile x ≡ x)
    → mutate mutator first_use run blank ≡ (Saved.failed e, d')
    → e ≢ observer_failed
    → e ≢ durability_uncertain
    → d' ≡ blank
unfolding mutate read_policy
first_use-failed mutator run d' e owned still unlocks own quiet same o u =
    first_locked-failed mutator run run.lock d' e owned still unlocks own
      (ap (λ x. change_locked mutator first_use run run.lock x) (sym (quiet blank)) ∙ same) o u

-- What happens to the disk: writes and readings of this client, and changes of the file by others.
pub data Event : Type 0 where
  write : (ConsentRecord → ConsentRecord) → Expected → Run → Event
  reading : Marking → Event
  replaced : File → Event

abbrev pub apply : Event → Disk → Disk
apply (write mutator expected run) d = (mutate mutator expected run d).1
apply (reading m) d = (read_policy m d).1
apply (replaced file) d = record d { file = file }

abbrev pub after_events : List Event → Disk → Disk
after_events [] d = d
after_events (e ∷ events) d = after_events events (apply e d)

-- What others do during a write does not take the marker away.
pub record KeepsMark (run : Run) : Type 0 where
  pub meanwhile : (x : Disk) → x.marker ≡ marked → (run.meanwhile x).marker ≡ marked
  pub interference : (x : Disk) → x.marker ≡ marked → (run.interference x).marker ≡ marked

abbrev pub Keeps : Event → Type 0
Keeps (write mutator expected run) = KeepsMark run
Keeps (reading m) = Unit
Keeps (replaced file) = Unit

read_policy-marked :
    (m : Marking) (d : Disk) → d.marker ≡ marked → (read_policy m d).1.marker ≡ marked
unfolding read_policy observe
read_policy-marked m d e = ground (arith, e)

publish-marked :
    (run : Run) (previous : Option ConsentRecord) (next : ConsentRecord) (d : Disk)
    → KeepsMark run
    → d.marker ≡ marked
    → (publish run previous next d).1.marker ≡ marked
unfolding publish observe roll_back
publish-marked run previous next d keeps e = ground (arith, e, keeps.interference d)

module _ (mutator : ConsentRecord → ConsentRecord) (expected : Expected) (run : Run)
    (keeps : KeepsMark run) where
  change-marked :
      (previous : Option ConsentRecord) (d : Disk)
      → d.marker ≡ marked
      → (change mutator expected run previous d).1.marker ≡ marked
  unfolding change
  change-marked previous d e =
      let next = bumped (mutator (or_empty previous)) in
      elim (validate_policy (raw_record next))
        as (λ v.
          (if is_expected previous expected
            then publish_valid run previous next v d
            else (Saved.failed stale_policy, d)).1.marker
          ≡ marked) [
            | none ↦ ground (arith, e)
            | some q ↦ ground (arith, e, publish-marked run previous next d keeps e)
          ]

  change_locked-marked :
      (lock : LockTry) (d : Disk)
      → d.marker ≡ marked
      → (change_locked mutator expected run lock d).1.marker ≡ marked
  change_locked-marked acquired d e =
      ap (λ x. x.marker) (unlock-disk run.unlocks _)
      ∙ read_split (read_policy run.reading_again d) (read_policy-marked run.reading_again d e)
    where
      unlock-disk : (unlocks : Bool) (r : Saved × Disk) → (unlock unlocks r).1 ≡ r.1
      unlock-disk true r = refl
      unlock-disk false (result, x) = refl

      read_split :
          (r : Read × Disk)
          → r.1.marker ≡ marked
          → (change_read mutator expected run r).1.marker ≡ marked
      read_split (nothing, x) m = change-marked none x m
      read_split (loaded p, x) m = change-marked (some p) x m
      read_split (Read.failed error, x) m = m
  change_locked-marked taken d e = e
  change_locked-marked unavailable d e = e

  change_after-marked :
      (r : Read × Disk)
      → r.1.marker ≡ marked
      → (change_after mutator expected run r).1.marker ≡ marked
  change_after-marked (nothing, x) m = change_locked-marked run.lock _ (keeps.meanwhile x m)
  change_after-marked (loaded p, x) m = change_locked-marked run.lock _ (keeps.meanwhile x m)
  change_after-marked (Read.failed error, x) m = m

  mutate-marked : (d : Disk) → d.marker ≡ marked → (mutate mutator expected run d).1.marker ≡ marked
  unfolding mutate
  mutate-marked d e = ground (
    arith,
    e,
    change_after-marked (read_policy run.reading d) (read_policy-marked run.reading d e),
  )

after_events-marked :
    (events : List Event) (d : Disk)
    → All Keeps events
    → d.marker ≡ marked
    → (after_events events d).marker ≡ marked
after_events-marked [] d all e = e
after_events-marked (write mutator expected run ∷ events) d (keeps, all) e =
    after_events-marked events _ all (mutate-marked mutator expected run keeps d e)
after_events-marked (reading m ∷ events) d (keeps, all) e =
    after_events-marked events _ all (read_policy-marked m d e)
after_events-marked (replaced file ∷ events) d (keeps, all) e = after_events-marked events _ all e

read_nothing-unmarked :
    (m : Marking) (d : Disk) → (read_policy m d).0 ≡ nothing → d.marker ≡ unmarked
unfolding read_policy observe
read_nothing-unmarked m d e = ground (arith, e)

is_expected-first_use :
    (previous : Option ConsentRecord) → is_expected previous first_use ≡ true → previous ≡ none
is_expected-first_use none e = refl
is_expected-first_use (some p) e = ground (arith, e)

-- Once the client has seen a record, no later write is taken for the first one, whatever writes
-- and readings follow and however the file is removed or replaced in between, as long as others
-- leave the marker alone: a consent that went missing is never replaced by a fresh record.
pub never_first_again :
    (events : List Event) (d : Disk)
    → d.marker ≡ marked
    → All Keeps events
    → (mutator : ConsentRecord → ConsentRecord) (run : Run) (p : ConsentRecord) (durable : Bool)
      (d' : Disk)
    → KeepsMark run
    → mutate mutator first_use run (after_events events d) ≢ (saved p durable, d')
never_first_again events d e all mutator run p durable d' keeps same =
    let done = mutate_lem mutator first_use run (after_events events d) d' p durable same in
    let now = after_events-marked events d all e in
    let read_now = read_policy-marked run.reading (after_events events d) now in
    let at_lock = keeps.meanwhile (read_policy run.reading (after_events events d)).1 read_now in
    let none_before = is_expected-first_use done.0 done.2 in
    let unread = read_nothing-unmarked run.reading_again _ (done.1 ∙ ap read_of none_before) in
    ground (arith, at_lock, unread)
