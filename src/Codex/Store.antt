-- ===== src/Codex/Store.antt =====
-- consent-store.js: the file of the record, the marker beside it that says that a record was once
-- seen, and `mutate`, the one way to write. What the disk, the lock and other processes do during
-- a call is given by a `Run`; the temporary file and its name are not told apart from its rename.
pub mod Commit
pub mod Failure
use skillmeter_claude_code_m.Prelude.{
  ℕ, suc, ◌+◌, Bool, true, false, not, ◌&&◌, Option, none, some, List, [], ◌==◌, if◌then◌else◌,
}
use skillmeter_claude_code_m.Codex.Record.{
  RawRecord, Choice, ConsentRecord, is_safe, validate_policy, raw_record,
}

-- The errors of the commands, before the store is asked.
pub data Refusal : Type 0 where
  organization_unavailable repository_unavailable repository_changed : Refusal
  local_consent_conflict organization_consent_required : Refusal

pub data ConsentError : Type 0 where
  policy_missing invalid_policy observation_failed policy_busy expected_revision_required :
      ConsentError
  stale_policy observer_failed durability_uncertain acknowledgement_required : ConsentError
  not_canonical io_failed : ConsentError
  refused : Refusal → ConsentError

-- The file: absent in a folder that can be looked up, a path that cannot be read as a regular file,
-- a text that is no JSON object, or an object.
pub data File : Type 0 where
  absent unreadable malformed : File
  json : RawRecord → File

pub data Marker : Type 0 where
  unmarked marked invalid_marker : Marker

pub record Disk : Type 0 where
  pub file : File
  pub marker : Marker

-- What comes of creating the marker: it stands, another process made it first, it stands but its
-- folder could not be synced, or it could not be made.
pub data Marking : Type 0 where
  made made_by_other made_unsynced not_made : Marking

pub data LockTry : Type 0 where
  acquired taken unavailable : LockTry

pub data DirSync : Type 0 where
  synced unsupported failed : DirSync

-- `meanwhile` is what others do before the lock is taken, and `interference` what they do to the
-- disk if the lock is lost before the rename; a lost lock stays lost. `unlocks` says that the lock's
-- file is closed and removed in the end, as far as it is this call's. A lock that is made but whose
-- token cannot be written counts as `unavailable`.
pub record Run : Type 0 where
  pub reading : Marking
  pub meanwhile : Disk → Disk
  pub lock : LockTry
  pub reading_again : Marking
  pub marking : Marking
  pub writes : Bool
  pub owned : Bool
  pub interference : Disk → Disk
  pub renames : Bool
  pub sync : DirSync
  pub observer : ConsentRecord → Bool
  pub still_owned : Bool
  pub unlocks : Bool

pub data Read : Type 0 where
  nothing : Read
  loaded : ConsentRecord → Read
  failed : ConsentError → Read

pub data Saved : Type 0 where
  saved : ConsentRecord → (durable : Bool) → Saved
  failed : ConsentError → Saved

abbrev pub marker_after : Marking → Marker
marker_after made = marked
marker_after made_by_other = marked
marker_after made_unsynced = marked
marker_after not_made = unmarked

abbrev pub mark_works : Marking → Bool
mark_works made = true
mark_works made_by_other = true
mark_works made_unsynced = false
mark_works not_made = false

abbrev pub is_created : Marking → Bool
is_created made = true
is_created made_by_other = false
is_created made_unsynced = true
is_created not_made = false

-- `observed(true)`: the disk after it, whether it returns, and whether this call made the marker.
pub record Observed : Type 0 where
  pub disk : Disk
  pub ok : Bool
  pub created : Bool

unfoldable pub observe : Marking → Disk → Observed
observe m d = elim d.marker [
  | marked ↦ record { disk = d; ok = true; created = false }
  | invalid_marker ↦ record { disk = d; ok = false; created = false }
  | unmarked ↦ record {
    disk = record d { marker = marker_after m };
    ok = mark_works m;
    created = is_created m;
  }
]

abbrev pub read_absent : Marker → Read
read_absent unmarked = nothing
read_absent marked = Read.failed policy_missing
read_absent invalid_marker = Read.failed observation_failed

abbrev pub read_valid : Option ConsentRecord → Read
read_valid none = Read.failed invalid_policy
read_valid (some p) = loaded p

-- A text was read: it counts as seen before it is looked at.
abbrev pub read_seen : Option ConsentRecord → Observed → Read × Disk
read_seen content seen =
    (if seen.ok then read_valid content else Read.failed observation_failed, seen.disk)

unfoldable pub read_policy : Marking → Disk → Read × Disk
unfolding observe
read_policy m d = elim d.file [
  | absent ↦ (read_absent d.marker, d)
  | unreadable ↦ (Read.failed invalid_policy, d)
  | malformed ↦ read_seen none (observe m d)
  | json r ↦ read_seen (validate_policy r) (observe m d)
]

pub data Expected : Type 0 where
  first_use unusable : Expected
  at : ℕ → Expected

abbrev pub is_usable : Expected → Bool
is_usable first_use = true
is_usable unusable = false
is_usable (at n) = is_safe n

abbrev pub is_expected : Option ConsentRecord → Expected → Bool
is_expected none first_use = true
is_expected none unusable = false
is_expected none (at n) = false
is_expected (some p) first_use = false
is_expected (some p) unusable = false
is_expected (some p) (at n) = p.revision == n

abbrev pub empty_record : ConsentRecord
empty_record = record {
  revision = 0;
  global = record { enabled = true; decided_at = none; consent_version = none; source = none };
  organizations = [];
  repositories = [];
}

abbrev pub or_empty : Option ConsentRecord → ConsentRecord
or_empty none = empty_record
or_empty (some p) = p

abbrev is_absent : File → Bool
is_absent absent = true
is_absent unreadable = false
is_absent malformed = false
is_absent (json r) = false

abbrev is_first : Option ConsentRecord → Bool
is_first none = true
is_first (some p) = false

abbrev unmark_if : Bool → Disk → Disk
unmark_if test d = if test then record d { marker = unmarked } else d

-- The `catch` of `mutate`: a failed first write takes its own marker back.
unfoldable pub roll_back : Run → Option ConsentRecord → Bool → ConsentError → Disk → Saved × Disk
roll_back run previous created error d = (
  Saved.failed error,
  unmark_if (is_first previous && created && (run.owned && run.still_owned) && is_absent d.file) d,
)

abbrev pub is_synced : DirSync → Bool
is_synced synced = true
is_synced unsupported = false
is_synced failed = false

abbrev pub is_failed : DirSync → Bool
is_failed synced = false
is_failed unsupported = false
is_failed failed = true

-- The record is renamed into its place; then the client looks at it and the folder is synced.
unfoldable pub publish : Run → Option ConsentRecord → ConsentRecord → Disk → Saved × Disk
unfolding observe roll_back
publish run previous next d =
    let seen = observe run.marking d in
    let before = if run.owned then seen.disk else run.interference seen.disk in
    let after = record before { file = json (raw_record next) } in
    if not seen.ok
    then roll_back run previous seen.created observation_failed seen.disk
    else if not run.writes
    then roll_back run previous seen.created io_failed seen.disk
    else if not run.owned
    then roll_back run previous seen.created policy_busy before
    else if not run.renames
    then roll_back run previous seen.created io_failed before
    else if not (run.observer next)
    then roll_back run previous seen.created observer_failed after
    else if is_failed run.sync
    then roll_back run previous seen.created durability_uncertain after
    else (saved next (is_synced run.sync), after)

-- The `finally` of `withLock`: its error takes the place of the result.
abbrev pub unlock : Bool → Saved × Disk → Saved × Disk
unlock true done = done
unlock false (result, d) = (Saved.failed io_failed, d)

abbrev pub bumped : ConsentRecord → ConsentRecord
bumped p = record p { revision = p.revision + 1 }

abbrev pub publish_valid :
    Run → Option ConsentRecord → ConsentRecord → Option ConsentRecord → Disk → Saved × Disk
publish_valid run previous next none d = (Saved.failed invalid_policy, d)
publish_valid run previous next (some q) d = publish run previous next d

module _ (mutator : ConsentRecord → ConsentRecord) (expected : Expected) (run : Run) where
  unfoldable pub change : Option ConsentRecord → Disk → Saved × Disk
  change previous d =
      let next = bumped (mutator (or_empty previous)) in
      let done = publish_valid run previous next (validate_policy (raw_record next)) d in
      if is_expected previous expected then done else (Saved.failed stale_policy, d)

  abbrev pub change_read : Read × Disk → Saved × Disk
  change_read (nothing, d) = change none d
  change_read (loaded p, d) = change (some p) d
  change_read (Read.failed error, d) = (Saved.failed error, d)

  abbrev pub change_locked : LockTry → Disk → Saved × Disk
  change_locked acquired d = unlock run.unlocks (change_read (read_policy run.reading_again d))
  change_locked taken d = (Saved.failed policy_busy, d)
  change_locked unavailable d = (Saved.failed io_failed, d)

  abbrev pub change_after : Read × Disk → Saved × Disk
  change_after (nothing, d) = change_locked run.lock (run.meanwhile d)
  change_after (loaded p, d) = change_locked run.lock (run.meanwhile d)
  change_after (Read.failed error, d) = (Saved.failed error, d)

  unfoldable pub mutate : Disk → Saved × Disk
  unfolding change read_policy
  mutate d =
      if is_usable expected
      then change_after (read_policy run.reading d)
      else (Saved.failed expected_revision_required, d)
