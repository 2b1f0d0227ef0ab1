-- ===== src/Status.antt =====
-- clients/claude-code/skillmeter/scripts/lib/license-status.js, with the backoff schedule of
-- shared/lib/license-renewal.js: the refresh status record. The pure changes are functions on the
-- record; the file and the session's context digest are arguments of the reads and writes. A
-- message is the list of its UTF-16 code units.
pub mod History
pub mod Update
mod Tests
use Prim.Native.Nat.{min}
use skillmeter_claude_code_m.Prelude.{
  ℕ, zero, suc, ◌+◌, ◌-◌, ◌*◌, ◌^◌, Bool, true, false, not, ◌&&◌, ◌||◌, Option, none, some, List,
  [], String, str_eq, ltb, ◌==◌, take, if◌then◌else◌,
}
use skillmeter_claude_code_m.Jwt.{or_null}

-- `TERMINAL_REASONS`
pub data Reason : Type 0 where
  revoked reactivation_required backoff_exhausted : Reason

pub data Outcome : Type 0 where
  signed_in rotated transient_failure terminal : Outcome

-- `kind` of an error: a plain word, or the reason of a terminal outcome.
pub data ErrorKind : Type 0 where
  plain : String → ErrorKind
  reason : Reason → ErrorKind

pub record StatusError : Type 0 where
  pub kind : ErrorKind
  pub status : Option ℕ
  pub message : List ℕ

pub record Terminal : Type 0 where
  pub reason : Reason
  pub at : ℕ
  pub status : Option ℕ
  pub message : List ℕ

pub record Status : Type 0 where
  pub last_attempt_at : Option ℕ
  pub last_success_at : Option ℕ
  pub last_outcome : Option Outcome
  pub last_error : Option StatusError
  pub consecutive_failures : ℕ
  pub next_retry_at : Option ℕ
  pub terminal : Option Terminal
  pub last_terminal_reason : Option Reason
  pub updated_by : Option String
  pub revision : ℕ
  pub auth_context : Option String

abbrev pub empty_status : Status
empty_status = record {
  last_attempt_at = none;
  last_success_at = none;
  last_outcome = none;
  last_error = none;
  consecutive_failures = 0;
  next_retry_at = none;
  terminal = none;
  last_terminal_reason = none;
  updated_by = none;
  revision = 0;
  auth_context = none;
}

abbrev pub backoff_cap_ms : ℕ
backoff_cap_ms = 1800000

-- license-renewal.js; the client's `backoffDelayMs` calls it.
unfoldable pub backoff_delay_ms : ℕ → ℕ → ℕ → ℕ
backoff_delay_ms zero base cap = 0
backoff_delay_ms (suc n) base cap = min (base * 2 ^ n) cap

abbrev terminal_reason : Option Terminal → Option Reason → Option Reason
terminal_reason none last = last
terminal_reason (some t) last = some t.reason

unfoldable pub last_terminal_reason : Status → Option Reason
last_terminal_reason s = terminal_reason s.terminal s.last_terminal_reason

abbrev pub is_reactivation : Option Reason → Bool
is_reactivation none = false
is_reactivation (some Reason.revoked) = false
is_reactivation (some Reason.reactivation_required) = true
is_reactivation (some Reason.backoff_exhausted) = false

unfoldable pub is_session_ended : Status → Bool
unfolding last_terminal_reason
is_session_ended s = is_reactivation (last_terminal_reason s)

pub data Blocked : Type 0 where
  by_terminal by_backoff : Blocked

abbrev is_exhausted : Reason → Bool
is_exhausted Reason.revoked = false
is_exhausted Reason.reactivation_required = false
is_exhausted Reason.backoff_exhausted = true

abbrev blocking : Option Terminal → Bool
blocking none = false
blocking (some t) = not (is_exhausted t.reason)

abbrev waiting : Option ℕ → ℕ → Bool
waiting none now = false
waiting (some t) now = ltb now t

unfoldable pub refresh_blocked_reason : Status → ℕ → Option Blocked
refresh_blocked_reason s now =
    if blocking s.terminal
    then some by_terminal
    else if waiting s.next_retry_at now
    then some by_backoff
    else none

unfoldable pub refresh_success : String → Outcome → ℕ → Status → Status
refresh_success source outcome now prev = record prev {
  last_attempt_at = some now;
  last_success_at = some now;
  last_outcome = some outcome;
  last_error = none;
  consecutive_failures = 0;
  next_retry_at = none;
  terminal = none;
  last_terminal_reason = none;
  updated_by = some source;
}

abbrev failed_again : Status → String → StatusError → ℕ → Status
failed_again prev source error now = record prev {
  last_attempt_at = some now;
  last_error = some error;
  consecutive_failures = prev.consecutive_failures + 1;
  updated_by = some source;
}

-- A terminal state is kept; any other record backs off.
unfoldable pub refresh_failure : String → String → Option ℕ → List ℕ → ℕ → ℕ → ℕ → Status → Status
refresh_failure source kind status message now base cap prev =
    let error : StatusError = record {
      kind = plain kind;
      status = status;
      message = take 200 message;
    } in
    let failures = prev.consecutive_failures + 1 in
    elim prev.terminal [
      | some t ↦ failed_again prev source error now
      | none ↦ record prev {
        last_attempt_at = some now;
        last_outcome = some transient_failure;
        last_error = some error;
        consecutive_failures = failures;
        next_retry_at = some (now + backoff_delay_ms failures base cap);
        terminal = none;
        updated_by = some source;
      }
    ]

unfoldable pub terminal_outcome : String → Reason → Option ℕ → List ℕ → ℕ → Status → Status
terminal_outcome source why status message now prev = record prev {
  last_attempt_at = some now;
  last_outcome = some Outcome.terminal;
  last_error = some (record { kind = reason why; status = status; message = take 200 message });
  next_retry_at = none;
  terminal = some (record { reason = why; at = now; status = status; message = take 200 message });
  last_terminal_reason = some why;
  updated_by = some source;
}

abbrev is_some {ℓ} : {A : Type ℓ} → Option A → Bool
is_some none = false
is_some (some a) = true

-- `!v` of a number that may be missing
abbrev is_zero : Option ℕ → Bool
is_zero none = true
is_zero (some n) = n == 0

-- Whether `clearTerminal` returns the record as it is, without a write.
unfoldable pub nothing_to_clear : Status → Bool
nothing_to_clear prev =
    not (is_some prev.terminal) && is_zero prev.next_retry_at && prev.consecutive_failures == 0

unfoldable pub cleared_terminal : String → Status → Status
unfolding last_terminal_reason
cleared_terminal source cur = record cur {
  consecutive_failures = 0;
  next_retry_at = none;
  terminal = none;
  last_terminal_reason = last_terminal_reason cur;
  updated_by = some source;
}

unfoldable pub cleared_status : String → Status → Status
unfolding last_terminal_reason
cleared_status source prev = record empty_status {
  last_terminal_reason = last_terminal_reason prev;
  last_success_at = prev.last_success_at;
  updated_by = some source;
}

unfoldable pub signin_status : String → ℕ → Status → Status
signin_status source now prev = record empty_status {
  last_attempt_at = some now;
  last_success_at = some now;
  last_outcome = some signed_in;
  updated_by = some source;
}

abbrev other_context : Option String → String → Bool
other_context none context = false
other_context (some c) context = not (str_eq c context)

-- The file as `safeReadJson` gives it: a record of another schema keeps its revision only.
pub data StatusFile : Type 0 where
  missing : StatusFile
  foreign : ℕ → StatusFile
  stored : Status → StatusFile

unfoldable pub read_license_status : StatusFile → String → Status
unfolding last_terminal_reason
read_license_status missing context = empty_status
read_license_status (foreign n) context = empty_status
read_license_status (stored raw) context =
    if other_context (or_null raw.auth_context) context
    then record empty_status {
      revision = raw.revision;
      last_terminal_reason = last_terminal_reason raw;
      last_success_at = raw.last_success_at;
    }
    else raw

unfoldable pub current_revision : StatusFile → ℕ
current_revision missing = 0
current_revision (foreign n) = n
current_revision (stored raw) = raw.revision

abbrev pub stamped : (Status → Status) → String → Status → Status
stamped mutate context prev = record (mutate prev) {
  auth_context = some context;
  revision = prev.revision + 1;
}

-- What `getRetryBaseMs` of lib/config.js makes of the number in SKILLMETER_RETRY_BASE_MS.
abbrev pub get_retry_base_ms : Option ℕ → ℕ
get_retry_base_ms none = 120000
get_retry_base_ms (some n) = if n == 0 then 120000 else n

-- The surroundings of an update, by the number of tries left behind the present one: the digest of
-- the session as the try stamps it and as it reads with it, and what other processes do to the file
-- between the read and the check of the revision, and between the check and the rename.
pub record Surroundings : Type 0 where
  pub context : ℕ → String
  pub reading : ℕ → String
  pub before_check : ℕ → StatusFile → StatusFile
  pub before_rename : ℕ → StatusFile → StatusFile

-- No other writer, in one session.
abbrev pub undisturbed : String → Surroundings
undisturbed context = record {
  context = λ _. context;
  reading = λ _. context;
  before_check = λ _ f. f;
  before_rename = λ _ f. f;
}

-- A rename puts the record in the place of whatever file is there.
abbrev pub rename_over : Status → StatusFile → StatusFile
rename_over next file = stored next

-- `updateLicenseStatus` with some tries left. Write errors are left out. The result is the record
-- and the file.
unfoldable pub update_loop :
    ℕ → Surroundings → (Status → Status) → Status → StatusFile → Status × StatusFile
update_loop zero around mutate last file = (last, rename_over last file)
update_loop (suc k) around mutate last file =
    let prev = read_license_status file (around.reading k) in
    let next = stamped mutate (around.context k) prev in
    let checked = around.before_check k file in
    let again = update_loop k around mutate next checked in
    if current_revision checked == prev.revision
    then (next, rename_over next (around.before_rename k checked))
    else again

abbrev pub max_update_attempts : ℕ
max_update_attempts = 5

unfoldable pub update_license_status :
    Surroundings → (Status → Status) → StatusFile → Status × StatusFile
unfolding update_loop
update_license_status around mutate file =
    update_loop max_update_attempts around mutate empty_status file

-- `clearTerminal` on the file: nothing is written where there is nothing to clear; `reading` is the
-- digest that the first read is made with.
unfoldable pub clear_terminal : Surroundings → String → String → StatusFile → Status × StatusFile
clear_terminal around reading source file =
    let prev = read_license_status file reading in
    if nothing_to_clear prev
    then (prev, file)
    else update_license_status around (cleared_terminal source) file
