-- ===== src/Codex/Evaluate.antt =====
-- What the consent record allows: `evaluateRepositoryConsent` of consent-policy.js and the readers
-- of consent-reader.js. `JSON.stringify` of a stamp is the stamp.
pub mod Effect
pub mod Stamps
use skillmeter_claude_code_m.Prelude.{
  ℕ, Bool, true, false, not, ◌&&◌, ◌||◌, Option, none, some, String, str_eq, ◌==◌, if◌then◌else◌,
}
use skillmeter_claude_code_m.Prelude.Assoc.{lookup, string_eq}
use skillmeter_claude_code_m.Codex.Record.{Choice, ConsentRecord, is_safe}
use skillmeter_claude_code_m.Codex.Store.{
  ConsentError, policy_missing, Disk, Marking, Read, nothing, loaded, read_policy,
}
use skillmeter_claude_code_m.Codex.Choices.{is_granted}

-- `remote_org` is the organization of the remote, `repo_key` the canonical repository.
pub record Scope : Type 0 where
  pub allowed : Bool
  pub repo_key : Option String
  pub remote_org : String

pub data GlobalReason : Type 0 where
  no_record enabled paused missing invalid : GlobalReason

pub record GlobalConsent : Type 0 where
  pub policy : Option ConsentRecord
  pub disabled : Bool
  pub reason : GlobalReason

pub data Reason : Type 0 where
  absent scope_unavailable invalid choice_required choice_off enabled : Reason
  consent_record_missing : Reason

pub record ChoiceStamp : Type 0 where
  pub enabled : Bool
  pub decided_at : Option ℕ
  pub consent_version : Option ℕ

pub data Stamp : Type 0 where
  no_choices : String → Stamp
  choices : String → (organization repository : Option ChoiceStamp) → Stamp

pub record Evaluation : Type 0 where
  pub allowed : Bool
  pub revoked : Bool
  pub acknowledged : Bool
  pub reason : Reason
  pub stamp : Option Stamp

abbrev pub held : Reason → Option Stamp → Evaluation
held reason stamp = record {
  allowed = false;
  revoked = false;
  acknowledged = false;
  reason = reason;
  stamp = stamp;
}

abbrev pub is_valid_choice : Option Choice → Bool
is_valid_choice none = false
is_valid_choice (some c) = elim c.decided_at [ none ↦ true | some n ↦ is_safe n ]

abbrev pub is_off : Option Choice → Bool
is_off none = false
is_off (some c) = not c.enabled

abbrev pub choice_stamp : Choice → ChoiceStamp
choice_stamp c = record {
  enabled = c.enabled;
  decided_at = c.decided_at;
  consent_version = c.consent_version;
}

abbrev pub stamp_of : Option Choice → Option ChoiceStamp
stamp_of none = none
stamp_of (some c) = if is_valid_choice (some c) then some (choice_stamp c) else none

abbrev pub has_version_two : Option Choice → Bool
has_version_two none = false
has_version_two (some c) = elim c.consent_version [ none ↦ false | some v ↦ v == 2 ]

unfoldable pub judge : String → Option Choice → Option Choice → Evaluation
judge key organization repository =
    let revoked =
      is_valid_choice organization && is_off organization
      || is_valid_choice repository && is_off repository in
    let undecided = not (is_valid_choice organization) || not (is_valid_choice repository) in
    if not revoked && undecided then held choice_required none else record {
      allowed = not revoked;
      revoked = revoked;
      acknowledged = not revoked && has_version_two organization && has_version_two repository;
      reason = if revoked then choice_off else enabled;
      stamp = some (choices key (stamp_of organization) (stamp_of repository));
    }

abbrev absent_stamp : Option String → Option Stamp
absent_stamp none = none
absent_stamp (some key) = some (no_choices key)

-- `scope.repoKey`, "" and a missing key being one.
abbrev pub key_of : Scope → Option String
key_of scope = elim scope.repo_key [
  | none ↦ none
  | some key ↦ if str_eq key "" then none else some key
]

abbrev judge_policy : String → String → Option ConsentRecord → Evaluation
judge_policy key org none = held Reason.invalid none
judge_policy key org (some p) = judge key (lookup org p.organizations) (lookup key p.repositories)

abbrev judge_scope : Scope → Option String → Option ConsentRecord → Evaluation
judge_scope scope none policy = held scope_unavailable none
judge_scope scope (some key) policy =
    if scope.allowed then judge_policy key scope.remote_org policy else held scope_unavailable none

abbrev is_no_record : GlobalReason → Bool
is_no_record no_record = true
is_no_record enabled = false
is_no_record paused = false
is_no_record missing = false
is_no_record invalid = false

unfoldable pub evaluate_repository_consent : Scope → GlobalConsent → Evaluation
unfolding judge
evaluate_repository_consent scope shared =
    if is_no_record shared.reason
    then held absent (absent_stamp (key_of scope))
    else judge_scope scope (key_of scope) shared.policy

abbrev is_missing : ConsentError → Bool
is_missing policy_missing = true
is_missing _ = false

abbrev pub global_of : Read → GlobalConsent
global_of nothing = record { policy = none; disabled = false; reason = no_record }
global_of (loaded p) = record {
  policy = some p;
  disabled = not p.global.enabled;
  reason = if p.global.enabled then GlobalReason.enabled else paused;
}
global_of (Read.failed error) = record {
  policy = none;
  disabled = true;
  reason = if is_missing error then missing else GlobalReason.invalid;
}

unfoldable pub read_global_consent : Marking → Disk → GlobalConsent × Disk
read_global_consent m d = let read = read_policy m d in (global_of read.0, read.1)

abbrev pub consent_of : Scope → GlobalConsent → Evaluation
consent_of scope shared = elim shared.reason [
  | missing ↦ held consent_record_missing none
  | _ ↦ evaluate_repository_consent scope shared
]

unfoldable pub read_repository_consent : Marking → Scope → Disk → Evaluation × Disk
unfolding read_global_consent evaluate_repository_consent
read_repository_consent m scope d =
    let shared = read_global_consent m d in (consent_of scope shared.0, shared.1)
