-- ===== src/Codex/Preview.antt =====
-- What stands in the way of capture: `readTelemetryChoice` of settings.js and `buildConsentPreview`
-- of consent-preview.js. The folders from the working folder up to the root of the repository, with
-- their settings files, are given; there are none where it lies outside.
pub mod Clean
use skillmeter_claude_code_m.Prelude.{
  ℕ, Bool, true, false, not, ◌&&◌, ◌||◌, any, Option, none, some, List, [], ◌∷◌, ◌++◌, String,
  str_eq, get_elem?, if◌then◌else◌,
}
use skillmeter_claude_code_m.Prelude.Assoc.{lookup, string_eq}
use skillmeter_claude_code_m.Policy.Keys.{split_slash}
use skillmeter_claude_code_m.Codex.Record.{Choice, ConsentRecord}
use skillmeter_claude_code_m.Codex.Store.{ConsentError}
use skillmeter_claude_code_m.Codex.Choices.{Section, organizations, repositories}
use skillmeter_claude_code_m.Codex.Evaluate.{Scope, has_version_two}

pub data LocalChoice : Type 0 where
  on off unset invalid : LocalChoice

-- A settings file: no file, one that cannot be read as an object or whose `skillmeter` is no object,
-- or the value of its telemetry switch.
pub data Switch : Type 0 where
  undefined other : Switch
  flag : Bool → Switch

pub data SettingsFile : Type 0 where
  no_file broken : SettingsFile
  settings : Switch → SettingsFile

unfoldable pub read_telemetry_choice : SettingsFile → LocalChoice
read_telemetry_choice no_file = unset
read_telemetry_choice broken = invalid
read_telemetry_choice (settings undefined) = unset
read_telemetry_choice (settings other) = invalid
read_telemetry_choice (settings (flag true)) = on
read_telemetry_choice (settings (flag false)) = off

abbrev pub is_unset : LocalChoice → Bool
is_unset unset = true
is_unset on = false
is_unset off = false
is_unset invalid = false

abbrev pub is_invalid : LocalChoice → Bool
is_invalid invalid = true
is_invalid on = false
is_invalid off = false
is_invalid unset = false

abbrev pub is_opt_out : LocalChoice → Bool
is_opt_out off = true
is_opt_out on = false
is_opt_out unset = false
is_opt_out invalid = false

abbrev is_root : List (String × SettingsFile) → Bool
is_root [] = true
is_root (f ∷ above) = false

-- The choices from the root down; the root's is always there.
unfoldable pub local_choices : List (String × SettingsFile) → List (String × LocalChoice)
unfolding read_telemetry_choice
local_choices [] = []
local_choices ((path, file) ∷ above) =
    let choice = read_telemetry_choice file in
    local_choices above
    ++ (if not (is_unset choice) || is_root above then (path, choice) ∷ [] else [])

pub data Notice : Type 0 where
  invalid_local_choice local_opt_out repository_unavailable global_pause : Notice
  policy_error : ConsentError → Notice
  choice_required opt_out acknowledgement_required : Section → Notice

pub record Preview : Type 0 where
  pub repository : Option String
  pub local : List (String × LocalChoice)
  pub notices : List Notice
  -- `sharedRevision`: it is left out after an error, and null without a record.
  pub revision : Option (Option ℕ)

abbrev pub notice_if : Bool → Notice → List Notice
notice_if test n = if test then n ∷ [] else []

abbrev pub choice_notice : Section → Option Choice → List Notice
choice_notice section none = choice_required section ∷ []
choice_notice section (some c) =
    if not c.enabled
    then opt_out section ∷ []
    else notice_if (not (has_version_two (some c))) (acknowledgement_required section)

-- `repository.split("/")[1]`
abbrev pub org_part : String → String
org_part key = elim (get_elem? (split_slash key) 1) [ none ↦ "undefined" | some org ↦ org ]

abbrev pub organizations_of : Option ConsentRecord → List (String × Choice)
organizations_of none = []
organizations_of (some p) = p.organizations

abbrev pub repositories_of : Option ConsentRecord → List (String × Choice)
repositories_of none = []
repositories_of (some p) = p.repositories

abbrev pub pause_notice : Option ConsentRecord → List Notice
pause_notice none = []
pause_notice (some p) = notice_if (not p.global.enabled) global_pause

abbrev pub record_notices : Option String → Option ConsentRecord → List Notice
record_notices none policy = pause_notice policy
record_notices (some key) policy =
    pause_notice policy
    ++ (choice_notice organizations (lookup (org_part key) (organizations_of policy))
        ++ choice_notice repositories (lookup key (repositories_of policy)))

abbrev is_missing : Option String → Bool
is_missing none = true
is_missing (some key) = str_eq key ""

abbrev revision_of : Option ConsentRecord → Option ℕ
revision_of none = none
revision_of (some p) = some p.revision

abbrev pub available : Scope → Option String
available scope = if scope.allowed then scope.repo_key else none

abbrev pub present : Option String → Option String
present none = none
present (some key) = if str_eq key "" then none else some key

abbrev finish :
    Option String
    → List (String × LocalChoice)
    → List Notice
    → Option ConsentRecord
    → Option ConsentError
    → Preview
finish repository local notices policy (some error) = record {
  repository = repository;
  local = local;
  notices = notices ++ policy_error error ∷ [];
  revision = none;
}
finish repository local notices policy none = record {
  repository = repository;
  local = local;
  notices = notices ++ record_notices (present repository) policy;
  revision = some (revision_of policy);
}

unfoldable pub build_consent_preview :
    Scope → List (String × SettingsFile) → Option ConsentRecord → Option ConsentError → Preview
unfolding local_choices split_slash
build_consent_preview scope folders policy error =
    let local = local_choices folders in
    let repository = available scope in
    finish repository local
      (notice_if (any (λ f. is_invalid f.1) local) invalid_local_choice
        ++ (notice_if (any (λ f. is_opt_out f.1) local) local_opt_out
            ++ notice_if (is_missing repository) repository_unavailable))
      policy error
