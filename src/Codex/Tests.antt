-- ===== src/Codex/Tests.antt =====
-- A first choice of an organization, and choices for one repository of it, with their results.
mod Queue
mod Transcript
use skillmeter_claude_code_m.Prelude.{
  ℕ, true, false, none, some, List, [], ◌∷◌, String, ◌≡◌, ◌≢◌, refl, arith,
}
use skillmeter_claude_code_m.Prelude.Assoc.{lookup, insert, string_eq}
use skillmeter_claude_code_m.Examples.{plain_host}
use skillmeter_claude_code_m.Policy.Keys.{normalize_repo_key}
use skillmeter_claude_code_m.Jwt.{distinct}
use skillmeter_claude_code_m.Codex.Record.{Choice, ConsentRecord, raw_record, validate_policy}
use skillmeter_claude_code_m.Codex.Store.{
  absent, made, acquired, synced, Run, saved, io_failed, first_use, at, empty_record, mutate,
  change, publish, observe, roll_back, read_policy,
}
use skillmeter_claude_code_m.Codex.Store.Commit.{disk_of, Saves, mutate_lem}
use skillmeter_claude_code_m.Codex.Store.Failure.{
  blank, mutate-failed, first_use-failed, Event, reading, replaced, after_events, KeepsMark,
  never_first_again,
}
use skillmeter_claude_code_m.Codex.Choices.{
  organizations, repositories, decided, choose, choose_all, choose_organization, set_choice,
  set_organization_repositories, normalize_org, normalize_keys,
}
use skillmeter_claude_code_m.Codex.Evaluate.{Scope, read_repository_consent}
use skillmeter_claude_code_m.Codex.Evaluate.Effect.{Covers, judged, off_revokes}
use skillmeter_claude_code_m.Codex.Evaluate.Stamps.{onboarding_keeps_others, choice_changes_stamp}
use skillmeter_claude_code_m.Codex.Preview.{SettingsFile, settings, flag, no_file}
use skillmeter_claude_code_m.Codex.Preview.Clean.{Clean}

abbrev calm : Run
calm = record {
  reading = made;
  meanwhile = λ d. d;
  lock = acquired;
  reading_again = made;
  marking = made;
  writes = true;
  owned = true;
  interference = λ d. d;
  renames = true;
  sync = synced;
  observer = λ p. true;
  still_owned = true;
  unlocks = true;
}

abbrev full_disk : Run
full_disk = record calm { writes = false }

calm-KeepsMark : KeepsMark calm
calm-KeepsMark = record { meanwhile = λ x e. e; interference = λ x e. e }

abbrev made_on : ℕ → Choice
made_on time = record {
  enabled = true;
  decided_at = some time;
  consent_version = some 2;
  source = some "user";
}

abbrev made_off : ℕ → Choice
made_off time = record (made_on time) { enabled = false; consent_version = none }

abbrev first_record : ConsentRecord
first_record = record empty_record { revision = 1; organizations = ("acme", made_on 7) ∷ [] }

mutate_lem_example :
    Saves
      (choose organizations true 7 "acme")
      first_use
      calm
      blank
      first_record
      (disk_of first_record)
unfolding mutate change publish observe read_policy validate_policy raw_record choose decided insert
    lookup
mutate_lem_example =
    mutate_lem (choose organizations true 7 "acme") first_use calm blank (disk_of first_record)
      first_record true refl

mutate-failed_example : (disk_of first_record).file ≡ (disk_of first_record).file
unfolding mutate change publish observe roll_back read_policy validate_policy raw_record choose
    decided insert lookup
mutate-failed_example =
    mutate-failed (choose repositories true 9 "github.com/acme/tool") (at 1) full_disk
      (disk_of first_record) (disk_of first_record) io_failed refl refl (λ x. refl) refl
      (λ e. ground (arith, e)) (λ e. ground (arith, e))

abbrev history : List Event
history = reading made ∷ replaced absent ∷ []

never_first_again_example :
    mutate
      (choose organizations true 7 "acme")
      first_use
      calm
      (after_events history (disk_of first_record))
    ≢ (saved first_record true, disk_of first_record)
never_first_again_example =
    never_first_again history (disk_of first_record) refl (tt, (tt, tt))
      (choose organizations true 7 "acme") calm first_record true (disk_of first_record)
      calm-KeepsMark

abbrev tool_key : String
tool_key = "github.com/acme/tool"

abbrev tool_scope : Scope
tool_scope = record { allowed = true; repo_key = some tool_key; remote_org = "acme" }

tool-Covers : Covers tool_scope tool_key
tool-Covers = record { allowed = refl; names = refl }

abbrev record_with_tool : ℕ → Choice → ConsentRecord
record_with_tool revision choice = record first_record {
  revision = revision;
  repositories = (tool_key, choice) ∷ [];
}

off_revokes_example :
    ((read_repository_consent made tool_scope (disk_of (record_with_tool 2 (made_off 9)))).0.allowed
      ≡ false)
    × ((read_repository_consent made tool_scope
          (disk_of (record_with_tool 2 (made_off 9)))).0.revoked
        ≡ true)
unfolding set_choice mutate change publish observe read_policy validate_policy raw_record choose
    decided insert lookup
off_revokes_example =
    off_revokes ⦃h = plain_host⦄ false (at 1) 9 calm (disk_of first_record)
      (disk_of (record_with_tool 2 (made_off 9))) (record_with_tool 2 (made_off 9)) true
      repositories tool_key made tool_scope tool_key refl tool-Covers refl

abbrev onboarded : ConsentRecord
onboarded = record (record_with_tool 3 (made_on 9)) {
  repositories = (tool_key, made_on 9) ∷ (("github.com/acme/site", made_on 11) ∷ []);
}

onboarding_keeps_others_example :
    (read_repository_consent made tool_scope (disk_of onboarded)).0
    ≡ judged tool_scope tool_key (record_with_tool 2 (made_on 9))
unfolding set_organization_repositories normalize_org normalize_keys normalize_repo_key distinct
    choose_organization choose_all mutate change publish observe read_policy validate_policy
    raw_record choose decided insert lookup
onboarding_keeps_others_example =
    onboarding_keeps_others ⦃h = plain_host⦄ true (at 2) 11 calm
      (disk_of (record_with_tool 2 (made_on 9))) (disk_of onboarded) onboarded true "acme"
      ("acme/site" ∷ []) true "acme" (record { owner = "acme"; name = "site" } ∷ [])
      (record_with_tool 2 (made_on 9)) made tool_scope tool_key refl refl refl refl refl tool-Covers
      refl

abbrev folders : List (String × SettingsFile)
folders = ("src", no_file) ∷ (("", settings (flag true)) ∷ [])
