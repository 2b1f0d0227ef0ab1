-- ===== src/Codex/Apply/Effect.antt =====
-- Turning a repository on by command, from the checks to what the client may then do.
use skillmeter_claude_code_m.Prelude.{
  ℕ, Bool, true, false, ◌||◌, any, Option, none, List, String, ◌≡◌,
}
use skillmeter_claude_code_m.Prelude.Assoc.{lookup, string_eq}
use skillmeter_claude_code_m.Host.{Host}
use skillmeter_claude_code_m.Codex.Record.{ConsentRecord, validate_policy}
use skillmeter_claude_code_m.Codex.Store.{
  File, absent, unreadable, malformed, json, Disk, Marking, Run, Expected, is_expected, saved,
  read_policy,
}
use skillmeter_claude_code_m.Codex.Store.Commit.{read_of}
use skillmeter_claude_code_m.Codex.Choices.{is_granted, set_repository_override}
use skillmeter_claude_code_m.Codex.Evaluate.{Scope}
use skillmeter_claude_code_m.Codex.Evaluate.Effect.{Covers}
use skillmeter_claude_code_m.Codex.Preview.{
  SettingsFile, is_opt_out, is_invalid, org_part, organizations_of, build_consent_preview,
}

abbrev content : File → Option ConsentRecord
content absent = none
content unreadable = none
content malformed = none
content (json r) = validate_policy r

module _ ⦃h : Host⦄ (acknowledged : Bool) (expected : Expected) (first : Marking) (now : ℕ)
    (run : Run) (d d' : Disk) (p : ConsentRecord) (durable : Bool) where
  record Enabled (scope : Scope) (folders : List (String × SettingsFile)) (repository : String)
      (policy : Option ConsentRecord) (x : Disk) : Type 0 where
    unrestricted :
        any
          (λ f. is_opt_out f.1 || is_invalid f.1)
          (build_consent_preview scope folders policy none).local
        ≡ false
    granted : is_granted (lookup (org_part repository) (organizations_of policy)) ≡ true
    written :
        set_repository_override acknowledged expected now run x repository true
        ≡ (saved p durable, d')

  -- What a saved ON has passed.
  record Passed (scope : Scope) (folders : List (String × SettingsFile)) (repository : String)
      : Type 0 where
    covers : Covers scope repository
    policy : Option ConsentRecord
    read : (read_policy first d).0 ≡ read_of policy
    fits : is_expected policy expected ≡ true
    enabled : Enabled scope folders repository policy (read_policy first d).1
