-- ===== src/Codex/Preview/Clean.antt =====
-- What a preview without a notice means for capture.
use skillmeter_claude_code_m.Prelude.{
  Bool, true, not, ◌&&◌, any, Option, none, some, List, [], String, ◌≡◌, ◌↔◌,
}
use skillmeter_claude_code_m.Prelude.Assoc.{string_eq}
use skillmeter_claude_code_m.Codex.Record.{Choice, ConsentRecord}
use skillmeter_claude_code_m.Codex.Record.RoundTrip.{decided_safely}
use skillmeter_claude_code_m.Codex.Store.{loaded}
use skillmeter_claude_code_m.Codex.Evaluate.{Scope, consent_of, global_of}
use skillmeter_claude_code_m.Codex.Preview.{
  SettingsFile, is_invalid, is_opt_out, local_choices, build_consent_preview,
}

record AreSafe (o : Option Choice) : Type 0 where
  pub each : (c : Choice) → o ≡ some c → decided_safely c ≡ true

-- Nothing local stands in the way.
abbrev pub is_unrestricted : List (String × SettingsFile) → Bool
is_unrestricted folders =
    not (any (λ f. is_invalid f.1) (local_choices folders))
    && not (any (λ f. is_opt_out f.1) (local_choices folders))

abbrev pub Clean : List (String × SettingsFile) → ConsentRecord → Scope → Type 0
Clean folders p scope = ((build_consent_preview scope folders (some p) none).notices ≡ []) ↔ (
    (is_unrestricted folders ≡ true)
    × (p.global.enabled ≡ true)
    × ((consent_of scope (global_of (loaded p))).acknowledged ≡ true))
