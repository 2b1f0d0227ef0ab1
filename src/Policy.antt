-- ===== src/Policy.antt =====
-- The telemetry policy of the Claude Code client (clients/claude-code/skillmeter/scripts/lib): the
-- capture gate of telemetry-policy.js, here, and in the child modules the repository keys and the
-- store of telemetry-store.js and what reads them.
pub mod Keys
pub mod Store
pub mod Laws
mod Tests
use skillmeter_claude_code_m.Prelude.{Bool, true, false, not, Option, none, some, if◌then◌else◌}

-- `mode` of a gate's result; `capture` is true for the last one alone.
pub data Mode : Type 0 where
  global_disabled not_signed_in cwd_unavailable out_of_scope org_consent_required : Mode
  org_disabled project_disabled repository_consent_required project_enabled : Mode

pub record Gate : Type 0 where
  pub capture : Bool
  pub mode : Mode

pub record GateInput : Type 0 where
  pub global_disabled : Bool
  pub signed_in : Bool
  pub cwd_available : Bool
  pub repo_org_owned : Bool
  pub org_consent : Option Bool
  pub project_opt_in : Option Bool

abbrev off : Mode → Gate
off mode = record { capture = false; mode = mode }

abbrev project_gate : Option Bool → Gate
project_gate (some false) = off Mode.project_disabled
project_gate (some true) = record { capture = true; mode = Mode.project_enabled }
project_gate none = off Mode.repository_consent_required

abbrev consent_gate : Option Bool → Option Bool → Gate
consent_gate none project = off Mode.org_consent_required
consent_gate (some false) project = off Mode.org_disabled
consent_gate (some true) project = project_gate project

unfoldable pub resolve_telemetry_gate : GateInput → Gate
resolve_telemetry_gate i =
    if i.global_disabled
    then off Mode.global_disabled
    else if not i.signed_in
    then off Mode.not_signed_in
    else if not i.cwd_available
    then off Mode.cwd_unavailable
    else if not i.repo_org_owned
    then off Mode.out_of_scope
    else consent_gate i.org_consent i.project_opt_in
