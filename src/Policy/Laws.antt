-- ===== src/Policy/Laws.antt =====
-- The capture gate of telemetry-policy.js, condition by condition.
use skillmeter_claude_code_m.Prelude.{◌≡◌, ◌↔◌, true, false, some, arith}
use skillmeter_claude_code_m.Policy.{Mode, GateInput, resolve_telemetry_gate}

-- The gate captures exactly when telemetry is on, the user is signed in, the directory is usable,
-- the repository belongs to a licensed organization, and the organization and the repository are
-- both switched on; and the mode says so: it is `project_enabled` exactly then.
pub capture_iff :
    (i : GateInput)
    → (((resolve_telemetry_gate i).capture ≡ true) ↔ (
        (i.global_disabled ≡ false)
        × (i.signed_in ≡ true)
        × (i.cwd_available ≡ true)
        × (i.repo_org_owned ≡ true)
        × (i.org_consent ≡ some true)
        × (i.project_opt_in ≡ some true)))
      × (((resolve_telemetry_gate i).capture ≡ true)
          ↔ ((resolve_telemetry_gate i).mode ≡ Mode.project_enabled))
unfolding resolve_telemetry_gate
capture_iff i = ground arith
