-- ===== src/Collection/Tests.antt =====
-- The collection state at concrete inputs.
use skillmeter_claude_code_m.Prelude.{◌≡◌, refl, true, false, some, if◌then◌else◌}
use skillmeter_claude_code_m.Policy.{GateInput, resolve_telemetry_gate}
use skillmeter_claude_code_m.Status.{
  Status, Reason, empty_status, last_terminal_reason, is_reactivation,
}
use skillmeter_claude_code_m.Collection.{
  CollectionState, capture_stopped, state_group, resolve_collection_state, reason_text,
}
use skillmeter_claude_code_m.Collection.Laws.{state_agrees_with_gate}

abbrev recording_gate : GateInput
recording_gate = record {
  global_disabled = false;
  signed_in = true;
  cwd_available = true;
  repo_org_owned = true;
  org_consent = some true;
  project_opt_in = some true;
}

abbrev expired : Status
expired = record empty_status { last_terminal_reason = some Reason.reactivation_required }

expired_text :
    reason_text (
      resolve_collection_state false false true expired
        (some (resolve_telemetry_gate recording_gate)))
    ≡ "sign-in expired"
unfolding reason_text resolve_collection_state
expired_text = refl

not_revoked : last_terminal_reason expired ≡ some Reason.revoked → recording_gate.signed_in ≡ false
unfolding last_terminal_reason
not_revoked e = cc

state_agrees_with_gate_example :
    (state_group
          (resolve_collection_state false false true expired
            (some (resolve_telemetry_gate recording_gate))).state
        ≡ capture_stopped
      → (resolve_telemetry_gate recording_gate).capture ≡ false)
    × ((resolve_collection_state false false true expired
            (some (resolve_telemetry_gate recording_gate))).state
          ≡ CollectionState.recording
        → (resolve_telemetry_gate recording_gate).capture ≡ true)
    × ((resolve_telemetry_gate recording_gate).capture ≡ true
        → (resolve_collection_state false false true expired
            (some (resolve_telemetry_gate recording_gate))).state
          ≡ (if is_reactivation (last_terminal_reason expired)
              then CollectionState.delivery_paused
              else CollectionState.recording))
state_agrees_with_gate_example =
    state_agrees_with_gate recording_gate false expired (λ e. cc) not_revoked
