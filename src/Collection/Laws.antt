-- ===== src/Collection/Laws.antt =====
-- The collection state against the capture gate.
use skillmeter_claude_code_m.Prelude.{◌≡◌, Bool, true, false, some, arith, if◌then◌else◌}
use skillmeter_claude_code_m.Policy.{GateInput, resolve_telemetry_gate}
use skillmeter_claude_code_m.Status.{Status, Reason, last_terminal_reason, is_reactivation}
use skillmeter_claude_code_m.Collection.{
  CollectionState, capture_stopped, state_group, resolve_collection_state,
}

-- The state and the gate agree, where the gate reads the same kill-switch, a user who signed out
-- has no license, and a revoked license is dropped. A state that says capture stopped means that
-- the gate does not capture; `recording` means that it does; and whatever it captures is reported
-- as recording, or as recording with delivery paused when only a new sign-in can renew the license.
pub state_agrees_with_gate :
    (i : GateInput) (out : Bool) (status : Status)
    → (out ≡ true → i.signed_in ≡ false)
    → (last_terminal_reason status ≡ some Reason.revoked → i.signed_in ≡ false)
    → (state_group
            (resolve_collection_state i.global_disabled out i.signed_in status
              (some (resolve_telemetry_gate i))).state
          ≡ capture_stopped
        → (resolve_telemetry_gate i).capture ≡ false)
      × ((resolve_collection_state i.global_disabled out i.signed_in status
              (some (resolve_telemetry_gate i))).state
            ≡ CollectionState.recording
          → (resolve_telemetry_gate i).capture ≡ true)
      × ((resolve_telemetry_gate i).capture ≡ true
          → (resolve_collection_state i.global_disabled out i.signed_in status
              (some (resolve_telemetry_gate i))).state
            ≡ (if is_reactivation (last_terminal_reason status)
                then CollectionState.delivery_paused
                else CollectionState.recording))
unfolding resolve_collection_state resolve_telemetry_gate state_group
state_agrees_with_gate i out status left dropped = ground (arith, left, dropped)
