-- ===== src/Collection.antt =====
-- The collection state of the Claude Code client: collection-state.js and collection-wording.js
-- (clients/claude-code/skillmeter/scripts/lib). It reports what the capture gate decides.
pub mod Laws
mod Tests
use skillmeter_claude_code_m.Prelude.{
  ℕ, Bool, true, false, Option, none, some, String, if◌then◌else◌,
}
use skillmeter_claude_code_m.Policy.{Mode, Gate}
use skillmeter_claude_code_m.Status.{Status, Reason, last_terminal_reason}

pub data CollectionState : Type 0 where
  paused signed_out revoked token_missing never_signed_in : CollectionState
  delivery_paused unconfigured recording : CollectionState

pub data Group : Type 0 where
  capture_stopped delivery_paused healthy : Group

-- `reason` of a result: the state itself, the terminal reason, or the gate's mode.
pub data Why : Type 0 where
  itself : Why
  terminal : Reason → Why
  gate_mode : Mode → Why

pub record Collection : Type 0 where
  pub state : CollectionState
  pub reason : Why

unfoldable pub state_group : CollectionState → Group
state_group CollectionState.paused = healthy
state_group CollectionState.signed_out = capture_stopped
state_group CollectionState.revoked = capture_stopped
state_group CollectionState.token_missing = capture_stopped
state_group CollectionState.never_signed_in = healthy
state_group CollectionState.delivery_paused = Group.delivery_paused
state_group CollectionState.unconfigured = healthy
state_group CollectionState.recording = healthy

abbrev is : CollectionState → Collection
is s = record { state = s; reason = itself }

abbrev gate_state : Option Gate → Collection
gate_state none = record {
  state = CollectionState.unconfigured;
  reason = gate_mode Mode.cwd_unavailable;
}
gate_state (some g) =
    if g.capture
    then record { state = CollectionState.recording; reason = gate_mode g.mode }
    else record { state = CollectionState.unconfigured; reason = gate_mode g.mode }

abbrev unlicensed : Option ℕ → Collection
unlicensed none = is CollectionState.never_signed_in
unlicensed (some t) = is CollectionState.token_missing

abbrev licensed : Bool → Status → Option Gate → Collection
licensed true status gate = gate_state gate
licensed false status gate = unlicensed status.last_success_at

abbrev by_reason : Option Reason → Bool → Status → Option Gate → Collection
by_reason (some Reason.revoked) has_license status gate = is CollectionState.revoked
by_reason (some Reason.reactivation_required) true status gate = record {
  state = CollectionState.delivery_paused;
  reason = terminal Reason.reactivation_required;
}
by_reason (some Reason.reactivation_required) false status gate = unlicensed status.last_success_at
by_reason (some Reason.backoff_exhausted) has_license status gate = licensed has_license status gate
by_reason none has_license status gate = licensed has_license status gate

unfoldable pub resolve_collection_state : Bool → Bool → Bool → Status → Option Gate → Collection
unfolding last_terminal_reason
resolve_collection_state global_disabled out has_license status gate =
    if global_disabled
    then is CollectionState.paused
    else if out
    then is CollectionState.signed_out
    else by_reason (last_terminal_reason status) has_license status gate

unfoldable pub gate_reason : Mode → String
gate_reason Mode.global_disabled = "telemetry globally disabled"
gate_reason Mode.not_signed_in = "not signed in"
gate_reason Mode.cwd_unavailable = "hook cwd missing or invalid"
gate_reason Mode.out_of_scope = "repository outside the licensed org"
gate_reason Mode.org_consent_required = "organization telemetry choice required"
gate_reason Mode.org_disabled = "telemetry disabled for this organization"
gate_reason Mode.project_disabled = "telemetry disabled for this project"
gate_reason Mode.repository_consent_required = "repository telemetry choice required"
gate_reason Mode.project_enabled = "telemetry enabled for this repository"

-- `REASONS` for a terminal reason
abbrev terminal_text : Reason → String
terminal_text Reason.revoked = "organization license inactive"
terminal_text Reason.reactivation_required = "sign-in expired"
terminal_text Reason.backoff_exhausted = "license refresh failed repeatedly"

-- `REASONS[state] || state`
abbrev state_text : CollectionState → String
state_text CollectionState.paused = "paused for Claude Code on this machine"
state_text CollectionState.signed_out = "signed out"
state_text CollectionState.revoked = "organization license inactive"
state_text CollectionState.token_missing = "license token missing"
state_text CollectionState.never_signed_in = "not signed in"
state_text CollectionState.delivery_paused = "delivery_paused"
state_text CollectionState.unconfigured = "unconfigured"
state_text CollectionState.recording = "recording"

unfoldable pub reason_text : Collection → String
unfolding gate_reason
reason_text c = elim c.reason [
  | itself ↦ state_text c.state
  | terminal r ↦ terminal_text r
  | gate_mode m ↦ gate_reason m
]

abbrev gate_command : Mode → String
gate_command Mode.global_disabled = ""
gate_command Mode.not_signed_in = ""
gate_command Mode.cwd_unavailable = ""
gate_command Mode.out_of_scope = ""
gate_command Mode.org_consent_required = "/skillmeter:signin"
gate_command Mode.org_disabled = "/skillmeter:signin"
gate_command Mode.project_disabled = "/skillmeter:telemetry list"
gate_command Mode.repository_consent_required = "/skillmeter:telemetry list"
gate_command Mode.project_enabled = ""

abbrev mode_command : Why → String
mode_command itself = ""
mode_command (terminal r) = ""
mode_command (gate_mode m) = gate_command m

unfoldable pub next_command : Collection → String
next_command c = elim c.state [
  | CollectionState.paused ↦ "/skillmeter:telemetry enable-global"
  | CollectionState.signed_out ↦ "/skillmeter:signin"
  | CollectionState.never_signed_in ↦ "/skillmeter:signin"
  | CollectionState.token_missing ↦ "/skillmeter:signin"
  | CollectionState.revoked ↦ "/skillmeter:signin"
  | CollectionState.delivery_paused ↦ "/skillmeter:signin"
  | CollectionState.unconfigured ↦ mode_command c.reason
  | CollectionState.recording ↦ ""
]
