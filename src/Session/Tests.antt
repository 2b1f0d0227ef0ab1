-- ===== src/Session/Tests.antt =====
-- The session at concrete inputs.
use skillmeter_claude_code_m.Prelude.{
  ◌≡◌, ◌↔◌, refl, true, false, none, some, List, [], ◌∷◌, String, arith, eq_iff,
}
use skillmeter_claude_code_m.Policy.Keys.{normalize_repo_key, normalize_org}
use skillmeter_claude_code_m.Session.{
  Snapshot, sign_out, get_license_token, is_signed_in, session_orgs, includes,
  is_telemetry_transmission_allowed,
}
use skillmeter_claude_code_m.Session.Intents.{
  Write, rotate, renew, engage, sign_in, run_writes, sign_out_final,
}
use skillmeter_claude_code_m.Session.Transmission.{hook_gate, transmission_iff_capture}
use skillmeter_claude_code_m.Examples.{plain_host, tool, policy_file, signed_in_account}

abbrev started : Snapshot
started = record {
  token = some "jwt1";
  refresh_token = some "rt1";
  generation = some "g1";
  device_id = some "d1";
  signed_out = false;
}

abbrev Old : String → Type 0
Old s = s ≡ "g1"

-- A renewal and a sign-in that were running when the user signed out, and a sign-in that starts.
abbrev late_writes : List Write
late_writes =
    rotate started "rt2"
    ∷ renew "jwt2" started
    ∷ sign_in "jwt3" none (record { generation = some "g1"; device_id = some "d1" }) "g3"
    ∷ engage "g4"
    ∷ []

g2_is_new : ¬ Old "g2"
g2_is_new = λ e. ground (arith, eq_iff "g2" "g1")

g3_is_new : ¬ Old "g3"
g3_is_new = λ e. ground (arith, eq_iff "g3" "g1")

g4_is_new : ¬ Old "g4"
g4_is_new = λ e. ground (arith, eq_iff "g4" "g1")

sign_out_final_example :
    (is_signed_in (run_writes late_writes (sign_out "g2" signed_in_account)) ≡ false)
    × (get_license_token (run_writes late_writes (sign_out "g2" signed_in_account)) ≡ none)
sign_out_final_example =
    sign_out_final Old "g2" signed_in_account late_writes g2_is_new
      (tt, (tt, ((("g1", refl, refl), g3_is_new), (g4_is_new, tt))))

tool_key : normalize_repo_key "github.com/acme/tool" ≡ some tool
unfolding normalize_repo_key
tool_key = refl

acme_org : normalize_org "acme" ≡ "acme"
unfolding normalize_org
acme_org = refl

transmission_iff_capture_example :
    (is_telemetry_transmission_allowed "github.com/acme/tool" policy_file signed_in_account ≡ true)
    ↔ ((includes "acme" (session_orgs signed_in_account) ≡ true)
        × ((hook_gate "github.com/acme/tool" "acme" policy_file signed_in_account).capture ≡ true))
transmission_iff_capture_example =
    transmission_iff_capture "github.com/acme/tool" tool policy_file signed_in_account tool_key refl
      acme_org
