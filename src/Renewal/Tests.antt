-- ===== src/Renewal/Tests.antt =====
-- A renewal at concrete answers.
use skillmeter_claude_code_m.Prelude.{ℕ, ◌≡◌, ◌≢◌, ◌⊎◌, refl, true, false, none, some, [], String}
use skillmeter_claude_code_m.Jwt.{or_null, is_jwt_expired}
use skillmeter_claude_code_m.Session.{
  Account, recovery_snapshot, snapshot_matches, commit_rotation, commit_refresh, sign_out,
  get_license_token, is_license_token_expired,
}
use skillmeter_claude_code_m.Status.{missing, read_license_status, refresh_blocked_reason}
use skillmeter_claude_code_m.Renewal.Requests.{
  Server, GrantReply, ExchangeReply, token_field, refresh_grant, granted, exchange_outcome,
  exchange_json,
}
use skillmeter_claude_code_m.Renewal.{
  World, Run, renewable, Ending, with_account, renew, renew_via_broker, after_grant, exchange_step,
  after_exchange, settle, renew_and_record,
}
use skillmeter_claude_code_m.Renewal.Kept.{rotated_token_is_kept}
use skillmeter_claude_code_m.Renewal.SignOut.{signed_out_during_grant}
use skillmeter_claude_code_m.Renewal.Rotation.{rotated_is_stored}
use skillmeter_claude_code_m.Examples.{plain_host, signed_in_account}

abbrev server : Server
server = record {
  token_endpoint = λ t.
      GrantReply.answered 200
        (some (record { error = none; id_token = some "id"; refresh_token = some "rt2" }));
  activate_endpoint = λ id device org. ExchangeReply.answered 200 [] (token_field (some "jwt2"));
}

abbrev generation_of : Account → String
generation_of a = "c1"

abbrev world : World
world = record { account = signed_in_account; file = missing; renewing = false; events = [] }

abbrev quiet : Run
quiet = record {
  before_lock = λ w. w;
  during_grant = λ w. w;
  during_exchange = λ w. w;
  before_record = λ w. w;
  started = 1000000;
  issued_at = 1000000;
  recorded = 1000000;
  uuid = "g2";
  retry_base = none;
}

renewed : (renew_and_record server generation_of quiet "drain" "d1" true world).0 ≡ Ending.rotated
unfolding renew_and_record renew renew_via_broker after_grant exchange_step after_exchange settle
    refresh_grant exchange_outcome exchange_json recovery_snapshot snapshot_matches commit_rotation
    commit_refresh is_license_token_expired is_jwt_expired
renewed = refl

rotated_is_stored_example :
    ((renew_and_record server generation_of quiet "drain" "d1" true world).1 ≢ none)
    × (get_license_token
          (renew server generation_of quiet "drain"
            (recovery_snapshot world.account)
            world).1.account
        ≡ (renew_and_record server generation_of quiet "drain" "d1" true world).1)
    × (((get_license_token
              (renew_and_record server generation_of quiet "drain" "d1" true world).2.account
            ≡ (renew_and_record server generation_of quiet "drain" "d1" true world).1)
          × ((t : ℕ)
              → refresh_blocked_reason
                  (read_license_status
                    (renew_and_record server generation_of quiet "drain" "d1" true world).2.file
                    (generation_of
                      (renew_and_record server generation_of quiet "drain" "d1" true
                        world).2.account))
                  t
                ≡ none))
        ⊎ (((renew_and_record server generation_of quiet "drain" "d1" true world).2
              ≡ quiet.before_record
                  (renew server generation_of quiet "drain"
                    (recovery_snapshot world.account)
                    world).1)
            × ((quiet.before_record
                  (renew server generation_of quiet "drain"
                    (recovery_snapshot world.account)
                    world).1).account
                ≢ (renew server generation_of quiet "drain"
                    (recovery_snapshot world.account)
                    world).1.account)))
rotated_is_stored_example =
    rotated_is_stored server generation_of quiet "drain" "d1" true world renewed

abbrev leaving : Run
leaving = record quiet { during_grant = λ w. with_account w (sign_out "g2" w.account) }

stored_token : or_null (recovery_snapshot world.account).refresh_token ≡ some "rt1"
unfolding recovery_snapshot
stored_token = refl

left : (leaving.during_grant world).account.session.signed_out ≡ true
unfolding sign_out
left = refl

renewable_session :
    renewable server generation_of quiet "drain" "d1" (recovery_snapshot world.account) ≡ true
unfolding recovery_snapshot
renewable_session = refl

signed_out_during_grant_example :
    ((renew_and_record server generation_of leaving "drain" "d1" true
        world).2.account.session.signed_out
      ≡ true)
    × (((renew_and_record server generation_of leaving "drain" "d1" true world).2
          ≡ leaving.before_record (leaving.during_grant world))
        ⊎ ((renew_and_record server generation_of leaving "drain" "d1" true world).2
            ≡ leaving.before_record (leaving.during_exchange (leaving.during_grant world))))
signed_out_during_grant_example =
    signed_out_during_grant server generation_of leaving "drain" "d1" "rt1" true world
      renewable_session refl stored_token (λ x out. out) left left

same_account : (x : World) → (quiet.during_exchange x).account ≡ x.account
same_account x = refl

granted_token : refresh_grant (server.token_endpoint "rt1") "rt1" ≡ granted "id" "rt2"
unfolding refresh_grant
granted_token = refl

rotated_token_is_kept_example :
    ((renew_and_record server generation_of quiet "drain" "d1" true world).0 ≡ Ending.revoked)
    ⊎ ((renew_and_record server generation_of quiet "drain" "d1" true
          world).2.account.session.refresh_token
        ≡ some "rt2")
rotated_token_is_kept_example =
    rotated_token_is_kept "rt2" server generation_of quiet "drain" same_account same_account "d1"
      "id" "rt1" world refl renewable_session stored_token granted_token
