-- ===== src/Signin/Tests.antt =====
-- A grant that is approved at the third request.
use skillmeter_claude_code_m.Prelude.{
  Option, none, some, List, [], ◌∷◌, ◌++◌, String, length, ◌≡◌, refl,
}
use skillmeter_claude_code_m.Examples.{plain_host, signed_in_account}
use skillmeter_claude_code_m.Session.{Intent}
use skillmeter_claude_code_m.Renewal.Requests.{ExchangeReply, token_field}
use skillmeter_claude_code_m.Signin.{
  Reply, answered, approved, verdict, poll_device_token, complete_signin,
}
use skillmeter_claude_code_m.Signin.Polling.{Waits, poll_device_token_lem}
use skillmeter_claude_code_m.Signin.Completion.{Completes, complete_signin-Completes}

abbrev erring : String → Reply
erring code = answered (record {
  id_token = none;
  refresh_token = none;
  access_token = none;
  error = some code;
  reason = none;
})

abbrev approval : Reply
approval = answered (record {
  id_token = some "id";
  refresh_token = some "rt2";
  access_token = some "at";
  error = none;
  reason = none;
})

abbrev first_answers : List Reply
first_answers = erring "slow_down" ∷ erring "authorization_pending" ∷ []

approved_at_third :
    poll_device_token 5 (first_answers ++ approval ∷ []) ≡ (approved "id" "rt2", 5 ∷ 10 ∷ 10 ∷ [])
unfolding poll_device_token verdict
approved_at_third = refl

poll_device_token_lem_example :
    ((poll_device_token 5 (first_answers ++ approval ∷ [])).0 ≡ approved "id" "rt2")
    × (length (poll_device_token 5 (first_answers ++ approval ∷ [])).1 ≡ 3)
    × Waits 5 first_answers (poll_device_token 5 (first_answers ++ approval ∷ [])).1
unfolding verdict
poll_device_token_lem_example =
    poll_device_token_lem 5 first_answers approval [] (approved "id" "rt2") refl refl

abbrev activation : String → Option String → ExchangeReply
activation id device = ExchangeReply.answered 200 [] (token_field (some "jwt2"))

abbrev intent : Intent
intent = record { generation = some "g1"; device_id = some "d1" }

complete_signin-Completes_example :
    Completes activation intent signed_in_account
      (poll_device_token 5 (first_answers ++ approval ∷ [])).0
      (complete_signin activation 5 (first_answers ++ approval ∷ []) intent "g2" signed_in_account)
complete_signin-Completes_example =
    complete_signin-Completes activation 5 (first_answers ++ approval ∷ []) intent "g2"
      signed_in_account
