-- ===== src/Signin.antt =====
-- Signing in: `pollDeviceToken` of shared/lib/broker.js, which asks until the device grant is
-- settled, and `completeSignin` of shared/lib/signin-flow.js with the store's commit. The answers of
-- the broker are a list, in the order in which they come; the activation server is a parameter.
mod Polling
mod Completion
mod Tests
use skillmeter_claude_code_m.Prelude.{
  ℕ, ◌+◌, Bool, true, false, Option, none, some, opt_eq, List, [], ◌∷◌, String, if◌then◌else◌,
}
use skillmeter_claude_code_m.Host.{Host}
use skillmeter_claude_code_m.Jwt.{or_null}
use skillmeter_claude_code_m.Session.{Account, Intent, commit_signin}
use skillmeter_claude_code_m.Renewal.Requests.{Exchange, issued, ExchangeReply, exchange_outcome}

-- The fields of an answer, where they are texts; `reason` is what `brokerReason` reads of it.
pub record GrantAnswer : Type 0 where
  pub id_token : Option String
  pub refresh_token : Option String
  pub access_token : Option String
  pub error : Option String
  pub reason : Option String

-- An answer that is no JSON object, or a request that fails, is thrown with its message.
pub data Reply : Type 0 where
  answered : GrantAnswer → Reply
  thrown : String → Reply

pub data Failure : Type 0 where
  request_failed : String → Failure
  no_offline_scope no_openid_scope code_expired : Failure
  denied : (reason : Option String) → Failure
  other_error : (reason error : Option String) → Failure

pub data Polled : Type 0 where
  approved : (id_token refresh_token : String) → Polled
  failed : Failure → Polled
  waiting : Polled

-- What one answer does to the loop: it ends it, or lengthens the interval.
pub data Verdict : Type 0 where
  settled : Polled → Verdict
  again : (extra : ℕ) → Verdict

abbrev grant_tokens : String → Option String → Polled
grant_tokens id none = failed no_offline_scope
grant_tokens id (some refresh) = approved id refresh

abbrev by_error : GrantAnswer → Verdict
by_error a =
    if opt_eq a.error (some "authorization_pending")
    then again 0
    else if opt_eq a.error (some "slow_down")
    then again 5
    else if opt_eq a.error (some "expired_token")
    then settled (failed code_expired)
    else if opt_eq a.error (some "access_denied")
    then settled (failed (denied a.reason))
    else settled (failed (other_error a.reason (or_null a.error)))

abbrev pub by_tokens : Option String → Option String → GrantAnswer → Verdict
by_tokens (some id) access a = settled (grant_tokens id (or_null a.refresh_token))
by_tokens none (some access) a = settled (failed no_openid_scope)
by_tokens none none a = by_error a

unfoldable pub verdict : Reply → Verdict
verdict (thrown message) = settled (failed (request_failed message))
verdict (answered a) = by_tokens (or_null a.id_token) (or_null a.access_token) a

abbrev pub wait_first : ℕ → Polled × List ℕ → Polled × List ℕ
wait_first interval (polled, waits) = (polled, interval ∷ waits)

-- The outcome, `waiting` while no answer has settled it, and the seconds waited before each request.
unfoldable pub poll_device_token : ℕ → List Reply → Polled × List ℕ
poll_device_token interval [] = (waiting, [])
poll_device_token interval (reply ∷ replies) = elim (verdict reply) [
  | settled polled ↦ (polled, interval ∷ [])
  | again extra ↦ wait_first interval (poll_device_token (interval + extra) replies)
]

pub data Signin : Type 0 where
  signed_in : (jwt : String) → Signin
  discarded : Signin
  not_approved : Failure → Signin
  not_exchanged : Exchange → Signin
  in_progress : Signin

abbrev pub committed : String → Account × Bool → Signin × Account
committed jwt (a, true) = (signed_in jwt, a)
committed jwt (a, false) = (discarded, a)

module _ ⦃h : Host⦄ (activate : String → Option String → ExchangeReply) where
  -- `a` is the store at the commit, after whatever others did during the poll and the exchange.
  abbrev pub exchange_for_license : Exchange → String → Intent → String → Account → Signin × Account
  exchange_for_license (issued jwt) refresh expected uuid a =
      committed jwt (commit_signin jwt (some refresh) (some expected) uuid a)
  exchange_for_license (Exchange.revoked status) refresh expected uuid a =
      (not_exchanged (Exchange.revoked status), a)
  exchange_for_license (Exchange.refused status) refresh expected uuid a =
      (not_exchanged (Exchange.refused status), a)
  exchange_for_license (Exchange.failed status message) refresh expected uuid a =
      (not_exchanged (Exchange.failed status message), a)

  abbrev pub after_poll : Polled → Intent → String → Account → Signin × Account
  after_poll waiting expected uuid a = (in_progress, a)
  after_poll (failed why) expected uuid a = (not_approved why, a)
  after_poll (approved id refresh) expected uuid a =
      exchange_for_license (exchange_outcome (activate id expected.device_id) "") refresh expected
        uuid a

  unfoldable pub complete_signin : ℕ → List Reply → Intent → String → Account → Signin × Account
  complete_signin interval replies expected uuid a =
      after_poll (poll_device_token interval replies).0 expected uuid a
