-- ===== src/Renewal.antt =====
-- shared/lib/license-renewal.js with the status record of
-- clients/claude-code/skillmeter/scripts/lib/license-activation.js: the renewal of a license, over
-- the session and its status file. What other processes do while a request is out is a function on
-- the world; the lock file is the flag `renewing`. Exceptions of the file system are left out.
pub mod Requests
pub mod Recording
pub mod SignOut
pub mod Rotation
pub mod Kept
pub mod Flight
mod Tests
use skillmeter_claude_code_m.Prelude.{
  ℕ, Bool, true, false, not, ◌&&◌, ◌||◌, Option, none, some, List, [], ◌∷◌, ◌++◌, String, str_eq,
  opt_eq, if◌then◌else◌,
}
use skillmeter_claude_code_m.Host.{Host, units}
use skillmeter_claude_code_m.Jwt.{or_null, get_license_tenant_slug}
use skillmeter_claude_code_m.Session.{
  Account, Snapshot, recovery_snapshot, snapshot_matches, commit_rotation, commit_refresh,
  drop_revoked_license, get_license_token, is_license_token_expired,
}
use skillmeter_claude_code_m.Status.{
  Status, StatusFile, Reason, Outcome, Blocked, undisturbed, get_retry_base_ms,
  update_license_status, read_license_status, refresh_success, refresh_failure, terminal_outcome,
  refresh_blocked_reason, backoff_cap_ms,
}
use skillmeter_claude_code_m.Renewal.Requests.{
  Server, Grant, granted, ended, Exchange, issued, refused, refresh_grant, exchange_outcome,
  http_message,
}

-- A step outside the session: the purge of what was recorded under a license, and the revocation
-- of a refresh token at the broker.
pub data Event : Type 0 where
  purge : Option String → Event
  revoke_token : String → Event

pub record World : Type 0 where
  pub account : Account
  pub file : StatusFile
  pub renewing : Bool
  pub events : List Event

-- What happens around one renewal: other processes before the lock is taken, during the two
-- requests, and between the renewal's last write and the record of its outcome, and the clock when the stored and the new license are tested and the outcome recorded.
pub record Run : Type 0 where
  pub before_lock : World → World
  pub during_grant : World → World
  pub during_exchange : World → World
  pub before_record : World → World
  pub started : ℕ
  pub issued_at : ℕ
  pub recorded : ℕ
  pub uuid : String
  -- The number in SKILLMETER_RETRY_BASE_MS, if there is one.
  pub retry_base : Option ℕ

pub data Result : Type 0 where
  rotated : (token : String) (expected : Snapshot) → Result
  rejected : (status : Option ℕ) (expected : Snapshot) → Result
  revoked : (status : ℕ) (expected : Snapshot) → Result
  transient : (status : Option ℕ) (message : List ℕ) (expected : Snapshot) → Result
  superseded : Result

pub data Ending : Type 0 where
  signed_out fresh rotated rejected revoked transient superseded : Ending

abbrev pub with_account : World → Account → World
with_account w a = record w { account = a }

abbrev revocation : Option String → List Event
revocation none = []
revocation (some t) = revoke_token t ∷ []

-- `client.recordTerminal` and the others, under the session lock, with no other writer.
module _ (digest : Account → String) where
  abbrev pub record_status : (Status → Status) → World → World
  record_status mutate w = record w {
    file = (update_license_status (undisturbed (digest w.account)) mutate w.file).1;
  }

  abbrev pub with_recovery_current : Snapshot → (Status → Status) → World → World
  with_recovery_current settled mutate w =
      if snapshot_matches w.account settled then record_status mutate w else w

module _ ⦃h : Host⦄ (server : Server) (digest : Account → String) (run : Run)
    (source : String) where
  unfoldable pub after_exchange : Exchange → Snapshot → World → Result × World
  after_exchange (Exchange.revoked status) current w = (Result.revoked status current, w)
  after_exchange (refused status) current w =
      (Result.transient (some status) (http_message status) current, w)
  after_exchange (Exchange.failed status message) current w =
      (Result.transient status message current, w)
  after_exchange (issued token) current w =
      let (a, committed) = commit_refresh token current w.account in
      if is_license_token_expired (some token) run.issued_at
      then (Result.transient (some 200) (units "unusable token in response") current, w)
      else if committed
      then (Result.rotated token current, with_account w a)
      else (Result.superseded, w)

  unfoldable pub exchange_step : String → Snapshot → Snapshot → World → Result × World
  unfolding after_exchange
  exchange_step id_token expected current w =
      let slug = get_license_tenant_slug expected.token in
      let device : String = elim expected.device_id [ none ↦ "" | some d ↦ d ] in
      let reply = server.activate_endpoint id_token device (or_null (some slug)) in
      after_exchange (exchange_outcome reply slug) current (run.during_exchange w)

  unfoldable pub after_grant : Grant → String → Snapshot → World → Result × World
  unfolding exchange_step
  after_grant (ended status error) refresh expected w = (Result.rejected (some status) expected, w)
  after_grant (Grant.failed status message) refresh expected w =
      (Result.transient status message expected, w)
  after_grant (granted id_token next) refresh expected w =
      let (a, committed) = commit_rotation expected next w.account in
      if str_eq next refresh
      then exchange_step id_token expected expected w
      else if committed
      then exchange_step id_token expected (record expected { refresh_token = some next })
          (with_account w a)
      else (Result.superseded, w)

  -- `refresh` is the refresh token of `expected`.
  unfoldable pub renew_via_broker : String → Snapshot → World → Result × World
  unfolding after_grant
  renew_via_broker refresh expected w =
      if snapshot_matches w.account expected
      then after_grant (refresh_grant (server.token_endpoint refresh) refresh) refresh expected
          (run.during_grant w)
      else (Result.superseded, w)

  abbrev end_message : List ℕ
  end_message = units "license can no longer be renewed; run /skillmeter:signin"

  unfoldable pub settle : Result → World → Ending × Option String × World
  settle (Result.rotated token expected) w = (
    Ending.rotated,
    some token,
    with_recovery_current digest (record expected { token = some token })
        (refresh_success source Outcome.rotated run.recorded) w,
  )
  settle (Result.rejected status expected) w = (
    Ending.rejected,
    none,
    with_recovery_current digest expected
        (terminal_outcome source Reason.reactivation_required status end_message run.recorded) w,
  )
  settle (Result.revoked status expected) w =
      let (a, dropped) = drop_revoked_license expected run.uuid w.account in
      let recorded =
        record_status digest (terminal_outcome source Reason.revoked (some status) [] run.recorded)
          (with_account w a) in
      if dropped
      then (
        Ending.revoked,
        none,
        record recorded {
          events =
              recorded.events ++ purge expected.token ∷ revocation (or_null expected.refresh_token);
        },
      )
      else (Ending.revoked, none, w)
  settle (Result.transient status message expected) w = (
    Ending.transient,
    none,
    with_recovery_current digest expected
        (refresh_failure source "refresh" status message run.recorded
          (get_retry_base_ms run.retry_base) backoff_cap_ms)
        w,
  )
  settle Result.superseded w = (Ending.superseded, none, w)

  -- A snapshot that this device can renew from.
  abbrev pub renewable : String → Snapshot → Bool
  renewable device_id s =
      not s.signed_out
      && not (opt_eq s.token none)
      && not (str_eq device_id "")
      && opt_eq s.device_id (some device_id)

  unfoldable pub renew : Snapshot → World → Result × World
  unfolding renew_via_broker
  renew expected w = elim (or_null expected.refresh_token) [
    | none ↦ (Result.rejected none expected, w)
    | some refresh ↦ renew_via_broker refresh expected w
  ]

  unfoldable pub renew_and_record : String → Bool → World → Ending × Option String × World
  renew_and_record device_id force w =
      let expected = recovery_snapshot w.account in
      let (result, w') = renew expected w in
      if not (renewable device_id expected)
      then (Ending.signed_out, none, w)
      else if not force && not (is_license_token_expired expected.token run.started)
      then (Ending.fresh, expected.token, w)
      else settle result (run.before_record w')

  abbrev is_over : Ending → Bool
  is_over Ending.signed_out = true
  is_over Ending.rejected = true
  is_over Ending.revoked = true
  is_over Ending.fresh = false
  is_over Ending.rotated = false
  is_over Ending.transient = false
  is_over Ending.superseded = false

  abbrev released : World → World
  released w = record w { renewing = false }

  -- The license to send with after a renewal.
  abbrev pub license_after : Ending × Option String × World → Option String × World
  license_after (ending, some token, w) = (some token, released w)
  license_after (ending, none, w) =
      (if is_over ending then none else get_license_token w.account, released w)

  unfoldable pub ensure_locked : String → Snapshot → World → Option String × World
  unfolding renew_and_record
  ensure_locked device_id snapshot w =
      let expected = recovery_snapshot w.account in
      if expected.signed_out
        || opt_eq expected.token none
        || not (opt_eq expected.device_id (some device_id))
      then (none, released w)
      else if not (opt_eq expected.token snapshot.token)
          && not (is_license_token_expired expected.token run.started)
      then (expected.token, released w)
      else license_after (renew_and_record device_id true w)

  abbrev pub is_blocked : Option Blocked → Bool
  is_blocked none = false
  is_blocked (some b) = true

  unfoldable pub ensure_fresh : String → Bool → World → Option String × World
  unfolding ensure_locked
  ensure_fresh device_id force w =
      let snapshot = recovery_snapshot w.account in
      let blocked =
        refresh_blocked_reason (read_license_status w.file (digest w.account)) run.started in
      let later = run.before_lock w in
      if not (renewable device_id snapshot)
      then (none, w)
      else if not force && not (is_license_token_expired snapshot.token run.started)
      then (snapshot.token, w)
      else if is_blocked blocked
      then (snapshot.token, w)
      else if later.renewing
      then (snapshot.token, later)
      else ensure_locked device_id snapshot (record later { renewing = true })
