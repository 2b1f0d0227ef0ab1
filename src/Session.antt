-- ===== src/Session.antt =====
-- clients/claude-code/skillmeter/scripts/credstore.js: this client's session. Each write is a
-- function on the session as it is under the session lock (`mutateSession`); it returns the
-- account after the write, and false where nothing was written. A random UUID is an argument, `{}`
-- is a session without fields, and `signed_out` is the test `session.signed_out === true`.
pub mod Transmission
pub mod Intents
mod Tests
use skillmeter_claude_code_m.Prelude.{
  ℕ, Bool, true, false, not, ◌&&◌, Option, none, some, List, [], ◌∷◌, String, str_eq, opt_eq, any,
  all, if◌then◌else◌,
}
use skillmeter_claude_code_m.Prelude.Assoc.{lookup, string_eq}
use skillmeter_claude_code_m.Host.{Host}
use skillmeter_claude_code_m.Jwt.{or_null, is_jwt_expired, get_license_orgs}
use skillmeter_claude_code_m.Policy.Keys.{RepoKey, repo_key_eq, normalize_org, normalize_repo_key}
use skillmeter_claude_code_m.Policy.Store.{Policy, Setting, PolicyFile, read_policy}

pub record Session : Type 0 where
  pub license_jwt : Option String
  pub refresh_token : Option String
  pub auth_generation : Option String
  pub signed_out : Bool

-- The session file, and the device id of the shared store.
pub record Account : Type 0 where
  pub session : Session
  pub device_id : Option String

pub record Snapshot : Type 0 where
  pub token : Option String
  pub refresh_token : Option String
  pub generation : Option String
  pub device_id : Option String
  pub signed_out : Bool

abbrev pub current_device_id : Account → Option String
current_device_id a = or_null a.device_id

unfoldable pub recovery_snapshot : Account → Snapshot
recovery_snapshot a = record {
  token = or_null a.session.license_jwt;
  refresh_token = or_null a.session.refresh_token;
  generation = or_null a.session.auth_generation;
  device_id = current_device_id a;
  signed_out = a.session.signed_out;
}

unfoldable pub snapshot_matches : Account → Snapshot → Bool
snapshot_matches a expected =
    not expected.signed_out
    && not a.session.signed_out
    && opt_eq (or_null a.session.license_jwt) expected.token
    && opt_eq (or_null a.session.refresh_token) (or_null expected.refresh_token)
    && opt_eq (or_null a.session.auth_generation) expected.generation
    && opt_eq (current_device_id a) expected.device_id

abbrev pub with_session : Account → Session → Account
with_session a s = record a { session = s }

unfoldable pub commit_rotation : Snapshot → String → Account → Account × Bool
commit_rotation expected refresh_token a =
    if snapshot_matches a expected
    then (with_session a (record a.session { refresh_token = some refresh_token }), true)
    else (a, false)

unfoldable pub commit_refresh : String → Snapshot → Account → Account × Bool
commit_refresh jwt expected a =
    if snapshot_matches a expected
    then (with_session a (record a.session { license_jwt = some jwt }), true)
    else (a, false)

-- `onCommit` runs under the lock where the result is true.
unfoldable pub drop_revoked_license : Snapshot → String → Account → Account × Bool
drop_revoked_license expected uuid a =
    if snapshot_matches a expected
    then (
      with_session a (record a.session {
        license_jwt = none;
        refresh_token = none;
        auth_generation = some uuid;
      }),
      true,
    )
    else (a, false)

unfoldable pub sign_out : String → Account → Account
sign_out uuid a = with_session a (record {
  license_jwt = none;
  refresh_token = none;
  auth_generation = some uuid;
  signed_out = true;
})

-- The new generation is also the result.
unfoldable pub mark_engaged : String → Account → Account
mark_engaged uuid a = with_session a (record a.session { auth_generation = some uuid })

pub record Intent : Type 0 where
  pub generation : Option String
  pub device_id : Option String

unfoldable pub signin_matches : Account → Intent → Bool
signin_matches a expected =
    opt_eq (or_null a.session.auth_generation) expected.generation
    && opt_eq (current_device_id a) expected.device_id

abbrev superseded : Account → Option Intent → Bool
superseded a none = false
superseded a (some expected) = not (signin_matches a expected)

unfoldable pub commit_signin :
    String → Option String → Option Intent → String → Account → Account × Bool
commit_signin jwt refresh_token expected uuid a = if superseded a expected then (a, false) else (
  with_session a (record {
    license_jwt = some jwt;
    refresh_token = or_null refresh_token;
    auth_generation = some uuid;
    signed_out = false;
  }),
  true,
)

unfoldable pub get_license_token : Account → Option String
get_license_token a = if a.session.signed_out then none else or_null a.session.license_jwt

abbrev pub is_some : Option String → Bool
is_some none = false
is_some (some s) = true

unfoldable pub is_signed_in : Account → Bool
unfolding get_license_token
is_signed_in a = is_some (get_license_token a)

abbrev pub license_expiry_skew_seconds : ℕ
license_expiry_skew_seconds = 300

abbrev pub enabled_is_true : Option Setting → Bool
enabled_is_true none = false
enabled_is_true (some s) = elim s.enabled [ none ↦ false | some b ↦ b ]

abbrev pub is_false : Option Bool → Bool
is_false none = false
is_false (some b) = not b

abbrev pub includes : String → List String → Bool
includes org orgs = any (λ o. str_eq o org) orgs

abbrev pub is_empty : List String → Bool
is_empty [] = true
is_empty (s ∷ l) = false

module _ ⦃h : Host⦄ where
  unfoldable pub is_license_token_expired : Option String → ℕ → Bool
  unfolding is_jwt_expired
  is_license_token_expired token now_ms =
      is_jwt_expired token now_ms license_expiry_skew_seconds true

  unfoldable pub has_valid_license : Account → ℕ → Bool
  unfolding get_license_token is_license_token_expired
  has_valid_license a now_ms =
      is_some (get_license_token a) && not (is_license_token_expired (get_license_token a) now_ms)

  unfoldable pub get_allowed_github_orgs : Account → List String
  unfolding get_license_orgs
  get_allowed_github_orgs a = get_license_orgs (get_license_token a)

  abbrev pub normalized : List String → List String
  normalized [] = []
  normalized (o ∷ orgs) = normalize_org o ∷ normalized orgs

  abbrev pub session_orgs : Account → List String
  session_orgs a = normalized (get_license_orgs (or_null a.session.license_jwt))

  abbrev pub authorized : Policy → String → Bool
  authorized policy org = enabled_is_true (lookup org policy.organizations)

  abbrev repository_allowed : Policy → List String → Option RepoKey → Bool
  repository_allowed policy orgs none = false
  repository_allowed policy orgs (some k) =
      includes k.owner orgs
      && authorized policy k.owner
      && enabled_is_true (lookup k policy.repositories)

  unfoldable pub is_telemetry_transmission_allowed : String → PolicyFile → Account → Bool
  is_telemetry_transmission_allowed repo_key file a =
      let policy = (read_policy file).0 in
      let orgs = session_orgs a in
      if is_false policy.global.enabled
      then false
      else if a.session.signed_out
      then false
      else if is_empty orgs
      then false
      else if str_eq repo_key ""
      then all (authorized policy) orgs
      else repository_allowed policy orgs (normalize_repo_key repo_key)
