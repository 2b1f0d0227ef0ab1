-- ===== src/Renewal/Requests.antt =====
-- The two requests of a renewal: `refreshGrant` of shared/lib/broker.js and `exchangeIdToken` of
-- shared/lib/license-exchange.js, from the reply to the outcome. A message is the list of its
-- UTF-16 code units; the servers are parameters.
use skillmeter_claude_code_m.Prelude.{
  ℕ, Bool, false, not, ◌&&◌, ◌||◌, Option, none, some, List, [], ◌++◌, String, str_eq, ltb, leb,
  ◌==◌, take, if◌then◌else◌,
}
use skillmeter_claude_code_m.Host.{Host, units}
use skillmeter_claude_code_m.Jwt.{or_null}

-- The fields of the broker's answer, where they are texts.
pub record GrantPayload : Type 0 where
  pub error : Option String
  pub id_token : Option String
  pub refresh_token : Option String

-- The payload is missing where the answer is no JSON.
pub data GrantReply : Type 0 where
  unreachable : List ℕ → GrantReply
  answered : ℕ → Option GrantPayload → GrantReply

pub data Grant : Type 0 where
  granted : (id_token refresh_token : String) → Grant
  ended : (status : ℕ) (error : String) → Grant
  failed : (status : Option ℕ) (message : List ℕ) → Grant

pub data Json : Type 0 where
  invalid : Json
  token_field : Option String → Json

pub data ExchangeReply : Type 0 where
  unreachable : List ℕ → ExchangeReply
  answered : ℕ → List ℕ → Json → ExchangeReply

pub data Exchange : Type 0 where
  issued : String → Exchange
  revoked : ℕ → Exchange
  refused : ℕ → Exchange
  failed : (status : Option ℕ) (message : List ℕ) → Exchange

pub record Server : Type 0 where
  pub token_endpoint : String → GrantReply
  pub activate_endpoint : (id_token device_id : String) → Option String → ExchangeReply

-- `res.ok`
abbrev pub is_ok : ℕ → Bool
is_ok status = leb 200 status && ltb status 300

abbrev pub is_unusable : Option String → Bool
is_unusable none = false
is_unusable (some e) =
    str_eq e "invalid_grant" || str_eq e "invalid_client" || str_eq e "unauthorized_client"

abbrev text_of : Option String → String
text_of none = ""
text_of (some s) = s

abbrev payload_error : Option GrantPayload → Option String
payload_error none = none
payload_error (some p) = p.error

abbrev id_token_of : Option GrantPayload → Option String
id_token_of none = none
id_token_of (some p) = p.id_token

abbrev refresh_token_of : Option GrantPayload → String → String
refresh_token_of none spent = spent
refresh_token_of (some p) spent = elim p.refresh_token [ none ↦ spent | some t ↦ t ]

module _ ⦃h : Host⦄ where
  abbrev pub http_message : ℕ → List ℕ
  http_message status = units "HTTP " ++ units (h.decimal status)

  abbrev error_suffix : Option String → List ℕ
  error_suffix none = []
  error_suffix (some e) = units " (" ++ units e ++ units ")"

  unfoldable pub refresh_grant : GrantReply → String → Grant
  refresh_grant (GrantReply.unreachable message) spent =
      Grant.failed none (units "network error: " ++ message)
  refresh_grant (GrantReply.answered status payload) spent =
      let error = payload_error payload in
      if is_unusable error
      then ended status (text_of error)
      else if not (is_ok status)
      then Grant.failed (some status) (http_message status ++ error_suffix (or_null error))
      else elim (id_token_of payload) [
        | none ↦ Grant.failed (some status) (units "refresh response has no id_token")
        | some id_token ↦ granted id_token (refresh_token_of payload spent)
      ]

  abbrev pub exchange_token : ℕ → Option String → Exchange
  exchange_token status none = Exchange.failed (some status) (units "response missing token")
  exchange_token status (some token) = issued token

  unfoldable pub exchange_json : ℕ → Json → Exchange
  exchange_json status invalid = Exchange.failed (some status) (units "invalid JSON in response")
  exchange_json status (token_field t) = exchange_token status (or_null t)

  -- `org` is the tenant that the request pins, "" for none.
  unfoldable pub exchange_outcome : ExchangeReply → String → Exchange
  exchange_outcome (ExchangeReply.unreachable message) org =
      Exchange.failed none (units "network error: " ++ message)
  exchange_outcome (ExchangeReply.answered status text body) org =
      if status == 402 || (status == 404 && not (str_eq org ""))
      then revoked status
      else if status == 401
      then refused 401
      else if not (is_ok status)
      then Exchange.failed (some status) (http_message status ++ units ": " ++ take 200 text)
      else exchange_json status body
