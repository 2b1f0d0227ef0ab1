-- ===== src/Upload/EventLog.antt =====
-- Sending one sealed event log: `transferEventLog` of lib/transfer.js, for a repository's queue and
-- for the audit queue of an organization.
use skillmeter_claude_code_m.Prelude.{
  ℕ, Bool, true, false, not, ◌||◌, if◌then◌else◌, if_intro, if_given, Option, none, some, String,
  ◌≡◌, ◌≢◌, refl, sym, ◌∙◌, ◌==◌, arith,
}
use Prim.Native.String.{◌++◌ as ◌++ˢ◌}
use mathlib.Core.Option.{some-injective}
use skillmeter_claude_code_m.Host.{Host}
use skillmeter_claude_code_m.Jwt.{is_jwt_expired}
use skillmeter_claude_code_m.Session.{get_license_token, is_telemetry_transmission_allowed}
use skillmeter_claude_code_m.Queue.{
  Disposition, send, QueueContext, queue_disposition, organization_audit_disposition,
}
use skillmeter_claude_code_m.Upload.{
  Answer, response, no_response, Moment, Client, current_fingerprint, is_send, is_delete,
  is_success, http_error, usable_token, telemetry_endpoint, Body, unreadable, loaded,
  jwt_expiry_grace_seconds,
}
use skillmeter_claude_code_m.Upload.Consent.{usable_token-some, is_send-true}

-- Whose queue the file lies in: a repository's, or the audit queue of a tenant.
pub data LogContext : Type 0 where
  repository : QueueContext → LogContext
  organization : String → LogContext

-- Where the file is: in the queue, renamed to `.sent`, removed, or removed with its whole queue.
pub data LogPlace : Type 0 where
  waiting sent_aside deleted purged : LogPlace

pub record LogRequest : Type 0 where
  pub endpoint : String
  pub idempotency_key : String
  pub organization_scope : Bool
  pub bearer : String
  pub body : String

-- `thrown` is an exception, which rejects the promise.
pub record LogOutcome : Type 0 where
  pub ok : Bool
  pub unauthorized : Bool
  pub error : Option String
  pub thrown : Option String
  pub place : LogPlace
  pub sent : Option LogRequest

abbrev pub skipped : LogOutcome
skipped = record {
  ok = false;
  unauthorized = false;
  error = none;
  thrown = none;
  place = waiting;
  sent = none;
}

abbrev pub is_organization : LogContext → Bool
is_organization (repository c) = false
is_organization (organization t) = true

-- The key that the transmission check takes, and what the idempotency key is drawn from.
abbrev pub authorization_key : LogContext → String
authorization_key (repository c) = c.repo_key
authorization_key (organization t) = ""

abbrev idempotency_scope : LogContext → String
idempotency_scope (repository c) = c.repo_key
idempotency_scope (organization t) = "organization:" ++ˢ t

module _ ⦃h : Host⦄ (client : Client) where
  unfoldable pub log_disposition : Moment → LogContext → Disposition
  log_disposition m (repository c) = queue_disposition m.policy c
  log_disposition m (organization t) =
      organization_audit_disposition m.policy m.account (current_fingerprint client m) (some t)

  unfoldable pub log_allowed : Moment → LogContext → Bool
  log_allowed m c = is_telemetry_transmission_allowed (authorization_key c) m.policy m.account

  unfoldable pub settle_log : LogRequest → Answer → LogOutcome
  settle_log r (no_response why) = record skipped { sent = some r; error = some why }
  settle_log r (response status) =
      if is_success status
      then record skipped { ok = true; place = sent_aside; sent = some r }
      else if status == 401
      then record skipped { unauthorized = true; error = some "HTTP 401"; sent = some r }
      else record skipped { error = some (http_error status); sent = some r }

  module _ (answer : LogRequest → Answer) where
    unfoldable pub send_log : Moment → LogContext → String → String → Body → LogOutcome
    unfolding settle_log
    send_log later c token endpoint (unreadable why) = record skipped { thrown = some why }
    send_log later c token endpoint (loaded raw) =
        let r : LogRequest = record {
          endpoint = endpoint;
          idempotency_key = client.idempotency_key (idempotency_scope c) raw;
          organization_scope = is_organization c;
          bearer = token;
          body = raw;
        } in
        if not (is_send (log_disposition later c)) || not (log_allowed later c)
        then skipped
        else settle_log r (answer r)

    unfoldable pub send_log_to : Moment → LogContext → Body → String → Option String → LogOutcome
    unfolding send_log
    send_log_to later c body token none = skipped
    send_log_to later c body token (some endpoint) = send_log later c token endpoint body

    unfoldable pub send_log_with : Moment → LogContext → Body → Option String → LogOutcome
    unfolding send_log_to
    send_log_with later c body none = skipped
    send_log_with later c body (some token) =
        send_log_to later c body token (telemetry_endpoint client.override (some token))

    -- `exists` says whether the file is there; one that lies in no queue is removed.
    unfoldable pub transfer_event_log :
        Moment → Moment → Bool → Option LogContext → Body → LogOutcome
    unfolding send_log_with
    transfer_event_log before later exists none body =
        if not exists then skipped else record skipped { place = deleted }
    transfer_event_log before later exists (some c) body =
        if not exists
        then skipped
        else if is_delete (log_disposition before c)
        then record skipped { place = purged }
        else if not (is_send (log_disposition before c)) || not (log_allowed before c)
        then skipped
        else send_log_with later c body (usable_token before)

    module _ (before later : Moment) (exists : Bool) (body : Body) where
      -- What holds of a request that was sent, and of a file that is marked as sent.
      pub record IsLawful (context : Option LogContext) (o : LogOutcome) : Type 0 where
        pub sanctioned :
            (r : LogRequest)
            → o.sent ≡ some r
            → (c : LogContext) × (context ≡ some c)
              × (get_license_token before.account ≡ some r.bearer)
              × (is_jwt_expired (some r.bearer) before.now jwt_expiry_grace_seconds true ≡ false)
              × (log_disposition later c ≡ send)
              × (log_allowed later c ≡ true)
              × (r.organization_scope ≡ is_organization c)
        pub delivered :
            o.place ≡ sent_aside
            → (r : LogRequest) × (status : ℕ) × (o.sent ≡ some r)
              × (answer r ≡ response status)
              × (is_success status ≡ true)

      silent-IsLawful :
          (context : Option LogContext) (o : LogOutcome)
          → o.sent ≡ none
          → o.place ≢ sent_aside
          → IsLawful context o
      silent-IsLawful context o unsent here = record {
        sanctioned = λ r e. absurd (ground (arith, unsent, e));
        delivered = λ e. absurd (here e);
      }

      settle_log-sent : (q : LogRequest) (a : Answer) → (settle_log q a).sent ≡ some q
      unfolding settle_log
      settle_log-sent q (no_response why) = refl
      settle_log-sent q (response status) = ground arith

      settle_log-place :
          (q : LogRequest) (a : Answer)
          → (settle_log q a).place ≡ sent_aside
          → (status : ℕ) × (a ≡ response status) × (is_success status ≡ true)
      unfolding settle_log
      settle_log-place q (no_response why) e = absurd (ground (arith, e))
      settle_log-place q (response status) e = (status, refl, ground (arith, e))

      send_log-IsLawful :
          (c : LogContext) (token endpoint : String) (b : Body)
          → usable_token before ≡ some token
          → IsLawful (some c) (send_log later c token endpoint b)
      unfolding send_log
      send_log-IsLawful c token endpoint (unreadable why) t =
          silent-IsLawful (some c) _ refl (λ e. ground (arith, e))
      send_log-IsLawful c token endpoint (loaded raw) t =
          let q : LogRequest = record {
            endpoint = endpoint;
            idempotency_key = client.idempotency_key (idempotency_scope c) raw;
            organization_scope = is_organization c;
            bearer = token;
            body = raw;
          } in
          let stops = not (is_send (log_disposition later c)) || not (log_allowed later c) in
          let (held, fresh) = usable_token-some before token t in
          if_given (IsLawful (some c)) stops _ _
            (λ _. silent-IsLawful (some c) _ refl (λ e. ground (arith, e)))
            (λ go. record {
              sanctioned = λ r e.
                  let one = some-injective q r (sym (settle_log-sent q (answer q)) ∙ e) in
                  rw (sym one) (
                    c,
                    refl,
                    held,
                    fresh,
                    is_send-true (log_disposition later c) (ground (arith, go)),
                    ground (arith, go),
                    refl,
                  );
              delivered = λ e.
                  let (status, a, success) = settle_log-place q (answer q) e in
                  (q, status, settle_log-sent q (answer q), a, success);
            })

      send_log_to-IsLawful :
          (c : LogContext) (token : String) (endpoint : Option String)
          → usable_token before ≡ some token
          → IsLawful (some c) (send_log_to later c body token endpoint)
      unfolding send_log_to
      send_log_to-IsLawful c token none t =
          silent-IsLawful (some c) skipped refl (λ e. ground (arith, e))
      send_log_to-IsLawful c token (some endpoint) t = send_log-IsLawful c token endpoint body t

      send_log_with-IsLawful :
          (c : LogContext) (token : Option String)
          → usable_token before ≡ token
          → IsLawful (some c) (send_log_with later c body token)
      unfolding send_log_with
      send_log_with-IsLawful c none t =
          silent-IsLawful (some c) skipped refl (λ e. ground (arith, e))
      send_log_with-IsLawful c (some token) t =
          send_log_to-IsLawful c token (telemetry_endpoint client.override (some token)) t

      -- An event log is sent only under a license of the moment the transfer began, signed in and
      -- unexpired, and only if just before the request the queue it lies in is to be sent and its
      -- transmission is allowed. Its file is marked as sent only if the collector answered that
      -- request with a 2xx status.
      pub transfer_event_log-IsLawful :
          (context : Option LogContext)
          → IsLawful context (transfer_event_log before later exists context body)
      unfolding transfer_event_log
      transfer_event_log-IsLawful none =
          if_intro (IsLawful none) (not exists) _ _
            (silent-IsLawful none _ refl (λ e. ground (arith, e)))
            (silent-IsLawful none _ refl (λ e. ground (arith, e)))
      transfer_event_log-IsLawful (some c) =
          let d = log_disposition before c in
          let waits = silent-IsLawful (some c) skipped refl (λ e. ground (arith, e)) in
          if_intro (IsLawful (some c)) (not exists) _ _ waits (
            if_intro (IsLawful (some c)) (is_delete d) _ _
              (silent-IsLawful (some c) _ refl (λ e. ground (arith, e)))
              (if_intro (IsLawful (some c)) (not (is_send d) || not (log_allowed before c)) _ _
                waits (send_log_with-IsLawful c (usable_token before) refl)))
