-- ===== src/Upload.antt =====
-- Sending one transcript chunk: `uploadDeltaChunk` of lib/transfer.js, with what it writes beside
-- the chunk. The files of the policy, the session and the backfill state are read twice, before the
-- body is read and just before the request; `gzip` and SHA-256 over the body are parameters, and so
-- is the collector's answer. Removing a file is taken to succeed, as the code takes it.
pub mod Budget
pub mod Consent
pub mod Deletion
pub mod EventLog
pub mod Batch
mod Tests
use Prim.Native.String.{◌++◌ as ◌++ˢ◌}
use skillmeter_claude_code_m.Prelude.{
  ℕ, Bool, true, false, not, ◌&&◌, ◌||◌, Option, none, some, List, [], ◌∷◌, ◌++◌, String, str_eq,
  leb, any, ◌==◌, if◌then◌else◌,
}
use skillmeter_claude_code_m.Host.{Host, units}
use skillmeter_claude_code_m.Jwt.{or_null, is_jwt_expired, get_endpoint_from_token_allow_expired}
use skillmeter_claude_code_m.Retry.{
  Meta, record_upload_failure, record_upload_deferral, is_chunk_exhausted, max_upload_attempts,
}
use skillmeter_claude_code_m.Session.{Account, get_license_token}
use skillmeter_claude_code_m.Backfill.{Backfill}
use skillmeter_claude_code_m.Policy.Store.{PolicyFile}
use skillmeter_claude_code_m.Queue.{
  Disposition, send, pause, delete, QueueContext, ChunkMeta, imported, chunk_disposition,
  chunk_transmission_allowed, backfill_tenant_matches,
}

-- A chunk's sidecar; a text that is not there is "".
pub record Sidecar : Type 0 where
  pub transcript_id : String
  pub wire_transcript_id : String
  pub seq : ℕ
  pub reset_baseline_seq : ℕ
  pub prompt_id : String
  pub repo_key : String
  pub backfill_offer_id : String
  pub retry : Meta

abbrev pub is_import : Sidecar → Bool
is_import m = str_eq m.prompt_id "backfill"

abbrev pub chunk_of : Sidecar → ChunkMeta
chunk_of m = record {
  is_backfill = is_import m;
  backfill_offer_id = m.backfill_offer_id;
  transcript_id = m.transcript_id;
  seq = m.seq;
  retry = m.retry;
}

-- Where a file of the queue is: under its name, under its name with `.quarantined`, or nowhere.
pub data Place : Type 0 where
  queued quarantined removed : Place

pub record ChunkFiles : Type 0 where
  pub body : Place
  pub sidecar : Place
  pub content : Sidecar

-- Which writes the disk accepts: the sidecar's, and the renaming of the sidecar and of the body.
pub record Disk : Type 0 where
  pub writes : Bool
  pub renames_sidecar : Bool
  pub renames_body : Bool

-- What the client's files say at one moment.
pub record Moment : Type 0 where
  pub policy : PolicyFile
  pub backfill : Option Backfill
  pub account : Account
  pub now : ℕ

pub record Headers : Type 0 where
  pub device_id : String
  pub transcript_id : String
  pub chunk_seq : String
  pub chunk_reset : String
  pub prompt_id : Option String
  pub idempotency_key : Option String
  pub bearer : String

pub record Request : Type 0 where
  pub endpoint : String
  pub headers : Headers
  pub body : String

-- The collector's answer: its status, or why there is none.
pub data Answer : Type 0 where
  response : ℕ → Answer
  no_response : String → Answer

-- The result, the files, the request that was sent, whether the repository's queue was purged, and
-- the lines of the backfill log.
pub record Outcome : Type 0 where
  pub ok : Bool
  pub deferred : Bool
  pub unauthorized : Bool
  pub abandoned : Bool
  pub error : Option String
  pub files : ChunkFiles
  pub sent : Option Request
  pub purged : Bool
  pub log : List (String × String)

abbrev pub refused : ChunkFiles → Outcome
refused f = record {
  ok = false;
  deferred = false;
  unauthorized = false;
  abandoned = false;
  error = none;
  files = f;
  sent = none;
  purged = false;
  log = [];
}

-- `logBackfillChunk`
unfoldable pub log_backfill_chunk : Sidecar → String → String → List (String × String)
log_backfill_chunk m event why = if is_import m then (event, why) ∷ [] else []

abbrev pub remove_chunk : ChunkFiles → ChunkFiles
remove_chunk f = record f { body = removed; sidecar = removed }

-- `{ abandoned }` and the files.
unfoldable pub note_chunk_upload_failure : Disk → ℕ → ChunkFiles → String → Bool × ChunkFiles
note_chunk_upload_failure d now f error =
    let updated = record_upload_failure (some f.content.retry) now (units error) in
    let noted : ChunkFiles = record f { content = record f.content { retry = updated } } in
    if not d.writes
    then (false, f)
    else if not (is_chunk_exhausted (some updated) max_upload_attempts)
    then (false, noted)
    else if not d.renames_sidecar
    then (false, noted)
    else if not d.renames_body
    then (false, record noted { sidecar = quarantined })
    else (true, record noted { sidecar = quarantined; body = quarantined })

unfoldable pub note_chunk_upload_deferral : Disk → ℕ → ChunkFiles → String → ChunkFiles
note_chunk_upload_deferral d now f error =
    let updated = record_upload_deferral (some f.content.retry) now (units error) in
    if d.writes then record f { content = record f.content { retry = updated } } else f

unfoldable pub is_deferred_status : ℕ → Bool
is_deferred_status s =
    s == 402 || s == 403 || s == 408 || s == 429 || s == 502 || s == 503 || s == 504

-- `res.ok`
unfoldable pub is_success : ℕ → Bool
is_success s = leb 200 s && leb s 299

module _ ⦃h : Host⦄ where
  unfoldable pub http_error : ℕ → String
  http_error status = "HTTP " ++ˢ h.decimal status

  -- `buildChunkHeaders`; the SHA-256 of the key and the body is `idempotency_key`.
  unfoldable pub build_chunk_headers :
      (String → String → String) → Sidecar → String → String → Option String → Headers
  build_chunk_headers idempotency_key m device token raw = record {
    device_id = device;
    transcript_id =
        if str_eq m.wire_transcript_id "" then m.transcript_id else m.wire_transcript_id;
    chunk_seq = h.decimal m.seq;
    chunk_reset = h.decimal m.reset_baseline_seq;
    prompt_id = or_null (some m.prompt_id);
    idempotency_key =
        if str_eq m.repo_key ""
        then none
        else elim raw [ none ↦ none | some body ↦ some (idempotency_key m.repo_key body) ];
    bearer = token;
  }

  -- `telemetryEndpoint`, with the explicit address of the settings.
  unfoldable pub telemetry_endpoint : Option String → Option String → Option String
  telemetry_endpoint override token = elim (or_null override) [
    | none ↦ or_null (get_endpoint_from_token_allow_expired token)
    | some url ↦ some url
  ]

  -- After the request: what the answer does to the chunk.
  unfoldable pub settle_answer : Disk → ℕ → ChunkFiles → Request → Answer → Outcome
  unfolding log_backfill_chunk
  settle_answer d now f r (no_response why) = record (refused f) {
    deferred = true;
    error = some why;
    files = note_chunk_upload_deferral d now f why;
    sent = some r;
    log = log_backfill_chunk f.content "upload_deferred" "network_error";
  }
  settle_answer d now f r (response status) =
      let e = http_error status in
      let failure = note_chunk_upload_failure d now f e in
      let tried : Outcome = record (refused f) { sent = some r; error = some e } in
      if is_success status
      then record tried {
        ok = true;
        error = none;
        files = remove_chunk f;
        log = log_backfill_chunk f.content "upload_succeeded" "";
      }
      else if status == 401
      then record tried {
        unauthorized = true;
        log = log_backfill_chunk f.content "upload_deferred" "license_rejected";
      }
      else if is_deferred_status status
      then record tried {
        deferred = true;
        files = note_chunk_upload_deferral d now f e;
        log = log_backfill_chunk f.content "upload_deferred" "collector_unavailable";
      }
      else record tried {
        abandoned = failure.0;
        files = failure.1;
        log =
            (if failure.0 then log_backfill_chunk f.content "upload_abandoned" e else [])
            ++ log_backfill_chunk f.content "upload_failed" e;
      }

abbrev pub is_queued : Place → Bool
is_queued queued = true
is_queued quarantined = false
is_queued removed = false

abbrev pub is_send : Disposition → Bool
is_send send = true
is_send pause = false
is_send delete = false

abbrev pub is_delete : Disposition → Bool
is_delete send = false
is_delete pause = false
is_delete delete = true

abbrev pub jwt_expiry_grace_seconds : ℕ
jwt_expiry_grace_seconds = 30

-- The body as it is read and compressed, or why it cannot be.
pub data Body : Type 0 where
  unreadable loaded : String → Body

-- What does not change during an upload: the address in the settings, the device, the tenant's
-- fingerprint of a token, and the idempotency key.
pub record Client : Type 0 where
  pub override : Option String
  pub device_id : String
  pub fingerprint : String → String
  pub idempotency_key : String → String → String

abbrev pub token_fingerprint : Client → Option String → String
token_fingerprint c none = ""
token_fingerprint c (some t) = c.fingerprint t

abbrev pub current_fingerprint : Client → Moment → String
current_fingerprint c m = token_fingerprint c (get_license_token m.account)

module _ ⦃h : Host⦄ where
  -- The license that may be sent.
  unfoldable pub usable_token : Moment → Option String
  usable_token m =
      let token = get_license_token m.account in
      if is_jwt_expired token m.now jwt_expiry_grace_seconds true then none else token

  unfoldable pub allowed_at : Moment → Sidecar → QueueContext → Bool
  allowed_at m s c = chunk_transmission_allowed m.policy m.backfill m.account (chunk_of s) c

module _ ⦃h : Host⦄ (client : Client) where
  unfoldable pub disposition_at : Moment → Sidecar → QueueContext → Disposition
  disposition_at m s c =
      chunk_disposition m.policy m.backfill (current_fingerprint client m) (chunk_of s) c

  -- Just before the request everything is read again, and the tenant of the very token is compared.
  unfoldable pub may_send : Moment → Sidecar → QueueContext → String → Bool
  unfolding disposition_at allowed_at
  may_send m s c token =
      is_send (disposition_at m s c)
      && allowed_at m s c
      && (not (imported (chunk_of s))
          || backfill_tenant_matches m.backfill (chunk_of s) (client.fingerprint token))

  abbrev pub request_of : Sidecar → String → String → String → Request
  request_of s token endpoint raw = record {
    endpoint = endpoint;
    headers = build_chunk_headers client.idempotency_key s client.device_id token (some raw);
    body = raw;
  }

unfoldable pub drop_chunk : ChunkFiles → String → Outcome
unfolding log_backfill_chunk
drop_chunk f why = record (refused f) {
  error = some why;
  files = remove_chunk f;
  log = log_backfill_chunk f.content "upload_failed" why;
}

module _ ⦃h : Host⦄ (client : Client) (answer : Request → Answer) (disk : Disk) where
  unfoldable pub send_chunk : Moment → ChunkFiles → QueueContext → String → String → Body → Outcome
  unfolding log_backfill_chunk
  send_chunk later f c token endpoint (unreadable why) =
      let failure = note_chunk_upload_failure disk later.now f "gzip_failed" in
      record (refused f) {
        abandoned = failure.0;
        error = some why;
        files = failure.1;
        log =
            (if failure.0
              then log_backfill_chunk f.content "upload_abandoned" "gzip_failed"
              else [])
            ++ log_backfill_chunk f.content "upload_failed" "gzip_failed";
      }
  send_chunk later f c token endpoint (loaded raw) =
      let r = request_of client f.content token endpoint raw in
      let settled = settle_answer disk later.now f r (answer r) in
      let attempt = log_backfill_chunk f.content "upload_attempt" "" in
      if may_send client later f.content c token
      then record settled { log = attempt ++ settled.log }
      else record (refused f) {
        deferred = true;
        log =
            attempt
            ++ log_backfill_chunk f.content "upload_deferred" "policy_changed_before_request";
      }

  -- Without a place to send it, or a usable license, the chunk waits.
  unfoldable pub send_to :
      Moment → ChunkFiles → QueueContext → Body → String → Option String → Outcome
  unfolding send_chunk log_backfill_chunk
  send_to later f c body token none = record (refused f) {
    deferred = true;
    log = log_backfill_chunk f.content "upload_deferred" "endpoint_unavailable";
  }
  send_to later f c body token (some endpoint) = send_chunk later f c token endpoint body

  unfoldable pub send_with : Moment → ChunkFiles → QueueContext → Body → Option String → Outcome
  unfolding send_to log_backfill_chunk
  send_with later f c body none = record (refused f) {
    deferred = true;
    log = log_backfill_chunk f.content "upload_deferred" "license_unavailable";
  }
  send_with later f c body (some token) =
      send_to later f c body token (telemetry_endpoint client.override (some token))

  unfoldable pub consider_chunk : Moment → Moment → ChunkFiles → QueueContext → Body → Outcome
  unfolding send_with drop_chunk log_backfill_chunk
  consider_chunk before later f c body =
      let disposition = disposition_at client before f.content c in
      if is_delete disposition && is_import f.content
      then drop_chunk f "backfill_offer_not_authorized"
      else if is_delete disposition
      then record (refused f) {
        error = some "repository_policy_deleted_queue";
        files = remove_chunk f;
        purged = true;
        log = log_backfill_chunk f.content "upload_failed" "repository_policy_deleted_queue";
      }
      else if not (is_send disposition) || not (allowed_at before f.content c)
      then record (refused f) {
        deferred = true;
        log = log_backfill_chunk f.content "upload_deferred" "telemetry_not_authorized";
      }
      else send_with later f c body (usable_token before)

  -- `uploadDeltaChunk`: a chunk without its body or its sidecar is left, and one that does not
  -- belong to the queue that it lies in is removed.
  unfoldable pub upload_delta_chunk :
      Moment → Moment → ChunkFiles → Option QueueContext → Body → Outcome
  unfolding consider_chunk drop_chunk
  upload_delta_chunk before later f none body =
      if not (is_queued f.body) || not (is_queued f.sidecar)
      then refused f
      else drop_chunk f "invalid_queue_context"
  upload_delta_chunk before later f (some c) body =
      if not (is_queued f.body) || not (is_queued f.sidecar)
      then refused f
      else if str_eq f.content.repo_key "" || not (str_eq f.content.repo_key c.repo_key)
      then drop_chunk f "invalid_queue_context"
      else consider_chunk before later f c body
