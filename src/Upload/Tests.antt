-- ===== src/Upload/Tests.antt =====
-- Uploads at concrete inputs.
use skillmeter_claude_code_m.Prelude.{
  ℕ, ◌≡◌, ◌≢◌, ◌⊎◌, ◌&&◌, refl, true, false, none, some, [], ◌∷◌, String,
}
use skillmeter_claude_code_m.Prelude.Assoc.{lookup}
use skillmeter_claude_code_m.Retry.{Meta, no_meta}
use skillmeter_claude_code_m.Jwt.{is_jwt_expired, get_license_orgs}
use skillmeter_claude_code_m.Session.{get_license_token, is_telemetry_transmission_allowed}
use skillmeter_claude_code_m.Policy.Keys.{normalize_repo_key, normalize_org}
use skillmeter_claude_code_m.Policy.Store.{get_global_disabled, read_policy, normalize_policy}
use skillmeter_claude_code_m.Queue.{
  send, delete, QueueContext, imported, chunk_disposition, queue_disposition,
  chunk_transmission_allowed, backfill_tenant_matches,
}
use skillmeter_claude_code_m.Upload.{
  Sidecar, chunk_of, queued, quarantined, ChunkFiles, Moment, Request, Answer, response, is_success,
  settle_answer, jwt_expiry_grace_seconds, unreadable, loaded, Client, usable_token, disposition_at,
  allowed_at, may_send, request_of, send_chunk, send_to, send_with, consider_chunk,
  upload_delta_chunk, telemetry_endpoint, is_deferred_status, build_chunk_headers, is_queued,
  log_backfill_chunk,
}
use skillmeter_claude_code_m.Upload.Budget.{
  attempts, rejects, only_rejections_spend, Trial, sound_disk, run_trials, AllRefused, SameContent,
  refused_is_set_aside,
}
use skillmeter_claude_code_m.Upload.Consent.{sent_with_consent, settle_answer-sent}
use skillmeter_claude_code_m.Upload.Deletion.{IsDeleted, Delivered, deleted_for_a_reason}
use skillmeter_claude_code_m.Upload.Batch.{Settled, fulfilled}
use skillmeter_claude_code_m.Examples.{plain_host, tool, policy_file, signed_in_account}

abbrev context : QueueContext
context = record { org = "acme"; key = tool; repo_key = "github.com/acme/tool" }

abbrev sidecar : Meta → Sidecar
sidecar m = record {
  transcript_id = "t1";
  wire_transcript_id = "w1";
  seq = 1;
  reset_baseline_seq = 0;
  prompt_id = "p1";
  repo_key = "github.com/acme/tool";
  backfill_offer_id = "";
  retry = m;
}

abbrev files_of : Meta → ChunkFiles
files_of m = record { body = queued; sidecar = queued; content = sidecar m }

abbrev files : ChunkFiles
files = files_of no_meta

abbrev client : Client
client = record {
  override = some "https://collector";
  device_id = "d1";
  fingerprint = λ t. t;
  idempotency_key = λ k b. b;
}

abbrev moment : Moment
moment = record { policy = policy_file; backfill = none; account = signed_in_account; now = 5000 }

abbrev request_with : Meta → Request
request_with m = request_of client (sidecar m) "jwt1" "https://collector" "lines"

may_send_now : (m : Meta) → may_send client moment (sidecar m) context "jwt1" ≡ true
unfolding may_send disposition_at allowed_at chunk_disposition queue_disposition
    chunk_transmission_allowed is_telemetry_transmission_allowed get_global_disabled read_policy
    normalize_policy normalize_repo_key get_license_orgs normalize_org lookup
may_send_now m = refl

disposed_now : (m : Meta) → disposition_at client moment (sidecar m) context ≡ send
unfolding disposition_at chunk_disposition queue_disposition get_global_disabled read_policy
    normalize_policy lookup
disposed_now m = refl

allowed_now : (m : Meta) → allowed_at moment (sidecar m) context ≡ true
unfolding allowed_at chunk_transmission_allowed is_telemetry_transmission_allowed
    get_global_disabled read_policy normalize_policy normalize_repo_key get_license_orgs
    normalize_org lookup
allowed_now m = refl

token_now : usable_token moment ≡ some "jwt1"
unfolding usable_token get_license_token is_jwt_expired
token_now = refl

module _ (answer : Request → Answer) (m : Meta) where
  upload_now :
      upload_delta_chunk client answer sound_disk moment moment
        (files_of m)
        (some context)
        (loaded "lines")
      ≡ settle_answer sound_disk 5000 (files_of m) (request_with m) (answer (request_with m))
  unfolding upload_delta_chunk consider_chunk send_with send_to send_chunk telemetry_endpoint
      log_backfill_chunk
  upload_now = rw (disposed_now m, allowed_now m, token_now, may_send_now m) refl

  sent_now :
      (upload_delta_chunk client answer sound_disk moment moment
        (files_of m)
        (some context)
        (loaded "lines")).sent
      ≡ some (request_with m)
  sent_now =
      rw upload_now
        (settle_answer-sent sound_disk 5000 (files_of m) (request_with m) (answer (request_with m)))

abbrev accepted : Request → Answer
accepted r = response 200

abbrev broken : Request → Answer
broken r = response 500

sent_with_consent_example :
    (c : QueueContext) × (some context ≡ some c)
    × ("github.com/acme/tool" ≡ c.repo_key)
    × (is_queued queued && is_queued queued ≡ true)
    × (get_license_token signed_in_account ≡ some "jwt1")
    × (is_jwt_expired (some "jwt1") 5000 jwt_expiry_grace_seconds true ≡ false)
    × (disposition_at client moment (sidecar no_meta) c ≡ send)
    × (allowed_at moment (sidecar no_meta) c ≡ true)
    × (imported (chunk_of (sidecar no_meta)) ≡ true
        → backfill_tenant_matches none (chunk_of (sidecar no_meta)) "jwt1" ≡ true)
unfolding build_chunk_headers
sent_with_consent_example =
    sent_with_consent client accepted sound_disk moment moment files (some context) (loaded "lines")
      (request_with no_meta) (sent_now accepted no_meta)

body-IsDeleted : IsDeleted (
    upload_delta_chunk client accepted sound_disk moment moment files
      (some context)
      (loaded "lines"))
unfolding settle_answer is_success IsDeleted
body-IsDeleted = rw (upload_now accepted no_meta) refl

deleted_for_a_reason_example :
    Delivered client accepted sound_disk (
      upload_delta_chunk client accepted sound_disk moment moment files
        (some context)
        (loaded "lines"))
    ⊎ (disposition_at client moment (sidecar no_meta) context ≡ delete)
    ⊎ (((sidecar no_meta).repo_key ≡ "") ⊎ ((sidecar no_meta).repo_key ≢ context.repo_key))
deleted_for_a_reason_example =
    deleted_for_a_reason client accepted sound_disk moment moment files context (loaded "lines")
      refl body-IsDeleted

only_rejections_spend_example :
    (attempts
        (upload_delta_chunk client broken sound_disk moment moment files
          (some context)
          (loaded "lines")).files
      ≡ none)
    ⊎ ((why : String) × (loaded "lines" ≡ unreadable why))
    ⊎ ((r : Request) × (status : ℕ) × ((upload_delta_chunk client broken sound_disk moment moment
            files
            (some context)
            (loaded "lines")).sent
          ≡ some r)
        × (broken r ≡ response status)
        × (rejects status ≡ true))
unfolding attempts
only_rejections_spend_example =
    only_rejections_spend client broken sound_disk moment moment files (some context)
      (loaded "lines")

-- The chunk has failed seven times already.
abbrev worn : Meta
worn = record no_meta { upload_attempts = some 7 }

abbrev trial : Trial
trial = record { before = moment; later = moment; body = loaded "lines" }

refused_is_set_aside_example :
    ((run_trials client broken (some context) (trial ∷ []) (files_of worn)).body ≡ quarantined)
    × ((run_trials client broken (some context) (trial ∷ []) (files_of worn)).sidecar ≡ quarantined)
    × SameContent
        (files_of worn).content
        (run_trials client broken (some context) (trial ∷ []) (files_of worn)).content
unfolding AllRefused attempts is_success is_deferred_status
refused_is_set_aside_example =
    refused_is_set_aside client broken (some context) trial [] (files_of worn) refl refl
      ((request_with worn, 500, sent_now broken worn, refl, refl), tt)

abbrev unauthorized : Settled
unauthorized = fulfilled (record { ok = false; unauthorized = true; error = some "HTTP 401" })

abbrev delivered : Settled
delivered = fulfilled (record { ok = true; unauthorized = false; error = none })
