-- ===== src/Backfill.antt =====
-- clients/claude-code/skillmeter/scripts/lib/backfill-state.js: the lifecycle of the one-time
-- backfill offer. A transition is a function on the state under the file lock, with the clock and a
-- random UUID as arguments; a field that the state need not have is an Option. `details` that a
-- caller spreads into the state are a `Progress`, the fields that its callers pass.
pub mod Ids
pub mod Consent
pub mod Transitions
mod Tests
use skillmeter_claude_code_m.Prelude.{
  ℕ, ◌+◌, ◌-◌, Bool, true, false, not, ◌&&◌, ◌||◌, Option, none, some, List, [], ◌∷◌, String,
  str_eq, opt_eq, ltb, leb, any, take, if◌then◌else◌,
}
use skillmeter_claude_code_m.Jwt.{or_null, distinct}
use skillmeter_claude_code_m.Backfill.Ids.{is_session_id}

pub data Lifecycle : Type 0 where
  pending declined running completed failed : Lifecycle

pub record PriorOffer : Type 0 where
  pub offer_id : Option String
  pub org : Option String
  pub repository_keys : List String
  pub tenant_fingerprint : String

pub record Progress : Type 0 where
  pub processed_transcripts : Option ℕ
  pub queued_chunks : Option ℕ
  pub skipped_transcripts : Option ℕ
  pub worker_pid : Option ℕ
  pub set_aside_chunks : Option ℕ
  pub error : Option String

pub record Backfill : Type 0 where
  pub lifecycle_id : String
  pub status : Lifecycle
  pub reason : String
  pub created_at : ℕ
  pub updated_at : ℕ
  pub prior_offers : List PriorOffer
  pub upload_authorized : Bool
  pub offer_id : Option String
  pub cutoff_at : Option ℕ
  pub active_session_id : String
  pub manual_trigger : Bool
  pub org : Option String
  pub repository_ids : List String
  pub repository_keys : List String
  pub tenant_fingerprint : Option String
  pub progress : Progress
  pub completed_at : Option ℕ
  pub delivered_at : Option ℕ

-- The state file: absent, not usable as a state, of a newer schema, or a state.
pub data BackfillFile : Type 0 where
  absent unusable newer : BackfillFile
  held : Backfill → BackfillFile

abbrev pub max_prior_offers : ℕ
max_prior_offers = 5

abbrev pub running_stale_ms : ℕ
running_stale_ms = 1800000

abbrev pub no_progress : Progress
no_progress = record {
  processed_transcripts = none;
  queued_chunks = none;
  skipped_transcripts = none;
  worker_pid = none;
  set_aside_chunks = none;
  error = none;
}

abbrev pub new_state : String → ℕ → Lifecycle → String → Backfill
new_state uuid now status reason = record {
  lifecycle_id = uuid;
  status = status;
  reason = reason;
  created_at = now;
  updated_at = now;
  prior_offers = [];
  upload_authorized = false;
  offer_id = none;
  cutoff_at = none;
  active_session_id = "";
  manual_trigger = false;
  org = none;
  repository_ids = [];
  repository_keys = [];
  tenant_fingerprint = none;
  progress = no_progress;
  completed_at = none;
  delivered_at = none;
}

-- `none` where the code throws; the result is also what the file holds.
unfoldable pub initialize_backfill_lifecycle : String → ℕ → BackfillFile → Option Backfill
initialize_backfill_lifecycle uuid now absent = some (new_state uuid now pending "one_time_offer")
initialize_backfill_lifecycle uuid now unusable =
    some (new_state uuid now declined "state_recovered")
initialize_backfill_lifecycle uuid now newer = none
initialize_backfill_lifecycle uuid now (held s) = some s

-- `mutateBackfillState` on a state: where the transition does not apply nothing is written.
abbrev pub mutate : Bool → Backfill → ℕ → Backfill → Backfill
mutate applies next now s = if applies then record next { updated_at = now } else s

abbrev pub lifecycle_eq : Lifecycle → Lifecycle → Bool
lifecycle_eq pending b = elim b [ pending ↦ true | _ ↦ false ]
lifecycle_eq declined b = elim b [ declined ↦ true | _ ↦ false ]
lifecycle_eq running b = elim b [ running ↦ true | _ ↦ false ]
lifecycle_eq completed b = elim b [ completed ↦ true | _ ↦ false ]
lifecycle_eq failed b = elim b [ failed ↦ true | _ ↦ false ]

abbrev pub text_of : Option String → String
text_of none = ""
text_of (some s) = s

abbrev pub accepted_offer : Backfill → PriorOffer
accepted_offer s = record {
  offer_id = s.offer_id;
  org = s.org;
  repository_keys = s.repository_keys;
  tenant_fingerprint = text_of s.tenant_fingerprint;
}

abbrev pub is_present : Option String → Bool
is_present none = false
is_present (some s) = not (str_eq s "")

unfoldable pub prior_offers_of : Backfill → List PriorOffer
prior_offers_of s =
    if not s.upload_authorized || not (is_present s.offer_id)
    then s.prior_offers
    else take max_prior_offers (accepted_offer s ∷ s.prior_offers)

abbrev or_else {ℓ} : {A : Type ℓ} → Option A → Option A → Option A
or_else none b = b
or_else (some a) b = some a

-- `{ ...state, ...details }` on the fields of `details`
abbrev pub spread : Progress → Progress → Progress
spread details p = record {
  processed_transcripts = or_else details.processed_transcripts p.processed_transcripts;
  queued_chunks = or_else details.queued_chunks p.queued_chunks;
  skipped_transcripts = or_else details.skipped_transcripts p.skipped_transcripts;
  worker_pid = or_else details.worker_pid p.worker_pid;
  set_aside_chunks = or_else details.set_aside_chunks p.set_aside_chunks;
  error = or_else details.error p.error;
}

abbrev pub is_running_offer : Option String → Backfill → Bool
is_running_offer offer s = lifecycle_eq s.status running && opt_eq s.offer_id offer

abbrev finish_reason : Bool → String
finish_reason true = "snapshot_queued"
finish_reason false = "snapshot_failed"

unfoldable pub finish_backfill : Option String → Bool → Progress → ℕ → Backfill → Backfill
finish_backfill offer success details now s =
    mutate (is_running_offer offer s)
      (record s {
        status = if success then completed else failed;
        reason = finish_reason success;
        progress = spread details s.progress;
        completed_at = some now;
      })
      now s

abbrev pid_gone : (ℕ → Bool) → Option ℕ → Bool
pid_gone process_exists none = false
pid_gone process_exists (some pid) = ltb 0 pid && not (process_exists pid)

unfoldable pub worker_is_gone : (ℕ → Bool) → Backfill → Bool
worker_is_gone process_exists s = pid_gone process_exists s.progress.worker_pid

abbrev pub worker_error : Bool → String
worker_error gone = if gone then "Backfill worker exited." else "Backfill worker became stale."

-- The answer, and the state after a dead or stale run is recorded as failed.
unfoldable pub is_backfill_running : (ℕ → Bool) → ℕ → Backfill → Bool × Backfill
unfolding worker_is_gone
is_backfill_running process_exists now s =
    let gone = worker_is_gone process_exists s in
    let ended =
      finish_backfill s.offer_id false (record no_progress { error = some (worker_error gone) }) now
        s in
    if not (lifecycle_eq s.status running)
    then (false, s)
    else if not gone && leb now (s.updated_at + running_stale_ms)
    then (true, s)
    else (false, ended)

abbrev pub claimable : Bool → Lifecycle → Bool
claimable manual status =
    lifecycle_eq status pending
    || manual && (lifecycle_eq status failed || lifecycle_eq status declined)

-- `uuid` is the new offer's id; the Boolean is `claimed`.
unfoldable pub claim_backfill_offer :
    (ℕ → Bool) → String → ℕ → String → Bool → Backfill → Bool × Backfill
claim_backfill_offer process_exists uuid now session manual before =
    let s = (is_backfill_running process_exists now before).1 in
    if claimable manual s.status
    then (
      true,
      record s {
        status = declined;
        reason = "offer_consumed";
        prior_offers = prior_offers_of s;
        upload_authorized = false;
        offer_id = some uuid;
        cutoff_at = some now;
        active_session_id = if is_session_id session then session else "";
        manual_trigger = manual;
        updated_at = now;
      },
    )
    else (false, s)

unfoldable pub mark_backfill_declined : String → String → ℕ → Backfill → Backfill
mark_backfill_declined offer reason now s =
    mutate (lifecycle_eq s.status declined && opt_eq s.offer_id (some offer))
      (record s { reason = reason }) now s

unfoldable pub begin_backfill :
    String → String → List String → List String → Option String → ℕ → Backfill → Bool × Backfill
begin_backfill offer org ids keys tenant now s =
    if not (is_present tenant)
    then (false, s)
    else if lifecycle_eq s.status declined
        && str_eq s.reason "offer_consumed"
        && opt_eq s.offer_id (some offer)
    then (
      true,
      record s {
        status = running;
        reason = "snapshotting";
        org = some org;
        repository_ids = distinct [] ids;
        repository_keys = distinct [] keys;
        tenant_fingerprint = tenant;
        upload_authorized = true;
        progress = record no_progress {
          processed_transcripts = some 0;
          queued_chunks = some 0;
          skipped_transcripts = some 0;
        };
        completed_at = none;
        delivered_at = none;
        updated_at = now;
      },
    )
    else (false, s)

abbrev pub includes : String → List String → Bool
includes key keys = any (λ k. str_eq k key) keys

abbrev pub covers : String → String → String → PriorOffer → Bool
covers offer org key prior =
    opt_eq prior.offer_id (some offer)
    && opt_eq prior.org (some org)
    && includes key prior.repository_keys

unfoldable pub is_backfill_upload_authorized : String → String → String → Backfill → Bool
is_backfill_upload_authorized offer org key s =
    not (str_eq offer "")
    && (s.upload_authorized && covers offer org key (accepted_offer s)
        || any (covers offer org key) s.prior_offers)

unfoldable pub is_backfill_offer_accepted : String → Backfill → Bool
is_backfill_offer_accepted offer s =
    not (str_eq offer "")
    && (s.upload_authorized && opt_eq s.offer_id (some offer)
        || any (λ prior. opt_eq prior.offer_id (some offer)) s.prior_offers)

abbrev tenant_in : String → List PriorOffer → String
tenant_in offer [] = ""
tenant_in offer (prior ∷ offers) =
    let rest = tenant_in offer offers in
    if opt_eq prior.offer_id (some offer) then prior.tenant_fingerprint else rest

unfoldable pub backfill_offer_tenant : String → Backfill → String
backfill_offer_tenant offer s =
    if str_eq offer ""
    then ""
    else if s.upload_authorized && opt_eq s.offer_id (some offer)
    then text_of s.tenant_fingerprint
    else tenant_in offer s.prior_offers

unfoldable pub update_backfill_progress : String → Progress → ℕ → Backfill → Backfill
update_backfill_progress offer details now s =
    mutate (is_running_offer (some offer) s) (record s { progress = spread details s.progress }) now
      s

abbrev is_missing : Option ℕ → Bool
is_missing none = true
is_missing (some t) = leb t 0

unfoldable pub mark_backfill_delivered : Option String → Progress → ℕ → Backfill → Bool × Backfill
mark_backfill_delivered offer details now s =
    if (lifecycle_eq s.status completed || lifecycle_eq s.status failed)
      && opt_eq s.offer_id offer
      && is_missing s.delivered_at
    then (
      true,
      record s { progress = spread details s.progress; delivered_at = some now; updated_at = now },
    )
    else (false, s)
