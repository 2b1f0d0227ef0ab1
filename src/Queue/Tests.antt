-- ===== src/Queue/Tests.antt =====
-- Dispositions and drains at concrete inputs.
use skillmeter_claude_code_m.Prelude.{
  ℕ, ◌≡◌, inl, inr, refl, Bool, true, false, none, some, List, [], ◌∷◌, String, str_eq, arith,
}
use skillmeter_claude_code_m.Retry.{no_meta, is_chunk_eligible}
use skillmeter_claude_code_m.Jwt.{get_license_orgs}
use skillmeter_claude_code_m.Policy.Keys.{normalize_repo_key, normalize_org}
use skillmeter_claude_code_m.Policy.Store.{get_global_disabled, read_policy, normalize_policy}
use skillmeter_claude_code_m.Prelude.Assoc.{lookup}
use skillmeter_claude_code_m.Session.{is_telemetry_transmission_allowed}
use skillmeter_claude_code_m.Backfill.{Backfill, running, new_state, is_backfill_upload_authorized}
use skillmeter_claude_code_m.Queue.{
  QueueContext, ChunkMeta, Entry, chunk_transmission_allowed, eligible_chunks_in_order,
  group_entries, sort_entries, insert_entry, eligible_prefix, eligible_of_groups,
}
use skillmeter_claude_code_m.Queue.Purge.{
  sidecar_file, body_file, other_file, RepositoryQueue, clear_repository_payloads, kept_entries,
  is_preserved, preserves,
}
use skillmeter_claude_code_m.Queue.Purge.Kept.{In as In_folder, clear_keeps_accepted}
use skillmeter_claude_code_m.Queue.Grouping.{In}
use skillmeter_claude_code_m.Queue.Order.{eligible_chunks_in_order-IsClosed}
use skillmeter_claude_code_m.Examples.{plain_host, tool, policy_file, signed_in_account}

abbrev context : QueueContext
context = record { org = "acme"; key = tool; repo_key = "github.com/acme/tool" }

abbrev of_session : ChunkMeta
of_session = record {
  is_backfill = false;
  backfill_offer_id = "";
  transcript_id = "t1";
  seq = 1;
  retry = no_meta;
}

abbrev of_import : ChunkMeta
of_import = record of_session { is_backfill = true; backfill_offer_id = "o1" }

tool_key : normalize_repo_key "github.com/acme/tool" ≡ some tool
unfolding normalize_repo_key
tool_key = refl

may_transmit :
    chunk_transmission_allowed policy_file none signed_in_account of_session context ≡ true
unfolding chunk_transmission_allowed is_telemetry_transmission_allowed get_global_disabled
    read_policy normalize_policy normalize_repo_key get_license_orgs normalize_org lookup
may_transmit = refl

abbrev importing : Backfill
importing = record (new_state "l1" 5 running "snapshotting") {
  offer_id = some "o1";
  org = some "acme";
  repository_keys = "github.com/acme/tool" ∷ [];
  tenant_fingerprint = some "t1";
  upload_authorized = true;
}

abbrev entry : String → ℕ → Entry
entry file n = record { file = file; key = "t1"; meta = record of_session { seq = n } }

abbrev queued : List Entry
queued = entry "b" 2 ∷ record (entry "x" 1) { key = "t2" } ∷ entry "a" 1 ∷ []

abbrev later : String → String → Bool
later a b = false

second_is_eligible : In (entry "b" 2) (eligible_chunks_in_order later queued 50)
unfolding eligible_chunks_in_order group_entries eligible_of_groups sort_entries insert_entry
    eligible_prefix is_chunk_eligible
second_is_eligible = inr (inl refl)

eligible_chunks_in_order-IsClosed_example :
    In (entry "a" 1) (eligible_chunks_in_order later queued 50)
eligible_chunks_in_order-IsClosed_example =
    eligible_chunks_in_order-IsClosed later queued 50 (entry "b" 2) (entry "a" 1) second_is_eligible
      (inr (inr (inl refl))) refl (omega arith)

abbrev only_first : Entry → Bool
only_first e = str_eq e.file "a"

abbrev folder : RepositoryQueue
folder = record {
  root = "q1";
  context = some context;
  events = "events.jsonl" ∷ [];
  chunks =
      sidecar_file "a" (some of_import)
      ∷ body_file "a"
      ∷ sidecar_file "b" (some of_session)
      ∷ body_file "b"
      ∷ other_file "c.jsonl.quarantined"
      ∷ [];
}

clear_keeps_accepted_example :
    In_folder
      (sidecar_file "a" (some of_import))
      (clear_repository_payloads (some importing) context folder).1.chunks
    × In_folder (body_file "a") (clear_repository_payloads (some importing) context folder).1.chunks
    × ((clear_repository_payloads (some importing) context folder).1.events ≡ [])
unfolding is_backfill_upload_authorized
clear_keeps_accepted_example =
    clear_keeps_accepted (some importing) context folder "a" of_import (inl refl) (inr (inl refl))
      refl

purged_import :
    (clear_repository_payloads (some importing) context folder).1.chunks
    ≡ sidecar_file "a" (some of_import) ∷ body_file "a" ∷ []
unfolding clear_repository_payloads kept_entries is_preserved preserves
    is_backfill_upload_authorized
purged_import = refl
