-- ===== src/Settings/Tests.antt =====
-- Switches at concrete settings.
use skillmeter_claude_code_m.Prelude.{none, ◌≡◌, refl, true, false, some, [], ◌∷◌, String}
use skillmeter_claude_code_m.Prelude.Assoc.{lookup, insert}
use skillmeter_claude_code_m.Jwt.{distinct}
use skillmeter_claude_code_m.Policy.{resolve_telemetry_gate}
use skillmeter_claude_code_m.Policy.Keys.{normalize_repo_key, normalize_org}
use skillmeter_claude_code_m.Policy.Store.{
  get_global_disabled, get_repository_override, get_organization_consent, read_policy,
  normalize_policy, set_repository_override, mutate_policy,
}
use skillmeter_claude_code_m.Backfill.{Backfill, new_state, running, is_backfill_upload_authorized}
use skillmeter_claude_code_m.Retry.{no_meta}
use skillmeter_claude_code_m.Queue.{ChunkMeta}
use skillmeter_claude_code_m.Queue.Purge.{
  RepositoryQueue, sidecar_file, body_file, other_file, purge_repository_queue, purge_where,
  clear_repository_payloads, kept_entries, is_preserved, preserves,
}
use skillmeter_claude_code_m.Settings.{
  Row, ListState, gate_of, row_of, row_with, Reason, changed, unchanged, Disk, Purging, purge,
  toggle_one, toggle_all, apply_repository_toggles,
}
use skillmeter_claude_code_m.Examples.{plain_host, tool, policy_file}

abbrev of_session : ChunkMeta
of_session = record {
  is_backfill = false;
  backfill_offer_id = "";
  transcript_id = "t1";
  seq = 1;
  retry = no_meta;
}

-- An import that was accepted for the repository.
abbrev importing : Backfill
importing = record (new_state "l1" 5 running "snapshotting") {
  offer_id = some "o1";
  org = some "acme";
  repository_keys = "github.com/acme/tool" ∷ [];
  tenant_fingerprint = some "t1";
  upload_authorized = true;
}

abbrev purging : Purging
purging = record {
  state = some importing;
  root_of = λ k. k.name;
  print = λ k. "github.com/acme/tool";
}

-- The queue of the repository, with an event log, a chunk of the session, one of the import, and a
-- file that was set aside.
abbrev queue : RepositoryQueue
queue = record {
  root = "tool";
  context = none;
  events = "events.jsonl" ∷ [];
  chunks =
      sidecar_file "c1" (some of_session)
      ∷ body_file "c1"
      ∷ sidecar_file "c2"
          (some (record of_session { is_backfill = true; backfill_offer_id = "o1" }))
      ∷ body_file "c2"
      ∷ other_file "c0.jsonl.quarantined"
      ∷ [];
}

abbrev key : String
key = "github.com/acme/tool"

abbrev disk : Disk
disk = record { policy = policy_file; queues = queue ∷ [] }

abbrev listed : Row
listed = row_of true "r1" "acme" key policy_file

abbrev list : ListState
list = record { revision = 3; rows = listed ∷ [] }

-- The repository is on, so the list offers to turn it off.
offered : listed.action ≡ some false
unfolding row_of gate_of resolve_telemetry_gate get_global_disabled get_organization_consent
    get_repository_override read_policy normalize_policy normalize_repo_key normalize_org lookup
offered = refl

canonical : normalize_repo_key key ≡ some tool
unfolding normalize_repo_key
canonical = refl

-- A repository that is named twice is switched once, and one that is not listed not at all.
switches :
    (apply_repository_toggles purging 9 ("r1" ∷ "r1" ∷ "r2" ∷ []) list disk).results
    ≡ changed "r1" false ∷ unchanged "r2" Reason.unknown_repository ∷ []
unfolding apply_repository_toggles toggle_all toggle_one row_with distinct row_of gate_of
    resolve_telemetry_gate get_global_disabled get_organization_consent get_repository_override
    read_policy normalize_policy normalize_repo_key normalize_org lookup insert
    set_repository_override mutate_policy
switches = refl

-- A purge of the queue leaves the chunk of the import alone.
left_over :
    purge purging key (queue ∷ [])
    ≡ record queue {
      events = [];
      chunks =
          sidecar_file "c2"
            (some (record of_session { is_backfill = true; backfill_offer_id = "o1" }))
          ∷ body_file "c2"
          ∷ [];
    }
      ∷ []
unfolding purge_repository_queue purge_where clear_repository_payloads kept_entries is_preserved
    preserves is_backfill_upload_authorized normalize_repo_key
left_over = refl
