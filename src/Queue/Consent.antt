-- ===== src/Queue/Consent.antt =====
-- What a disposition to send, and a permission to transmit, imply.
use skillmeter_claude_code_m.Prelude.{
  ◌≡◌, ◌↔◌, true, false, ◌||◌, Option, some, String, arith, str_eq,
}
use skillmeter_claude_code_m.Prelude.Assoc.{string_eq}
use skillmeter_claude_code_m.Host.{Host}
use skillmeter_claude_code_m.Policy.Keys.{repo_key_eq, normalize_repo_key}
use skillmeter_claude_code_m.Policy.Store.{PolicyFile, get_global_disabled}
use skillmeter_claude_code_m.Session.{Account, is_telemetry_transmission_allowed}
use skillmeter_claude_code_m.Backfill.{
  Backfill, is_backfill_upload_authorized, backfill_offer_tenant,
}
use skillmeter_claude_code_m.Queue.{
  send, pause, QueueContext, ChunkMeta, imported, queue_disposition, is_backfill_chunk_authorized,
  chunk_disposition, chunk_transmission_allowed, backfill_tenant_matches,
}

-- A repository's chunk that may be transmitted lies in a queue that is to be sent, when the queue
-- is filed under its repository's own key and owner.
transmitted_is_sent :
    ⦃h : Host⦄ (file : PolicyFile) (a : Account) (c : QueueContext)
    → normalize_repo_key c.repo_key ≡ some c.key
    → c.org ≡ c.key.owner
    → str_eq c.repo_key "" ≡ false
    → is_telemetry_transmission_allowed c.repo_key file a ≡ true
    → queue_disposition file c ≡ send
unfolding is_telemetry_transmission_allowed queue_disposition
transmitted_is_sent file a c key owner named allowed =
    let opened = rw (named, key, is_telemetry_transmission_allowed) at allowed in
    rw owner (ground (arith, opened))

-- Whatever may be transmitted belongs to a queue that is to be sent, so the check right before the
-- upload permits nothing that the check of the queue would delete or hold: for a chunk of a
-- session, in a queue that is filed under its repository's canonical key and owner, and for a chunk
-- of the historical import, while the client is signed out or signed in to the tenant that the user
-- consented under.
pub transmission_implies_send :
    ⦃h : Host⦄ (file : PolicyFile) (state : Option Backfill) (a : Account) (current : String)
    (m : ChunkMeta) (c : QueueContext)
    → normalize_repo_key c.repo_key ≡ some c.key
    → c.org ≡ c.key.owner
    → str_eq c.repo_key "" ≡ false
    → (imported m ≡ true → (str_eq current "" || backfill_tenant_matches state m current) ≡ true)
    → chunk_transmission_allowed file state a m c ≡ true
    → chunk_disposition file state current m c ≡ send
unfolding chunk_transmission_allowed chunk_disposition backfill_tenant_matches
transmission_implies_send file state a current m c key owner named tenant allowed =
    let ordinary = transmitted_is_sent file a c key owner named in
    ground (arith, allowed, tenant, ordinary)

-- A chunk of the historical import is to be sent only while its state authorizes it for its
-- repository, and never while the client is signed in to another tenant than the one that the user
-- consented under; the global switch pauses it and nothing else does.
pub imported-chunk_disposition :
    (file : PolicyFile) (s : Backfill) (current : String) (m : ChunkMeta) (c : QueueContext)
    → imported m ≡ true
    → ((chunk_disposition file (some s) current m c ≡ send) ↔ (
        (get_global_disabled file ≡ false)
        × (is_backfill_upload_authorized m.backfill_offer_id c.org c.repo_key s ≡ true)
        × (str_eq current "" || str_eq current (backfill_offer_tenant m.backfill_offer_id s)
            ≡ true)))
      × ((chunk_disposition file (some s) current m c ≡ pause) ↔ (get_global_disabled file ≡ true))
unfolding chunk_disposition is_backfill_chunk_authorized
imported-chunk_disposition file s current m c import =
    (ground (arith, import), ground (arith, import))
