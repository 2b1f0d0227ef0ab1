-- ===== src/Queue.antt =====
-- What the drains may send, in clients/claude-code/skillmeter/scripts/lib: the dispositions of
-- repository-queue.js, organization-audit-queue.js and transfer.js, and the order of a transcript's
-- chunks in transfer.js. The tenant's fingerprint is a hash that the caller computes, "" for none.
pub mod Consent
pub mod Grouping
pub mod Order
pub mod Purge
mod Tests
use skillmeter_claude_code_m.Prelude.{
  ℕ, Bool, true, false, not, ◌&&◌, ◌||◌, Option, none, some, List, [], ◌∷◌, ◌++◌, String, str_eq,
  ltb, ◌==◌, any, if◌then◌else◌,
}
use skillmeter_claude_code_m.Prelude.Assoc.{lookup, string_eq}
use skillmeter_claude_code_m.Host.{Host}
use skillmeter_claude_code_m.Policy.Keys.{RepoKey, repo_key_eq}
use skillmeter_claude_code_m.Policy.Store.{PolicyFile, Setting, read_policy, get_global_disabled}
use skillmeter_claude_code_m.Session.{
  Account, enabled_is_true, is_false, is_telemetry_transmission_allowed, get_allowed_github_orgs,
  includes,
}
use skillmeter_claude_code_m.Backfill.{
  Backfill, is_backfill_upload_authorized, backfill_offer_tenant,
}
use skillmeter_claude_code_m.Retry.{Meta, is_chunk_eligible}

pub data Disposition : Type 0 where
  send pause delete : Disposition

-- A repository queue: its organization, and its key as an index of the policy and as a text.
pub record QueueContext : Type 0 where
  pub org : String
  pub key : RepoKey
  pub repo_key : String

unfoldable pub queue_disposition : PolicyFile → QueueContext → Disposition
queue_disposition file c =
    let policy = (read_policy file).0 in
    if is_false policy.global.enabled
    then pause
    else if not (enabled_is_true (lookup c.org policy.organizations))
    then delete
    else if not (enabled_is_true (lookup c.key policy.repositories))
    then delete
    else send

-- What tells a chunk of the historical import from one of a session.
pub record ChunkMeta : Type 0 where
  pub is_backfill : Bool
  pub backfill_offer_id : String
  pub transcript_id : String
  pub seq : ℕ
  pub retry : Meta

abbrev pub imported : ChunkMeta → Bool
imported m = m.is_backfill && not (str_eq m.backfill_offer_id "")

abbrev state_authorizes : Option Backfill → String → String → String → Bool
state_authorizes none offer org key = false
state_authorizes (some s) offer org key = is_backfill_upload_authorized offer org key s

abbrev tenant_of : Option Backfill → String → String
tenant_of none offer = ""
tenant_of (some s) offer = backfill_offer_tenant offer s

unfoldable pub is_backfill_chunk_authorized : Option Backfill → ChunkMeta → QueueContext → Bool
is_backfill_chunk_authorized state m c =
    imported m && state_authorizes state m.backfill_offer_id c.org c.repo_key

unfoldable pub backfill_tenant_matches : Option Backfill → ChunkMeta → String → Bool
backfill_tenant_matches state m fingerprint =
    let expected = tenant_of state m.backfill_offer_id in
    not (str_eq expected "") && str_eq fingerprint expected

unfoldable pub chunk_disposition :
    PolicyFile → Option Backfill → String → ChunkMeta → QueueContext → Disposition
unfolding queue_disposition is_backfill_chunk_authorized
chunk_disposition file state current m c =
    if get_global_disabled file
    then pause
    else if imported m
    then (if not (is_backfill_chunk_authorized state m c)
        then delete
        else if not (str_eq current "")
            && not (str_eq current (tenant_of state m.backfill_offer_id))
        then delete
        else send)
    else queue_disposition file c

module _ ⦃h : Host⦄ where
  unfoldable pub chunk_transmission_allowed :
      PolicyFile → Option Backfill → Account → ChunkMeta → QueueContext → Bool
  unfolding is_backfill_chunk_authorized
  chunk_transmission_allowed file state a m c =
      if get_global_disabled file
      then false
      else if imported m
      then is_backfill_chunk_authorized state m c && includes c.org (get_allowed_github_orgs a)
      else is_telemetry_transmission_allowed c.repo_key file a

  -- The queue's tenant, `none` for no queue.
  unfoldable pub organization_audit_disposition :
      PolicyFile → Account → String → Option String → Disposition
  organization_audit_disposition file a current none = delete
  organization_audit_disposition file a current (some tenant) =
      if get_global_disabled file
      then pause
      else if str_eq current "" || not (str_eq current tenant)
      then delete
      else if is_telemetry_transmission_allowed "" file a
      then send
      else delete

-- A chunk file with its sidecar; `key` is `transcriptChunkKey`.
pub record Entry : Type 0 where
  pub file : String
  pub key : String
  pub meta : ChunkMeta

-- Groups by key, in the order of first appearance.
abbrev pub add_entry : Entry → List (String × List Entry) → List (String × List Entry)
add_entry e [] = (e.key, e ∷ []) ∷ []
add_entry e ((k, g) ∷ groups) =
    let rest = add_entry e groups in
    if str_eq k e.key then (k, g ++ e ∷ []) ∷ groups else (k, g) ∷ rest

unfoldable pub group_entries : List Entry → List (String × List Entry) → List (String × List Entry)
group_entries [] groups = groups
group_entries (e ∷ entries) groups = group_entries entries (add_entry e groups)

-- Up to the first entry that waits out its backoff.
unfoldable pub eligible_prefix : ℕ → List Entry → List Entry
eligible_prefix now [] = []
eligible_prefix now (e ∷ l) =
    let rest = eligible_prefix now l in
    if is_chunk_eligible (some e.meta.retry) now then e ∷ rest else []

-- `localeCompare` is a parameter: whether one file name comes after another.
module _ (after : String → String → Bool) where
  -- Whether the comparator puts `a` after `b`.
  abbrev pub comes_after : Entry → Entry → Bool
  comes_after a b = ltb b.meta.seq a.meta.seq || (a.meta.seq == b.meta.seq && after a.file b.file)

  -- `group.sort(...)`, which is stable.
  unfoldable pub insert_entry : Entry → List Entry → List Entry
  insert_entry e [] = e ∷ []
  insert_entry e (x ∷ l) =
      let rest = insert_entry e l in if comes_after e x then x ∷ rest else e ∷ x ∷ l

  unfoldable pub sort_entries : List Entry → List Entry
  unfolding insert_entry
  sort_entries [] = []
  sort_entries (e ∷ l) = insert_entry e (sort_entries l)

  unfoldable pub eligible_of_groups : ℕ → List (String × List Entry) → List Entry
  unfolding sort_entries eligible_prefix
  eligible_of_groups now [] = []
  eligible_of_groups now ((k, g) ∷ groups) =
      eligible_prefix now (sort_entries g) ++ eligible_of_groups now groups

  unfoldable pub eligible_chunks_in_order : List Entry → ℕ → List Entry
  unfolding group_entries eligible_of_groups
  eligible_chunks_in_order entries now = eligible_of_groups now (group_entries entries [])

-- `uploadInTranscriptOrder` on one transcript: `none` is a chunk held back, and a failed upload
-- (an answer that is not ok, or an exception) is `some false`.
unfoldable pub upload_group : (Entry → Bool) → Bool → List Entry → List (Option Bool)
upload_group upload held [] = []
upload_group upload held (e ∷ l) =
    let skipped = none ∷ upload_group upload held l in
    let sent = some (upload e) ∷ upload_group upload (not (upload e)) l in
    if held then skipped else sent
