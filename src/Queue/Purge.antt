-- ===== src/Queue/Purge.antt =====
-- Emptying repository queues: `clearRepositoryPayloads` and the purges of lib/repository-queue.js. A
-- queue is its folder: the event logs (active, sealed and sent), and the entries of the chunk
-- folder. `context` is what the folder's repository.json says, `none` if that is no repository.
-- Removing a file is taken to succeed; `root_of` is the folder of a repository, by a hash of its key.
pub mod Kept
pub mod Left
use skillmeter_claude_code_m.Prelude.{
  ℕ, zero, suc, ◌+◌, Bool, true, false, not, ◌&&◌, ◌||◌, any, Option, none, some, List, [], ◌∷◌,
  String, str_eq, eq_iff, if◌then◌else◌, if_intro, if_given, ◌≡◌, ◌≢◌, ◌↔◌, ◌⊎◌, inl, inr, refl,
  sym, ap, ◌∙◌, arith, Bool-cases,
}
use skillmeter_claude_code_m.Host.{Host}
use skillmeter_claude_code_m.Policy.Keys.{RepoKey, normalize_repo_key, normalize_org, key_eq}
use skillmeter_claude_code_m.Policy.Store.{PolicyFile}
use skillmeter_claude_code_m.Backfill.{Backfill, is_backfill_upload_authorized}
use skillmeter_claude_code_m.Queue.{
  Disposition, send, pause, delete, QueueContext, ChunkMeta, queue_disposition,
}

-- An entry of the chunk folder: a sidecar `<stem>.meta.json` with what it says, if it can be read, a
-- body `<stem>.jsonl`, or any other file, such as one that was set aside.
pub data ChunkEntry : Type 0 where
  sidecar_file : String → Option ChunkMeta → ChunkEntry
  body_file other_file : String → ChunkEntry

pub record RepositoryQueue : Type 0 where
  pub root : String
  pub context : Option QueueContext
  pub events : List String
  pub chunks : List ChunkEntry

abbrev is_body_of : String → ChunkEntry → Bool
is_body_of stem (sidecar_file s m) = false
is_body_of stem (body_file s) = str_eq s stem
is_body_of stem (other_file s) = false

abbrev is_nothing : List String → Bool
is_nothing [] = true
is_nothing (s ∷ l) = false

module _ (state : Option Backfill) where
  abbrev authorizes : Option Backfill → ChunkMeta → QueueContext → Bool
  authorizes none m c = false
  authorizes (some s) m c = is_backfill_upload_authorized m.backfill_offer_id c.org c.repo_key s

  abbrev is_accepted : QueueContext → Option ChunkMeta → Bool
  is_accepted c none = false
  is_accepted c (some m) = m.is_backfill && authorizes state m c

  -- A sidecar that preserves the files of its stem.
  unfoldable pub preserves : QueueContext → List ChunkEntry → String → ChunkEntry → Bool
  preserves c folder stem (sidecar_file s m) =
      str_eq s stem && any (is_body_of s) folder && is_accepted c m
  preserves c folder stem (body_file s) = false
  preserves c folder stem (other_file s) = false

  unfoldable pub is_preserved : QueueContext → List ChunkEntry → ChunkEntry → Bool
  unfolding preserves
  is_preserved c folder (sidecar_file s m) = any (preserves c folder s) folder
  is_preserved c folder (body_file s) = any (preserves c folder s) folder
  is_preserved c folder (other_file s) = false

  unfoldable pub kept_entries : QueueContext → List ChunkEntry → List ChunkEntry → List ChunkEntry
  unfolding is_preserved
  kept_entries c folder [] = []
  kept_entries c folder (e ∷ l) =
      let rest = kept_entries c folder l in if is_preserved c folder e then e ∷ rest else rest

  -- Whether anything was removed, and what is left.
  unfoldable pub clear_repository_payloads : QueueContext → RepositoryQueue → Bool × RepositoryQueue
  unfolding kept_entries
  clear_repository_payloads c q = (
    not (is_nothing q.events) || any (λ e. not (is_preserved c q.chunks e)) q.chunks,
    record q { events = []; chunks = kept_entries c q.chunks q.chunks },
  )

  abbrev pub cleared : Option QueueContext → RepositoryQueue → Bool × RepositoryQueue
  cleared none q = (false, q)
  cleared (some c) q = clear_repository_payloads c q

  -- The queues, and how many of them lost a file, after clearing those that `choose` names.
  unfoldable pub purge_where :
      (RepositoryQueue → Option QueueContext) → List RepositoryQueue → ℕ × List RepositoryQueue
  unfolding clear_repository_payloads
  purge_where choose [] = (0, [])
  purge_where choose (q ∷ queues) =
      let now = cleared (choose q) q in
      let rest = purge_where choose queues in
      ((if now.0 then suc rest.0 else rest.0), now.1 ∷ rest.1)

  abbrev pub chosen_if : (QueueContext → Bool) → RepositoryQueue → Option QueueContext
  chosen_if test q = elim q.context [ none ↦ none | some c ↦ if test c then some c else none ]

  abbrev pub is_delete : Disposition → Bool
  is_delete send = false
  is_delete pause = false
  is_delete delete = true

  unfoldable pub purge_all_repository_queues : List RepositoryQueue → ℕ × List RepositoryQueue
  unfolding purge_where
  purge_all_repository_queues queues = purge_where (chosen_if (λ c. true)) queues

  unfoldable pub purge_disallowed_queues :
      PolicyFile → List RepositoryQueue → ℕ × List RepositoryQueue
  unfolding purge_where
  purge_disallowed_queues file queues =
      purge_where (chosen_if (λ c. is_delete (queue_disposition file c))) queues

  module _ ⦃h : Host⦄ where
    unfoldable pub purge_organization_queues :
        String → List RepositoryQueue → ℕ × List RepositoryQueue
    unfolding purge_where
    purge_organization_queues org queues =
        purge_where (chosen_if (λ c. str_eq c.org (normalize_org org))) queues

    module _ (root_of : RepoKey → String) (print : RepoKey → String) where
      -- The folder of the key itself, with the owner as the organization.
      abbrev pub own_folder : RepoKey → RepositoryQueue → Option QueueContext
      own_folder k q =
          if str_eq q.root (root_of k)
          then some (record { org = k.owner; key = k; repo_key = print k })
          else none

      unfoldable pub purge_repository_queue : String → List RepositoryQueue → List RepositoryQueue
      unfolding purge_where
      purge_repository_queue repo_key queues = elim (normalize_repo_key repo_key) [
        | none ↦ queues
        | some k ↦
            (purge_where (chosen_if (λ c. key_eq c.key k)) (purge_where (own_folder k) queues).1).1
      ]
