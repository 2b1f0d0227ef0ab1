-- ===== src/Settings/Spent.antt =====
-- The queues of repositories that were switched off.
use mathlib.Core.Path.{subst}
use skillmeter_claude_code_m.Prelude.{
  sym, ℕ, Bool, Bool-cases, true, false, Option, none, some, List, [], ◌∷◌, All, String, str_eq,
  if◌then◌else◌, ◌≡◌, ◌≢◌, ◌⊎◌, refl, ap, ◌∙◌, inl, inr, arith, eq_iff,
}
use skillmeter_claude_code_m.Host.{Host}
use skillmeter_claude_code_m.Policy.Keys.{RepoKey, normalize_repo_key, key_eq}
use skillmeter_claude_code_m.Prelude.Assoc.{string_eq}
use skillmeter_claude_code_m.Backfill.{Backfill}
use skillmeter_claude_code_m.Queue.{QueueContext}
use skillmeter_claude_code_m.Queue.Purge.{
  RepositoryQueue, clear_repository_payloads, cleared, purge_where, own_folder, chosen_if,
  purge_repository_queue,
}
use skillmeter_claude_code_m.Queue.Purge.Left.{IsSpent, cleared-IsSpent, IsSpent-cleared}
use skillmeter_claude_code_m.Settings.{Row, Purging, purge, purge_rows}

module _ (state : Option Backfill) (root : String) (c : QueueContext) where
  -- The queue in the folder `root` is spent for the repository of `c`.
  abbrev pub SpentAt : RepositoryQueue → Type 0
  SpentAt q = (q.root ≢ root) ⊎ IsSpent state c q

  cleared-SpentAt :
      (d : Option QueueContext) (q : RepositoryQueue) → SpentAt q → SpentAt (cleared state d q).1
  unfolding clear_repository_payloads
  cleared-SpentAt none q h = h
  cleared-SpentAt (some d) q (inl other) = inl other
  cleared-SpentAt (some d) q (inr spent) = inr (IsSpent-cleared state c d q spent)

  purge_where-SpentAt :
      (choose : RepositoryQueue → Option QueueContext) (queues : List RepositoryQueue)
      → All SpentAt queues
      → All SpentAt (purge_where state choose queues).1
  unfolding purge_where
  purge_where-SpentAt choose [] h = tt
  purge_where-SpentAt choose (q ∷ queues) (first, others) =
      (cleared-SpentAt (choose q) q first, purge_where-SpentAt choose queues others)

module _ (purging : Purging) where
  -- The repository of a key, as a purge of its folder reads it.
  abbrev itself : RepoKey → QueueContext
  itself k = record { org = k.owner; key = k; repo_key = purging.print k }

  abbrev pub SpentFor : RepoKey → RepositoryQueue → Type 0
  SpentFor k = SpentAt purging.state (purging.root_of k) (itself k)

  own_folder-SpentFor :
      ⦃h : Host⦄ (k : RepoKey) (queues : List RepositoryQueue)
      → All
          (SpentFor k)
          (purge_where purging.state
            (own_folder purging.state purging.root_of purging.print k)
            queues).1
  unfolding purge_where
  own_folder-SpentFor k [] = tt
  own_folder-SpentFor k (q ∷ queues) = (own, own_folder-SpentFor k queues)
    where
      own :
          SpentFor k
            (cleared purging.state (own_folder purging.state purging.root_of purging.print k q) q).1
      own = elim (Bool-cases (str_eq q.root (purging.root_of k))) [
        | inl same ↦ rw (same) (inr (cleared-IsSpent purging.state (itself k) q))
        | inr other ↦
            rw (other) (inl (λ e. ground (arith, other, eq_iff q.root (purging.root_of k), e)))
      ]

module _ ⦃h : Host⦄ (purging : Purging) where
  -- The queue of a row's repository is spent.
  abbrev pub IsEmptied : List RepositoryQueue → Row → Type 0
  IsEmptied queues r =
      (k : RepoKey) → normalize_repo_key r.repo_key ≡ some k → All (SpentFor purging k) queues

  -- A purge by the repository that its key names, if it names one.
  abbrev purged : List RepositoryQueue → Option RepoKey → List RepositoryQueue
  purged queues none = queues
  purged queues (some k) =
      (purge_where purging.state (chosen_if purging.state (λ c. key_eq c.key k))
        (purge_where purging.state (own_folder purging.state purging.root_of purging.print k)
          queues).1).1

  purge-purged :
      (key : String) (queues : List RepositoryQueue)
      → purge purging key queues ≡ purged queues (normalize_repo_key key)
  unfolding purge_repository_queue
  purge-purged key queues =
      elim (normalize_repo_key key)
        as (λ o.
          (elim o [
            | none ↦ queues
            | some k ↦
                (purge_where purging.state (chosen_if purging.state (λ c. key_eq c.key k))
                  (purge_where purging.state
                    (own_folder purging.state purging.root_of purging.print k) queues).1).1
          ])
          ≡ purged queues o) [ none ↦ refl | some k ↦ refl ]

  -- A purge spends the queue of its repository, and leaves spent what is.
  purge-IsEmptied :
      (key : String) (queues : List RepositoryQueue) (k : RepoKey)
      → normalize_repo_key key ≡ some k
      → All (SpentFor purging k) (purge purging key queues)
  purge-IsEmptied key queues k e =
      subst (All (SpentFor purging k)) (sym (purge-purged key queues ∙ ap (purged queues) e)) (
        purge_where-SpentAt purging.state (purging.root_of k) (itself purging k) _ _
          (own_folder-SpentFor purging k queues))

  purged-SpentFor :
      (l : RepoKey) (queues : List RepositoryQueue) (k : Option RepoKey)
      → All (SpentFor purging l) queues
      → All (SpentFor purging l) (purged queues k)
  purged-SpentFor l queues none h = h
  purged-SpentFor l queues (some k) h =
      purge_where-SpentAt purging.state (purging.root_of l) (itself purging l) _ _
        (purge_where-SpentAt purging.state (purging.root_of l) (itself purging l) _ queues h)

  purge-SpentFor :
      (l : RepoKey) (key : String) (queues : List RepositoryQueue)
      → All (SpentFor purging l) queues
      → All (SpentFor purging l) (purge purging key queues)
  purge-SpentFor l key queues h =
      subst (All (SpentFor purging l)) (sym (purge-purged key queues))
        (purged-SpentFor l queues (normalize_repo_key key) h)

module _ ⦃h : Host⦄ (purging : Purging) (now : ℕ) where
  purge_rows-SpentFor :
      (l : RepoKey) (rows : List Row) (queues : List RepositoryQueue)
      → All (SpentFor purging l) queues
      → All (SpentFor purging l) (purge_rows purging now rows queues)
  unfolding purge_rows
  purge_rows-SpentFor l [] queues h = h
  purge_rows-SpentFor l (r ∷ rows) queues h =
      purge_rows-SpentFor l rows _ (purge-SpentFor purging l r.repo_key queues h)

  purge_rows-IsEmptied :
      (rows : List Row) (queues : List RepositoryQueue)
      → All (IsEmptied purging (purge_rows purging now rows queues)) rows
  unfolding purge_rows
  purge_rows-IsEmptied [] queues = tt
  purge_rows-IsEmptied (r ∷ rows) queues = (
    λ k e. purge_rows-SpentFor k rows _ (purge-IsEmptied purging r.repo_key queues k e),
    purge_rows-IsEmptied rows _,
  )

  pub queues_on :
      (rows : List Row) (enabled : Bool) (queues : List RepositoryQueue)
      → (enabled ≡ false)
        ⊎ ((if enabled then queues else purge_rows purging now rows queues) ≡ queues)
  queues_on rows true queues = inr refl
  queues_on rows false queues = inl refl

  pub queues_off :
      (rows : List Row) (enabled : Bool) (queues : List RepositoryQueue)
      → (enabled ≡ true)
        ⊎ All
            (IsEmptied purging (if enabled then queues else purge_rows purging now rows queues))
            rows
  queues_off rows true queues = inl refl
  queues_off rows false queues = inr (purge_rows-IsEmptied rows queues)
