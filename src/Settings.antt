-- ===== src/Settings.antt =====
-- The telemetry settings that a user sees and switches, lib/repository-telemetry.js: a row of the
-- list (`buildRepositoryTelemetryState`), `applyRepositoryToggles` and `applyOnboardingSelection`, on
-- the policy file and the repository queues. Finding repositories on the disk, display names and
-- their sorting are left out: a row's id, its keyed hash, and its display name are given.
pub mod Toggles
pub mod Spent
pub mod Onboarding
mod Tests
use skillmeter_claude_code_m.Prelude.{
  ℕ, suc, ◌+◌, Bool, true, false, not, ◌&&◌, ◌||◌, Option, none, some, List, [], ◌∷◌, ◌++◌, String,
  str_eq, if◌then◌else◌,
}
use skillmeter_claude_code_m.Host.{Host}
use skillmeter_claude_code_m.Jwt.{distinct}
use skillmeter_claude_code_m.Policy.{Mode, Gate, resolve_telemetry_gate}
use skillmeter_claude_code_m.Policy.Store.{
  PolicyFile, Written, done, stale, refused, set_repository_override,
  authorize_organization_repositories, get_global_disabled, get_repository_override,
  get_organization_consent,
}
use skillmeter_claude_code_m.Policy.Keys.{RepoKey}
use skillmeter_claude_code_m.Backfill.{Backfill}
use skillmeter_claude_code_m.Queue.Purge.{RepositoryQueue, purge_repository_queue}

-- A repository as the list shows it; `action` is what selecting it does, `some true` to turn it on.
pub record Row : Type 0 where
  pub id : String
  pub repo_key : String
  pub org : String
  pub effective : Bool
  pub mode : Mode
  pub project_setting : Option Bool
  pub action : Option Bool

pub record ListState : Type 0 where
  pub revision : ℕ
  pub rows : List Row

-- `disable` where the gate captures, `enable` where only the repository's own setting is missing.
abbrev pub may_enable : Mode → Bool
may_enable Mode.project_disabled = true
may_enable Mode.repository_consent_required = true
may_enable _ = false

abbrev pub action_of : Gate → Option Bool
action_of g = if g.capture then some false else if may_enable g.mode then some true else none

module _ ⦃h : Host⦄ where
  -- The gate of a licensed repository under the file's settings.
  unfoldable pub gate_of : Bool → String → String → PolicyFile → Gate
  gate_of signed_in org repo_key file = resolve_telemetry_gate (record {
    global_disabled = get_global_disabled file;
    signed_in = signed_in;
    cwd_available = true;
    repo_org_owned = true;
    org_consent = get_organization_consent org file;
    project_opt_in = get_repository_override repo_key file;
  })

  unfoldable pub row_of : Bool → String → String → String → PolicyFile → Row
  unfolding gate_of
  row_of signed_in id org repo_key file =
      let gate = gate_of signed_in org repo_key file in
      record {
        id = id;
        repo_key = repo_key;
        org = org;
        effective = gate.capture;
        mode = gate.mode;
        project_setting = get_repository_override repo_key file;
        action = action_of gate;
      }

-- `new Map(rows by id).get(id)`: the last row of an id counts.
unfoldable pub row_with : String → List Row → Option Row
row_with id [] = none
row_with id (r ∷ rows) = elim (row_with id rows) [
  | some later ↦ some later
  | none ↦ if str_eq r.id id then some r else none
]

pub data Reason : Type 0 where
  unknown_repository stale_policy write_failed : Reason
  not_actionable : Mode → Reason

-- `{ id, changed: true, effective }` or `{ id, changed: false, reason }`.
pub data ToggleResult : Type 0 where
  changed : String → Bool → ToggleResult
  unchanged : String → Reason → ToggleResult

abbrev pub is_changed : ToggleResult → Bool
is_changed (changed id e) = true
is_changed (unchanged id r) = false

unfoldable pub count_changed : List ToggleResult → ℕ
count_changed [] = 0
count_changed (r ∷ l) = let rest = count_changed l in if is_changed r then suc rest else rest

-- The settings and the queues on the disk.
pub record Disk : Type 0 where
  pub policy : PolicyFile
  pub queues : List RepositoryQueue

pub record Toggled : Type 0 where
  pub revision : ℕ
  pub results : List ToggleResult
  pub disk : Disk

-- What a purge of a repository's queue depends on: the backfill state, the folder of a repository,
-- by a hash of its key, and the key's text.
pub record Purging : Type 0 where
  pub state : Option Backfill
  pub root_of : RepoKey → String
  pub print : RepoKey → String

module _ ⦃h : Host⦄ (purging : Purging) where
  abbrev pub purge : String → List RepositoryQueue → List RepositoryQueue
  purge key queues = purge_repository_queue purging.state purging.root_of purging.print key queues

module _ ⦃h : Host⦄ (purging : Purging) (now : ℕ) where
  abbrev pub purge_unless : Bool → String → List RepositoryQueue → List RepositoryQueue
  purge_unless enabled key queues = if enabled then queues else purge purging key queues

  -- One repository's switch: the result, the next revision, and the disk.
  abbrev saved : String → Bool → String → ℕ → Disk → Written × PolicyFile → Toggled
  saved id enabled key revision d (done p, file) = record {
    revision = revision + 1;
    results = changed id enabled ∷ [];
    disk = record { policy = file; queues = purge_unless enabled key d.queues };
  }
  saved id enabled key revision d (stale p, file) = record {
    revision = revision;
    results = unchanged id stale_policy ∷ [];
    disk = record d { policy = file };
  }
  saved id enabled key revision d (refused, file) = record {
    revision = revision;
    results = unchanged id write_failed ∷ [];
    disk = record d { policy = file };
  }

  abbrev kept : String → Reason → ℕ → Disk → Toggled
  kept id reason revision d = record {
    revision = revision;
    results = unchanged id reason ∷ [];
    disk = d;
  }

  abbrev switch_row : String → Row → Option Bool → ℕ → Disk → Toggled
  switch_row id r none revision d = kept id (not_actionable r.mode) revision d
  switch_row id r (some enabled) revision d =
      saved id enabled r.repo_key revision d
        (set_repository_override r.repo_key enabled (some revision) now d.policy)

  unfoldable pub toggle_one : Option Row → String → ℕ → Disk → Toggled
  toggle_one none id revision d = kept id unknown_repository revision d
  toggle_one (some r) id revision d = switch_row id r r.action revision d

  unfoldable pub toggle_all : List Row → List String → ℕ → Disk → Toggled
  unfolding toggle_one
  toggle_all rows [] revision d = record { revision = revision; results = []; disk = d }
  toggle_all rows (id ∷ ids) revision d =
      let first = toggle_one (row_with id rows) id revision d in
      let rest = toggle_all rows ids first.revision first.disk in
      record rest { results = first.results ++ rest.results }

  unfoldable pub apply_repository_toggles : List String → ListState → Disk → Toggled
  unfolding toggle_all
  apply_repository_toggles ids state d = toggle_all state.rows (distinct [] ids) state.revision d

-- The rows of the ids, or the first id that is no repository of the organization.
pub data Selection : Type 0 where
  outside : String → Selection
  selection : List Row → Selection

abbrev also : Row → Selection → Selection
also r (outside id) = outside id
also r (selection rows) = selection (r ∷ rows)

abbrev select_one : String → String → Option Row → Selection → Selection
select_one org id none rest = outside id
select_one org id (some r) rest = if not (str_eq r.org org) then outside id else also r rest

unfoldable pub selected_rows : String → List Row → List String → Selection
unfolding row_with
selected_rows org rows [] = selection []
selected_rows org rows (id ∷ ids) =
    let rest = selected_rows org rows ids in select_one org id (row_with id rows) rest

unfoldable pub keys_of_rows : List Row → List String
keys_of_rows [] = []
keys_of_rows (r ∷ rows) = r.repo_key ∷ keys_of_rows rows

unfoldable pub all_changed : Bool → List Row → List ToggleResult
all_changed enabled [] = []
all_changed enabled (r ∷ rows) = changed r.id enabled ∷ all_changed enabled rows

unfoldable pub all_unchanged : Reason → List Row → List ToggleResult
all_unchanged reason [] = []
all_unchanged reason (r ∷ rows) = unchanged r.id reason ∷ all_unchanged reason rows

module _ ⦃h : Host⦄ (purging : Purging) (now : ℕ) where
  unfoldable pub purge_rows : List Row → List RepositoryQueue → List RepositoryQueue
  purge_rows [] queues = queues
  purge_rows (r ∷ rows) queues = purge_rows rows (purge purging r.repo_key queues)

  unfoldable pub onboarded : List Row → Bool → ℕ → Disk → Written × PolicyFile → Toggled
  unfolding purge_rows all_changed all_unchanged
  onboarded rows enabled revision d (done p, file) = record {
    revision = revision + 1;
    results = all_changed enabled rows;
    disk = record {
      policy = file;
      queues = if enabled then d.queues else purge_rows rows d.queues;
    };
  }
  onboarded rows enabled revision d (stale p, file) = record {
    revision = revision;
    results = all_unchanged stale_policy rows;
    disk = record d { policy = file };
  }
  onboarded rows enabled revision d (refused, file) = record {
    revision = revision;
    results = all_unchanged write_failed rows;
    disk = record d { policy = file };
  }

  unfoldable pub onboard_selection : String → Selection → Bool → ℕ → Disk → Toggled
  unfolding onboarded keys_of_rows
  onboard_selection org (outside id) enabled revision d = record {
    revision = revision;
    results = unchanged id unknown_repository ∷ [];
    disk = d;
  }
  onboard_selection org (selection rows) enabled revision d = onboarded rows enabled revision d (
      authorize_organization_repositories org (keys_of_rows rows) enabled (some revision) now
        d.policy)

  unfoldable pub apply_onboarding_selection :
      String → List String → Bool → ListState → Disk → Toggled
  unfolding onboard_selection selected_rows
  apply_onboarding_selection org ids enabled state d =
      onboard_selection org (selected_rows org state.rows (distinct [] ids)) enabled state.revision
        d
