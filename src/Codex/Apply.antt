-- ===== src/Codex/Apply.antt =====
-- The commands' writes, consent-apply.js: each checks the choice against the license, the scope, the
-- local settings and the revision that the user saw, and then hands it to the store. `first` is what
-- comes of the marker in the reading before the store's own.
pub mod Effect
use skillmeter_claude_code_m.Prelude.{
  ℕ, Bool, true, false, not, ◌&&◌, ◌||◌, any, all, Option, none, some, List, [], ◌∷◌, String,
  str_eq, if◌then◌else◌,
}
use skillmeter_claude_code_m.Prelude.Assoc.{lookup, insert, string_eq}
use skillmeter_claude_code_m.Host.{Host}
use skillmeter_claude_code_m.Jwt.{distinct}
use skillmeter_claude_code_m.Codex.Record.{ConsentRecord}
use skillmeter_claude_code_m.Codex.Store.{
  Disk, Marking, Run, Read, nothing, loaded, Expected, is_usable, is_expected, Saved, ConsentError,
  refused, stale_policy, expected_revision_required, acknowledgement_required,
  organization_unavailable, repository_unavailable, repository_changed, local_consent_conflict,
  organization_consent_required, read_policy,
}
use skillmeter_claude_code_m.Codex.Choices.{
  is_granted, is_on, set_repository_override, set_organization_consent,
  set_organization_repositories, set_repository_choices,
}
use skillmeter_claude_code_m.Codex.Evaluate.{Scope, key_of}
use skillmeter_claude_code_m.Codex.Preview.{
  SettingsFile, is_invalid, is_opt_out, org_part, organizations_of, Preview, build_consent_preview,
}

abbrev pub among : String → List String → Bool
among s l = any (λ t. str_eq t s) l

-- `checkRevision`, and what follows it.
abbrev pub check_policy :
    Expected
    → Option ConsentRecord
    → Disk
    → (Option ConsentRecord → Disk → Saved × Disk)
    → Saved × Disk
check_policy expected policy d after =
    let done = after policy d in
    if is_expected policy expected then done else (Saved.failed stale_policy, d)

abbrev pub check_read :
    Expected → Read × Disk → (Option ConsentRecord → Disk → Saved × Disk) → Saved × Disk
check_read expected (nothing, d) after = check_policy expected none d after
check_read expected (loaded p, d) after = check_policy expected (some p) d after
check_read expected (Read.failed error, d) after = (Saved.failed error, d)

unfoldable pub check_revision :
    Expected → Marking → Disk → (Option ConsentRecord → Disk → Saved × Disk) → Saved × Disk
check_revision expected first d after = check_read expected (read_policy first d) after

pub record InventoryRepo : Type 0 where
  pub key : String
  pub org : String
  pub local_restriction : Bool
  -- `action`: to enable is `true`, to disable `false`.
  pub action : Option Bool

pub record Inventory : Type 0 where
  pub orgs : List String
  pub repositories : List InventoryRepo

-- `known.get(key)`: the last repository with the key wins, keys being unique in an inventory.
unfoldable pub find_repo : String → List InventoryRepo → Option InventoryRepo
find_repo key [] = none
find_repo key (r ∷ repos) =
    let later = find_repo key repos in
    elim later [ some found ↦ some found | none ↦ if str_eq r.key key then some r else none ]

-- The selected repositories, if each is known.
abbrev pub add_repo :
    Option InventoryRepo → Option (List InventoryRepo) → Option (List InventoryRepo)
add_repo none rest = none
add_repo (some r) none = none
add_repo (some r) (some rest) = some (r ∷ rest)

unfoldable pub select_repos : List String → List InventoryRepo → Option (List InventoryRepo)
unfolding find_repo
select_repos [] repos = some []
select_repos (key ∷ keys) repos = add_repo (find_repo key repos) (select_repos keys repos)

unfoldable pub repos_of : String → List InventoryRepo → List InventoryRepo
repos_of org [] = []
repos_of org (r ∷ repos) =
    let rest = repos_of org repos in if str_eq r.org org then r ∷ rest else rest

abbrev pub keys_of : List InventoryRepo → List String
keys_of [] = []
keys_of (r ∷ repos) = r.key ∷ keys_of repos

-- `Object.fromEntries` of the repositories that have an action.
unfoldable pub changes_of : List InventoryRepo → List (String × Bool)
changes_of [] = []
changes_of (r ∷ repos) =
    let rest = changes_of repos in elim r.action [ none ↦ rest | some on ↦ (r.key, on) ∷ rest ]

module _ ⦃h : Host⦄ (acknowledged : Bool) (expected : Expected) (first : Marking) (now : ℕ)
    (run : Run) (d : Disk) where
  unfoldable pub apply_organization_consent : String → List String → Bool → Saved × Disk
  apply_organization_consent organization allowed_orgs enabled =
      let org = h.to_lower_case (h.trim organization) in
      if not (is_usable expected)
      then (Saved.failed expected_revision_required, d)
      else if str_eq org "" || not (among org allowed_orgs)
      then (Saved.failed (refused organization_unavailable), d)
      else if enabled && not acknowledged
      then (Saved.failed acknowledgement_required, d)
      else check_revision expected first d
          (λ policy d'. set_organization_consent acknowledged expected now run d' org enabled)

  -- The checks of an ON, after the revision.
  abbrev pub enable_repository :
      Scope → List (String × SettingsFile) → String → Option ConsentRecord → Disk → Saved × Disk
  enable_repository scope folders repository policy d' =
      if any (λ f. is_opt_out f.1 || is_invalid f.1)
        (build_consent_preview scope folders policy none).local
      then (Saved.failed (refused local_consent_conflict), d')
      else if not (is_granted (lookup (org_part repository) (organizations_of policy)))
      then (Saved.failed (refused organization_consent_required), d')
      else set_repository_override acknowledged expected now run d' repository true

  abbrev pub apply_to_scope :
      Option String → Scope → List (String × SettingsFile) → String → Bool → Saved × Disk
  apply_to_scope none scope folders repository enabled =
      (Saved.failed (refused repository_unavailable), d)
  apply_to_scope (some key) scope folders repository enabled =
      if not (str_eq repository key)
      then (Saved.failed (refused repository_changed), d)
      else if enabled && not acknowledged
      then (Saved.failed acknowledgement_required, d)
      else check_revision expected first d (λ policy d'.
        if enabled
        then enable_repository scope folders repository policy d'
        else set_repository_override acknowledged expected now run d' repository false)

  unfoldable pub apply_repository_consent :
      Scope → List (String × SettingsFile) → String → Bool → Saved × Disk
  apply_repository_consent scope folders repository enabled =
      if not (is_usable expected)
      then (Saved.failed expected_revision_required, d)
      else apply_to_scope (if scope.allowed then key_of scope else none) scope folders repository
          enabled

  abbrev pub onboard : String → Option (List InventoryRepo) → Bool → Saved × Disk
  onboard org none enabled = (Saved.failed (refused repository_changed), d)
  onboard org (some selected) enabled =
      if enabled && any (λ r. r.local_restriction) selected
      then (Saved.failed (refused local_consent_conflict), d)
      else if not acknowledged
      then (Saved.failed acknowledgement_required, d)
      else check_revision expected first d (λ policy d'.
        set_organization_repositories acknowledged expected now run d' org (keys_of selected)
          enabled)

  unfoldable pub apply_onboarding_selection : Inventory → String → List String → Bool → Saved × Disk
  unfolding repos_of select_repos
  apply_onboarding_selection inventory organization repositories enabled =
      let org = h.to_lower_case (h.trim organization) in
      let selected =
        select_repos (distinct [] repositories) (repos_of org inventory.repositories) in
      if not (is_usable expected)
      then (Saved.failed expected_revision_required, d)
      else if str_eq org "" || not (among org inventory.orgs)
      then (Saved.failed (refused organization_unavailable), d)
      else onboard org selected enabled

  -- `none` where nothing can change.
  abbrev pub toggle_changes : List (String × Bool) → Option (Saved × Disk)
  toggle_changes changes =
      if any is_on changes && not acknowledged
      then some (Saved.failed acknowledgement_required, d)
      else elim changes [
        | [] ↦ none
        | change ∷ others ↦ some (
            check_revision expected first d (λ policy d'.
              set_repository_choices acknowledged expected now run d' (change ∷ others)))
      ]

  abbrev pub toggle_selected : Option (List InventoryRepo) → Option (Saved × Disk)
  toggle_selected none = some (Saved.failed (refused repository_changed), d)
  toggle_selected (some []) = some (Saved.failed (refused repository_changed), d)
  toggle_selected (some (r ∷ repos)) = toggle_changes (changes_of (r ∷ repos))

  unfoldable pub apply_repository_toggles : Inventory → List String → Option (Saved × Disk)
  unfolding select_repos changes_of
  apply_repository_toggles inventory repositories =
      if is_usable expected
      then toggle_selected (select_repos (distinct [] repositories) inventory.repositories)
      else some (Saved.failed expected_revision_required, d)
