-- ===== src/Settings/Onboarding.antt =====
-- The first selection of repositories for an organization.
use skillmeter_claude_code_m.Prelude.{
  ℕ, ◌+◌, length, Bool, true, false, Option, some, List, All, String, ◌≡◌, ◌≢◌, ◌⊎◌,
}
use skillmeter_claude_code_m.Host.{Host}
use skillmeter_claude_code_m.Policy.Keys.{RepoKey}
use skillmeter_claude_code_m.Policy.Store.{
  Policy, PolicyFile, Written, done, get_repository_override, get_organization_consent,
}
use skillmeter_claude_code_m.Policy.Store.Authorize.{among}
use skillmeter_claude_code_m.Prelude.Assoc.{string_eq}
use skillmeter_claude_code_m.Settings.{
  Row, count_changed, Disk, Toggled, Selection, outside, selection, Purging,
}
use skillmeter_claude_code_m.Settings.Spent.{IsEmptied}

abbrev pub IsOf : String → Row → Type 0
IsOf org r = r.org ≡ org

AllOf : String → Selection → Type 0
AllOf org (outside id) = Unit
AllOf org (selection rows) = All (IsOf org) rows

Chosen : List RepoKey → Option RepoKey → Type 0
Chosen keys k = among keys k ≡ true

module _ ⦃h : Host⦄ where
  -- The repository of the row reads as switched.
  abbrev pub Reads : PolicyFile → Bool → Row → Type 0
  Reads file enabled r = get_repository_override r.repo_key file ≡ some enabled

  -- A write that is done, or that leaves the file.
  abbrev End : PolicyFile → Written × PolicyFile → Type 0
  End file x =
      ((p : Policy) × (x.0 ≡ done p))
      ⊎ ((w : Written) × (x ≡ (w, file)) × ((p : Policy) → w ≢ done p))

module _ ⦃h : Host⦄ (purging : Purging) (now : ℕ) where
  -- Nothing has changed.
  pub record LeftAlone (revision : ℕ) (d : Disk) (t : Toggled) : Type 0 where
    pub revision_kept : t.revision ≡ revision
    pub disk_kept : t.disk ≡ d
    pub none_changed : count_changed t.results ≡ 0

  -- Each of the rows, all of the organization, has been switched.
  pub record Onboarded (org : String) (enabled : Bool) (revision : ℕ) (d : Disk) (rows : List Row)
      (t : Toggled) : Type 0 where
    pub owned : All (IsOf org) rows
    pub next : t.revision ≡ revision + 1
    pub each_changed : count_changed t.results ≡ length rows
    pub consent : get_organization_consent org t.disk.policy ≡ some true
    pub switched : All (Reads t.disk.policy enabled) rows
    pub on : (enabled ≡ false) ⊎ (t.disk.queues ≡ d.queues)
    pub off : (enabled ≡ true) ⊎ All (IsEmptied purging t.disk.queues) rows
