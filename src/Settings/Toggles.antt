-- ===== src/Settings/Toggles.antt =====
-- Switching repositories from the list, and what the list says of them.
use skillmeter_claude_code_m.Prelude.{
  ℕ, ◌+◌, Bool, true, Option, none, some, Option-cases, Bool-cases, List, [], ◌∷◌, ◌++◌, All,
  All-append, String, if◌then◌else◌, ◌≡◌, ◌≢◌, ◌==◌, refl, sym, ◌∙◌, inl, inr, arith,
}
use skillmeter_claude_code_m.Host.{Host}
use skillmeter_claude_code_m.Jwt.{distinct}
use skillmeter_claude_code_m.Policy.{GateInput, resolve_telemetry_gate}
use skillmeter_claude_code_m.Policy.Keys.{RepoKey, normalize_repo_key, key_eq_iff}
use skillmeter_claude_code_m.Policy.Store.{
  Policy, PolicyFile, Written, done, stale, refused, written, set_repository_override,
  get_repository_override, normalize_policy, get_global_disabled, get_organization_consent,
}
use skillmeter_claude_code_m.Policy.Store.Laws.{
  set_repository_override-done, set_repository_override_lem, set_repository_override_stale,
  same_repository,
}
use skillmeter_claude_code_m.Settings.{
  Row, ListState, action_of, gate_of, row_of, row_with, ToggleResult, Reason, changed, unchanged,
  stale_policy, count_changed, Disk, Toggled, Purging, purge, purge_unless, saved, switch_row,
  toggle_one, toggle_all, apply_repository_toggles,
}

same_repository_self : (k : RepoKey) → same_repository (some k) (some k) ≡ true
same_repository_self k = ground (arith, key_eq_iff k k)

abbrev gate_input : Bool → Bool → Option Bool → Option Bool → GateInput
gate_input disabled signed_in org project = record {
  global_disabled = disabled;
  signed_in = signed_in;
  cwd_available = true;
  repo_org_owned = true;
  org_consent = org;
  project_opt_in = project;
}

-- What a row offers is what the gate does once the repository's own setting is that.
action_of-gate :
    (disabled signed_in : Bool) (org project : Option Bool) (enabled : Bool)
    → action_of (resolve_telemetry_gate (gate_input disabled signed_in org project)) ≡ some enabled
    → (resolve_telemetry_gate (gate_input disabled signed_in org (some enabled))).capture ≡ enabled
unfolding resolve_telemetry_gate
action_of-gate disabled signed_in org project enabled e = ground (arith, e)

abbrev pub file_revision : PolicyFile → ℕ
file_revision file = (normalize_policy file.content).revision

module _ ⦃h : Host⦄ where
  gate_after :
      (signed_in enabled : Bool) (org key : String) (k : RepoKey) (expected : Option ℕ) (now : ℕ)
      (file : PolicyFile) (p : Policy)
      → normalize_repo_key key ≡ some k
      → action_of (gate_of signed_in org key file) ≡ some enabled
      → (set_repository_override key enabled expected now file).0 ≡ done p
      → (gate_of signed_in org key
          (set_repository_override key enabled expected now file).1).capture
        ≡ enabled
  unfolding gate_of
  gate_after signed_in enabled org key k expected now file p canonical offered ok =
      let (setting, consent, global) =
        set_repository_override_lem key enabled expected now file p ok key in
      let own : same_repository (normalize_repo_key key) (normalize_repo_key key) ≡ true =
        rw canonical (same_repository_self k) in
      let project : get_repository_override key
            (set_repository_override key enabled expected now file).1
          ≡ some enabled =
        setting ∙ rw own refl in
      rw (global, consent org, project)
        (action_of-gate (get_global_disabled file) signed_in (get_organization_consent org file)
          (get_repository_override key file) enabled offered)

module _ ⦃h : Host⦄ (key : String) (enabled : Bool) (n now : ℕ) (file : PolicyFile) where
  -- A switch under a revision: written under the file's own, else refused with the file as it is.
  data Attempt : Written × PolicyFile → Type 0 where
    wrote : (p : Policy) → n ≡ file_revision file → p.revision ≡ n + 1 → Attempt (done p, written p)
    old : (p : Policy) → n ≢ file_revision file → Attempt (stale p, file)
    failed : Attempt (refused, file)

  attempt : Attempt (set_repository_override key enabled (some n) now file)
  unfolding set_repository_override
  attempt = elim (Option-cases (normalize_repo_key key)) [
    | inl e ↦
        let none_written : set_repository_override key enabled (some n) now file ≡ (refused, file) =
          rw (e, set_repository_override) refl in
        rw none_written failed
    | inr (k, e) ↦
        let (stales, writes) = set_repository_override_stale key k enabled n now file e in
        elim (Bool-cases (n == file_revision file)) [
          | inl same ↦
              let current : n ≡ file_revision file = ground (arith, same) in
              let (p, ok, next) = writes current in
              let (_, _, there, _) =
                set_repository_override-done key enabled (some n) now file p ok in
              let made : set_repository_override key enabled (some n) now file
                  ≡ (done p, written p) =
                λ i. (ok i, there i) in
              rw made (wrote p current next)
          | inr other ↦
              let differs : n ≢ file_revision file = ground (arith, other) in
              rw (stales differs) (old (normalize_policy file.content) differs)
        ]
  ]

module _ ⦃h : Host⦄ (purging : Purging) (now : ℕ) where
  -- A row that the list built from the settings' file offers a switch, and the list is of the
  -- file's revision and the repository's key canonical: switching the row succeeds, and then the
  -- capture gate of that repository does what the row offered; a repository that is switched off
  -- loses its queue.
  pub toggle_one-row_of :
      (signed_in enabled : Bool) (id org key : String) (k : RepoKey) (revision : ℕ) (d : Disk)
      → normalize_repo_key key ≡ some k
      → revision ≡ file_revision d.policy
      → (row_of signed_in id org key d.policy).action ≡ some enabled
      → ((toggle_one purging now
            (some (row_of signed_in id org key d.policy))
            id
            revision
            d).results
          ≡ changed id enabled ∷ [])
        × ((gate_of signed_in org key
              (toggle_one purging now
                (some (row_of signed_in id org key d.policy))
                id
                revision
                d).disk.policy).capture
            ≡ enabled)
        × ((toggle_one purging now
              (some (row_of signed_in id org key d.policy))
              id
              revision
              d).disk.queues
            ≡ (if enabled then d.queues else purge purging key d.queues))
  unfolding toggle_one row_of
  toggle_one-row_of signed_in enabled id org key k revision d canonical current offered =
      let (p, ok, _) =
        (set_repository_override_stale key k enabled revision now d.policy canonical).1 current in
      let made : set_repository_override key enabled (some revision) now d.policy
          ≡ (done p, (set_repository_override key enabled (some revision) now d.policy).1) =
        λ i. (ok i, (set_repository_override key enabled (some revision) now d.policy).1) in
      let captured =
        gate_after signed_in enabled org key k (some revision) now d.policy p canonical offered
          ok in
      rw (offered, made) (refl, captured, refl)

  -- What one switch may do to a list of revision `n` on the file of a disk.
  data Effect (revision : ℕ) (d : Disk) : Toggled → Type 0 where
    nothing :
        (id : String) (reason : Reason)
        → (reason ≡ stale_policy → revision ≢ file_revision d.policy)
        → Effect revision d
            (record { revision = revision; results = unchanged id reason ∷ []; disk = d })
    switched :
        (id : String) (enabled : Bool) (key : String) (p : Policy)
        → revision ≡ file_revision d.policy
        → p.revision ≡ revision + 1
        → Effect revision d (record {
          revision = revision + 1;
          results = changed id enabled ∷ [];
          disk = record {
            policy = written p;
            queues = purge_unless purging now enabled key d.queues;
          };
        })

  saved-Effect :
      (id : String) (enabled : Bool) (key : String) (revision : ℕ) (d : Disk)
      {w : Written × PolicyFile}
      → Attempt key enabled revision now d.policy w
      → Effect revision d (saved purging now id enabled key revision d w)
  saved-Effect id enabled key revision d (wrote p same next) = switched id enabled key p same next
  saved-Effect id enabled key revision d (old p differs) = nothing id stale_policy (λ _. differs)
  saved-Effect id enabled key revision d failed =
      nothing id Reason.write_failed (λ e. absurd (ground (arith, e)))

  switch_row-Effect :
      (id : String) (r : Row) (action : Option Bool) (revision : ℕ) (d : Disk)
      → Effect revision d (switch_row purging now id r action revision d)
  switch_row-Effect id r none revision d =
      nothing id (Reason.not_actionable r.mode) (λ e. absurd (ground (arith, e)))
  switch_row-Effect id r (some enabled) revision d =
      saved-Effect id enabled r.repo_key revision d
        (attempt r.repo_key enabled revision now d.policy)

  toggle_one-Effect :
      (row : Option Row) (id : String) (revision : ℕ) (d : Disk)
      → Effect revision d (toggle_one purging now row id revision d)
  unfolding toggle_one
  toggle_one-Effect none id revision d =
      nothing id Reason.unknown_repository (λ e. absurd (ground (arith, e)))
  toggle_one-Effect (some r) id revision d = switch_row-Effect id r r.action revision d

  -- No result says that the list is stale.
  abbrev pub IsCurrent : ToggleResult → Type 0
  IsCurrent (changed id enabled) = Unit
  IsCurrent (unchanged id reason) = reason ≢ stale_policy

  pub record Fresh (t : Toggled) : Type 0 where
    pub revision : t.revision ≡ file_revision t.disk.policy
    pub current : All IsCurrent t.results

  Effect-Fresh :
      {revision : ℕ} {d : Disk} {t : Toggled}
      → Effect revision d t
      → revision ≡ file_revision d.policy
      → Fresh t
  unfolding normalize_policy
  Effect-Fresh (nothing id reason stales) fresh = record {
    revision = fresh;
    current = (λ e. stales e fresh, tt);
  }
  Effect-Fresh (switched id enabled key p same next) fresh = record {
    revision = sym next;
    current = (tt, tt);
  }

  pub record Untouched (revision : ℕ) (d : Disk) (t : Toggled) : Type 0 where
    pub revision_kept : t.revision ≡ revision
    pub disk_kept : t.disk ≡ d
    pub none_changed : count_changed t.results ≡ 0

  toggle_all-Fresh :
      (rows : List Row) (ids : List String) (revision : ℕ) (d : Disk)
      → revision ≡ file_revision d.policy
      → Fresh (toggle_all purging now rows ids revision d)
  unfolding toggle_all
  toggle_all-Fresh rows [] revision d fresh = record { revision = fresh; current = tt }
  toggle_all-Fresh rows (id ∷ ids) revision d fresh =
      let first = toggle_one purging now (row_with id rows) id revision d in
      let one = Effect-Fresh (toggle_one-Effect (row_with id rows) id revision d) fresh in
      let rest = toggle_all-Fresh rows ids first.revision first.disk one.revision in
      record {
        revision = rest.revision;
        current =
            All-append IsCurrent first.results
              (toggle_all purging now rows ids first.revision first.disk).results one.current
              rest.current;
      }

  -- One switch, and the others after it, that leave everything as it is.
  then_Untouched :
      {revision : ℕ} {d : Disk} {t : Toggled} (rest : ℕ → Disk → Toggled)
      → Effect revision d t
      → revision ≢ file_revision d.policy
      → Untouched revision d (rest revision d)
      → Untouched revision d (record (rest t.revision t.disk) {
        results = t.results ++ (rest t.revision t.disk).results;
      })
  unfolding count_changed
  then_Untouched rest (nothing id reason stales) other u = record {
    revision_kept = u.revision_kept;
    disk_kept = u.disk_kept;
    none_changed = u.none_changed;
  }
  then_Untouched rest (switched id enabled key p same next) other u = absurd (other same)

  toggle_all-Untouched :
      (rows : List Row) (ids : List String) (revision : ℕ) (d : Disk)
      → revision ≢ file_revision d.policy
      → Untouched revision d (toggle_all purging now rows ids revision d)
  unfolding toggle_all count_changed
  toggle_all-Untouched rows [] revision d other = record {
    revision_kept = refl;
    disk_kept = refl;
    none_changed = refl;
  }
  toggle_all-Untouched rows (id ∷ ids) revision d other =
      then_Untouched (toggle_all purging now rows ids)
        (toggle_one-Effect (row_with id rows) id revision d) other
        (toggle_all-Untouched rows ids revision d other)

  -- Switching any repositories of a list. If the list is of the file's revision, every switch that
  -- is written counts the revision on, so that no later one of the same call is refused as stale and
  -- the revision returned is the file's. If the list is of another revision, nothing changes: no
  -- setting, no queue, and no result reports a change.
  pub apply_repository_toggles_lem :
      (ids : List String) (state : ListState) (d : Disk)
      → (state.revision ≡ file_revision d.policy
          → Fresh (apply_repository_toggles purging now ids state d))
        × (state.revision ≢ file_revision d.policy
            → Untouched state.revision d (apply_repository_toggles purging now ids state d))
  unfolding apply_repository_toggles
  apply_repository_toggles_lem ids state d = (
    toggle_all-Fresh state.rows (distinct [] ids) state.revision d,
    toggle_all-Untouched state.rows (distinct [] ids) state.revision d,
  )
