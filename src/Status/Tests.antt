-- ===== src/Status/Tests.antt =====
-- The refresh status at concrete inputs.
use skillmeter_claude_code_m.Prelude.{
  ℕ, ◌+◌, ◌≡◌, refl, some, List, [], ◌∷◌, arith, ◌==◌, if◌then◌else◌,
}
use skillmeter_claude_code_m.Status.{
  Status, StatusFile, missing, foreign, stored, Reason, by_terminal, empty_status,
  last_terminal_reason, refresh_blocked_reason, Surroundings, undisturbed, update_license_status,
  max_update_attempts, current_revision, terminal_outcome, refresh_success, Outcome,
}
use skillmeter_claude_code_m.Status.History.{Change, failure, ended, session_start, begin_signin}
use skillmeter_claude_code_m.Status.Update.{IsOwn, Commits, update_license_status_lem}

abbrev expired : Status
expired = record empty_status {
  last_success_at = some 5;
  last_terminal_reason = some Reason.reactivation_required;
}

abbrev after_signout : List Change
after_signout =
    failure (some 500) [] 10
    ∷ session_start
    ∷ ended Reason.revoked (some 402) [] 20
    ∷ begin_signin
    ∷ []

expired_reason : last_terminal_reason expired ≡ some Reason.reactivation_required
unfolding last_terminal_reason
expired_reason = refl

abbrev revoked_status : Status
revoked_status = terminal_outcome "drain" Reason.revoked (some 402) [] 10 empty_status

revoked_blocks : refresh_blocked_reason revoked_status 99 ≡ some by_terminal
unfolding refresh_blocked_reason terminal_outcome
revoked_blocks = refl

-- Another process writes during the first try only.
abbrev bumped : StatusFile → StatusFile
bumped missing = missing
bumped (foreign n) = foreign (n + 1)
bumped (stored s) = stored (record s { revision = s.revision + 1; last_attempt_at = some 7 })

abbrev bumped_at_first : ℕ → StatusFile → StatusFile
bumped_at_first k file = if k == 4 then bumped file else file

abbrev disturbed : Surroundings
disturbed = record (undisturbed "c1") { before_check = bumped_at_first }

disturbed-IsOwn : (k : ℕ) (f : StatusFile) → IsOwn f → IsOwn (bumped_at_first k f)
disturbed-IsOwn k missing own = ground (arith, own)
disturbed-IsOwn k (foreign n) own = absurd own
disturbed-IsOwn k (stored s) own = ground (arith, own)

disturbed_counts :
    (k : ℕ) (f : StatusFile)
    → current_revision (bumped_at_first k f) ≡ current_revision f
    → bumped_at_first k f ≡ f
unfolding current_revision
disturbed_counts k missing e = ground (arith, e)
disturbed_counts k (foreign n) e = ground (arith, e)
disturbed_counts k (stored s) e = ground (arith, e)

update_license_status_lem_example :
    Commits disturbed
      (refresh_success "drain" Outcome.rotated 50)
      max_update_attempts
      (update_license_status disturbed
        (refresh_success "drain" Outcome.rotated 50)
        (stored expired))
      (stored expired)
update_license_status_lem_example =
    update_license_status_lem disturbed (refresh_success "drain" Outcome.rotated 50)
      (stored expired) 3 disturbed-IsOwn disturbed_counts (λ k f. refl) (omega arith) (λ f. refl) tt
