-- ===== src/Status/History.antt =====
-- Histories of the refresh status: what blocks a refresh, and what reporting keeps.
use skillmeter_claude_code_m.Prelude.{
  ℕ, ◌+◌, ◌≡◌, ◌≢◌, refl, ◌∙◌, Option, none, Option-cases, inl, inr, length, some, List, [], ◌∷◌,
  String, arith, ltb, All, if◌then◌else◌,
}
use skillmeter_claude_code_m.Status.{
  Reason, backoff_exhausted, rotated, Status, by_terminal, by_backoff, backoff_delay_ms,
  last_terminal_reason, refresh_blocked_reason, refresh_success, refresh_failure, terminal_outcome,
  cleared_terminal, cleared_status, signin_status,
}

-- A change of the record, by any caller.
pub data Change : Type 0 where
  success : String → ℕ → Change
  failure : (status : Option ℕ) (message : List ℕ) (now : ℕ) → Change
  ended : (reason : Reason) (status : Option ℕ) (message : List ℕ) (now : ℕ) → Change
  session_start begin_signin : Change
  signed_in : ℕ → Change

module _ (base cap : ℕ) where
  unfoldable pub apply_change : Change → Status → Status
  apply_change (success source now) = refresh_success source rotated now
  apply_change (failure status message now) =
      refresh_failure "drain" "refresh" status message now base cap
  apply_change (ended reason status message now) =
      terminal_outcome "drain" reason status message now
  apply_change session_start = cleared_terminal "session_start"
  apply_change begin_signin = cleared_status "signin"
  apply_change (signed_in now) = signin_status "signin" now

  unfoldable pub run_changes : List Change → Status → Status
  unfolding apply_change
  run_changes [] s = s
  run_changes (c ∷ changes) s = run_changes changes (apply_change c s)

  abbrev pub failures_at : List ℕ → List Change
  failures_at [] = []
  failures_at (now ∷ times) = failure none [] now ∷ failures_at times

  -- Only a completed sign-in or a successful renewal clears the last terminal reason.
  abbrev pub ClearsNothing : Change → Type 0
  ClearsNothing (success source now) = ⊥
  ClearsNothing (signed_in now) = ⊥
  ClearsNothing (failure status message now) = Unit
  ClearsNothing (ended reason status message now) = Unit
  ClearsNothing session_start = Unit
  ClearsNothing begin_signin = Unit

  abbrev pub latest_reason : Reason → List Change → Reason
  latest_reason r [] = r
  latest_reason r (ended reason status message now ∷ changes) = latest_reason reason changes
  latest_reason r (success source now ∷ changes) = latest_reason r changes
  latest_reason r (failure status message now ∷ changes) = latest_reason r changes
  latest_reason r (session_start ∷ changes) = latest_reason r changes
  latest_reason r (begin_signin ∷ changes) = latest_reason r changes
  latest_reason r (signed_in now ∷ changes) = latest_reason r changes

  failed_reason :
      (status : Option ℕ) (message : List ℕ) (now : ℕ) (s : Status)
      → last_terminal_reason (refresh_failure "drain" "refresh" status message now base cap s)
        ≡ last_terminal_reason s
  unfolding refresh_failure last_terminal_reason
  failed_reason status message now s = elim (Option-cases s.terminal) [
    | inl e ↦ rw e refl
    | inr (t, e) ↦ rw e refl
  ]

  failed_blocked :
      (status : Option ℕ) (message : List ℕ) (now t : ℕ) (s : Status)
      → refresh_blocked_reason s t ≡ some by_terminal
      → refresh_blocked_reason (refresh_failure "drain" "refresh" status message now base cap s) t
        ≡ some by_terminal
  unfolding refresh_failure refresh_blocked_reason
  failed_blocked status message now t s h = elim (Option-cases s.terminal) [
    | inl e ↦ let h' = rw e at h in ground arith
    | inr (u, e) ↦ let h' = rw e at h in rw e h'
  ]

  kept_reason :
      (c : Change) (changes : List Change) (s : Status) (r : Reason)
      → last_terminal_reason s ≡ some r
      → ClearsNothing c
      → ((t : Reason)
          → last_terminal_reason (apply_change c s) ≡ some t
          → last_terminal_reason (run_changes changes (apply_change c s))
            ≡ some (latest_reason t changes))
      → last_terminal_reason (run_changes changes (apply_change c s))
        ≡ some (latest_reason r (c ∷ changes))
  unfolding apply_change last_terminal_reason refresh_failure terminal_outcome cleared_terminal
      cleared_status
  kept_reason (success source now) changes s r h k next = absurd k
  kept_reason (signed_in now) changes s r h k next = absurd k
  kept_reason (failure status message now) changes s r h k next =
      next r (failed_reason status message now s ∙ h)
  kept_reason (ended reason status message now) changes s r h k next = next reason refl
  kept_reason session_start changes s r h k next = next r h
  kept_reason begin_signin changes s r h k next = next r h

  -- The reason that is reported survives failures, new sessions and sign-ins that only begin: it is
  -- that of the latest terminal outcome, until a renewal succeeds or a sign-in completes.
  pub last_terminal_reason-run_changes :
      (changes : List Change) (s : Status) (r : Reason)
      → last_terminal_reason s ≡ some r
      → All ClearsNothing changes
      → last_terminal_reason (run_changes changes s) ≡ some (latest_reason r changes)
  unfolding run_changes
  last_terminal_reason-run_changes [] s r h k = h
  last_terminal_reason-run_changes (c ∷ changes) s r h k =
      kept_reason c changes s r h k.0
        (λ t e. last_terminal_reason-run_changes changes (apply_change c s) t e k.1)

  abbrev pub IsFailure : Change → Type 0
  IsFailure (failure status message now) = Unit
  IsFailure (success source now) = ⊥
  IsFailure (ended reason status message now) = ⊥
  IsFailure session_start = ⊥
  IsFailure begin_signin = ⊥
  IsFailure (signed_in now) = ⊥

  one_failure :
      (c : Change) (s : Status)
      → IsFailure c
      → s.terminal ≡ none
      → ((apply_change c s).terminal ≡ none)
        × ((apply_change c s).consecutive_failures ≡ s.consecutive_failures + 1)
  unfolding apply_change refresh_failure
  one_failure (failure status message now) s k h = rw h (refl, refl)
  one_failure (success source now) s k h = absurd k
  one_failure (ended reason status message now) s k h = absurd k
  one_failure session_start s k h = absurd k
  one_failure begin_signin s k h = absurd k
  one_failure (signed_in now) s k h = absurd k

  failures_counted :
      (changes : List Change) (s : Status)
      → All IsFailure changes
      → s.terminal ≡ none
      → ((run_changes changes s).terminal ≡ none)
        × ((run_changes changes s).consecutive_failures ≡ s.consecutive_failures + length changes)
  unfolding run_changes
  failures_counted [] s k h = (h, omega arith)
  failures_counted (c ∷ changes) s k h =
      let one = one_failure c s k.0 h in
      let rest = failures_counted changes (apply_change c s) k.1 one.0 in
      (rest.0, omega (arith, rest.1, one.1))

  -- After any run of transient failures on a record that is not terminal, the next failure, at
  -- `now`, blocks a refresh exactly until the backoff for all the failures since the last success
  -- has passed, and then no longer.
  pub failures-refresh_blocked_reason :
      (changes : List Change) (s : Status) (status : Option ℕ) (message : List ℕ) (now t : ℕ)
      → All IsFailure changes
      → s.terminal ≡ none
      → refresh_blocked_reason (apply_change (failure status message now) (run_changes changes s)) t
        ≡ (if ltb t (now + backoff_delay_ms (s.consecutive_failures + length changes + 1) base cap)
            then some by_backoff
            else none)
  unfolding apply_change refresh_failure refresh_blocked_reason
  failures-refresh_blocked_reason changes s status message now t k h =
      let counted = failures_counted changes s k h in rw (counted.0, counted.1) refl

  -- No success, no new session and no sign-in, and no legacy reason.
  abbrev pub LeavesTerminal : Change → Type 0
  LeavesTerminal (failure status message now) = Unit
  LeavesTerminal (success source now) = ⊥
  LeavesTerminal (ended reason status message now) = reason ≢ backoff_exhausted
  LeavesTerminal session_start = ⊥
  LeavesTerminal begin_signin = ⊥
  LeavesTerminal (signed_in now) = ⊥

  one_blocked :
      (c : Change) (s : Status) (t : ℕ)
      → refresh_blocked_reason s t ≡ some by_terminal
      → LeavesTerminal c
      → refresh_blocked_reason (apply_change c s) t ≡ some by_terminal
  unfolding apply_change refresh_failure refresh_blocked_reason terminal_outcome
  one_blocked (failure status message now) s t h k = failed_blocked status message now t s h
  one_blocked (ended Reason.revoked status message now) s t h k = refl
  one_blocked (ended Reason.reactivation_required status message now) s t h k = refl
  one_blocked (ended Reason.backoff_exhausted status message now) s t h k = absurd (k refl)
  one_blocked (success source now) s t h k = absurd k
  one_blocked session_start s t h k = absurd k
  one_blocked begin_signin s t h k = absurd k
  one_blocked (signed_in now) s t h k = absurd k

  -- A record that blocks refreshes for good blocks them after any later transient failures and
  -- terminal outcomes other than the legacy one, at any time: a late failure does not turn it into
  -- one that retries.
  pub terminal-refresh_blocked_reason :
      (changes : List Change) (s : Status) (t : ℕ)
      → refresh_blocked_reason s t ≡ some by_terminal
      → All LeavesTerminal changes
      → refresh_blocked_reason (run_changes changes s) t ≡ some by_terminal
  unfolding run_changes
  terminal-refresh_blocked_reason [] s t h k = h
  terminal-refresh_blocked_reason (c ∷ changes) s t h k =
      terminal-refresh_blocked_reason changes (apply_change c s) t (one_blocked c s t h k.0) k.1

  keeps_success :
      (c : Change) (s : Status)
      → s.last_success_at ≢ none
      → (apply_change c s).last_success_at ≢ none
  unfolding apply_change refresh_failure refresh_success signin_status terminal_outcome
      cleared_terminal cleared_status
  keeps_success (success source now) s h = λ e. cc
  keeps_success (failure status message now) s h = elim (Option-cases s.terminal) [
    | inl e ↦ rw e h
    | inr (t, e) ↦ rw e h
  ]
  keeps_success (ended reason status message now) s h = h
  keeps_success session_start s h = h
  keeps_success begin_signin s h = h
  keeps_success (signed_in now) s h = λ e. cc

  -- Once a sign-in or a renewal is recorded, no later change forgets that this client was ever
  -- signed in.
  pub last_success_at-run_changes :
      (changes : List Change) (s : Status)
      → s.last_success_at ≢ none
      → (run_changes changes s).last_success_at ≢ none
  unfolding run_changes
  last_success_at-run_changes [] s h = h
  last_success_at-run_changes (c ∷ changes) s h =
      last_success_at-run_changes changes (apply_change c s) (keeps_success c s h)
