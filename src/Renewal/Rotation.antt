-- ===== src/Renewal/Rotation.antt =====
-- What a renewal that succeeds returns, stores and reports.
use mathlib.Core.Path.{subst}
use skillmeter_claude_code_m.Prelude.{
  ℕ, ◌⊎◌, sym, opt_eq_iff, ◌≡◌, ◌≢◌, refl, Bool, true, false, not, ◌&&◌, Option, none, some, String,
  arith, eq_iff, Bool-cases, inl, inr, str_eq, if◌then◌else◌, if_intro,
}
use skillmeter_claude_code_m.Host.{Host}
use skillmeter_claude_code_m.Jwt.{or_null, get_license_tenant_slug}
use skillmeter_claude_code_m.Session.{
  Account, Snapshot, snapshot_matches, commit_rotation, commit_refresh, recovery_snapshot,
  get_license_token, is_license_token_expired,
}
use skillmeter_claude_code_m.Status.{
  StatusFile, read_license_status, refresh_success, refresh_blocked_reason, Outcome, undisturbed,
  update_license_status,
}
use skillmeter_claude_code_m.Renewal.Requests.{
  Server, Grant, granted, ended, Exchange, issued, refused, refresh_grant, exchange_outcome,
  exchange_json, exchange_token, ExchangeReply, Json, invalid, token_field,
}
use skillmeter_claude_code_m.Renewal.{
  World, Run, Result, Ending, after_exchange, exchange_step, after_grant, renew_via_broker, settle,
  renewable, renew, renew_and_record, with_account,
}
use skillmeter_claude_code_m.Renewal.Recording.{
  update_license_status-quiet, read_license_status-stamped,
}

success_unblocks :
    (context source : String) (now : ℕ) (file : StatusFile) (t : ℕ)
    → refresh_blocked_reason
        (read_license_status
          (update_license_status
            (undisturbed context)
            (refresh_success source Outcome.rotated now)
            file).1
          context)
        t
      ≡ none
unfolding refresh_blocked_reason refresh_success
success_unblocks context source now file t =
    let change = refresh_success source Outcome.rotated now in
    let prev = read_license_status file context in
    rw
      (
        update_license_status-quiet context change file,
        read_license_status-stamped context change prev,
      )
      refl

or_null-or_null : (v : Option String) (s : String) → or_null v ≡ some s → or_null (some s) ≡ some s
or_null-or_null none s e = ground arith
or_null-or_null (some t) s e = ground (arith, eq_iff t "", eq_iff s "")

abbrev IsUsable : Exchange → Type 0
IsUsable (issued token) = or_null (some token) ≡ some token
IsUsable (Exchange.revoked status) = Unit
IsUsable (refused status) = Unit
IsUsable (Exchange.failed status message) = Unit

module _ ⦃h : Host⦄ where
  exchange_token-IsUsable :
      (status : ℕ) (t o : Option String) → or_null t ≡ o → IsUsable (exchange_token status o)
  exchange_token-IsUsable status t none e = tt
  exchange_token-IsUsable status t (some s) e = or_null-or_null t s e

  exchange_json-IsUsable : (status : ℕ) (body : Json) → IsUsable (exchange_json status body)
  unfolding exchange_json
  exchange_json-IsUsable status invalid = tt
  exchange_json-IsUsable status (token_field t) = exchange_token-IsUsable status t (or_null t) refl

  exchange_outcome-IsUsable :
      (reply : ExchangeReply) (org : String) → IsUsable (exchange_outcome reply org)
  unfolding exchange_outcome
  exchange_outcome-IsUsable (ExchangeReply.unreachable message) org = tt
  exchange_outcome-IsUsable (ExchangeReply.answered status text body) org =
      ground (arith, exchange_json-IsUsable status body)

module _ ⦃h : Host⦄ (server : Server) (digest : Account → String) (run : Run)
    (source : String) where
  matches-commit_refresh :
      (token : String) (current : Snapshot) (w : World)
      → or_null (some token) ≡ some token
      → snapshot_matches w.account current ≡ true
      → (get_license_token (commit_refresh token current w.account).0 ≡ some token)
        × (snapshot_matches
              (commit_refresh token current w.account).0
              (record current { token = some token })
            ≡ true)
  unfolding commit_refresh snapshot_matches get_license_token
  matches-commit_refresh token current w usable matches =
      (ground (arith, usable, matches), ground (arith, usable, matches, eq_iff token token))

  -- The session holds the license of a renewal that succeeded, and is still the one that it
  -- settles against.
  abbrev IsStored : Result × World → Type 0
  IsStored (Result.rotated token expected, w) =
      (get_license_token w.account ≡ some token)
      × (snapshot_matches w.account (record expected { token = some token }) ≡ true)
  IsStored (Result.rejected status expected, w) = Unit
  IsStored (Result.revoked status expected, w) = Unit
  IsStored (Result.transient status message expected, w) = Unit
  IsStored (Result.superseded, w) = Unit

  after_exchange-IsStored :
      (e : Exchange) (current : Snapshot) (w : World)
      → IsUsable e
      → IsStored (after_exchange server digest run source e current w)
  unfolding after_exchange commit_refresh
  after_exchange-IsStored (Exchange.revoked status) current w usable = tt
  after_exchange-IsStored (refused status) current w usable = tt
  after_exchange-IsStored (Exchange.failed status message) current w usable = tt
  after_exchange-IsStored (issued token) current w usable =
      elim (Bool-cases (snapshot_matches w.account current)) [
        | inl e ↦
            let r = matches-commit_refresh token current w usable e in
            let committed : (commit_refresh token current w.account).1 ≡ true =
              rw (e, commit_refresh) refl in
            ground (arith, committed, r.0, r.1)
        | inr e ↦
            let stale : (commit_refresh token current w.account).1 ≡ false =
              rw (e, commit_refresh) refl in
            ground (arith, stale)
      ]

  exchange_step-IsStored :
      (id_token : String) (expected current : Snapshot) (w : World)
      → IsStored (exchange_step server digest run source id_token expected current w)
  unfolding exchange_step
  exchange_step-IsStored id_token expected current w =
      let slug = get_license_tenant_slug expected.token in
      let device : String = elim expected.device_id [ none ↦ "" | some d ↦ d ] in
      let reply = server.activate_endpoint id_token device (or_null (some slug)) in
      after_exchange-IsStored (exchange_outcome reply slug) current (run.during_exchange w)
        (exchange_outcome-IsUsable reply slug)

  after_grant-IsStored :
      (g : Grant) (refresh : String) (expected : Snapshot) (w : World)
      → IsStored (after_grant server digest run source g refresh expected w)
  unfolding after_grant
  after_grant-IsStored (ended status error) refresh expected w = tt
  after_grant-IsStored (Grant.failed status message) refresh expected w = tt
  after_grant-IsStored (granted id_token next) refresh expected w =
      let kept = exchange_step server digest run source id_token expected expected w in
      let (a, committed) = commit_rotation expected next w.account in
      let moved =
        exchange_step server digest run source id_token expected
          (record expected { refresh_token = some next }) (with_account w a) in
      let stop : Result × World = (Result.superseded, w) in
      if_intro IsStored (str_eq next refresh) kept (if committed then moved else stop)
        (exchange_step-IsStored id_token expected expected w)
        (if_intro IsStored committed moved stop
          (exchange_step-IsStored id_token expected (record expected { refresh_token = some next })
            (with_account w a))
          tt)

  renew_via_broker-IsStored :
      (refresh : String) (expected : Snapshot) (w : World)
      → IsStored (renew_via_broker server digest run source refresh expected w)
  unfolding renew_via_broker
  renew_via_broker-IsStored refresh expected w =
      let g = refresh_grant (server.token_endpoint refresh) refresh in
      if_intro IsStored (snapshot_matches w.account expected)
        (after_grant server digest run source g refresh expected (run.during_grant w))
        (Result.superseded, w) (after_grant-IsStored g refresh expected (run.during_grant w)) tt

  renew_from-IsStored :
      (token : Option String) (expected : Snapshot) (w : World)
      → or_null expected.refresh_token ≡ token
      → IsStored (renew server digest run source expected w)
  unfolding renew
  renew_from-IsStored none expected w e = rw (e, renew) tt
  renew_from-IsStored (some refresh) expected w e =
      rw (e, renew) (renew_via_broker-IsStored refresh expected w)

  -- What the record of a success leaves of the session as it was when it was made.
  abbrev IsRecorded : World → Option String → World → Type 0
  IsRecorded committed token w =
      ((get_license_token w.account ≡ token)
        × ((t : ℕ)
            → refresh_blocked_reason (read_license_status w.file (digest w.account)) t ≡ none))
      ⊎ ((w ≡ run.before_record committed)
          × ((run.before_record committed).account ≢ committed.account))

  -- What a renewal reports, and what it leaves.
  abbrev IsRenewed : World → Ending × Option String × World → Type 0
  IsRenewed committed (ending, token, w) =
      ending ≡ Ending.rotated
      → (token ≢ none)
        × (get_license_token committed.account ≡ token)
        × IsRecorded committed token w

  get_license_token-matches :
      (token : String) (expected : Snapshot) (a : Account)
      → snapshot_matches a (record expected { token = some token }) ≡ true
      → get_license_token a ≡ some token
  unfolding snapshot_matches get_license_token
  get_license_token-matches token expected a matches =
      ground (arith, matches, opt_eq_iff (or_null a.session.license_jwt) (some token))

  rotated-IsRecorded :
      (token : String) (expected : Snapshot) (w : World)
      → IsStored (Result.rotated token expected, w)
      → IsRecorded w
          (some token)
          (settle server digest run source (Result.rotated token expected) (run.before_record w)).2
  unfolding settle
  rotated-IsRecorded token expected w (held, matches) =
      let settled = record expected { token = some token } in
      let later = run.before_record w in
      elim (Bool-cases (snapshot_matches later.account settled)) [
        | inl same ↦ rw (same) (
            inl (
              get_license_token-matches token expected later.account same,
              success_unblocks (digest later.account) source run.recorded later.file,
            ))
        | inr moved ↦ rw (moved) (
            inr (
              refl,
              λ kept.
                  let still : snapshot_matches later.account settled ≡ true =
                    subst (λ a. snapshot_matches a settled ≡ true) (sym kept) matches in
                  ground (arith, moved, still),
            ))
      ]

  settle-IsRenewed :
      (r : Result) (w : World)
      → IsStored (r, w)
      → IsRenewed w (settle server digest run source r (run.before_record w))
  unfolding settle
  settle-IsRenewed (Result.rotated token expected) w (held, matches) e =
      (λ x. ground (arith, x), held, rotated-IsRecorded token expected w (held, matches))
  settle-IsRenewed (Result.rejected status expected) w stored e = ground (arith, e)
  settle-IsRenewed (Result.revoked status expected) w stored e = ground (arith, e)
  settle-IsRenewed (Result.transient status message expected) w stored e = ground (arith, e)
  settle-IsRenewed Result.superseded w stored e = ground (arith, e)

  -- When a renewal reports success, the license that it returns is the one that the session held
  -- behind the renewal's commit, whatever other processes did before. When the outcome is recorded
  -- the session still holds it, and the refresh status then blocks no later renewal; or other
  -- processes have changed the session since the commit, and the renewal leaves everything as they
  -- left it.
  pub rotated_is_stored :
      (device_id : String) (force : Bool) (w : World)
      → (renew_and_record server digest run source device_id force w).0 ≡ Ending.rotated
      → ((renew_and_record server digest run source device_id force w).1 ≢ none)
        × (get_license_token
              (renew server digest run source (recovery_snapshot w.account) w).1.account
            ≡ (renew_and_record server digest run source device_id force w).1)
        × (((get_license_token
                  (renew_and_record server digest run source device_id force w).2.account
                ≡ (renew_and_record server digest run source device_id force w).1)
              × ((t : ℕ)
                  → refresh_blocked_reason
                      (read_license_status
                        (renew_and_record server digest run source device_id force w).2.file
                        (digest
                          (renew_and_record server digest run source device_id force w).2.account))
                      t
                    ≡ none))
            ⊎ (((renew_and_record server digest run source device_id force w).2
                  ≡ run.before_record
                      (renew server digest run source (recovery_snapshot w.account) w).1)
                × ((run.before_record
                      (renew server digest run source (recovery_snapshot w.account) w).1).account
                    ≢ (renew server digest run source (recovery_snapshot w.account) w).1.account)))
  unfolding renew_and_record
  rotated_is_stored device_id force w =
      let expected = recovery_snapshot w.account in
      let (r, w') = renew server digest run source expected w in
      let P = IsRenewed w' in
      let done = settle server digest run source r (run.before_record w') in
      let kept : Ending × Option String × World = (Ending.fresh, expected.token, w) in
      let is_fresh = not force && not (is_license_token_expired expected.token run.started) in
      if_intro P (not (renewable server digest run source device_id expected))
        (Ending.signed_out, none, w) (if is_fresh then kept else done) (λ e. ground (arith, e))
        (if_intro P is_fresh kept done (λ e. ground (arith, e))
          (settle-IsRenewed r w'
            (renew_from-IsStored (or_null expected.refresh_token) expected w refl)))
