-- ===== src/Renewal/Kept.antt =====
-- The refresh token that the broker rotated, after each answer of the exchange.
use skillmeter_claude_code_m.Prelude.{
  ◌≡◌, ◌⊎◌, inl, inr, refl, sym, ap, ◌∙◌, true, false, Option, none, some, String, arith, eq_iff,
  opt_eq_iff, str_eq, Bool-cases,
}
use skillmeter_claude_code_m.Host.{Host}
use skillmeter_claude_code_m.Jwt.{or_null, get_license_tenant_slug}
use skillmeter_claude_code_m.Session.{
  Account, Snapshot, recovery_snapshot, snapshot_matches, commit_rotation, commit_refresh,
}
use skillmeter_claude_code_m.Renewal.Requests.{
  Server, granted, Exchange, issued, refused, refresh_grant, exchange_outcome,
}
use skillmeter_claude_code_m.Renewal.{
  World, Run, Result, Ending, after_exchange, exchange_step, after_grant, renew_via_broker, settle,
  renewable, renew, renew_and_record, with_account,
}

or_null-some : (v : Option String) (s : String) → or_null v ≡ some s → v ≡ some s
or_null-some none s e = ground arith
or_null-some (some t) s e = ground arith

or_null_idem : (v : Option String) → or_null (or_null v) ≡ or_null v
or_null_idem none = refl
or_null_idem (some t) = ground arith

stored :
    (a : Account) (refresh : String)
    → or_null (recovery_snapshot a).refresh_token ≡ some refresh
    → or_null a.session.refresh_token ≡ some refresh
unfolding recovery_snapshot
stored a refresh e = sym (or_null_idem a.session.refresh_token) ∙ e

pub not_left :
    (a : Account) → (recovery_snapshot a).signed_out ≡ false → a.session.signed_out ≡ false
unfolding recovery_snapshot
not_left a e = e

pub matches-recovery_snapshot :
    (a : Account) → a.session.signed_out ≡ false → snapshot_matches a (recovery_snapshot a) ≡ true
unfolding snapshot_matches recovery_snapshot
matches-recovery_snapshot a kept = ground (
  arith,
  kept,
  or_null_idem a.session.refresh_token,
  opt_eq_iff (or_null a.session.license_jwt) (or_null a.session.license_jwt),
  opt_eq_iff (or_null a.session.refresh_token) (or_null a.session.refresh_token),
  opt_eq_iff (or_null a.session.auth_generation) (or_null a.session.auth_generation),
  opt_eq_iff (or_null a.device_id) (or_null a.device_id),
)

module _ (next : String) where
  abbrev Holds : World → Type 0
  Holds w = w.account.session.refresh_token ≡ some next

  Holds-commit_refresh :
      (token : String) (current : Snapshot) (w : World)
      → Holds w
      → Holds (with_account w (commit_refresh token current w.account).0)
  unfolding commit_refresh
  Holds-commit_refresh token current w h = ground (arith, h)

  Holds-commit_rotation :
      (expected : Snapshot) (w : World)
      → snapshot_matches w.account expected ≡ true
      → Holds (with_account w (commit_rotation expected next w.account).0)
        × ((commit_rotation expected next w.account).1 ≡ true)
  unfolding commit_rotation
  Holds-commit_rotation expected w m = rw m (refl, refl)

  module _ ⦃h : Host⦄ (server : Server) (digest : Account → String) (run : Run)
      (source : String) where
    after_exchange-Holds :
        (e : Exchange) (current : Snapshot) (w : World)
        → Holds w
        → Holds (after_exchange server digest run source e current w).1
    unfolding after_exchange
    after_exchange-Holds (Exchange.revoked status) current w k = k
    after_exchange-Holds (refused status) current w k = k
    after_exchange-Holds (Exchange.failed status message) current w k = k
    after_exchange-Holds (issued token) current w k =
        let kept = Holds-commit_refresh token current w k in ground (arith, kept, k)

    -- The ending is a revocation, or the token is held.
    abbrev EndsHeld : Ending × Option String × World → Type 0
    EndsHeld r = (r.0 ≡ Ending.revoked) ⊎ Holds r.2

    settle-EndsHeld :
        (r : Result) (w : World) → Holds w → EndsHeld (settle server digest run source r w)
    unfolding settle
    settle-EndsHeld (Result.rotated token expected) w k = inr (ground (arith, k))
    settle-EndsHeld (Result.rejected status expected) w k = inr (ground (arith, k))
    settle-EndsHeld (Result.revoked status expected) w k = ground arith
    settle-EndsHeld (Result.transient status message expected) w k = inr (ground (arith, k))
    settle-EndsHeld Result.superseded w k = inr k

    exchange_step-Holds :
        (id_token : String) (expected current : Snapshot) (w : World)
        → Holds (run.during_exchange w)
        → Holds (exchange_step server digest run source id_token expected current w).1
    unfolding exchange_step
    exchange_step-Holds id_token expected current w k =
        let slug = get_license_tenant_slug expected.token in
        let device : String = elim expected.device_id [ none ↦ "" | some d ↦ d ] in
        let reply = server.activate_endpoint id_token device (or_null (some slug)) in
        after_exchange-Holds (exchange_outcome reply slug) current (run.during_exchange w) k

    module _ (quiet : (x : World) → (run.during_exchange x).account ≡ x.account)
        (still_quiet : (x : World) → (run.before_record x).account ≡ x.account) where
      after_grant-Holds :
          (id_token refresh : String) (expected : Snapshot) (w : World)
          → snapshot_matches w.account expected ≡ true
          → w.account.session.refresh_token ≡ some refresh
          → Holds
              (after_grant server digest run source (granted id_token next) refresh expected w).1
      unfolding after_grant
      after_grant-Holds id_token refresh expected w m old =
          elim (Bool-cases (str_eq next refresh)) [
            | inl same ↦
                let held : Holds w = old ∙ ap some (sym ((eq_iff next refresh).0 same)) in
                rw same (
                  exchange_step-Holds id_token expected expected w
                    (ap (λ a. a.session.refresh_token) (quiet w) ∙ held))
            | inr other ↦
                let (held, committed) = Holds-commit_rotation expected w m in
                let moved = with_account w (commit_rotation expected next w.account).0 in
                rw (other, committed)
                  (exchange_step-Holds id_token expected
                    (record expected { refresh_token = some next }) moved
                    (ap (λ a. a.session.refresh_token) (quiet moved) ∙ held))
          ]

      renew-Holds :
          (id_token refresh : String) (w : World)
          → run.during_grant w ≡ w
          → w.account.session.signed_out ≡ false
          → or_null (recovery_snapshot w.account).refresh_token ≡ some refresh
          → refresh_grant (server.token_endpoint refresh) refresh ≡ granted id_token next
          → Holds (renew server digest run source (recovery_snapshot w.account) w).1
      unfolding renew renew_via_broker
      renew-Holds id_token refresh w still kept e grant =
          let m = matches-recovery_snapshot w.account kept in
          let old =
            or_null-some w.account.session.refresh_token refresh (stored w.account refresh e) in
          rw (e, renew, m, still, grant)
            (after_grant-Holds id_token refresh (recovery_snapshot w.account) w m old)

      -- The refresh token that the broker hands out in a renewal is in the session afterwards,
      -- whatever the exchange for a license answers, unless the license was revoked: where no other
      -- process writes the session meanwhile, a failure after the rotation cannot leave the session
      -- with the spent token.
      pub rotated_token_is_kept :
          (device_id id_token refresh : String) (w : World)
          → run.during_grant w ≡ w
          → renewable server digest run source device_id (recovery_snapshot w.account) ≡ true
          → or_null (recovery_snapshot w.account).refresh_token ≡ some refresh
          → refresh_grant (server.token_endpoint refresh) refresh ≡ granted id_token next
          → ((renew_and_record server digest run source device_id true w).0 ≡ Ending.revoked)
            ⊎ ((renew_and_record server digest run source device_id true
                  w).2.account.session.refresh_token
                ≡ some next)
      unfolding renew_and_record
      rotated_token_is_kept device_id id_token refresh w still able e grant =
          let expected = recovery_snapshot w.account in
          let (r, w') = renew server digest run source expected w in
          let kept = not_left w.account (ground (arith, able)) in
          rw able (
            settle-EndsHeld r (run.before_record w') (
              ap (λ a. a.session.refresh_token) (still_quiet w')
              ∙ renew-Holds id_token refresh w still kept e grant))
