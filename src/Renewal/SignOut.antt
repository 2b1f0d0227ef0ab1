-- ===== src/Renewal/SignOut.antt =====
-- A sign-out while a renewal is running.
use mathlib.Core.Path.{subst}
use skillmeter_claude_code_m.Prelude.{
  ◌≡◌, ◌⊎◌, refl, sym, ap, ◌∙◌, Bool, true, false, not, ◌&&◌, none, some, String, arith, Bool-cases,
  inl, inr, str_eq,
}
use skillmeter_claude_code_m.Host.{Host}
use skillmeter_claude_code_m.Jwt.{or_null, get_license_tenant_slug}
use skillmeter_claude_code_m.Session.{
  Account, Snapshot, snapshot_matches, recovery_snapshot, is_license_token_expired,
}
use skillmeter_claude_code_m.Session.Intents.{stale_snapshot_keeps_account}
use skillmeter_claude_code_m.Renewal.Requests.{
  Server, Grant, granted, ended, Exchange, issued, refused, refresh_grant, exchange_outcome,
}
use skillmeter_claude_code_m.Renewal.{
  World, Run, Result, after_exchange, exchange_step, after_grant, renew_via_broker, settle,
  renewable, renew, renew_and_record,
}
use skillmeter_claude_code_m.Renewal.Kept.{matches-recovery_snapshot, not_left}

abbrev pub IsOut : World → Type 0
IsOut w = w.account.session.signed_out ≡ true

pub IsOut-matches :
    (w : World) (expected : Snapshot) → IsOut w → snapshot_matches w.account expected ≡ false
unfolding snapshot_matches
IsOut-matches w expected out = ground (arith, out)

module _ ⦃h : Host⦄ (server : Server) (digest : Account → String) (run : Run)
    (source : String) where
  -- A step that finds the user signed out leaves the world as it is.
  after_exchange-IsOut :
      (e : Exchange) (current : Snapshot) (w : World)
      → IsOut w
      → (after_exchange server digest run source e current w).1 ≡ w
  unfolding after_exchange
  after_exchange-IsOut (Exchange.revoked status) current w out = refl
  after_exchange-IsOut (refused status) current w out = refl
  after_exchange-IsOut (Exchange.failed status message) current w out = refl
  after_exchange-IsOut (issued token) current w out =
      let stale =
        (stale_snapshot_keeps_account w.account current token "" ""
          (IsOut-matches w current out)).1 in
      elim (Bool-cases (is_license_token_expired (some token) run.issued_at)) [
        | inl e ↦ rw e refl
        | inr e ↦ rw (e, stale) refl
      ]

  settle-IsOut : (r : Result) (w : World) → IsOut w → (settle server digest run source r w).2 ≡ w
  unfolding settle
  settle-IsOut (Result.rotated token expected) w out =
      rw (IsOut-matches w (record expected { token = some token }) out) refl
  settle-IsOut (Result.rejected status expected) w out = rw (IsOut-matches w expected out) refl
  settle-IsOut (Result.revoked status expected) w out =
      rw
        (stale_snapshot_keeps_account w.account expected "" "" run.uuid
          (IsOut-matches w expected out)).2
        refl
  settle-IsOut (Result.transient status message expected) w out =
      rw (IsOut-matches w expected out) refl
  settle-IsOut Result.superseded w out = refl

  settle-superseded : (w : World) → (settle server digest run source Result.superseded w).2 ≡ w
  unfolding settle
  settle-superseded w = refl

  exchange_step-IsOut :
      (id_token : String) (expected current : Snapshot) (w : World)
      → IsOut (run.during_exchange w)
      → (exchange_step server digest run source id_token expected current w).1
        ≡ run.during_exchange w
  unfolding exchange_step
  exchange_step-IsOut id_token expected current w out =
      after_exchange-IsOut
        (exchange_outcome
          (server.activate_endpoint id_token (elim expected.device_id [ none ↦ "" | some d ↦ d ])
            (or_null (some (get_license_tenant_slug expected.token))))
          (get_license_tenant_slug expected.token))
        current (run.during_exchange w) out

  after_grant-IsOut :
      (g : Grant) (refresh : String) (expected : Snapshot) (w : World)
      → IsOut w
      → IsOut (run.during_exchange w)
      → ((after_grant server digest run source g refresh expected w).1 ≡ w)
        ⊎ ((after_grant server digest run source g refresh expected w).1 ≡ run.during_exchange w)
  unfolding after_grant
  after_grant-IsOut (ended status error) refresh expected w out next_out = inl refl
  after_grant-IsOut (Grant.failed status message) refresh expected w out next_out = inl refl
  after_grant-IsOut (granted id_token next) refresh expected w out next_out =
      elim (Bool-cases (str_eq next refresh)) [
        | inl e ↦ rw e (inr (exchange_step-IsOut id_token expected expected w next_out))
        | inr e ↦
            let stale =
              (stale_snapshot_keeps_account w.account expected "" next ""
                (IsOut-matches w expected out)).0 in
            rw (e, stale) (inl refl)
      ]

  -- What a renewal and its record leave where the user signed out during the first request.
  StaysOut : World → World → Type 0
  StaysOut w final =
      IsOut final
      × ((final ≡ run.before_record (run.during_grant w))
          ⊎ (final ≡ run.before_record (run.during_exchange (run.during_grant w))))

  settle-StaysOut :
      (r : Result) (w w' : World)
      → ((x : World) → IsOut x → IsOut (run.before_record x))
      → IsOut (run.during_grant w)
      → IsOut (run.during_exchange (run.during_grant w))
      → (w' ≡ run.during_grant w) ⊎ (w' ≡ run.during_exchange (run.during_grant w))
      → StaysOut w (settle server digest run source r (run.before_record w')).2
  unfolding StaysOut
  settle-StaysOut r w w' stays out next_out (inl e) =
      let left = stays w' (subst IsOut (sym e) out) in
      let same = settle-IsOut r (run.before_record w') left in
      (subst IsOut (sym same) left, inl (same ∙ ap run.before_record e))
  settle-StaysOut r w w' stays out next_out (inr e) =
      let left = stays w' (subst IsOut (sym e) next_out) in
      let same = settle-IsOut r (run.before_record w') left in
      (subst IsOut (sym same) left, inr (same ∙ ap run.before_record e))

  renew-IsOut :
      (refresh : String) (w : World)
      → w.account.session.signed_out ≡ false
      → or_null (recovery_snapshot w.account).refresh_token ≡ some refresh
      → IsOut (run.during_grant w)
      → IsOut (run.during_exchange (run.during_grant w))
      → ((renew server digest run source (recovery_snapshot w.account) w).1 ≡ run.during_grant w)
        ⊎ ((renew server digest run source (recovery_snapshot w.account) w).1
            ≡ run.during_exchange (run.during_grant w))
  unfolding renew renew_via_broker
  renew-IsOut refresh w kept e out next_out =
      rw (e, renew, matches-recovery_snapshot w.account kept)
        (after_grant-IsOut (refresh_grant (server.token_endpoint refresh) refresh) refresh
          (recovery_snapshot w.account) (run.during_grant w) out next_out)

  -- A sign-out while the broker renews the refresh token is not undone by the renewal: where a
  -- renewal gets as far as its first request, the user signs out during that request, and no other
  -- process signs in again until the outcome is recorded, the user is signed out in the end, and the
  -- renewal has written nothing more, neither to the session nor to the refresh status: the world is
  -- as other processes left it, whether the renewal ended behind the first or the second request.
  pub signed_out_during_grant :
      (device_id refresh : String) (force : Bool) (w : World)
      → renewable server digest run source device_id (recovery_snapshot w.account) ≡ true
      → not force && not (is_license_token_expired (recovery_snapshot w.account).token run.started)
        ≡ false
      → or_null (recovery_snapshot w.account).refresh_token ≡ some refresh
      → ((x : World) → IsOut x → IsOut (run.before_record x))
      → IsOut (run.during_grant w)
      → IsOut (run.during_exchange (run.during_grant w))
      → ((renew_and_record server digest run source device_id force w).2.account.session.signed_out
          ≡ true)
        × (((renew_and_record server digest run source device_id force w).2
              ≡ run.before_record (run.during_grant w))
            ⊎ ((renew_and_record server digest run source device_id force w).2
                ≡ run.before_record (run.during_exchange (run.during_grant w))))
  unfolding renew_and_record StaysOut
  signed_out_during_grant device_id refresh force w able due e stays out next_out =
      let (r, w') = renew server digest run source (recovery_snapshot w.account) w in
      let kept = not_left w.account (ground (arith, able)) in
      rw (able, due)
        (settle-StaysOut r w w' stays out next_out (renew-IsOut refresh w kept e out next_out))
