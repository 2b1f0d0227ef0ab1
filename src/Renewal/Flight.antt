-- ===== src/Renewal/Flight.antt =====
-- One renewal at a time: the lock of `ensure_fresh`.
use skillmeter_claude_code_m.Prelude.{
  ◌≡◌, ◌⊎◌, inl, inr, refl, Bool, true, false, not, ◌&&◌, Option, none, some, String, arith,
  if◌then◌else◌, if_intro,
}
use skillmeter_claude_code_m.Host.{Host}
use skillmeter_claude_code_m.Session.{
  Account, Snapshot, recovery_snapshot, is_license_token_expired,
}
use skillmeter_claude_code_m.Status.{read_license_status, refresh_blocked_reason}
use skillmeter_claude_code_m.Renewal.Requests.{Server}
use skillmeter_claude_code_m.Renewal.{
  World, Run, Ending, renew_and_record, license_after, renewable, is_blocked, ensure_locked,
  ensure_fresh,
}

module _ ⦃h : Host⦄ (server : Server) (digest : Account → String) (run : Run)
    (source : String) where
  license_after-free :
      (r : Ending × Option String × World)
      → (license_after server digest run source r).1.renewing ≡ false
  license_after-free (ending, some token, w) = refl
  license_after-free (ending, none, w) = refl

  ensure_locked-free :
      (device_id : String) (snapshot : Snapshot) (w : World)
      → (ensure_locked server digest run source device_id snapshot w).1.renewing ≡ false
  unfolding ensure_locked
  ensure_locked-free device_id snapshot w =
      let r = license_after-free (renew_and_record server digest run source device_id true w) in
      ground (arith, r)

  -- A property of each way out of `ensure_fresh` is one of its result.
  ensure_fresh-any :
      (P : Option String × World → Type 0) (device_id : String) (force : Bool) (w : World)
      → ((token : Option String) → P (token, w))
      → P (
          if (run.before_lock w).renewing
          then ((recovery_snapshot w.account).token, run.before_lock w)
          else ensure_locked server digest run source device_id
              (recovery_snapshot w.account)
              (record (run.before_lock w) { renewing = true }))
      → P (ensure_fresh server digest run source device_id force w)
  unfolding ensure_fresh
  ensure_fresh-any P device_id force w same last =
      let token = (recovery_snapshot w.account).token in
      let kept : Option String × World = (token, w) in
      let nothing : Option String × World = (none, w) in
      let flight =
        if (run.before_lock w).renewing
        then (token, run.before_lock w)
        else ensure_locked server digest run source device_id (recovery_snapshot w.account)
            (record (run.before_lock w) { renewing = true }) in
      let blocked =
        is_blocked server digest run source
          (refresh_blocked_reason (read_license_status w.file (digest w.account)) run.started) in
      let is_fresh = not force && not (is_license_token_expired token run.started) in
      if_intro P (not (renewable server digest run source device_id (recovery_snapshot w.account)))
        nothing (if is_fresh then kept else if blocked then kept else flight) (same none)
        (if_intro P is_fresh kept (if blocked then kept else flight) (same token)
          (if_intro P blocked kept flight (same token) last))

  -- While another process holds the renewal lock, a call writes nothing and asks no server: the
  -- world is as it was or as others left it before the lock was tried. A call that finds the lock
  -- free leaves it free on every path.
  pub ensure_fresh-lock :
      (device_id : String) (force : Bool) (w : World)
      → ((run.before_lock w).renewing ≡ true
          → ((ensure_fresh server digest run source device_id force w).1 ≡ w)
            ⊎ ((ensure_fresh server digest run source device_id force w).1 ≡ run.before_lock w))
        × (w.renewing ≡ false
            → (run.before_lock w).renewing ≡ false
            → (ensure_fresh server digest run source device_id force w).1.renewing ≡ false)
  ensure_fresh-lock device_id force w = (
    λ busy.
        ensure_fresh-any (λ r. (r.1 ≡ w) ⊎ (r.1 ≡ run.before_lock w)) device_id force w
          (λ token. inl refl) (rw busy (inr refl)),
    λ free later.
        ensure_fresh-any (λ r. r.1.renewing ≡ false) device_id force w (λ token. free)
          (rw later (
            ensure_locked-free device_id (recovery_snapshot w.account)
              (record (run.before_lock w) { renewing = true }))),
  )
