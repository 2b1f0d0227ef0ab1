-- ===== src/Session/Intents.antt =====
-- Interleavings of sign-in, sign-out and renewal on one session.
use mathlib.Core.Path.{subst}
use skillmeter_claude_code_m.Prelude.{
  ◌≡◌, ◌↔◌, ap, sym, ◌∙◌, inl, inr, Bool-cases, refl, true, false, Option, none, some, List, [],
  ◌∷◌, String, arith, eq_iff, opt_eq, opt_eq_iff, All,
}
use skillmeter_claude_code_m.Jwt.{or_null}
use skillmeter_claude_code_m.Session.{
  Account, Snapshot, Intent, snapshot_matches, signin_matches, commit_rotation, commit_refresh,
  drop_revoked_license, sign_out, mark_engaged, commit_signin, get_license_token, is_signed_in,
  recovery_snapshot,
}

-- One write to the session, by any process, with what it was given.
pub data Write : Type 0 where
  rotate : Snapshot → String → Write
  renew : String → Snapshot → Write
  revoke : Snapshot → String → Write
  leave : String → Write
  engage : String → Write
  sign_in : String → Option String → Intent → String → Write

unfoldable pub apply_write : Write → Account → Account
apply_write (rotate expected token) a = (commit_rotation expected token a).0
apply_write (renew jwt expected) a = (commit_refresh jwt expected a).0
apply_write (revoke expected uuid) a = (drop_revoked_license expected uuid a).0
apply_write (leave uuid) a = sign_out uuid a
apply_write (engage uuid) a = mark_engaged uuid a
apply_write (sign_in jwt token expected uuid) a = (commit_signin jwt token (some expected) uuid a).0

unfoldable pub run_writes : List Write → Account → Account
unfolding apply_write
run_writes [] a = a
run_writes (w ∷ writes) a = run_writes writes (apply_write w a)

-- A write that is not bound to the session's snapshot leaves the account as it is.
pub stale_snapshot_keeps_account :
    (a : Account) (expected : Snapshot) (jwt token uuid : String)
    → snapshot_matches a expected ≡ false
    → (commit_rotation expected token a ≡ (a, false))
      × (commit_refresh jwt expected a ≡ (a, false))
      × (drop_revoked_license expected uuid a ≡ (a, false))
unfolding commit_rotation commit_refresh drop_revoked_license
stale_snapshot_keeps_account a expected jwt token uuid h = (rw h, rw h, rw h)

-- Every UUID that the write draws is new, and a sign-in that it commits was started under an old
-- one.
module _ (Old : String → Type 0) where
  abbrev pub IsLate : Write → Type 0
  IsLate (rotate expected token) = Unit {0}
  IsLate (renew jwt expected) = Unit {0}
  IsLate (revoke expected uuid) = ¬ Old uuid
  IsLate (leave uuid) = ¬ Old uuid
  IsLate (engage uuid) = ¬ Old uuid
  IsLate (sign_in jwt token expected uuid) =
      ((g : String) × (expected.generation ≡ some g) × Old g) × (¬ Old uuid)

  -- Signed out, under a generation that is not old.
  record IsLeft (a : Account) : Type 0 where
    out : a.session.signed_out ≡ true
    fresh : (g : String) → or_null a.session.auth_generation ≡ some g → ¬ Old g

  or_null_fresh : (uuid g : String) → ¬ Old uuid → or_null (some uuid) ≡ some g → ¬ Old g
  or_null_fresh uuid g new e = subst (λ s. ¬ Old s) (ground (arith, eq_iff uuid "")) new

  IsLeft-matches :
      (a : Account) (expected : Snapshot) → IsLeft a → snapshot_matches a expected ≡ false
  unfolding snapshot_matches
  IsLeft-matches a expected left = ground (arith, left.out)

  IsLeft-signin_matches :
      (a : Account) (expected : Intent) (g : String)
      → IsLeft a
      → expected.generation ≡ some g
      → Old g
      → signin_matches a expected ≡ false
  unfolding signin_matches
  IsLeft-signin_matches a expected g left e old =
      elim (Bool-cases (opt_eq (or_null a.session.auth_generation) expected.generation)) [
        | inl same ↦ absurd (
            left.fresh g
              ((opt_eq_iff (or_null a.session.auth_generation) expected.generation).0 same ∙ e) old)
        | inr other ↦ rw other
      ]

  apply_write-IsLeft : (w : Write) (a : Account) → IsLate w → IsLeft a → IsLeft (apply_write w a)
  unfolding apply_write sign_out mark_engaged commit_signin
  apply_write-IsLeft (rotate expected token) a late left =
      subst IsLeft
        (ap (λ r. r.0)
          (sym
            (stale_snapshot_keeps_account a expected "" token ""
              (IsLeft-matches a expected left)).0))
        left
  apply_write-IsLeft (renew jwt expected) a late left =
      subst IsLeft
        (ap (λ r. r.0)
          (sym
            (stale_snapshot_keeps_account a expected jwt "" "" (IsLeft-matches a expected left)).1))
        left
  apply_write-IsLeft (revoke expected uuid) a late left =
      subst IsLeft
        (ap (λ r. r.0)
          (sym
            (stale_snapshot_keeps_account a expected "" "" uuid
              (IsLeft-matches a expected left)).2))
        left
  apply_write-IsLeft (leave uuid) a late left = record {
    out = refl;
    fresh = λ g e. or_null_fresh uuid g late e;
  }
  apply_write-IsLeft (engage uuid) a late left = record {
    out = left.out;
    fresh = λ g e. or_null_fresh uuid g late e;
  }
  apply_write-IsLeft (sign_in jwt token expected uuid) a ((g, e, old), new) left =
      rw (IsLeft-signin_matches a expected g left e old, apply_write, commit_signin) left

  run_writes-IsLeft :
      (writes : List Write) (a : Account)
      → All IsLate writes
      → IsLeft a
      → IsLeft (run_writes writes a)
  unfolding run_writes
  run_writes-IsLeft [] a late left = left
  run_writes-IsLeft (w ∷ writes) a late left =
      run_writes-IsLeft writes (apply_write w a) late.1 (apply_write-IsLeft w a late.0 left)

  IsLeft-sign_out : (uuid : String) (a : Account) → ¬ Old uuid → IsLeft (sign_out uuid a)
  unfolding sign_out
  IsLeft-sign_out uuid a new = record { out = refl; fresh = λ g e. or_null_fresh uuid g new e }

-- After a sign-out, no interleaving of token rotations, renewals, revocations, further sign-outs,
-- newly started sign-ins, and commits of sign-ins that started earlier makes the client signed in
-- again, or leaves it a license, as long as no random UUID repeats an earlier one.
pub sign_out_final :
    (Old : String → Type 0) (uuid : String) (a : Account) (writes : List Write)
    → ¬ Old uuid
    → All (IsLate Old) writes
    → (is_signed_in (run_writes writes (sign_out uuid a)) ≡ false)
      × (get_license_token (run_writes writes (sign_out uuid a)) ≡ none)
unfolding is_signed_in
sign_out_final Old uuid a writes new late =
    let left =
      run_writes-IsLeft Old writes (sign_out uuid a) late (IsLeft-sign_out Old uuid a new) in
    (ground (arith, left.out), ground (arith, left.out))

snapshot_matches_iff :
    (a : Account) (expected : Snapshot)
    → or_null expected.refresh_token ≡ expected.refresh_token
    → (snapshot_matches a expected ≡ true)
      ↔ ((recovery_snapshot a ≡ expected) × (a.session.signed_out ≡ false))
unfolding snapshot_matches recovery_snapshot
snapshot_matches_iff a expected whole = ground (
  arith,
  opt_eq_iff (or_null a.session.license_jwt) expected.token,
  opt_eq_iff (or_null a.session.refresh_token) (or_null expected.refresh_token),
  opt_eq_iff (or_null a.session.auth_generation) expected.generation,
  opt_eq_iff (or_null a.device_id) expected.device_id,
)

-- For a snapshot whose refresh token is not the empty text, a rotation, a renewal or a revocation
-- is written exactly when the session, its intent and the device are still those of the snapshot
-- and no sign-out is recorded. Where it is not written, the account stays as it is.
pub commit_iff_current :
    (a : Account) (expected : Snapshot) (jwt token uuid : String)
    → or_null expected.refresh_token ≡ expected.refresh_token
    → (((commit_rotation expected token a).1 ≡ true)
        ↔ ((recovery_snapshot a ≡ expected) × (a.session.signed_out ≡ false)))
      × (((commit_refresh jwt expected a).1 ≡ true)
          ↔ ((recovery_snapshot a ≡ expected) × (a.session.signed_out ≡ false)))
      × (((drop_revoked_license expected uuid a).1 ≡ true)
          ↔ ((recovery_snapshot a ≡ expected) × (a.session.signed_out ≡ false)))
      × ((commit_rotation expected token a).1 ≡ false → (commit_rotation expected token a).0 ≡ a)
      × ((commit_refresh jwt expected a).1 ≡ false → (commit_refresh jwt expected a).0 ≡ a)
      × ((drop_revoked_license expected uuid a).1 ≡ false
          → (drop_revoked_license expected uuid a).0 ≡ a)
unfolding commit_rotation commit_refresh drop_revoked_license
commit_iff_current a expected jwt token uuid whole =
    elim (Bool-cases (snapshot_matches a expected)) [
      | inl e ↦
          let iff = rw e at (snapshot_matches_iff a expected whole) in
          rw e (iff, iff, iff, λ x. cc, λ x. cc, λ x. cc)
      | inr e ↦
          let iff = rw e at (snapshot_matches_iff a expected whole) in
          rw e (iff, iff, iff, λ _. refl, λ _. refl, λ _. refl)
    ]
