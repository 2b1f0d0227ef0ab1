-- ===== src/Signin/Completion.antt =====
-- What a completed sign-in has stored.
use skillmeter_claude_code_m.Prelude.{
  ℕ, true, false, Option, some, Bool-cases, List, String, ◌≡◌, ◌≢◌, inl, inr, refl, arith,
}
use skillmeter_claude_code_m.Host.{Host}
use skillmeter_claude_code_m.Jwt.{or_null}
use skillmeter_claude_code_m.Session.{Account, Intent, signin_matches, commit_signin}
use skillmeter_claude_code_m.Renewal.Requests.{Exchange, issued, ExchangeReply, exchange_outcome}
use skillmeter_claude_code_m.Signin.{
  Reply, Polled, approved, failed, waiting, poll_device_token, Signin, signed_in,
  exchange_for_license, after_poll, complete_signin,
}

module _ ⦃h : Host⦄ (activate : String → Option String → ExchangeReply) where
  -- Nothing is stored and no sign-in is reported, or the poll was approved, the server issued the
  -- license for that approval, the intent was current, and the license and refresh token are stored.
  pub data Completes (expected : Intent) (a : Account) (polled : Polled)
      : Signin × Account → Type 0 where
    stores_nothing :
        (result : Signin)
        → ((jwt : String) → result ≢ signed_in jwt)
        → Completes expected a polled (result, a)
    stores :
        (id refresh jwt : String) (a' : Account)
        → polled ≡ approved id refresh
        → exchange_outcome (activate id expected.device_id) "" ≡ issued jwt
        → signin_matches a expected ≡ true
        → a'.session.license_jwt ≡ some jwt
        → a'.session.refresh_token ≡ or_null (some refresh)
        → a'.session.signed_out ≡ false
        → Completes expected a polled (signed_in jwt, a')

  exchanged-Completes :
      (expected : Intent) (uuid : String) (a : Account) (id refresh : String) (reply : Exchange)
      → exchange_outcome (activate id expected.device_id) "" ≡ reply
      → Completes expected a
          (approved id refresh)
          (exchange_for_license activate reply refresh expected uuid a)
  unfolding commit_signin
  exchanged-Completes expected uuid a id refresh (issued jwt) e =
      elim (Bool-cases (signin_matches a expected)) [
        | inl current ↦ rw (current) (stores id refresh jwt _ refl e current refl refl refl)
        | inr old ↦ rw (old) (stores_nothing _ (λ j same. ground (arith, same)))
      ]
  exchanged-Completes expected uuid a id refresh (Exchange.revoked status) e =
      stores_nothing _ (λ j same. ground (arith, same))
  exchanged-Completes expected uuid a id refresh (Exchange.refused status) e =
      stores_nothing _ (λ j same. ground (arith, same))
  exchanged-Completes expected uuid a id refresh (Exchange.failed status message) e =
      stores_nothing _ (λ j same. ground (arith, same))

  after_poll-Completes :
      (expected : Intent) (uuid : String) (a : Account) (polled : Polled)
      → Completes expected a polled (after_poll activate polled expected uuid a)
  after_poll-Completes expected uuid a waiting = stores_nothing _ (λ j same. ground (arith, same))
  after_poll-Completes expected uuid a (failed why) =
      stores_nothing _ (λ j same. ground (arith, same))
  after_poll-Completes expected uuid a (approved id refresh) =
      exchanged-Completes expected uuid a id refresh _ refl

  -- Completing a sign-in either changes nothing in the store and reports no sign-in, or it reports
  -- the license that the server issued for the approved ID token while the intent was still
  -- current, and that license and the refresh token are then stored and the sign-out is gone.
  pub complete_signin-Completes :
      (interval : ℕ) (replies : List Reply) (expected : Intent) (uuid : String) (a : Account)
      → Completes expected a
          (poll_device_token interval replies).0
          (complete_signin activate interval replies expected uuid a)
  unfolding complete_signin
  complete_signin-Completes interval replies expected uuid a =
      after_poll-Completes expected uuid a (poll_device_token interval replies).0
