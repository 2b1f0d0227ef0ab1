-- ===== src/Signin/Polling.antt =====
-- The loop's outcome and its waits.
use skillmeter_claude_code_m.Prelude.{
  ℕ, zero, suc, ◌+◌, ◌*◌, ◌≤◌, Bool, true, false, ◌&&◌, ◌||◌, all, length, take, get_elem?, Option,
  none, some, Bool-cases, opt_eq, opt_eq_iff, List, [], ◌∷◌, ◌++◌, String, if◌then◌else◌, ◌≡◌, refl,
  ap, ◌∙◌, inl, inr, arith,
}
use skillmeter_claude_code_m.Jwt.{or_null}
use skillmeter_claude_code_m.Signin.{
  GrantAnswer, Reply, answered, thrown, Polled, Verdict, settled, again, by_tokens, verdict,
  wait_first, poll_device_token,
}

abbrev is_null : Option String → Bool
is_null none = true
is_null (some s) = false

abbrev pub asks_to_slow_down : Reply → Bool
asks_to_slow_down (thrown message) = false
asks_to_slow_down (answered a) = opt_eq a.error (some "slow_down")

-- The grant is open: there is no token, and the error is one of the two that say so.
abbrev pub is_pending : Reply → Bool
is_pending (thrown message) = false
is_pending (answered a) =
    is_null (or_null a.id_token)
    && is_null (or_null a.access_token)
    && (opt_eq a.error (some "authorization_pending") || opt_eq a.error (some "slow_down"))

abbrev pub slow_downs : List Reply → ℕ
slow_downs [] = 0
slow_downs (r ∷ replies) =
    if asks_to_slow_down r then suc (slow_downs replies) else slow_downs replies

by_tokens-pending :
    (id access : Option String) (a : GrantAnswer)
    → (is_null id
        && is_null access
        && (opt_eq a.error (some "authorization_pending") || opt_eq a.error (some "slow_down")))
      ≡ true
    → by_tokens id access a ≡ again (if opt_eq a.error (some "slow_down") then 5 else 0)
by_tokens-pending (some id) access a e = ground (arith, e)
by_tokens-pending none (some access) a e = ground (arith, e)
by_tokens-pending none none a e =
    elim (Bool-cases (opt_eq a.error (some "authorization_pending"))) [
      | inl pending ↦ rw ((opt_eq_iff a.error (some "authorization_pending")).0 pending) refl
      | inr other ↦ ground (arith, e, other)
    ]

verdict-pending :
    (r : Reply) → is_pending r ≡ true → verdict r ≡ again (if asks_to_slow_down r then 5 else 0)
unfolding verdict
verdict-pending (thrown message) e = ground (arith, e)
verdict-pending (answered a) e = by_tokens-pending (or_null a.id_token) (or_null a.access_token) a e

abbrev pub Waits : ℕ → List Reply → List ℕ → Type 0
Waits interval before waits =
    (k : ℕ)
    → k ≤ length before
    → get_elem? waits k ≡ some (interval + 5 * slow_downs (take k before))

Waits-once : (interval : ℕ) → Waits interval [] (interval ∷ [])
Waits-once interval zero le = ground arith
Waits-once interval (suc k) le = ground (arith, le)

Waits-wait_first :
    (interval : ℕ) (r : Reply) (before : List Reply) (waits : List ℕ)
    → Waits (interval + (if asks_to_slow_down r then 5 else 0)) before waits
    → Waits interval (r ∷ before) (interval ∷ waits)
Waits-wait_first interval r before waits w zero le = ground arith
Waits-wait_first interval r before waits w (suc k) le = ground (arith, w k (ground (arith, le)))

abbrev proceed : ℕ → List Reply → Verdict → Polled × List ℕ
proceed interval replies (settled polled) = (polled, interval ∷ [])
proceed interval replies (again extra) =
    wait_first interval (poll_device_token (interval + extra) replies)

proceed_elim :
    (interval : ℕ) (replies : List Reply) (v : Verdict)
    → elim v as (λ _. Polled × List ℕ) [
      | settled polled ↦ (polled, interval ∷ [])
      | again extra ↦ wait_first interval (poll_device_token (interval + extra) replies)
    ]
      ≡ proceed interval replies v
proceed_elim interval replies (settled polled) = refl
proceed_elim interval replies (again extra) = refl

poll_proceed :
    (interval : ℕ) (r : Reply) (replies : List Reply) (v : Verdict)
    → verdict r ≡ v
    → poll_device_token interval (r ∷ replies) ≡ proceed interval replies v
unfolding poll_device_token
poll_proceed interval r replies v e =
    ap
      (λ x. elim x [
        | settled polled ↦ (polled, interval ∷ [])
        | again extra ↦ wait_first interval (poll_device_token (interval + extra) replies)
      ])
      e
    ∙ proceed_elim interval replies v

-- Where the first answers leave the grant open and the next one settles it, the poll ends with what
-- that answer says, whatever would come after it. It has asked once for each of these answers, and
-- before each request it has waited the first interval and five seconds more for every answer so
-- far that asked to slow down.
pub poll_device_token_lem :
    (interval : ℕ) (before : List Reply) (last : Reply) (after : List Reply) (polled : Polled)
    → all is_pending before ≡ true
    → verdict last ≡ settled polled
    → ((poll_device_token interval (before ++ last ∷ after)).0 ≡ polled)
      × (length (poll_device_token interval (before ++ last ∷ after)).1 ≡ suc (length before))
      × Waits interval before (poll_device_token interval (before ++ last ∷ after)).1
poll_device_token_lem interval [] last after polled is_open e =
    rw (poll_proceed interval last after _ e) (refl, refl, Waits-once interval)
poll_device_token_lem interval (r ∷ before) last after polled is_open e =
    let extra : ℕ = if asks_to_slow_down r then 5 else 0 in
    let rest =
      poll_device_token_lem (interval + extra) before last after polled (ground (arith, is_open))
        e in
    rw
      (poll_proceed interval r (before ++ last ∷ after) _
        (verdict-pending r (ground (arith, is_open))))
      (rest.0, ap suc rest.1, Waits-wait_first interval r before _ rest.2)
