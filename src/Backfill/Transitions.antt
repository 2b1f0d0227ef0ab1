-- ===== src/Backfill/Transitions.antt =====
-- The order of the backfill's transitions.
use skillmeter_claude_code_m.Prelude.{
  ℕ, leb, ◌+◌, ◌<◌, ◌≤◌, zero, suc, ◌≡◌, ◌≢◌, refl, Bool, true, false, not, ◌&&◌, Option, some,
  List, [], ◌∷◌, String, arith, str_eq, opt_eq, opt_eq_iff, eq_iff, any, take, length, All,
  if◌then◌else◌, if_intro,
}
use skillmeter_claude_code_m.Backfill.{
  running, declined, worker_is_gone, worker_error, running_stale_ms, no_progress, lifecycle_eq,
  Backfill, PriorOffer, Progress, prior_offers_of, finish_backfill, is_backfill_running,
  claim_backfill_offer, mark_backfill_declined, begin_backfill, covers,
  is_backfill_upload_authorized, update_backfill_progress, mark_backfill_delivered,
  max_prior_offers, accepted_offer,
}
use skillmeter_claude_code_m.Backfill.Consent.{
  Step, claim, decline, begin, advance, finish, deliver, check, apply_step, run_steps,
}

-- A claim never interrupts a run that counts as running, with a worker that is not known to be gone
-- and a state that is not stale: it is refused, and the state stays as it is.
pub running_is_not_claimed :
    (process_exists : ℕ → Bool) (uuid : String) (now : ℕ) (session : String) (manual : Bool)
    (s : Backfill)
    → (is_backfill_running process_exists now s).0 ≡ true
    → claim_backfill_offer process_exists uuid now session manual s ≡ (false, s)
unfolding claim_backfill_offer is_backfill_running
running_is_not_claimed process_exists uuid now session manual s h = ground (arith, h)

module _ (offer : String) where
  -- The offer is not waiting for an answer, and it never will be again.
  IsSpent : Backfill → Type 0
  IsSpent s = (lifecycle_eq s.status declined && opt_eq s.offer_id (some offer)) ≡ false

  abbrev pub DrawsNew : Step → Type 0
  DrawsNew (claim process_exists uuid now session manual) = uuid ≢ offer
  DrawsNew (decline o reason now) = Unit
  DrawsNew (begin o g ids keys tenant now) = Unit
  DrawsNew (advance o details now) = Unit
  DrawsNew (finish o success details now) = Unit
  DrawsNew (deliver o details now) = Unit
  DrawsNew (check process_exists now) = Unit

  finish-IsSpent :
      (o : Option String) (success : Bool) (details : Progress) (now : ℕ) (s : Backfill)
      → IsSpent s
      → IsSpent (finish_backfill o success details now s)
  unfolding IsSpent finish_backfill
  finish-IsSpent o true details now s h = ground (arith, h)
  finish-IsSpent o false details now s h = ground (arith, h)

  check-IsSpent :
      (process_exists : ℕ → Bool) (now : ℕ) (s : Backfill)
      → IsSpent s
      → IsSpent (is_backfill_running process_exists now s).1
  unfolding is_backfill_running
  check-IsSpent process_exists now s h =
      let P : Bool × Backfill → Type 0 = λ r. IsSpent r.1 in
      let gone = worker_is_gone process_exists s in
      let details : Progress = record no_progress { error = some (worker_error gone) } in
      let ended : Bool × Backfill = (false, finish_backfill s.offer_id false details now s) in
      let alive = not gone && leb now (s.updated_at + running_stale_ms) in
      if_intro P (not (lifecycle_eq s.status running)) (false, s)
        (if alive then (true, s) else ended) h
        (if_intro P alive (true, s) ended h (finish-IsSpent s.offer_id false details now s h))

  step-IsSpent : (st : Step) (s : Backfill) → DrawsNew st → IsSpent s → IsSpent (apply_step st s)
  unfolding apply_step IsSpent claim_backfill_offer mark_backfill_declined begin_backfill
      update_backfill_progress mark_backfill_delivered
  step-IsSpent (claim process_exists uuid now session manual) s d h =
      let before = check-IsSpent process_exists now s h in
      ground (arith, before, d, eq_iff uuid offer)
  step-IsSpent (decline o reason now) s d h = ground (arith, h)
  step-IsSpent (begin o g ids keys tenant now) s d h = ground (arith, h)
  step-IsSpent (advance o details now) s d h = ground (arith, h)
  step-IsSpent (finish o success details now) s d h = finish-IsSpent o success details now s h
  step-IsSpent (deliver o details now) s d h = ground (arith, h)
  step-IsSpent (check process_exists now) s d h = check-IsSpent process_exists now s h

  run-IsSpent :
      (steps : List Step) (s : Backfill)
      → All DrawsNew steps
      → IsSpent s
      → IsSpent (run_steps steps s)
  unfolding run_steps
  run-IsSpent [] s d h = h
  run-IsSpent (st ∷ steps) s d h = run-IsSpent steps (apply_step st s) d.1 (step-IsSpent st s d.0 h)

  begin-IsSpent :
      (org : String) (ids keys : List String) (tenant : Option String) (now : ℕ) (s : Backfill)
      → (begin_backfill offer org ids keys tenant now s).0 ≡ true
      → IsSpent (begin_backfill offer org ids keys tenant now s).1
  unfolding begin_backfill IsSpent
  begin-IsSpent org ids keys tenant now s h = ground (arith, h)

  refused :
      (org : String) (ids keys : List String) (tenant : Option String) (now : ℕ) (s : Backfill)
      → IsSpent s
      → begin_backfill offer org ids keys tenant now s ≡ (false, s)
  unfolding begin_backfill IsSpent
  refused org ids keys tenant now s h = ground (arith, h)

  -- An accepted offer starts at most once: after it has begun, whatever calls follow, it cannot
  -- begin again, as long as no later claim draws the same random id.
  pub begins_once :
      (org org' : String) (ids keys ids' keys' : List String) (tenant tenant' : Option String)
      (now now' : ℕ) (s : Backfill) (steps : List Step)
      → (begin_backfill offer org ids keys tenant now s).0 ≡ true
      → All DrawsNew steps
      → begin_backfill offer org' ids' keys' tenant' now'
          (run_steps steps (begin_backfill offer org ids keys tenant now s).1)
        ≡ (false, run_steps steps (begin_backfill offer org ids keys tenant now s).1)
  begins_once org org' ids keys ids' keys' tenant tenant' now now' s steps h d =
      refused org' ids' keys' tenant' now'
        (run_steps steps (begin_backfill offer org ids keys tenant now s).1)
        (run-IsSpent steps (begin_backfill offer org ids keys tenant now s).1 d
          (begin-IsSpent org ids keys tenant now s h))

any-take-all :
    (p : PriorOffer → Bool) (n : ℕ) (l : List PriorOffer)
    → length l ≤ n
    → any p (take n l) ≡ any p l
any-take-all p zero [] le = refl
any-take-all p zero (x ∷ l) le = absurd (ground arith)
any-take-all p (suc n) [] le = refl
any-take-all p (suc n) (x ∷ l) le =
    let rest = any-take-all p n l (omega arith) in ground (arith, rest)

module _ (offer org key : String) where
  IsKept : Backfill → Type 0
  IsKept s =
      (length s.prior_offers < max_prior_offers)
      × (is_backfill_upload_authorized offer org key s ≡ true)

  finish-IsKept :
      (o : Option String) (success : Bool) (details : Progress) (now : ℕ) (s : Backfill)
      → IsKept s
      → IsKept (finish_backfill o success details now s)
  unfolding IsKept finish_backfill is_backfill_upload_authorized
  finish-IsKept o success details now s (le, h) = (ground (arith, le), ground (arith, h))

  check-IsKept :
      (process_exists : ℕ → Bool) (now : ℕ) (s : Backfill)
      → IsKept s
      → IsKept (is_backfill_running process_exists now s).1
  unfolding is_backfill_running
  check-IsKept process_exists now s h =
      let P : Bool × Backfill → Type 0 = λ r. IsKept r.1 in
      let gone = worker_is_gone process_exists s in
      let details : Progress = record no_progress { error = some (worker_error gone) } in
      let ended : Bool × Backfill = (false, finish_backfill s.offer_id false details now s) in
      let alive = not gone && leb now (s.updated_at + running_stale_ms) in
      if_intro P (not (lifecycle_eq s.status running)) (false, s)
        (if alive then (true, s) else ended) h
        (if_intro P alive (true, s) ended h (finish-IsKept s.offer_id false details now s h))

  kept_offer :
      (s : Backfill)
      → IsKept s
      → (not (str_eq offer "") && any (covers offer org key) (prior_offers_of s)) ≡ true
  unfolding IsKept prior_offers_of is_backfill_upload_authorized
  kept_offer s (le, h) =
      let whole =
        any-take-all (covers offer org key) max_prior_offers (accepted_offer s ∷ s.prior_offers)
          (omega (arith, le)) in
      ground (arith, h, whole, opt_eq_iff s.offer_id (some offer), eq_iff offer "")

-- A new offer keeps the uploads of the earlier ones: while fewer than five are kept, a chunk that
-- is authorized before a claim is authorized after it.
pub claim_keeps_authorized :
    (offer org key : String) (process_exists : ℕ → Bool) (uuid : String) (now : ℕ)
    (session : String) (manual : Bool) (s : Backfill)
    → length s.prior_offers < max_prior_offers
    → is_backfill_upload_authorized offer org key s ≡ true
    → is_backfill_upload_authorized offer org key
        (claim_backfill_offer process_exists uuid now session manual s).1
      ≡ true
unfolding claim_backfill_offer is_backfill_upload_authorized IsKept
claim_keeps_authorized offer org key process_exists uuid now session manual s le h =
    let before = check-IsKept offer org key process_exists now s (le, h) in
    let kept = kept_offer offer org key (is_backfill_running process_exists now s).1 before in
    ground (arith, kept, before.1)
