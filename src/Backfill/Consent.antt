-- ===== src/Backfill/Consent.antt =====
-- Consent to the backfill: the offers, and the organizations and repositories that they name.
use skillmeter_claude_code_m.Prelude.{
  ℕ, leb, ◌+◌, zero, suc, ◌≡◌, ◌⊎◌, inl, inr, Bool, true, false, not, ◌&&◌, ◌||◌, Option, some,
  List, [], ◌∷◌, String, arith, opt_eq_iff, eq_iff, any, take, if◌then◌else◌, if_intro,
}
use skillmeter_claude_code_m.Jwt.{distinct}
use skillmeter_claude_code_m.Backfill.{
  running, worker_is_gone, worker_error, running_stale_ms, no_progress, lifecycle_eq, Backfill,
  PriorOffer, Progress, prior_offers_of, finish_backfill, is_backfill_running, claim_backfill_offer,
  mark_backfill_declined, begin_backfill, includes, covers, is_backfill_upload_authorized,
  update_backfill_progress, mark_backfill_delivered, max_prior_offers, accepted_offer,
}

-- One call of the module, by any process.
pub data Step : Type 0 where
  claim : (ℕ → Bool) → String → ℕ → String → Bool → Step
  decline : String → String → ℕ → Step
  begin : String → String → List String → List String → Option String → ℕ → Step
  advance : String → Progress → ℕ → Step
  finish : Option String → Bool → Progress → ℕ → Step
  deliver : Option String → Progress → ℕ → Step
  check : (ℕ → Bool) → ℕ → Step

unfoldable pub apply_step : Step → Backfill → Backfill
apply_step (claim process_exists uuid now session manual) s =
    (claim_backfill_offer process_exists uuid now session manual s).1
apply_step (decline offer reason now) s = mark_backfill_declined offer reason now s
apply_step (begin offer org ids keys tenant now) s =
    (begin_backfill offer org ids keys tenant now s).1
apply_step (advance offer details now) s = update_backfill_progress offer details now s
apply_step (finish offer success details now) s = finish_backfill offer success details now s
apply_step (deliver offer details now) s = (mark_backfill_delivered offer details now s).1
apply_step (check process_exists now) s = (is_backfill_running process_exists now s).1

unfoldable pub run_steps : List Step → Backfill → Backfill
unfolding apply_step
run_steps [] s = s
run_steps (st ∷ steps) s = run_steps steps (apply_step st s)

any-take :
    (p : PriorOffer → Bool) (n : ℕ) (l : List PriorOffer) → any p (take n l) ≡ true → any p l ≡ true
any-take p zero l h = ground (arith, h)
any-take p (suc n) [] h = h
any-take p (suc n) (x ∷ l) h = let rest = any-take p n l in ground (arith, h, rest)

module _ (offer org key : String) where
  -- The user accepted `offer` for `org` and for repositories that include `key`.
  abbrev pub Accepts : Step → Type 0
  Accepts (begin o g ids keys tenant now) = (o ≡ offer) × (g ≡ org) × (includes key keys ≡ true)
  Accepts (claim process_exists uuid now session manual) = ⊥
  Accepts (decline o reason now) = ⊥
  Accepts (advance o details now) = ⊥
  Accepts (finish o success details now) = ⊥
  Accepts (deliver o details now) = ⊥
  Accepts (check process_exists now) = ⊥

  abbrev pub AcceptedIn : List Step → Type 0
  AcceptedIn [] = ⊥
  AcceptedIn (st ∷ steps) = Accepts st ⊎ AcceptedIn steps

  -- The state after a step authorizes no more than the state before it.
  NoMore : Backfill → Backfill → Type 0
  NoMore s t =
      is_backfill_upload_authorized offer org key t ≡ true
      → is_backfill_upload_authorized offer org key s ≡ true

  finish-NoMore :
      (o : Option String) (success : Bool) (details : Progress) (now : ℕ) (s : Backfill)
      → NoMore s (finish_backfill o success details now s)
  unfolding NoMore finish_backfill is_backfill_upload_authorized
  finish-NoMore o success details now s h = ground (arith, h)

  check-NoMore :
      (process_exists : ℕ → Bool) (now : ℕ) (s : Backfill)
      → NoMore s (is_backfill_running process_exists now s).1
  unfolding NoMore is_backfill_running
  check-NoMore process_exists now s =
      let P : Bool × Backfill → Type 0 = λ r. NoMore s r.1 in
      let gone = worker_is_gone process_exists s in
      let details : Progress = record no_progress { error = some (worker_error gone) } in
      let ended : Bool × Backfill = (false, finish_backfill s.offer_id false details now s) in
      let alive = not gone && leb now (s.updated_at + running_stale_ms) in
      if_intro P (not (lifecycle_eq s.status running)) (false, s)
        (if alive then (true, s) else ended) (λ h. h)
        (if_intro P alive (true, s) ended (λ h. h) (finish-NoMore s.offer_id false details now s))

  decline-NoMore :
      (o reason : String) (now : ℕ) (s : Backfill)
      → NoMore s (mark_backfill_declined o reason now s)
  unfolding NoMore mark_backfill_declined is_backfill_upload_authorized
  decline-NoMore o reason now s h = ground (arith, h)

  advance-NoMore :
      (o : String) (details : Progress) (now : ℕ) (s : Backfill)
      → NoMore s (update_backfill_progress o details now s)
  unfolding NoMore update_backfill_progress is_backfill_upload_authorized
  advance-NoMore o details now s h = ground (arith, h)

  deliver-NoMore :
      (o : Option String) (details : Progress) (now : ℕ) (s : Backfill)
      → NoMore s (mark_backfill_delivered o details now s).1
  unfolding NoMore mark_backfill_delivered is_backfill_upload_authorized
  deliver-NoMore o details now s h = ground (arith, h)

  any-prior_offers_of :
      (s : Backfill)
      → any (covers offer org key) (prior_offers_of s) ≡ true
      → (s.upload_authorized && covers offer org key (accepted_offer s)
          || any (covers offer org key) s.prior_offers)
        ≡ true
  unfolding prior_offers_of
  any-prior_offers_of s h =
      let rest =
        any-take (covers offer org key) max_prior_offers (accepted_offer s ∷ s.prior_offers) in
      ground (arith, h, rest)

  claimed-NoMore :
      (process_exists : ℕ → Bool) (uuid : String) (now : ℕ) (session : String) (manual : Bool)
      (s : Backfill)
      → NoMore
          (is_backfill_running process_exists now s).1
          (claim_backfill_offer process_exists uuid now session manual s).1
  unfolding NoMore claim_backfill_offer is_backfill_upload_authorized
  claimed-NoMore process_exists uuid now session manual s h =
      let before = (is_backfill_running process_exists now s).1 in
      ground (arith, h, any-prior_offers_of before)

  includes-distinct :
      (seen keys : List String)
      → includes key (distinct seen keys) ≡ true
      → includes key keys ≡ true
  unfolding distinct
  includes-distinct seen [] h = h
  includes-distinct seen (k ∷ keys) h =
      let kept = includes-distinct seen keys in
      let added = includes-distinct (k ∷ seen) keys in ground (arith, h, kept, added)

  begin-Accepts :
      (o g : String) (ids keys : List String) (tenant : Option String) (now : ℕ) (s : Backfill)
      → is_backfill_upload_authorized offer org key (begin_backfill o g ids keys tenant now s).1
        ≡ true
      → (is_backfill_upload_authorized offer org key s ≡ true)
        ⊎ Accepts (begin o g ids keys tenant now)
  unfolding begin_backfill is_backfill_upload_authorized
  begin-Accepts o g ids keys tenant now s h =
      let kept = includes-distinct [] keys in
      ground (
        arith,
        h,
        kept,
        opt_eq_iff s.offer_id (some o),
        opt_eq_iff s.offer_id (some offer),
        eq_iff o offer,
        eq_iff g org,
      )

  step-Accepts :
      (st : Step) (s : Backfill)
      → is_backfill_upload_authorized offer org key (apply_step st s) ≡ true
      → (is_backfill_upload_authorized offer org key s ≡ true) ⊎ Accepts st
  unfolding apply_step NoMore
  step-Accepts (claim process_exists uuid now session manual) s h = inl (
      check-NoMore process_exists now s (claimed-NoMore process_exists uuid now session manual s h))
  step-Accepts (decline o reason now) s h = inl (decline-NoMore o reason now s h)
  step-Accepts (begin o g ids keys tenant now) s h = begin-Accepts o g ids keys tenant now s h
  step-Accepts (advance o details now) s h = inl (advance-NoMore o details now s h)
  step-Accepts (finish o success details now) s h = inl (finish-NoMore o success details now s h)
  step-Accepts (deliver o details now) s h = inl (deliver-NoMore o details now s h)
  step-Accepts (check process_exists now) s h = inl (check-NoMore process_exists now s h)

  -- Every upload that the backfill state authorizes after any sequence of calls was authorized
  -- before them, or one of the calls accepted that very offer for the organization and for
  -- repositories that include the chunk's: no claim, progress, end or delivery widens a consent.
  pub authorized_was_accepted :
      (steps : List Step) (s : Backfill)
      → is_backfill_upload_authorized offer org key (run_steps steps s) ≡ true
      → (is_backfill_upload_authorized offer org key s ≡ true) ⊎ AcceptedIn steps
  unfolding run_steps
  authorized_was_accepted [] s h = inl h
  authorized_was_accepted (st ∷ steps) s h =
      elim (authorized_was_accepted steps (apply_step st s) h) [
        | inr later ↦ inr (inr later)
        | inl before ↦ elim (step-Accepts st s before) [
          | inl earlier ↦ inl earlier
          | inr now ↦ inr (inl now)
        ]
      ]
