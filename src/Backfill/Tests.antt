-- ===== src/Backfill/Tests.antt =====
-- The backfill's lifecycle at concrete inputs.
use skillmeter_claude_code_m.Prelude.{ℕ, ◌≡◌, ◌⊎◌, refl, Bool, true, false, some, List, [], ◌∷◌}
use skillmeter_claude_code_m.Jwt.{distinct}
use skillmeter_claude_code_m.Backfill.{
  Backfill, running, declined, pending, new_state, no_progress, begin_backfill,
  claim_backfill_offer, is_backfill_running, is_backfill_upload_authorized, prior_offers_of,
  finish_backfill, worker_is_gone,
}
use skillmeter_claude_code_m.Backfill.Consent.{
  Step, claim, begin, finish, run_steps, AcceptedIn, authorized_was_accepted,
}

abbrev alive : ℕ → Bool
alive pid = true

abbrev installed : Backfill
installed = new_state "l1" 5 pending "one_time_offer"

abbrev accepted_steps : List Step
accepted_steps =
    claim alive "o1" 10 "" false
    ∷ begin "o1" "acme" ("r1" ∷ []) ("acme/tool" ∷ "acme/site" ∷ []) (some "t1") 20
    ∷ finish (some "o1") true no_progress 30
    ∷ claim alive "o2" 40 "" true
    ∷ []

still_authorized :
    is_backfill_upload_authorized "o1" "acme" "acme/site" (run_steps (accepted_steps) installed)
    ≡ true
unfolding run_steps is_backfill_upload_authorized claim_backfill_offer begin_backfill
    finish_backfill is_backfill_running prior_offers_of distinct
still_authorized = refl

authorized_was_accepted_example :
    (is_backfill_upload_authorized "o1" "acme" "acme/site" installed ≡ true)
    ⊎ AcceptedIn "o1" "acme" "acme/site" accepted_steps
authorized_was_accepted_example =
    authorized_was_accepted "o1" "acme" "acme/site" accepted_steps installed still_authorized

abbrev offered : Backfill
offered = record installed { status = declined; reason = "offer_consumed"; offer_id = some "o1" }

abbrev importing : Backfill
importing = record offered {
  status = running;
  org = some "acme";
  repository_keys = "acme/tool" ∷ [];
  tenant_fingerprint = some "t1";
  upload_authorized = true;
  updated_at = 20;
}

is_importing : (is_backfill_running alive 30 importing).0 ≡ true
unfolding is_backfill_running worker_is_gone
is_importing = refl

begun : (begin_backfill "o1" "acme" [] ("acme/tool" ∷ []) (some "t1") 20 offered).0 ≡ true
unfolding begin_backfill
begun = refl

importing_authorized : is_backfill_upload_authorized "o1" "acme" "acme/tool" importing ≡ true
unfolding is_backfill_upload_authorized
importing_authorized = refl
