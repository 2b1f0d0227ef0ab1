-- ===== src/Transcript/Tests.antt =====
-- transcript-delta.js at concrete inputs.
use skillmeter_claude_code_m.Prelude.{
  ℕ, ◌≡◌, refl, true, false, Option, none, some, List, [], ◌∷◌, ◌++◌, String, arith, length, drop,
  All, str_eq, if◌then◌else◌, ◌*◌,
}
use mathlib.Core.List.{flatten}
use skillmeter_claude_code_m.Transcript.{Line, Cursor, last_content_uuid, compute_delta, non_empty}
use skillmeter_claude_code_m.Transcript.Delta.{EndsWith, occurrences, resume_after_last_content}
use skillmeter_claude_code_m.Transcript.Turns.{
  Place, gone, inside, number, turn_numbers, turn_destinations,
}
use skillmeter_claude_code_m.Transcript.Turns.Spec.{
  turn_destination, map_turns, turn_destinations-turn_destination,
}
use skillmeter_claude_code_m.Transcript.Groups.{Split, split_lines_by_budget, split_by_envelope}
use skillmeter_claude_code_m.Transcript.Groups.Budget.{IsWithin, split_lines_by_budget-IsWithin}
use skillmeter_claude_code_m.Transcript.Groups.Envelope.{IsSplitOf, split_by_envelope_total}
use skillmeter_claude_code_m.Transcript.Plan.{ChunkPlan, Options, build_chunk_plan}
use skillmeter_claude_code_m.Transcript.Plan.Numbering.{PlanOrNothing, build_chunk_plan-IsPlanOf}

abbrev user : String → String → Option String → Line
user id prompt cwd = record {
  kind = some "user";
  uuid = some id;
  prompt_id = some prompt;
  cwd = cwd;
  content = none;
}

abbrev mode : Line
mode = record { kind = some "mode"; uuid = none; prompt_id = none; cwd = none; content = none }

abbrev session : List Line
session = user "u1" "p1" (some "/a") ∷ user "u2" "p1" (some "/b") ∷ user "u3" "p2" none ∷ mode ∷ []

abbrev stored : Cursor
stored = record { last_uuid = some "u3"; seq = some 4; baseline = none }

abbrev place_of : String → Place
place_of cwd = if str_eq cwd "/a" then inside "k" true else gone

turns_of_session : turn_numbers session ≡ 1 ∷ 1 ∷ 2 ∷ 2 ∷ []
unfolding turn_numbers non_empty
turns_of_session = refl

budget_test :
    split_lines_by_budget (λ (n : ℕ). n) 10 (4 ∷ 4 ∷ 4 ∷ 50 ∷ 1 ∷ [])
    ≡ (4 ∷ 4 ∷ []) ∷ (4 ∷ []) ∷ (50 ∷ []) ∷ (1 ∷ []) ∷ []
unfolding split_lines_by_budget
budget_test = refl

resume_after_last_content_example :
    (w : EndsWith session "u3") × ((compute_delta (session ++ mode ∷ []) (some stored)).reset
      ≡ false)
    × (drop (compute_delta (session ++ mode ∷ []) (some stored)).start_index (session ++ mode ∷ [])
        ≡ w.after ++ mode ∷ [])
unfolding last_content_uuid occurrences
resume_after_last_content_example =
    resume_after_last_content session (mode ∷ []) "u3" stored refl (omega arith) refl

turn_destinations-turn_destination_example :
    turn_destinations session place_of (λ p. str_eq p "p2")
    ≡ map_turns
        (λ t.
          turn_destination place_of (λ p. str_eq p "p2") t (number (turn_numbers session) session))
        (turn_numbers session)
turn_destinations-turn_destination_example =
    turn_destinations-turn_destination session place_of (λ p. str_eq p "p2")

split_lines_by_budget-IsWithin_example :
    (flatten (split_lines_by_budget (λ (n : ℕ). n) 10 (4 ∷ 50 ∷ [])) ≡ 4 ∷ 50 ∷ [])
    × All (IsWithin (λ (n : ℕ). n) 10) (split_lines_by_budget (λ (n : ℕ). n) 10 (4 ∷ 50 ∷ []))
split_lines_by_budget-IsWithin_example =
    split_lines_by_budget-IsWithin (λ (n : ℕ). n) 10 (4 ∷ 50 ∷ [])

abbrev gzipped : List ℕ → ℕ
gzipped lines = length lines * 1000

split_by_envelope_total_example :
    (r : Split ℕ) × (split_by_envelope (λ (n : ℕ). n) gzipped 2 135000 (9000 ∷ 5000 ∷ []) ≡ some r)
    × IsSplitOf (λ (n : ℕ). n) gzipped 135000 (9000 ∷ 5000 ∷ []) r
split_by_envelope_total_example =
    split_by_envelope_total (λ (n : ℕ). n) gzipped 135000 2 (9000 ∷ 5000 ∷ []) (omega arith)
      (omega arith)

abbrev defaults : Options
defaults = record {
  seq_start = none;
  max_uncompressed_bytes = none;
  max_envelope = none;
  keep = none;
}

build_chunk_plan-IsPlanOf_example :
    (plan : ChunkPlan ℕ) × (build_chunk_plan
        (λ (n : ℕ). n)
        gzipped
        (λ _. 7)
        session
        (some stored)
        defaults
      ≡ some plan)
    × PlanOrNothing (λ (n : ℕ). n) gzipped (λ _. 7) (some stored) defaults session plan
build_chunk_plan-IsPlanOf_example =
    build_chunk_plan-IsPlanOf (λ (n : ℕ). n) gzipped (λ _. 7) session (some stored) defaults
