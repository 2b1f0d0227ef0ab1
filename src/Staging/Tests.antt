-- ===== src/Staging/Tests.antt =====
-- Staging a short transcript.
use skillmeter_claude_code_m.Prelude.{
  ℕ, suc, ◌≤◌, ◌<◌, true, false, Option, none, some, List, [], ◌∷◌, String, ◌≡◌, refl, length,
}
use skillmeter_claude_code_m.Transcript.{Line, Cursor, compute_delta, non_empty, find_uuid}
use skillmeter_claude_code_m.Transcript.Turns.{Destination, nowhere, repository}
use skillmeter_claude_code_m.Staging.{
  StoredCursor, unreadable, readable, Evidence, hold, start, known_boundaries, unplaced_boundaries,
  latest, index_of, furthest, live_delta_start, pending_boundaries, unplaced_entries,
  stage_repository_turns,
}
use skillmeter_claude_code_m.Staging.Boundaries.{IsBoundary, IsUnplaced}
use skillmeter_claude_code_m.Staging.Start.{starts_behind_boundaries}
use skillmeter_claude_code_m.Staging.Sealing.{Ends, stage_repository_turns-Ends}

abbrev line : String → Line
line u = record {
  kind = some "user";
  uuid = some u;
  prompt_id = some "p";
  cwd = none;
  content = none;
}

abbrev transcript : List Line
transcript = line "u1" ∷ line "u2" ∷ line "u3" ∷ line "u4" ∷ []

abbrev cursor : StoredCursor
cursor = record {
  position = record { last_uuid = some "u1"; seq = some 2; baseline = none };
  wire_id = some "t.jsonl";
  updated_at = 10;
  discarded = false;
}

-- The signed-out mark stands behind the cursor.
abbrev evidence : Evidence
evidence = record {
  cursor = some cursor;
  cursor_file = readable cursor;
  mark = readable (record { last_uuid = some "u3"; at = 20 });
  pending = readable (
      record { scope = "*"; last_uuid = some "u2"; at = 15 }
      ∷ record { scope = "r"; last_uuid = none; at = 12 }
      ∷ record { scope = "other"; last_uuid = none; at = 90 }
      ∷ []);
  scope = "r";
  now = 30;
}

abbrev behind_mark : Option Cursor
behind_mark = some (record { last_uuid = some "u3"; seq = some 2; baseline = none })

starts_here : live_delta_start transcript evidence ≡ start behind_mark
unfolding live_delta_start known_boundaries unplaced_boundaries latest furthest index_of find_uuid
    non_empty pending_boundaries unplaced_entries
starts_here = refl

starts_behind_boundaries_example :
    ((u : Option String) (at i : ℕ)
      → IsBoundary evidence u at
      → index_of transcript u ≡ some i
      → (suc i ≤ (compute_delta transcript behind_mark).start_index)
        × ((compute_delta transcript behind_mark).reset ≡ false))
    × ((at : ℕ)
        → IsUnplaced evidence at
        → (u : Option String) × (since : ℕ) × IsBoundary evidence u since × (at < since))
starts_behind_boundaries_example =
    starts_behind_boundaries transcript evidence behind_mark starts_here

-- A mark that cannot be read and is newer than the cursor holds everything back.
holds_back : live_delta_start transcript (record evidence { mark = unreadable 40 }) ≡ hold
unfolding live_delta_start known_boundaries unplaced_boundaries latest furthest index_of find_uuid
    non_empty pending_boundaries unplaced_entries
holds_back = refl

abbrev destinations : List Destination
destinations = repository "k" ∷ nowhere ∷ nowhere ∷ repository "k" ∷ []

stage_repository_turns-Ends_example :
    Ends
      (λ (l : Line). 1)
      (λ l. length l)
      (λ l. l)
      (λ c. true)
      "k"
      "t.jsonl"
      none
      50
      transcript
      destinations
      (some "p")
      evidence
      (stage_repository_turns
        (λ (l : Line). 1)
        (λ l. length l)
        (λ l. l)
        (λ c. true)
        "k"
        "t.jsonl"
        none
        50
        transcript
        destinations
        (some "p")
        evidence)
stage_repository_turns-Ends_example =
    stage_repository_turns-Ends (λ (l : Line). 1) (λ l. length l) (λ l. l) (λ c. true) "k" "t.jsonl"
      none 50 transcript destinations (some "p") evidence
