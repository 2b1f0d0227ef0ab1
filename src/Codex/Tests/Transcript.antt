-- ===== src/Codex/Tests/Transcript.antt =====
-- A transcript that telemetry watches for a while: its journal, and the lines that may be staged.
use skillmeter_claude_code_m.Prelude.{ℕ, true, false, none, some, List, [], ◌∷◌, String, ◌≡◌, refl}
use skillmeter_claude_code_m.Codex.Journal.{
  Journal, Boundary, ranges_valid, is_valid, extend, fresh, continued, observe_consent,
}
use skillmeter_claude_code_m.Codex.Journal.Log.{watch, IsHonest}
use skillmeter_claude_code_m.Codex.Journal.Windows.{unwatched, watch-IsHonest}
use skillmeter_claude_code_m.Codex.Capture.{object, Block, SourceLine, Captured}

abbrev boundary : ℕ → Boundary
boundary size = record {
  owner = "acme";
  authorization = "a1";
  file_id = "1:7";
  size = size;
  enabled = true;
  stamp = "s1";
  rebase = false;
  verify_replacement = false;
  committed = none;
  has_prefix = false;
  uuid = "e1";
}

-- On at 10 and 20, off at 25, and on again at 40.
abbrev boundaries : List Boundary
boundaries =
    boundary 10 ∷ (boundary 20 ∷ (record (boundary 25) { enabled = false } ∷ (boundary 40 ∷ [])))

abbrev journal : Journal
journal = record {
  epoch = "e1";
  owner = "acme";
  file_id = "1:7";
  observed = 40;
  excluded = (0, 10) ∷ ((20, 40) ∷ []);
  enabled = true;
  stamp = "s1";
  authorization = "a1";
}

journal_kept : (watch boundaries unwatched).journal ≡ some journal
unfolding observe_consent is_valid ranges_valid fresh continued extend
journal_kept = refl

watch-IsHonest_example : IsHonest journal (watch boundaries unwatched).windows
unfolding observe_consent is_valid ranges_valid fresh continued extend
watch-IsHonest_example = watch-IsHonest boundaries journal refl

abbrev source_line : ℕ → String → SourceLine String
source_line size text = record { size = size; text = object text }

-- The first line crosses the start, the second ends behind 10, and the last begins behind 20.
abbrev blocks : List (Block String)
blocks =
    record {
      lines = source_line 8 "header" ∷ (source_line 5 "before" ∷ (source_line 7 "turn" ∷ []));
      pending = 3;
    }
    ∷ (record { lines = source_line 9 "after" ∷ []; pending = 0 } ∷ [])

abbrev staged : List Captured
staged =
    record { from = 0; size = 8; is_metadata = true; text = "header" }
    ∷ (record { from = 13; size = 7; is_metadata = false; text = "turn" } ∷ [])
