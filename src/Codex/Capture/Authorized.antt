-- ===== src/Codex/Capture/Authorized.antt =====
-- The bytes of captured lines against the excluded ranges and the windows of the journal.
use skillmeter_claude_code_m.Prelude.{
  ℕ, ◌+◌, ◌≤◌, ◌<◌, Bool, true, false, any, All, Option, List, String, ◌≡◌, ◌⊎◌,
}
use skillmeter_claude_code_m.Codex.Journal.{Journal}
use skillmeter_claude_code_m.Codex.Journal.Ranges.{is_covered}
use skillmeter_claude_code_m.Codex.Journal.Log.{Window, was_watched}
use skillmeter_claude_code_m.Codex.Capture.{StageResult, ok, err, Captured}

-- What a step that succeeds gives.
abbrev Gives : {A : Type 0} (P : A → Type 0) → StageResult A → Type 0
Gives P (ok a) = P a
Gives P (err x) = Unit

module _ {R : Type 0} (metadata : R → StageResult (Option R)) (in_scope : R → Bool)
    (serialize : ℕ → R → StageResult String) (preserve : Bool) (excluded : List (ℕ × ℕ)) where
  -- A header's metadata, or a line of its own place in which no byte is excluded.
  pub record IsAllowed (c : Captured) : Type 0 where
    pub free :
        (c.is_metadata ≡ true)
        ⊎ ((x : ℕ) → c.from ≤ x → x < c.from + c.size → is_covered excluded x ≡ false)

  abbrev Allowed : StageResult (List Captured) → Type 0
  Allowed m = Gives (All IsAllowed) m

  abbrev AllowedUpTo : List Captured × ℕ → Type 0
  AllowedUpTo read = All IsAllowed read.0

-- What the journal's end covers of a captured line that is not a header's metadata was written
-- while telemetry was on.
pub record WasWatched (observed : ℕ) (windows : List Window) (c : Captured) : Type 0 where
  pub watched :
      (c.is_metadata ≡ true)
      ⊎ ((x : ℕ)
          → c.from ≤ x
          → x < c.from + c.size
          → x < observed
          → any (was_watched x) windows ≡ true)
