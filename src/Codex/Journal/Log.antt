-- ===== src/Codex/Journal/Log.antt =====
-- The windows in which a transcript grew, each between two boundaries, next to the journal.
use skillmeter_claude_code_m.Prelude.{
  ℕ, ◌<◌, Bool, true, false, not, ◌&&◌, ◌||◌, any, Option, none, some, List, [], ◌∷◌, str_eq, leb,
  if◌then◌else◌, ◌≡◌,
}
use skillmeter_claude_code_m.Codex.Journal.{
  Journal, is_valid, Boundary, Observation, seen, written, failed, observe_consent,
}
use skillmeter_claude_code_m.Codex.Journal.Ranges.{holds, is_covered}

-- Two boundaries that were noted one after the other, whatever the journal made of them.
pub record Window : Type 0 where
  pub opened : Boundary
  pub closed : Boundary

-- At both boundaries telemetry was on, by the same choices.
abbrev pub was_on : Boundary → Boundary → Bool
was_on opened closed = closed.enabled && opened.enabled && str_eq opened.stamp closed.stamp

-- The byte was written between the two boundaries, and telemetry was on at both.
abbrev pub was_watched : ℕ → Window → Bool
was_watched x w = holds x (w.opened.size, w.closed.size) && was_on w.opened w.closed

abbrev pub reaches : Boundary → Boundary → Bool
reaches opened closed = elim closed.committed [
  | none ↦ false
  | some offset ↦ leb opened.size offset && leb offset closed.size && closed.has_prefix
]

-- What the second boundary finds is what the first one saw and more: the scope's authorization is
-- the same, nothing asks for a new start, the file has not shrunk, and it is the same file, or with
-- telemetry on at both another one that was read up to there and begins with the same bytes.
abbrev pub continues : Boundary → Boundary → Bool
continues opened closed =
    not closed.rebase
    && str_eq opened.authorization closed.authorization
    && leb opened.size closed.size
    && (str_eq opened.file_id closed.file_id || was_on opened closed && reaches opened closed)

-- The journal, the last boundary that was noted, and the windows up to it since the last one that
-- does not continue the one before.
pub record Log : Type 0 where
  pub journal : Option Journal
  pub last : Option Boundary
  pub windows : List Window

abbrev pub windows_to : Boundary → Option Boundary → List Window → List Window
windows_to b none windows = []
windows_to b (some p) windows =
    if continues p b then record { opened = p; closed = b } ∷ windows else []

abbrev pub logged : Boundary → Observation → Log → Log
logged b (seen j) log = log
logged b (written j) log = record {
  journal = some j;
  last = some b;
  windows = windows_to b log.last log.windows;
}
logged b (failed error) log = log

abbrev pub watch : List Boundary → Log → Log
watch [] log = log
watch (b ∷ boundaries) log = watch boundaries (logged b (observe_consent b log.journal) log)

-- Below the journal's end, what is not excluded was written in a window with telemetry on, by the
-- same choices, at both ends.
pub record IsHonest (j : Journal) (windows : List Window) : Type 0 where
  pub valid : is_valid j ≡ true
  pub watched :
      (x : ℕ)
      → x < j.observed
      → is_covered j.excluded x ≡ false
      → any (was_watched x) windows ≡ true
