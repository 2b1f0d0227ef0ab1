-- ===== src/Transcript.antt =====
-- clients/claude-code/skillmeter/scripts/lib/transcript-delta.js: planning the chunks of a
-- transcript. A parsed line is a record of the fields that the planner reads; a field that is
-- absent, or not of the type that the planner tests for, is `none`. A line that is no object has
-- none of them.
pub mod Delta
pub mod Turns
pub mod Groups
pub mod Plan
mod Tests
use skillmeter_claude_code_m.Prelude.{
  ℕ, suc, ◌+◌, Bool, true, false, Option, none, some, List, [], ◌∷◌, String, str_eq, if◌then◌else◌,
}

-- `content`: the `type` of each block, where the message's content is an array.
pub record Line : Type 0 where
  pub kind : Option String
  pub uuid : Option String
  pub prompt_id : Option String
  pub cwd : Option String
  pub content : Option (List (Option String))

-- `typeof v === "string" && v`
unfoldable pub non_empty : Option String → Option String
non_empty none = none
non_empty (some s) = if str_eq s "" then none else some s

-- The scan from the end for the first usable `uuid`.
unfoldable pub last_content_uuid : List Line → Option String
unfolding non_empty
last_content_uuid [] = none
last_content_uuid (o ∷ objs) = elim (last_content_uuid objs) [
  | some u ↦ some u
  | none ↦ non_empty o.uuid
]

pub record Cursor : Type 0 where
  pub last_uuid : Option String
  pub seq : Option ℕ
  pub baseline : Option ℕ

pub record DeltaStart : Type 0 where
  pub start_index : ℕ
  pub reset : Bool

abbrev has_uuid : Option String → String → Bool
has_uuid none u = false
has_uuid (some v) u = str_eq v u

-- `objs.findIndex((o) => o && o.uuid === u)`
unfoldable pub find_uuid : List Line → String → Option ℕ
find_uuid [] u = none
find_uuid (o ∷ objs) u =
    let later = find_uuid objs u in
    if has_uuid o.uuid u then some 0 else elim later [ none ↦ none | some i ↦ some (suc i) ]

abbrev after_anchor : Option ℕ → DeltaStart
after_anchor none = record { start_index = 0; reset = true }
after_anchor (some i) = record { start_index = i + 1; reset = false }

abbrev pub anchor_of : Option Cursor → Option String
anchor_of none = none
anchor_of (some c) = c.last_uuid

unfoldable pub compute_delta : List Line → Option Cursor → DeltaStart
compute_delta objs cursor = elim (non_empty (anchor_of cursor)) [
  | none ↦ record { start_index = 0; reset = false }
  | some u ↦ after_anchor (find_uuid objs u)
]
