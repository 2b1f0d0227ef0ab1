-- ===== src/Transcript/Turns.antt =====
-- `turnNumbers` and `turnDestinations` of transcript-delta.js: the turn of each record, and the
-- repository that each record may be sent for. The two maps of the code are functions from turn
-- numbers to optional entries.
pub mod Spec
use skillmeter_claude_code_m.Prelude.{
  ℕ, suc, ◌+◌, Bool, true, false, not, ◌&&◌, Option, none, some, List, [], ◌∷◌, String, str_eq,
  opt_eq, ◌==◌, any, if◌then◌else◌,
}
use skillmeter_claude_code_m.Transcript.{Line, non_empty}

abbrev is_tool_result : Option String → Bool
is_tool_result none = false
is_tool_result (some t) = str_eq t "tool_result"

abbrev has_tool_result : Option (List (Option String)) → Bool
has_tool_result none = false
has_tool_result (some blocks) = any is_tool_result blocks

unfoldable pub starts_turn : Line → Option String → Bool
starts_turn record' prompt_id = elim (non_empty record'.prompt_id) [
  | some p ↦ not (opt_eq (some p) prompt_id)
  | none ↦ not (has_tool_result record'.content)
]

abbrev is_user : Option String → Bool
is_user none = false
is_user (some t) = str_eq t "user"

-- The loop, over `turn` and `promptId`.
unfoldable pub turns_from : ℕ → Option String → List Line → List ℕ
unfolding starts_turn
turns_from turn prompt_id [] = []
turns_from turn prompt_id (o ∷ objs) =
    let starts = is_user o.kind && starts_turn o prompt_id in
    let turn' = if starts then turn + 1 else turn in
    turn' ∷ turns_from turn' (if starts then o.prompt_id else prompt_id) objs

unfoldable pub turn_numbers : List Line → List ℕ
unfolding turns_from
turn_numbers objs = turns_from 0 none objs

-- What `placeOf(cwd)` returns: undefined, null, or a repository.
pub data Place : Type 0 where
  gone outside : Place
  inside : (key : String) → (recording : Bool) → Place

pub record TurnSeen : Type 0 where
  pub key : Option String
  pub recording : Bool

-- undefined, null, or a repository key
pub data Destination : Type 0 where
  unassigned nowhere : Destination
  repository : String → Destination

abbrev pub TurnMap : Type 0 → Type 0
TurnMap V = ℕ → Option V

abbrev pub update : {V : Type 0} → TurnMap V → ℕ → V → TurnMap V
update m turn v k = if turn == k then some v else m k

abbrev pub first_seen : Option TurnSeen → TurnSeen
first_seen none = record { key = none; recording = true }
first_seen (some t) = t

unfoldable pub see : TurnSeen → Place → TurnSeen
see turn gone = record turn { recording = false }
see turn outside = turn
see turn (inside key recording) = record { key = some key; recording = turn.recording && recording }

abbrev pub Numbered : Type 0
Numbered = List (ℕ × Line)

abbrev pub number : List ℕ → List Line → Numbered
number [] objs = []
number (t ∷ ts) [] = []
number (t ∷ ts) (o ∷ objs) = (t, o) ∷ number ts objs

module _ (place_of : String → Place) where
  abbrev pub note_cwd : TurnMap TurnSeen → ℕ → Option String → TurnMap TurnSeen
  note_cwd seen turn none = seen
  note_cwd seen turn (some cwd) = update seen turn (see (first_seen (seen turn)) (place_of cwd))

  unfoldable pub seen_turns : TurnMap TurnSeen → Numbered → TurnMap TurnSeen
  unfolding see
  seen_turns seen [] = seen
  seen_turns seen ((turn, o) ∷ rest) = seen_turns (note_cwd seen turn (non_empty o.cwd)) rest

abbrev pub note_prompt : TurnMap String → ℕ → Option String → TurnMap String
note_prompt prompts turn none = prompts
note_prompt prompts turn (some p) = elim (prompts turn) [
  | none ↦ update prompts turn p
  | some q ↦ prompts
]

unfoldable pub first_prompts : TurnMap String → Numbered → TurnMap String
first_prompts prompts [] = prompts
first_prompts prompts ((turn, o) ∷ rest) =
    first_prompts (note_prompt prompts turn (non_empty o.prompt_id)) rest

abbrev pub key_destination : Option String → Destination
key_destination none = nowhere
key_destination (some k) = repository k

abbrev pub seen_destination : Option TurnSeen → Destination
seen_destination none = unassigned
seen_destination (some t) = if t.recording then key_destination t.key else nowhere

abbrev pub unless_unrecorded : (String → Bool) → Option String → Destination → Destination
unless_unrecorded seen_unrecorded none d = d
unless_unrecorded seen_unrecorded (some p) d = if seen_unrecorded p then nowhere else d

abbrev pub destinations :
    (String → Bool) → TurnMap TurnSeen → TurnMap String → List ℕ → List Destination
destinations seen_unrecorded seen prompts [] = []
destinations seen_unrecorded seen prompts (t ∷ ts) =
    unless_unrecorded seen_unrecorded (prompts t) (seen_destination (seen t))
    ∷ destinations seen_unrecorded seen prompts ts

unfoldable pub turn_destinations : List Line → (String → Place) → (String → Bool) → List Destination
unfolding turn_numbers seen_turns first_prompts
turn_destinations objs place_of seen_unrecorded =
    let turns = turn_numbers objs in
    let numbered = number turns objs in
    destinations seen_unrecorded (seen_turns place_of (λ _. none) numbered)
      (first_prompts (λ _. none) numbered) turns
