-- ===== src/Transcript/Turns/Spec.antt =====
-- What the destination of a turn is, from the working directories and the prompts of that turn
-- alone.
use skillmeter_claude_code_m.Prelude.{
  ℕ, ◌≡◌, refl, ap, ap₂, ◌∙◌, Bool, true, false, ◌&&◌, Option, none, some, List, [], ◌∷◌, String,
  arith, ◌==◌, all, if◌then◌else◌,
}
use skillmeter_claude_code_m.Transcript.{Line, non_empty}
use skillmeter_claude_code_m.Transcript.Turns.{
  Place, gone, outside, inside, TurnSeen, Destination, unassigned, nowhere, TurnMap, note_cwd,
  note_prompt, first_seen, see, Numbered, number, seen_turns, first_prompts, key_destination,
  seen_destination, unless_unrecorded, destinations, turn_numbers, turn_destinations,
}

abbrev pub prepend : Option String → List String → List String
prepend none l = l
prepend (some s) l = s ∷ l

-- The usable working directories, and the usable prompt ids, of the records of one turn, in order.
pub cwds_of : ℕ → Numbered → List String
cwds_of turn [] = []
cwds_of turn ((t, o) ∷ rest) =
    if t == turn then prepend (non_empty o.cwd) (cwds_of turn rest) else cwds_of turn rest

pub prompts_of : ℕ → Numbered → List String
prompts_of turn [] = []
prompts_of turn ((t, o) ∷ rest) =
    if t == turn
    then prepend (non_empty o.prompt_id) (prompts_of turn rest)
    else prompts_of turn rest

abbrev pub may_record : Place → Bool
may_record gone = false
may_record outside = true
may_record (inside key recording) = recording

abbrev later_key : Option String → Place → Option String
later_key key gone = key
later_key key outside = key
later_key key (inside k recording) = some k

-- The repository that the turn ended in.
pub last_key : (String → Place) → Option String → List String → Option String
last_key place_of key [] = key
last_key place_of key (cwd ∷ rest) = last_key place_of (later_key key (place_of cwd)) rest

abbrev pub written : (String → Place) → List String → Destination
written place_of [] = unassigned
written place_of (cwd ∷ rest) =
    if all (λ c. may_record (place_of c)) (cwd ∷ rest)
    then key_destination (last_key place_of none (cwd ∷ rest))
    else nowhere

abbrev pub head_of : List String → Option String
head_of [] = none
head_of (s ∷ l) = some s

pub turn_destination : (String → Place) → (String → Bool) → ℕ → Numbered → Destination
unfolding cwds_of prompts_of last_key
turn_destination place_of seen_unrecorded turn numbered =
    unless_unrecorded seen_unrecorded (head_of (prompts_of turn numbered))
      (written place_of (cwds_of turn numbered))

abbrev pub map_turns : (ℕ → Destination) → List ℕ → List Destination
map_turns f [] = []
map_turns f (t ∷ ts) = f t ∷ map_turns f ts

-- The entry of one turn after the directories of that turn.
see_all : (String → Place) → Option TurnSeen → List String → Option TurnSeen
see_all place_of s [] = s
see_all place_of s (cwd ∷ rest) = see_all place_of (some (see (first_seen s) (place_of cwd))) rest

seen_turns-see_all :
    (place_of : String → Place) (seen : TurnMap TurnSeen) (numbered : Numbered) (turn : ℕ)
    → seen_turns place_of seen numbered turn ≡ see_all place_of (seen turn) (cwds_of turn numbered)
unfolding seen_turns see_all cwds_of
seen_turns-see_all place_of seen [] turn = refl
seen_turns-see_all place_of seen ((t, o) ∷ rest) turn =
    note (non_empty o.cwd) (λ m. seen_turns-see_all place_of m rest turn)
  where
    note :
        (c : Option String)
        → ((m : TurnMap TurnSeen)
            → seen_turns place_of m rest turn ≡ see_all place_of (m turn) (cwds_of turn rest))
        → seen_turns place_of (note_cwd place_of seen t c) rest turn
          ≡ see_all place_of
              (seen turn)
              (if t == turn then prepend c (cwds_of turn rest) else cwds_of turn rest)
    note none ih = ground (arith, ih seen)
    note (some c) ih = ground (arith, ih (note_cwd place_of seen t (some c)))

see_all-written :
    (place_of : String → Place) (s : TurnSeen) (cwds : List String)
    → seen_destination (see_all place_of (some s) cwds) ≡ (
        if s.recording && all (λ c. may_record (place_of c)) cwds
        then key_destination (last_key place_of s.key cwds)
        else nowhere)
unfolding see_all see last_key
see_all-written place_of s [] = ground arith
see_all-written place_of s (cwd ∷ rest) =
    see_all-written place_of (see s (place_of cwd)) rest ∙ step (place_of cwd)
  where
    step :
        (p : Place)
        → (if (see s p).recording && all (λ c. may_record (place_of c)) rest
            then key_destination (last_key place_of (see s p).key rest)
            else nowhere)
          ≡ (if s.recording && (may_record p && all (λ c. may_record (place_of c)) rest)
              then key_destination (last_key place_of (later_key s.key p) rest)
              else nowhere)
    step gone = ground arith
    step outside = ground arith
    step (inside k r) = ground arith

first_prompts-head_of :
    (prompts : TurnMap String) (numbered : Numbered) (turn : ℕ)
    → first_prompts prompts numbered turn
      ≡ elim (prompts turn) [ some p ↦ some p | none ↦ head_of (prompts_of turn numbered) ]
unfolding first_prompts prompts_of
first_prompts-head_of prompts [] turn = ground arith
first_prompts-head_of prompts ((t, o) ∷ rest) turn =
    note (non_empty o.prompt_id) (λ m. first_prompts-head_of m rest turn)
  where
    note :
        (c : Option String)
        → ((m : TurnMap String)
            → first_prompts m rest turn
              ≡ elim (m turn) [ some p ↦ some p | none ↦ head_of (prompts_of turn rest) ])
        → first_prompts (note_prompt prompts t c) rest turn ≡ elim (prompts turn) [
          | some p ↦ some p
          | none ↦
              head_of (if t == turn then prepend c (prompts_of turn rest) else prompts_of turn rest)
        ]
    note none ih = ground (arith, ih prompts)
    note (some c) ih = ground (arith, ih (note_prompt prompts t (some c)), ih prompts)

destination_of_turn :
    (place_of : String → Place) (seen_unrecorded : String → Bool) (numbered : Numbered) (turn : ℕ)
    → unless_unrecorded seen_unrecorded
        (first_prompts (λ _. none) numbered turn)
        (seen_destination (seen_turns place_of (λ _. none) numbered turn))
      ≡ turn_destination place_of seen_unrecorded turn numbered
unfolding turn_destination see_all
destination_of_turn place_of seen_unrecorded numbered turn =
    rw
      (
        first_prompts-head_of (λ _. none) numbered turn,
        seen_turns-see_all place_of (λ _. none) numbered turn,
      )
      (ap (unless_unrecorded seen_unrecorded (head_of (prompts_of turn numbered)))
        (whole (cwds_of turn numbered)))
  where
    whole :
        (cwds : List String) → seen_destination (see_all place_of none cwds) ≡ written place_of cwds
    whole [] = refl
    whole (cwd ∷ rest) = see_all-written place_of (first_seen none) (cwd ∷ rest)

-- Every record goes where its turn goes: the destination of a turn is decided by the directories
-- and the prompts of that turn alone. It is a repository only if every directory of the turn is
-- outside any repository or inside a recording one, and then it is the repository the turn ended
-- in; a turn whose first prompt was seen unrecorded goes nowhere.
pub turn_destinations-turn_destination :
    (objs : List Line) (place_of : String → Place) (seen_unrecorded : String → Bool)
    → turn_destinations objs place_of seen_unrecorded
      ≡ map_turns
          (λ t. turn_destination place_of seen_unrecorded t (number (turn_numbers objs) objs))
          (turn_numbers objs)
unfolding turn_destinations
turn_destinations-turn_destination objs place_of seen_unrecorded = go (turn_numbers objs)
  where
    go :
        (ts : List ℕ)
        → destinations seen_unrecorded
            (seen_turns place_of (λ _. none) (number (turn_numbers objs) objs))
            (first_prompts (λ _. none) (number (turn_numbers objs) objs))
            ts
          ≡ map_turns
              (λ t. turn_destination place_of seen_unrecorded t (number (turn_numbers objs) objs))
              ts
    go [] = refl
    go (t ∷ ts) =
        ap₂ (λ d l. d ∷ l)
          (destination_of_turn place_of seen_unrecorded (number (turn_numbers objs) objs) t) (go ts)
