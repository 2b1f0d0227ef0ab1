-- ===== src/Staging.antt =====
-- Staging a transcript for one repository, of lib/transfer.js: `liveDeltaStart`, which finds where
-- the live delta starts behind the periods that were not recorded, `stageRepositoryTurns`, and
-- `writeCursor`. What the files hold is given: the cursor, the signed-out mark and the pending
-- boundaries, each absent, unreadable since a time, or read. Sealing a chunk on the disk is a
-- parameter that says whether it succeeds; a cursor's write is taken to succeed.
pub mod Boundaries
pub mod Start
pub mod Stored
pub mod Sealing
mod Tests
use skillmeter_claude_code_m.Prelude.{
  ℕ, zero, suc, ◌+◌, Bool, true, false, not, ◌&&◌, ◌||◌, ◌==◌, leb, ltb, any, all, length,
  get_elem?, Option, none, some, List, [], ◌∷◌, ◌++◌, String, str_eq, opt_eq, if◌then◌else◌,
}
use skillmeter_claude_code_m.Transcript.{
  Line, Cursor, non_empty, anchor_of, last_content_uuid, find_uuid,
}
use skillmeter_claude_code_m.Transcript.Turns.{Destination, unassigned, nowhere, repository}
use skillmeter_claude_code_m.Transcript.Plan.{Chunk, ChunkPlan, Options, or_zero, build_chunk_plan}

pub record StoredCursor : Type 0 where
  pub position : Cursor
  pub wire_id : Option String
  pub updated_at : ℕ
  pub discarded : Bool

-- A boundary's file as `readBoundaryFile` returns it.
pub data BoundaryFile {ℓ} (A : Type ℓ) : Type ℓ where
  missing : BoundaryFile A
  unreadable : ℕ → BoundaryFile A
  readable : A → BoundaryFile A

-- The signed-out mark, and a line of the pending store; a time that is missing is 0.
pub record Mark : Type 0 where
  pub last_uuid : Option String
  pub at : ℕ

pub record Pending : Type 0 where
  pub scope : String
  pub last_uuid : Option String
  pub at : ℕ

-- A boundary whose record is known by its uuid.
pub record Known : Type 0 where
  pub last_uuid : Option String
  pub at : ℕ

abbrev pub unreadable_since {ℓ} : {A : Type ℓ} → BoundaryFile A → List ℕ
unreadable_since missing = []
unreadable_since (unreadable at) = if at == 0 then [] else at ∷ []
unreadable_since (readable a) = []

abbrev pub cursor_boundary : Option StoredCursor → List Known
cursor_boundary none = []
cursor_boundary (some c) = record { last_uuid = c.position.last_uuid; at = c.updated_at } ∷ []

abbrev placed : Option String → ℕ → List Known
placed uuid at = elim (non_empty uuid) [
  | none ↦ []
  | some u ↦ record { last_uuid = some u; at = at } ∷ []
]

abbrev pub mark_boundary : BoundaryFile Mark → List Known
mark_boundary missing = []
mark_boundary (unreadable at) = []
mark_boundary (readable m) = placed m.last_uuid m.at

abbrev pub pending_entries : BoundaryFile (List Pending) → List Pending
pending_entries missing = []
pending_entries (unreadable at) = []
pending_entries (readable l) = l

abbrev in_scope : String → Pending → Bool
in_scope scope p = str_eq p.scope "*" || str_eq p.scope scope

unfoldable pub pending_boundaries : String → List Pending → List Known
pending_boundaries scope [] = []
pending_boundaries scope (p ∷ l) =
    let rest = pending_boundaries scope l in
    if in_scope scope p then placed p.last_uuid p.at ++ rest else rest

-- `entry.at || Date.now()`
abbrev time_or : ℕ → ℕ → ℕ
time_or at now = if at == 0 then now else at

abbrev unplaced_entry : ℕ → Pending → List ℕ
unplaced_entry now p = elim (non_empty p.last_uuid) [ none ↦ time_or p.at now ∷ [] | some u ↦ [] ]

unfoldable pub unplaced_entries : String → ℕ → List Pending → List ℕ
unplaced_entries scope now [] = []
unplaced_entries scope now (p ∷ l) =
    let rest = unplaced_entries scope now l in
    if in_scope scope p then unplaced_entry now p ++ rest else rest

unfoldable pub latest : List Known → ℕ
latest [] = 0
latest (b ∷ l) = let rest = latest l in if ltb rest b.at then b.at else rest

-- The index of a uuid among the records; -1 is `none`.
unfoldable pub index_of : List Line → Option String → Option ℕ
index_of objs uuid = elim (non_empty uuid) [ none ↦ none | some u ↦ find_uuid objs u ]

abbrev pub further : Option ℕ → Option ℕ → Bool
further none j = false
further (some i) none = true
further (some i) (some j) = ltb j i

abbrev moved : Option StoredCursor → Option String → Option Cursor
moved none uuid = some (record { last_uuid = uuid; seq = none; baseline = none })
moved (some c) uuid = some (record c.position { last_uuid = uuid })

-- The start with its index, after a boundary more.
unfoldable pub furthest :
    List Line
    → Option StoredCursor
    → Option Cursor × Option ℕ
    → List Known
    → Option Cursor × Option ℕ
furthest objs cursor best [] = best
furthest objs cursor best (b ∷ known) =
    let index = index_of objs b.last_uuid in
    furthest objs cursor (if further index best.1 then (moved cursor b.last_uuid, index) else best)
      known

pub data LiveStart : Type 0 where
  hold : LiveStart
  start : Option Cursor → LiveStart

abbrev pub position_of : Option StoredCursor → Option Cursor
position_of none = none
position_of (some c) = some c.position

-- What `liveDeltaStart` reads.
pub record Evidence : Type 0 where
  pub cursor : Option StoredCursor
  pub cursor_file : BoundaryFile StoredCursor
  pub mark : BoundaryFile Mark
  pub pending : BoundaryFile (List Pending)
  pub scope : String
  pub now : ℕ

unfoldable pub known_boundaries : Evidence → List Known
unfolding pending_boundaries
known_boundaries b =
    cursor_boundary b.cursor
    ++ mark_boundary b.mark
    ++ pending_boundaries b.scope (pending_entries b.pending)

unfoldable pub unplaced_boundaries : Evidence → List ℕ
unfolding unplaced_entries
unplaced_boundaries b =
    unreadable_since b.cursor_file
    ++ unreadable_since b.mark
    ++ unreadable_since b.pending
    ++ unplaced_entries b.scope b.now (pending_entries b.pending)

unfoldable pub live_delta_start : List Line → Evidence → LiveStart
unfolding known_boundaries unplaced_boundaries latest furthest index_of
live_delta_start objs b =
    let first : Option Cursor × Option ℕ =
      (position_of b.cursor, index_of objs (anchor_of (position_of b.cursor))) in
    if any (λ at. leb (latest (known_boundaries b)) at) (unplaced_boundaries b)
    then hold
    else start (furthest objs b.cursor first (known_boundaries b)).0

-- `destinations[index] === undefined || destinations[index] === repository.repoKey`
abbrev is_kept : String → Option Destination → Bool
is_kept key none = true
is_kept key (some unassigned) = true
is_kept key (some nowhere) = false
is_kept key (some (repository k)) = str_eq k key

abbrev has_prompt : Line → Bool
has_prompt o = elim o.prompt_id [ none ↦ false | some p ↦ true ]

abbrev is_missing {ℓ} : {A : Type ℓ} → Option A → Bool
is_missing none = true
is_missing (some a) = false

abbrev pub seq_of : Option StoredCursor → ℕ
seq_of none = 0
seq_of (some c) = or_zero c.position.seq

abbrev baseline_of : Option StoredCursor → Option ℕ
baseline_of none = none
baseline_of (some c) = c.position.baseline

abbrev pub or_else {ℓ} : {A : Type ℓ} → Option A → Option A → Option A
or_else none other = other
or_else (some a) other = some a

-- `writeCursor`: the wire id and the baseline carry over unless they are given.
unfoldable pub write_cursor : StoredCursor → String → Option StoredCursor → StoredCursor
write_cursor c wire previous = record c {
  wire_id = or_else (non_empty c.wire_id) (some wire);
  position = record c.position {
    baseline = some (or_zero (or_else c.position.baseline (baseline_of previous)));
  };
}

-- What staging did: the chunks that it sealed, and the cursor.
pub record Staged {ℓ} (A : Type ℓ) : Type ℓ where
  pub sealed : List (Chunk A)
  pub cursor : Option StoredCursor

unfoldable pub sealed_chunks {ℓ} : {A : Type ℓ} → (Chunk A → Bool) → List (Chunk A) → List (Chunk A)
sealed_chunks seals [] = []
sealed_chunks seals (c ∷ chunks) =
    let rest = sealed_chunks seals chunks in if seals c then c ∷ rest else rest

-- The content of the module `path` of a repository: its key, the transcript's wire id in it, and the
-- time.
module _ {ℓ} {A : Type ℓ} (bytes : A → ℕ) (gzip_bytes : List A → ℕ) (serialize : Line → A)
    (seals : Chunk A → Bool) (key wire : String) (max_bytes : Option ℕ) (now : ℕ) where
  abbrev store : Cursor → Bool → Option StoredCursor → StoredCursor
  store position discarded previous =
      write_cursor
        (record { position = position; wire_id = none; updated_at = now; discarded = discarded })
        wire previous

  -- Nothing is staged; what was written so far is closed behind the newest record.
  abbrev hold_at : Option String → Option StoredCursor → Staged A
  hold_at none cursor = record { sealed = []; cursor = cursor }
  hold_at (some u) cursor = record {
    sealed = [];
    cursor = some (
        store (record { last_uuid = some u; seq = some (seq_of cursor); baseline = none }) true
          cursor);
  }

  abbrev advance : ChunkPlan A → Option StoredCursor → Staged A
  advance plan cursor =
      let done = sealed_chunks seals plan.chunks in
      elim plan.new_cursor [
        | none ↦ record { sealed = []; cursor = cursor }
        | some position ↦ record {
          sealed = done;
          cursor =
              if length done == length plan.chunks
              then some (store position false cursor)
              else cursor;
        }
      ]

  abbrev stage_from :
      List Line → List Destination → Option StoredCursor → LiveStart → Option (Staged A)
  stage_from objs destinations cursor hold = some (hold_at (last_content_uuid objs) cursor)
  stage_from objs destinations cursor (start from) =
      let plan = build_chunk_plan bytes gzip_bytes serialize objs from (record {
        seq_start = some (seq_of cursor);
        max_uncompressed_bytes = max_bytes;
        max_envelope = none;
        keep = some (λ i. is_kept key (get_elem? destinations i));
      }) in
      elim plan [ none ↦ none | some p ↦ some (advance p cursor) ]

  -- `stageRepositoryTurns`; `none` only if the plan has no result.
  unfoldable pub stage_repository_turns :
      List Line → List Destination → Option String → Evidence → Option (Staged A)
  unfolding sealed_chunks
  stage_repository_turns objs destinations prompt_id b =
      let never_recorded =
        is_missing b.cursor && is_missing (non_empty prompt_id) && any has_prompt objs in
      if never_recorded
      then some (hold_at (last_content_uuid objs) b.cursor)
      else stage_from objs destinations b.cursor (live_delta_start objs b)
