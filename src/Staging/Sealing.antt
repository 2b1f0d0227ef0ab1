-- ===== src/Staging/Sealing.antt =====
-- The cursor of a delta and the chunks that were sealed.
use mathlib.Core.Path.{subst}
use skillmeter_claude_code_m.Prelude.{
  ◌↔◌, sym, ◌∙◌, ℕ, Bool, true, false, not, ◌&&◌, ◌==◌, any, length, get_elem?, if_given, Option,
  none, some, Bool-cases, List, [], String, ◌≡◌, inl, inr, refl, ap, arith,
}
use skillmeter_claude_code_m.Transcript.{Line, Cursor, non_empty, last_content_uuid}
use skillmeter_claude_code_m.Transcript.Turns.{Destination}
use skillmeter_claude_code_m.Transcript.Plan.{Chunk, ChunkPlan, build_chunk_plan}
use skillmeter_claude_code_m.Transcript.Plan.Numbering.{build_chunk_plan-IsPlanOf}
use skillmeter_claude_code_m.Staging.{
  StoredCursor, Evidence, LiveStart, hold, start, live_delta_start, is_kept, has_prompt, is_missing,
  seq_of, write_cursor, Staged, sealed_chunks, store, hold_at, advance, stage_from,
  stage_repository_turns,
}
use skillmeter_claude_code_m.Staging.Stored.{
  IsSealedOf, all_sealed, sealed_chunks-IsSealedOf, some_failed, GoesTo, is_kept-GoesTo, IsStoredAs,
  baseline_lem, MustHold, never_recorded, unknown_start, WasRecorded,
}

module _ {ℓ} {A : Type ℓ} (bytes : A → ℕ) (gzip_bytes : List A → ℕ) (serialize : Line → A)
    (seals : Chunk A → Bool) (key wire : String) (max_bytes : Option ℕ) (now : ℕ) where
  store-IsStoredAs :
      (position : Cursor) (discarded : Bool) (previous : Option StoredCursor)
      → IsStoredAs wire now position discarded previous (
          store bytes gzip_bytes serialize seals key wire max_bytes now position discarded previous)
  unfolding write_cursor non_empty
  store-IsStoredAs position discarded previous = record {
    last_uuid = refl;
    seq = refl;
    baseline = ap some (baseline_lem position.baseline previous);
    wire_id = refl;
    updated_at = refl;
    is_discarded = refl;
  }

  -- What was sealed of a plan, and where the cursor is then.
  pub data Moves (plan : ChunkPlan A) (cursor : Option StoredCursor) (r : Staged A) : Type ℓ where
    nothing_new : plan.new_cursor ≡ none → r.sealed ≡ [] → r.cursor ≡ cursor → Moves plan cursor r
    past_delta :
        (position : Cursor) (c : StoredCursor)
        → plan.new_cursor ≡ some position
        → IsSealedOf seals plan.chunks r.sealed
        → r.sealed ≡ plan.chunks
        → r.cursor ≡ some c
        → IsStoredAs wire now position false cursor c
        → Moves plan cursor r
    stays :
        (position : Cursor)
        → plan.new_cursor ≡ some position
        → IsSealedOf seals plan.chunks r.sealed
        → any (λ c. not (seals c)) plan.chunks ≡ true
        → r.cursor ≡ cursor
        → Moves plan cursor r

  -- What a stage did with the delta behind `from`: the plan has the records that go to this
  -- repository, and no others.
  pub record IsStagedFrom (objs : List Line) (destinations : List Destination)
      (cursor : Option StoredCursor) (from : Option Cursor) (r : Staged A) : Type ℓ where
    pub keeps : ℕ → Bool
    pub own : (i : ℕ) → (keeps i ≡ true) ↔ GoesTo key (get_elem? destinations i)
    pub plan : ChunkPlan A
    pub planned :
        build_chunk_plan bytes gzip_bytes serialize objs from (record {
          seq_start = some (seq_of cursor);
          max_uncompressed_bytes = max_bytes;
          max_envelope = none;
          keep = some keeps;
        })
        ≡ some plan
    pub moves : Moves plan cursor r

  abbrev made : ChunkPlan A → Option StoredCursor → Staged A
  made plan cursor = advance bytes gzip_bytes serialize seals key wire max_bytes now plan cursor

  advance-Moves :
      (plan : ChunkPlan A) (cursor : Option StoredCursor) (next : Option Cursor)
      → plan.new_cursor ≡ next
      → Moves plan cursor (made plan cursor)
  advance-Moves plan cursor none e = nothing_new e (rw e refl) (rw e refl)
  advance-Moves plan cursor (some position) e =
      let done = sealed_chunks seals plan.chunks in
      let sealed : (made plan cursor).sealed ≡ done = rw e refl in
      let taken_so : IsSealedOf seals plan.chunks (made plan cursor).sealed =
        subst (IsSealedOf seals plan.chunks) (sym sealed)
          (sealed_chunks-IsSealedOf seals plan.chunks) in
      elim (Bool-cases (length done == length plan.chunks)) [
        | inl whole ↦
            let every : length done ≡ length plan.chunks = ground (arith, whole) in
            past_delta position
              (store bytes gzip_bytes serialize seals key wire max_bytes now position false cursor)
              e taken_so (sealed ∙ all_sealed seals plan.chunks every) (rw (e, whole) refl)
              (store-IsStoredAs position false cursor)
        | inr part ↦
            stays position e taken_so (some_failed seals plan.chunks part) (rw (e, part) refl)
      ]

  -- Nothing is sealed; the cursor is closed behind the transcript's newest record, if there is one.
  pub data IsHeld (objs : List Line) (cursor : Option StoredCursor) (r : Staged A) : Type ℓ where
    left_open :
        last_content_uuid objs ≡ none → r.sealed ≡ [] → r.cursor ≡ cursor → IsHeld objs cursor r
    closed :
        (u : String) (c : StoredCursor)
        → last_content_uuid objs ≡ some u
        → r.sealed ≡ []
        → r.cursor ≡ some c
        → IsStoredAs wire now
            (record { last_uuid = some u; seq = some (seq_of cursor); baseline = none })
            true
            cursor
            c
        → IsHeld objs cursor r

  hold_at-IsHeld :
      (objs : List Line) (cursor : Option StoredCursor) (u : Option String)
      → last_content_uuid objs ≡ u
      → IsHeld objs cursor
          (hold_at bytes gzip_bytes serialize seals key wire max_bytes now u cursor)
  hold_at-IsHeld objs cursor none e = left_open e refl refl
  hold_at-IsHeld objs cursor (some u) e = closed u _ e refl refl (store-IsStoredAs _ true cursor)

  -- Staging ends: it holds where it must, or it starts behind the boundaries and follows the plan.
  pub data Ends (objs : List Line) (destinations : List Destination) (prompt_id : Option String)
      (b : Evidence) : Option (Staged A) → Type ℓ where
    held :
        {r : Staged A}
        → MustHold objs prompt_id b
        → IsHeld objs b.cursor r
        → Ends objs destinations prompt_id b (some r)
    staged :
        {r : Staged A} (from : Option Cursor)
        → WasRecorded objs prompt_id b
        → live_delta_start objs b ≡ start from
        → IsStagedFrom objs destinations b.cursor from r
        → Ends objs destinations prompt_id b (some r)

  stage_from-Ends :
      (objs : List Line) (destinations : List Destination) (prompt_id : Option String)
      (b : Evidence) (s : LiveStart)
      → WasRecorded objs prompt_id b
      → live_delta_start objs b ≡ s
      → Ends objs destinations prompt_id b (
          stage_from bytes gzip_bytes serialize seals key wire max_bytes now objs destinations
            b.cursor s)
  stage_from-Ends objs destinations prompt_id b hold recorded e =
      held (unknown_start e) (hold_at-IsHeld objs b.cursor _ refl)
  stage_from-Ends objs destinations prompt_id b (start from) recorded e =
      let keeps : ℕ → Bool = λ i. is_kept key (get_elem? destinations i) in
      let (plan, made, _) = build_chunk_plan-IsPlanOf bytes gzip_bytes serialize objs from (record {
        seq_start = some (seq_of b.cursor);
        max_uncompressed_bytes = max_bytes;
        max_envelope = none;
        keep = some keeps;
      }) in
      rw (made, stage_from)
        (staged from recorded e (record {
          keeps = keeps;
          own = λ i. is_kept-GoesTo key (get_elem? destinations i);
          plan = plan;
          planned = made;
          moves = advance-Moves plan b.cursor plan.new_cursor refl;
        }))

  is_missing-none {κ} : {B : Type κ} (o : Option B) → is_missing o ≡ true → o ≡ none
  is_missing-none none e = refl
  is_missing-none (some x) e = absurd (ground (arith, e))

  recorded_so :
      (objs : List Line) (prompt_id : Option String) (b : Evidence)
      → is_missing b.cursor && is_missing (non_empty prompt_id) && any has_prompt objs ≡ false
      → WasRecorded objs prompt_id b
  recorded_so objs prompt_id b e = elim (Bool-cases (is_missing b.cursor)) [
    | inr there ↦ inl (λ gone. ground (arith, there, ap is_missing gone))
    | inl gone ↦ elim (Bool-cases (is_missing (non_empty prompt_id))) [
      | inr there ↦ inr (inl (λ none_so. ground (arith, there, ap is_missing none_so)))
      | inl also ↦ inr (inr (ground (arith, e, gone, also)))
    ]
  ]

  -- Staging a transcript for a repository always ends. It holds exactly where nothing was recorded
  -- for the repository or the start of the delta is unknown: then it seals nothing and closes the
  -- cursor behind the newest record. Otherwise it seals what the disk takes of a plan of the records
  -- that go to this repository, behind the boundaries. If every chunk of the plan is sealed the
  -- cursor moves past the delta; if one is not, or nothing is new, the cursor stays.
  pub stage_repository_turns-Ends :
      (objs : List Line) (destinations : List Destination) (prompt_id : Option String)
      (b : Evidence)
      → Ends objs destinations prompt_id b (
          stage_repository_turns bytes gzip_bytes serialize seals key wire max_bytes now objs
            destinations prompt_id b)
  unfolding stage_repository_turns
  stage_repository_turns-Ends objs destinations prompt_id b =
      let never = is_missing b.cursor && is_missing (non_empty prompt_id) && any has_prompt objs in
      if_given (Ends objs destinations prompt_id b) never _ _
        (λ e.
          held
            (never_recorded (is_missing-none b.cursor (ground (arith, e)))
              (is_missing-none (non_empty prompt_id) (ground (arith, e))) (ground (arith, e)))
            (hold_at-IsHeld objs b.cursor (last_content_uuid objs) refl))
        (λ e.
          stage_from-Ends objs destinations prompt_id b (live_delta_start objs b)
            (recorded_so objs prompt_id b e) refl)
