-- ===== src/Transcript/Plan.antt =====
-- `buildChunkPlan` of transcript-delta.js: the numbered chunks of a delta and the cursor to store
-- after they are durable.
pub mod Numbering
use skillmeter_claude_code_m.Prelude.{
  ℕ, zero, suc, ◌+◌, Bool, true, false, Option, none, some, List, [], ◌∷◌, ◌++◌, ◌==◌, drop, length,
  String, if◌then◌else◌,
}
use skillmeter_claude_code_m.Transcript.{
  Line, Cursor, last_content_uuid, compute_delta, anchor_of, non_empty,
}
use skillmeter_claude_code_m.Transcript.Groups.{
  Split, split_lines_by_budget, split_by_envelope, join_splits, max_envelope_bytes,
  default_chunk_max_bytes,
}

pub record Chunk {ℓ} (A : Type ℓ) : Type ℓ where
  pub lines : List A
  pub seq : ℕ
  pub reset : Bool
  pub reset_baseline_seq : Option ℕ

pub record ChunkPlan {ℓ} (A : Type ℓ) : Type ℓ where
  pub chunks : List (Chunk A)
  pub new_cursor : Option Cursor
  pub oversized : ℕ

-- `keep` is `none` where the caller gives none; `max_uncompressed_bytes` falls back on 0 too.
pub record Options : Type 0 where
  pub seq_start : Option ℕ
  pub max_uncompressed_bytes : Option ℕ
  pub max_envelope : Option ℕ
  pub keep : Option (ℕ → Bool)

-- `v || 0`
abbrev pub or_zero : Option ℕ → ℕ
or_zero none = 0
or_zero (some n) = n

-- `v || null`
abbrev pub null_if_zero : ℕ → Option ℕ
null_if_zero n = if n == 0 then none else some n

abbrev pub cursor_seq : Option Cursor → ℕ
cursor_seq none = 0
cursor_seq (some c) = or_zero c.seq

abbrev pub cursor_baseline : Option Cursor → ℕ
cursor_baseline none = 0
cursor_baseline (some c) = or_zero c.baseline

abbrev pub seq_start_of : Option ℕ → Option Cursor → ℕ
seq_start_of none cursor = cursor_seq cursor
seq_start_of (some n) cursor = n

abbrev budget_of : Option ℕ → ℕ
budget_of none = default_chunk_max_bytes
budget_of (some n) = if n == 0 then default_chunk_max_bytes else n

abbrev envelope_of : Option ℕ → ℕ
envelope_of none = max_envelope_bytes
envelope_of (some n) = n

abbrev pub filter_from : (ℕ → Bool) → ℕ → List Line → List Line
filter_from keep i [] = []
filter_from keep i (o ∷ objs) =
    let rest = filter_from keep (i + 1) objs in if keep i then o ∷ rest else rest

abbrev pub kept_lines : Option (ℕ → Bool) → ℕ → List Line → List Line
kept_lines none i objs = objs
kept_lines (some keep) i objs = filter_from keep i objs

abbrev pub is_empty : List Line → Bool
is_empty [] = true
is_empty (o ∷ objs) = false

abbrev pub serialized {ℓ} : {A : Type ℓ} → (Line → A) → List Line → List A
serialized serialize [] = []
serialized serialize (o ∷ objs) = serialize o ∷ serialized serialize objs

unfoldable pub number_chunks {ℓ} :
    {A : Type ℓ} → ℕ → Bool → Option ℕ → List (List A) → List (Chunk A)
number_chunks seq reset baseline [] = []
number_chunks seq reset baseline (group ∷ groups) =
    record { lines = group; seq = seq + 1; reset = reset; reset_baseline_seq = baseline }
    ∷ number_chunks (seq + 1) reset baseline groups

abbrev or_previous : Option String → Option Cursor → Option String
or_previous none cursor = non_empty (anchor_of cursor)
or_previous (some u) cursor = some u

abbrev pub plan_of {ℓ} :
    {A : Type ℓ} → Option Cursor → ℕ → Bool → List Line → Option (Split A) → Option (ChunkPlan A)
plan_of cursor start reset delta none = none
plan_of cursor start reset delta (some split) =
    let baseline = if reset then start + 1 else cursor_baseline cursor in
    some (record {
      chunks = number_chunks start reset (null_if_zero baseline) split.groups;
      new_cursor = some (record {
        last_uuid = or_previous (last_content_uuid delta) cursor;
        seq = some (start + length split.groups);
        baseline = some baseline;
      });
      oversized = split.oversized;
    })

-- `serialize` is `JSON.stringify(sanitizeLine(o, salt))`.
module _ {ℓ} {A : Type ℓ} (bytes : A → ℕ) (gzip_bytes : List A → ℕ) where
  -- The fuel of each group is its length.
  unfoldable pub split_groups : ℕ → List (List A) → Option (Split A)
  split_groups most [] = some (record { groups = []; oversized = 0 })
  split_groups most (group ∷ groups) =
      join_splits bytes gzip_bytes (split_by_envelope bytes gzip_bytes (length group) most group)
        (split_groups most groups)

  unfoldable pub build_chunk_plan :
      (Line → A) → List Line → Option Cursor → Options → Option (ChunkPlan A)
  build_chunk_plan serialize objs cursor opts =
      let start = compute_delta objs cursor in
      let delta = drop start.start_index objs in
      let lines = serialized serialize (kept_lines opts.keep start.start_index delta) in
      let groups = split_lines_by_budget bytes (budget_of opts.max_uncompressed_bytes) lines in
      if is_empty delta
      then some (record { chunks = []; new_cursor = none; oversized = 0 })
      else plan_of cursor (seq_start_of opts.seq_start cursor) start.reset delta
          (split_groups (envelope_of opts.max_envelope) groups)
