-- ===== src/Codex/Capture.antt =====
-- The lines of a transcript that are staged: the reading loop of `stage` in transcript-delta.js, from
-- the offset of its cursor. Each read completes some lines and leaves a part of one pending. How a
-- line is decoded, the metadata of a first record, the check of its scope and its sanitized text
-- with the limit on it are parameters.
pub mod Authorized
use skillmeter_claude_code_m.Prelude.{
  ℕ, ◌+◌, ◌*◌, ◌-◌, Bool, true, false, not, ◌&&◌, ◌||◌, any, Option, none, some, List, [], ◌∷◌,
  ◌++◌, String, leb, ltb, ◌==◌, if◌then◌else◌,
}

pub data CaptureError : Type 0 where
  oversized_single_record malformed_complete_record source_scope_changed stage_failed : CaptureError

pub data StageResult (A : Type 0) : Type 0 where
  ok : A → StageResult A
  err : CaptureError → StageResult A

infixl 5 ◌>>=◌
abbrev pub ◌>>=◌ : {A B : Type 0} → StageResult A → (A → StageResult B) → StageResult B
ok a >>= f = f a
err e >>= f = err e

-- A complete line: its bytes with the newline, and what decoding gives.
pub data Decoded (R : Type 0) : Type 0 where
  undecodable blank not_object : Decoded R
  object : R → Decoded R

pub record SourceLine (R : Type 0) : Type 0 where
  pub size : ℕ
  pub text : Decoded R

pub record Block (R : Type 0) : Type 0 where
  pub lines : List (SourceLine R)
  pub pending : ℕ

pub record Captured : Type 0 where
  pub from : ℕ
  pub size : ℕ
  pub is_metadata : Bool
  pub text : String

abbrev pub max_record : ℕ
max_record = 32 * 1024 * 1024

-- Whether the line shares a byte with a range.
abbrev pub overlaps : ℕ → ℕ → ℕ × ℕ → Bool
overlaps from size (start, end) = ltb from end && ltb start (from + size)

abbrev has_captured : List Captured → Bool
has_captured [] = false
has_captured (c ∷ captured) = true

module _ {R : Type 0} (metadata : R → StageResult (Option R)) (in_scope : R → Bool)
    (serialize : ℕ → R → StageResult String) (preserve : Bool) (excluded : List (ℕ × ℕ)) where
  abbrev pub is_excluded : ℕ → ℕ → Bool
  is_excluded from size = any (overlaps from size) excluded

  abbrev pub is_header : ℕ → Bool
  is_header from = preserve && from == 0

  abbrev pub capture_record : ℕ → ℕ → Bool → Option R → StageResult (List Captured)
  capture_record from size of_metadata none = ok []
  capture_record from size of_metadata (some r) =
      if in_scope r
      then serialize from r >>= (λ text.
        ok (record { from = from; size = size; is_metadata = of_metadata; text = text } ∷ []))
      else err source_scope_changed

  -- Only the metadata of an excluded header is read.
  abbrev pub capture_decoded : ℕ → ℕ → Bool → Decoded R → StageResult (List Captured)
  capture_decoded from size of_metadata undecodable = err stage_failed
  capture_decoded from size of_metadata blank = ok []
  capture_decoded from size of_metadata not_object = err malformed_complete_record
  capture_decoded from size true (object r) = metadata r >>= (λ m. capture_record from size true m)
  capture_decoded from size false (object r) = capture_record from size false (some r)

  unfoldable pub capture_line : ℕ → SourceLine R → StageResult (List Captured)
  capture_line from line =
      if ltb max_record line.size
      then err oversized_single_record
      else if is_excluded from line.size && not (is_header from)
      then ok []
      else capture_decoded from line.size (is_excluded from line.size) line.text

  -- The lines of one read, with the position behind them.
  unfoldable pub capture_lines : ℕ → List (SourceLine R) → StageResult (List Captured × ℕ)
  unfolding capture_line
  capture_lines from [] = ok ([], from)
  capture_lines from (line ∷ lines) =
      capture_line from line
      >>= (λ now. capture_lines (from + line.size) lines >>= (λ rest. ok (now ++ rest.0, rest.1)))

  -- `captured` is what the reads before have given, `start` the offset of the cursor; reading ends
  -- at the budget once something is captured.
  unfoldable pub capture_blocks :
      ℕ → ℕ → ℕ → List Captured → List (Block R) → StageResult (List Captured × ℕ)
  capture_blocks budget start from captured [] = ok (captured, from)
  capture_blocks budget start from captured (block ∷ blocks) =
      capture_lines from block.lines >>= (λ read.
        let all = captured ++ read.0 in
        let more = capture_blocks budget start read.1 all blocks in
        if ltb max_record block.pending
        then err oversized_single_record
        else if has_captured all && leb budget (read.1 - start)
        then ok (all, read.1)
        else more)
