-- ===== src/Retry.antt =====
-- clients/claude-code/skillmeter/scripts/lib/chunk-retry.js: the retry budget of an upload chunk.
-- A sidecar field is `none` where the file has no usable number there; a text is the list of its
-- UTF-16 code units. `other` holds the fields that this module copies and never reads.
pub mod Budget
mod Tests
use Prim.Native.Nat.{min}
use skillmeter_claude_code_m.Prelude.{
  ℕ, zero, suc, ◌+◌, ◌-◌, ◌*◌, ◌^◌, Bool, true, false, Option, none, some, List, [], String, ltb,
  leb, take, if◌then◌else◌,
}

abbrev pub max_upload_attempts : ℕ
max_upload_attempts = 8

abbrev pub retry_base_ms : ℕ
retry_base_ms = 60000

abbrev pub retry_cap_ms : ℕ
retry_cap_ms = 1800000

pub record Meta : Type 0 where
  pub upload_attempts : Option ℕ
  pub upload_deferrals : Option ℕ
  pub last_upload_error : List ℕ
  pub last_attempt_at : Option ℕ
  pub next_attempt_at : Option ℕ
  pub other : List (String × String)

-- `{}`
abbrev pub no_meta : Meta
no_meta = record {
  upload_attempts = none;
  upload_deferrals = none;
  last_upload_error = [];
  last_attempt_at = none;
  next_attempt_at = none;
  other = [];
}

unfoldable pub retry_delay_ms : ℕ → ℕ → ℕ → ℕ
retry_delay_ms attempts base cap =
    let n = if ltb 1 attempts then attempts else 1 in
    let doublings = min (n - 1) 32 in min (base * 2 ^ doublings) cap

-- `Number.isFinite(v) && v > 0 ? Math.floor(v) : 0`
abbrev pub counted : Option ℕ → ℕ
counted none = 0
counted (some n) = n

-- `meta || {}`
abbrev pub or_empty : Option Meta → Meta
or_empty none = no_meta
or_empty (some m) = m

unfoldable pub record_upload_failure : Option Meta → ℕ → List ℕ → Meta
record_upload_failure m now error =
    let old = or_empty m in
    let attempts = counted old.upload_attempts + 1 in
    record old {
      upload_attempts = some attempts;
      last_upload_error = take 300 error;
      last_attempt_at = some now;
      next_attempt_at = some (now + retry_delay_ms attempts retry_base_ms retry_cap_ms);
    }

unfoldable pub record_upload_deferral : Option Meta → ℕ → List ℕ → Meta
record_upload_deferral m now error =
    let old = or_empty m in
    let deferrals = counted old.upload_deferrals + 1 in
    record old {
      upload_deferrals = some deferrals;
      last_upload_error = take 300 error;
      last_attempt_at = some now;
      next_attempt_at = some (now + retry_delay_ms deferrals retry_base_ms retry_cap_ms);
    }

abbrev due : Option ℕ → ℕ → Bool
due none now = true
due (some t) now = leb t now

unfoldable pub is_chunk_eligible : Option Meta → ℕ → Bool
is_chunk_eligible m now = due (or_empty m).next_attempt_at now

abbrev spent : Option ℕ → ℕ → Bool
spent none max = false
spent (some n) max = leb max n

unfoldable pub is_chunk_exhausted : Option Meta → ℕ → Bool
is_chunk_exhausted m max = spent (or_empty m).upload_attempts max
