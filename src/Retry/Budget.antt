-- ===== src/Retry/Budget.antt =====
-- What the retry budget of chunk-retry.js guarantees over a whole history of attempts.
use Prim.Native.Nat.{min}
use native.Mathlib.Nat.{zero-add, one-le-pow, pow-le-pow_right}
use skillmeter_claude_code_m.Prelude.{
  ℕ, suc, ◌+◌, ◌*◌, ◌-◌, ◌^◌, ◌≤◌, ◌≡◌, refl, some, List, [], ◌∷◌, ◌++◌, arith, ltb, leb,
  if◌then◌else◌,
}
use skillmeter_claude_code_m.Retry.{
  Meta, no_meta, retry_delay_ms, retry_base_ms, retry_cap_ms, counted, record_upload_failure,
  record_upload_deferral, is_chunk_eligible, is_chunk_exhausted, max_upload_attempts,
}

-- One upload attempt that did not succeed, as the drains record it.
pub data Attempt : Type 0 where
  failed deferred : (now : ℕ) → (error : List ℕ) → Attempt

unfoldable pub record_attempt : Meta → Attempt → Meta
record_attempt m (failed now error) = record_upload_failure (some m) now error
record_attempt m (deferred now error) = record_upload_deferral (some m) now error

unfoldable pub record_attempts : Meta → List Attempt → Meta
unfolding record_attempt
record_attempts m [] = m
record_attempts m (a ∷ rest) = record_attempts (record_attempt m a) rest

abbrev pub failures : List Attempt → ℕ
failures [] = 0
failures (failed now error ∷ rest) = suc (failures rest)
failures (deferred now error ∷ rest) = failures rest

abbrev pub deferrals : List Attempt → ℕ
deferrals [] = 0
deferrals (failed now error ∷ rest) = deferrals rest
deferrals (deferred now error ∷ rest) = suc (deferrals rest)

scaled-le : (base d : ℕ) → base ≤ base * 2 ^ d
scaled-le base d = grind (arith, one-le-pow d 2 (omega arith))

scaled_mono : (base d e : ℕ) → d ≤ e → base * 2 ^ d ≤ base * 2 ^ e
scaled_mono base d e h = grind (arith, pow-le-pow_right {n = 2} (omega arith) h)

abbrev doublings : ℕ → ℕ
doublings attempts = min ((if ltb 1 attempts then attempts else 1) - 1) 32

doublings_mono : (a b : ℕ) → a ≤ b → doublings a ≤ doublings b
doublings_mono a b h = ground arith

-- The delay lies between the smaller of base and cap, and the cap, and it never shrinks as the
-- count grows.
pub retry_delay_bounds :
    (attempts later base cap : ℕ)
    → attempts ≤ later
    → (min base cap ≤ retry_delay_ms attempts base cap)
      × (retry_delay_ms attempts base cap ≤ cap)
      × (retry_delay_ms attempts base cap ≤ retry_delay_ms later base cap)
unfolding retry_delay_ms
retry_delay_bounds n k base cap h = (
  omega (arith, scaled-le base (doublings n)),
  omega arith,
  omega (arith, scaled_mono base (doublings n) (doublings k) (doublings_mono n k h)),
)

counted_attempts :
    (m : Meta) (history : List Attempt)
    → counted (record_attempts m history).upload_attempts
      ≡ counted m.upload_attempts + failures history
unfolding record_attempts record_upload_failure record_upload_deferral
counted_attempts m [] = omega arith
counted_attempts m (failed now error ∷ rest) =
    ground (arith, counted_attempts (record_attempt m (failed now error)) rest)
counted_attempts m (deferred now error ∷ rest) =
    ground (arith, counted_attempts (record_attempt m (deferred now error)) rest)

counted_deferrals :
    (m : Meta) (history : List Attempt)
    → counted (record_attempts m history).upload_deferrals
      ≡ counted m.upload_deferrals + deferrals history
unfolding record_attempts record_upload_failure record_upload_deferral
counted_deferrals m [] = omega arith
counted_deferrals m (failed now error ∷ rest) =
    ground (arith, counted_deferrals (record_attempt m (failed now error)) rest)
counted_deferrals m (deferred now error ∷ rest) =
    ground (arith, counted_deferrals (record_attempt m (deferred now error)) rest)

-- After any history of attempts on a fresh chunk, the budget of 8 is spent exactly when 8 or more
-- of them were failures, however many deferrals stand among them.
pub exhausted_after_failures :
    (history : List Attempt)
    → is_chunk_exhausted (some (record_attempts no_meta history)) max_upload_attempts
      ≡ leb max_upload_attempts (failures history)
unfolding is_chunk_exhausted
exhausted_after_failures history = ground (arith, counted_attempts no_meta history)

record_attempts-append :
    (m : Meta) (xs ys : List Attempt)
    → record_attempts m (xs ++ ys) ≡ record_attempts (record_attempts m xs) ys
unfolding record_attempts
record_attempts-append m [] ys = refl
record_attempts-append m (x ∷ xs) ys = record_attempts-append (record_attempt m x) xs ys

-- A chunk whose last attempt failed at `now` is held back exactly until the delay for its number
-- of failures has passed, and so for a deferral and the number of deferrals; the two counts do not
-- mix.
pub eligible_after_backoff :
    (history : List Attempt) (now later : ℕ) (error : List ℕ)
    → (is_chunk_eligible (some (record_attempts no_meta (history ++ failed now error ∷ []))) later
        ≡ leb (now + retry_delay_ms (failures history + 1) retry_base_ms retry_cap_ms) later)
      × (is_chunk_eligible
            (some (record_attempts no_meta (history ++ deferred now error ∷ [])))
            later
          ≡ leb (now + retry_delay_ms (deferrals history + 1) retry_base_ms retry_cap_ms) later)
unfolding is_chunk_eligible
eligible_after_backoff history now later error = (
  rw (record_attempts-append no_meta history (failed now error ∷ [])) (
      unfold record_attempts record_upload_failure in
      rw (counted_attempts no_meta history, zero-add)),
  rw (record_attempts-append no_meta history (deferred now error ∷ [])) (
      unfold record_attempts record_upload_deferral in
      rw (counted_deferrals no_meta history, zero-add)),
)
