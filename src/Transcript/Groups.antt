-- ===== src/Transcript/Groups.antt =====
-- The two splits of transcript-delta.js: lines into groups under a byte budget, and a group into
-- parts whose request fits the collector's envelope.
pub mod Budget
pub mod Envelope
use skillmeter_claude_code_m.Prelude.{
  ℕ, zero, suc, ◌+◌, ◌*◌, ◌/◌, Bool, true, false, ◌&&◌, ◌||◌, Option, none, some, List, [], ◌∷◌,
  ◌++◌, ltb, leb, ◌==◌, length, take, drop, if◌then◌else◌,
}

abbrev pub max_envelope_bytes : ℕ
max_envelope_bytes = 5242880

abbrev pub envelope_reserve : ℕ
envelope_reserve = 131072

abbrev pub default_chunk_max_bytes : ℕ
default_chunk_max_bytes = 20971520

-- `bytes` is `Buffer.byteLength(line, "utf8")`.
module _ {ℓ} {A : Type ℓ} (bytes : A → ℕ) where
  -- The bytes of the lines, each with its newline.
  abbrev pub total : List A → ℕ
  total [] = 0
  total (x ∷ xs) = bytes x + 1 + total xs

  abbrev is_nil : List A → Bool
  is_nil [] = true
  is_nil (x ∷ xs) = false

  -- The loop, over `current` and `size`; a group that is closed comes first in the result.
  unfoldable pub split_from : ℕ → List A → ℕ → List A → List (List A)
  split_from most current size [] = if is_nil current then [] else current ∷ []
  split_from most current size (x ∷ xs) =
      let closed = split_from most (x ∷ []) (bytes x + 1) xs in
      let longer = split_from most (current ++ x ∷ []) (size + (bytes x + 1)) xs in
      if ltb 0 (length current) && ltb most (size + (bytes x + 1)) then current ∷ closed else longer

  unfoldable pub split_lines_by_budget : ℕ → List A → List (List A)
  unfolding split_from
  split_lines_by_budget most lines = split_from most [] 0 lines

pub record Split {ℓ} (A : Type ℓ) : Type ℓ where
  pub groups : List (List A)
  pub oversized : ℕ

unfoldable pub envelope_bytes : ℕ → ℕ
envelope_bytes body = 4 * ((body + 2) / 3) + envelope_reserve

-- `Math.ceil(n / k)` is `(n + (k - 1)) / k`. `gzip_bytes` is the length of `zlib.gzipSync` of the lines, each with its newline.
module _ {ℓ} {A : Type ℓ} (bytes : A → ℕ) (gzip_bytes : List A → ℕ) where
  unfoldable pub fits_envelope : ℕ → List A → Bool
  unfolding envelope_bytes
  fits_envelope most lines =
      let size = total bytes lines in
      leb (envelope_bytes (size + (size + 16383) / 16384 * 5 + 64)) most
      || leb (envelope_bytes (gzip_bytes lines)) most

  abbrev pub join_splits : Option (Split A) → Option (Split A) → Option (Split A)
  join_splits none b = none
  join_splits (some a) none = none
  join_splits (some a) (some b) =
      some (record { groups = a.groups ++ b.groups; oversized = a.oversized + b.oversized })

  -- The recursion on fuel; `none` means that the fuel ran out.
  unfoldable pub split_by_envelope : ℕ → ℕ → List A → Option (Split A)
  unfolding fits_envelope
  split_by_envelope zero most lines = none
  split_by_envelope (suc fuel) most lines =
      let middle = (length lines + 1) / 2 in
      let halves =
        join_splits (split_by_envelope fuel most (take middle lines))
          (split_by_envelope fuel most (drop middle lines)) in
      if fits_envelope most lines
      then some (record { groups = lines ∷ []; oversized = 0 })
      else if length lines == 1
      then some (record { groups = []; oversized = 1 })
      else halves
