-- ===== src/Backfill/Ids.antt =====
-- `SESSION_ID_RE` of backfill-state.js: a UUID, in either case.
use Prim.Native.Char.{code}
use Prim.Native.String.{[], ◌∷◌}
use skillmeter_claude_code_m.Prelude.{
  ℕ, zero, suc, Bool, true, false, ◌&&◌, ◌||◌, Option, none, some, String, leb, ◌==◌, if◌then◌else◌,
}

abbrev is_hex : ℕ → Bool
is_hex c = leb b'0' c && leb c b'9' || leb b'a' c && leb c b'f' || leb b'A' c && leb c b'F'

-- What follows `n` hexadecimal digits.
unfoldable pub after_hex : ℕ → String → Option String
after_hex zero s = some s
after_hex (suc n) [] = none
after_hex (suc n) (c ∷ s) = if is_hex (code c) then after_hex n s else none

abbrev after_dash : Option String → Option String
after_dash none = none
after_dash (some []) = none
after_dash (some (c ∷ s)) = if code c == b'-' then some s else none

abbrev then_hex : ℕ → Option String → Option String
then_hex n none = none
then_hex n (some s) = after_hex n s

abbrev is_end : Option String → Bool
is_end none = false
is_end (some []) = true
is_end (some (c ∷ s)) = false

unfoldable pub is_session_id : String → Bool
unfolding after_hex
is_session_id s = is_end (
    then_hex 12 (
      after_dash (
        then_hex 4
          (after_dash (then_hex 4 (after_dash (then_hex 4 (after_dash (after_hex 8 s)))))))))
