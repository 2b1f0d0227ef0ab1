-- ===== src/Rules/Tests.antt =====
-- The validators at concrete candidates.
use skillmeter_claude_code_m.Prelude.{ℕ, ◌≡◌, refl, true, false, List, [], ◌∷◌, ◌++◌}
use skillmeter_claude_code_m.Host.{units}
use skillmeter_claude_code_m.Rules.{
  valid_card, digits_of, luhn_valid, known_card_issuer, issuer_length_ok, card_grouping_ok,
  valid_ipv4,
}

abbrev front : List ℕ
front = 4 ∷ 1 ∷ 1 ∷ 1 ∷ 1 ∷ 1 ∷ 1 ∷ 1 ∷ 1 ∷ 1 ∷ 1 ∷ 1 ∷ 1 ∷ 1 ∷ []

front_passes : luhn_valid (front ++ 1 ∷ 1 ∷ []) ≡ true
unfolding luhn_valid
front_passes = refl

abbrev written : List ℕ
written = units "4111-1111-1111-1111"

abbrev mistyped : List ℕ
mistyped = units "4111 1111 1111 1171"

written_is_card : valid_card written ≡ true
unfolding units valid_card digits_of card_grouping_ok known_card_issuer issuer_length_ok luhn_valid
written_is_card = refl

written_digits : digits_of written ≡ front ++ 1 ∷ 1 ∷ []
unfolding units digits_of
written_digits = refl

mistyped_digits : digits_of mistyped ≡ front ++ 7 ∷ 1 ∷ []
unfolding units digits_of
mistyped_digits = refl

loopback : valid_ipv4 127 0 0 ≡ false
unfolding valid_ipv4
loopback = refl
