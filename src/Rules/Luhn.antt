-- ===== src/Rules/Luhn.antt =====
-- The checksum of a card number.
use skillmeter_claude_code_m.Prelude.{
  ℕ, ◌+◌, ◌≤◌, ◌≡◌, ◌≢◌, refl, ap, Bool, true, false, not, List, [], ◌∷◌, ◌++◌, arith, length,
}
use skillmeter_claude_code_m.Rules.{
  luhn_value, luhn_scan, luhn_valid, valid_card, known_card_issuer, issuer_length_ok, digits_of,
}

luhn_value-injective :
    (double : Bool) (d e : ℕ) → d ≤ 9 → e ≤ 9 → luhn_value double d ≡ luhn_value double e → d ≡ e
luhn_value-injective false d e hd he h = h
luhn_value-injective true d e hd he h = ground (arith, h)

luhn_value-bound : (double : Bool) (d : ℕ) → d ≤ 9 → luhn_value double d ≤ 9
luhn_value-bound false d h = h
luhn_value-bound true d h = ground (arith, h)

-- Replacing one digit changes the sum by the difference of what the two digits add.
luhn_scan-replaced :
    (xs ys : List ℕ) (d e : ℕ)
    → ((luhn_scan (xs ++ d ∷ ys)).0 + luhn_value (luhn_scan ys).1 e
        ≡ (luhn_scan (xs ++ e ∷ ys)).0 + luhn_value (luhn_scan ys).1 d)
      × ((luhn_scan (xs ++ d ∷ ys)).1 ≡ (luhn_scan (xs ++ e ∷ ys)).1)
unfolding luhn_scan
luhn_scan-replaced [] ys d e = (omega arith, refl)
luhn_scan-replaced (x ∷ xs) ys d e =
    let (sums, doubles) = luhn_scan-replaced xs ys d e in
    (rw doubles (omega (arith, sums)), ap not doubles)

-- The checksum detects every error in a single digit: of two numbers that differ in one digit at
-- most one passes.
pub luhn_valid-replaced :
    (xs ys : List ℕ) (d e : ℕ)
    → d ≤ 9
    → e ≤ 9
    → d ≢ e
    → luhn_valid (xs ++ d ∷ ys) ≡ true
    → luhn_valid (xs ++ e ∷ ys) ≡ false
unfolding luhn_valid
luhn_valid-replaced xs ys d e hd he ne valid =
    let sums = (luhn_scan-replaced xs ys d e).0 in
    let apart : luhn_value (luhn_scan ys).1 d ≢ luhn_value (luhn_scan ys).1 e =
      λ h. ne (luhn_value-injective (luhn_scan ys).1 d e hd he h) in
    let bd = luhn_value-bound (luhn_scan ys).1 d hd in
    let be = luhn_value-bound (luhn_scan ys).1 e he in ground (arith, valid, sums, apart, bd, be)

accepted :
    (candidate : List ℕ)
    → valid_card candidate ≡ true
    → (known_card_issuer (digits_of candidate) ≡ true)
      × (issuer_length_ok (digits_of candidate) ≡ true)
      × (13 ≤ length (digits_of candidate))
      × (length (digits_of candidate) ≤ 19)
      × (luhn_valid (digits_of candidate) ≡ true)
unfolding valid_card
accepted candidate h =
    (ground (arith, h), ground (arith, h), ground (arith, h), ground (arith, h), ground (arith, h))

-- A candidate that is accepted as a card has 13 to 19 digits, of a known network and of a length
-- that its network issues, and no candidate with one of those digits replaced is accepted, in
-- whatever grouping.
pub valid_card-digits :
    (candidate other xs ys : List ℕ) (d e : ℕ)
    → valid_card candidate ≡ true
    → digits_of candidate ≡ xs ++ d ∷ ys
    → digits_of other ≡ xs ++ e ∷ ys
    → d ≤ 9
    → e ≤ 9
    → d ≢ e
    → (known_card_issuer (digits_of candidate) ≡ true)
      × (issuer_length_ok (digits_of candidate) ≡ true)
      × (13 ≤ length (digits_of candidate))
      × (length (digits_of candidate) ≤ 19)
      × (valid_card other ≡ false)
unfolding valid_card
valid_card-digits candidate other xs ys d e valid here there hd he ne =
    let parts = accepted candidate valid in
    let right = rw here at parts.4 in
    let wrong = rw (← there) at (luhn_valid-replaced xs ys d e hd he ne right) in
    (parts.0, parts.1, parts.2, parts.3, ground (arith, wrong))
