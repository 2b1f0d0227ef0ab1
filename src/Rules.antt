-- ===== src/Rules.antt =====
-- The validators of shared/lib/rules.js for candidates that look like a payment card or an IPv4
-- address. A candidate is the list of its UTF-16 code units, its digits the list of their values.
pub mod Luhn
mod Tests
use skillmeter_claude_code_m.Prelude.{
  ℕ, zero, suc, ◌+◌, ◌-◌, ◌*◌, ◌%◌, Bool, true, false, not, ◌&&◌, ◌||◌, List, [], ◌∷◌, leb, ltb,
  ◌==◌, length, take, all, any, if◌then◌else◌,
}

abbrev is_digit : ℕ → Bool
is_digit c = leb b'0' c && leb c b'9'

-- `s.replace(/\D/g, "")`
unfoldable pub digits_of : List ℕ → List ℕ
digits_of [] = []
digits_of (c ∷ s) = let rest = digits_of s in if is_digit c then (c - b'0') ∷ rest else rest

-- What a digit adds to the sum.
abbrev pub luhn_value : Bool → ℕ → ℕ
luhn_value false d = d
luhn_value true d = if ltb 9 (d * 2) then d * 2 - 9 else d * 2

-- `sum` and `double` after the loop over the digits from the last to the first.
unfoldable pub luhn_scan : List ℕ → ℕ × Bool
luhn_scan [] = (0, false)
luhn_scan (d ∷ ds) = let (sum, double) = luhn_scan ds in (sum + luhn_value double d, not double)

unfoldable pub luhn_valid : List ℕ → Bool
unfolding luhn_scan
luhn_valid digits = (luhn_scan digits).0 % 10 == 0

-- `Number(d.slice(0, n))` of digits
unfoldable pub number_from : ℕ → List ℕ → ℕ
number_from acc [] = acc
number_from acc (d ∷ ds) = number_from (acc * 10 + d) ds

abbrev pub prefix_number : ℕ → List ℕ → ℕ
prefix_number n d = number_from 0 (take n d)

abbrev between : ℕ → ℕ → ℕ → Bool
between low n high = leb low n && leb n high

abbrev starts_with_four : List ℕ → Bool
starts_with_four [] = false
starts_with_four (d ∷ ds) = d == 4

unfoldable pub known_card_issuer : List ℕ → Bool
unfolding number_from
known_card_issuer d =
    let p2 = prefix_number 2 d in
    let p3 = prefix_number 3 d in
    let p4 = prefix_number 4 d in
    starts_with_four d
    || between 51 p2 55
    || between 2221 p4 2720
    || p2 == 34
    || p2 == 37
    || p4 == 6011
    || p2 == 65
    || between 644 p3 649
    || between 3528 p4 3589

unfoldable pub issuer_length_ok : List ℕ → Bool
unfolding number_from
issuer_length_ok d =
    let n = length d in
    let p2 = prefix_number 2 d in
    let p4 = prefix_number 4 d in
    if starts_with_four d
    then n == 13 || n == 16 || n == 19
    else if between 51 p2 55 || between 2221 p4 2720
    then n == 16
    else if p2 == 34 || p2 == 37
    then n == 15
    else between 16 n 19

-- `candidate.replace(/\d/g, "")`
abbrev separators : List ℕ → List ℕ
separators [] = []
separators (c ∷ s) = let rest = separators s in if is_digit c then rest else c ∷ rest

-- Whether all are one and the same, and there is one.
abbrev one_separator : List ℕ → Bool
one_separator [] = false
one_separator (c ∷ s) = all (λ x. x == c) s

abbrev count_unit : List ℕ → List ℕ
count_unit [] = 1 ∷ []
count_unit (n ∷ groups) = suc n ∷ groups

-- The lengths of `candidate.split(/[ -]/)`.
unfoldable pub group_lengths : List ℕ → List ℕ
group_lengths [] = 0 ∷ []
group_lengths (c ∷ s) =
    let rest = group_lengths s in if c == b' ' || c == b'-' then 0 ∷ rest else count_unit rest

-- Groups of four, and a last one of up to four.
abbrev fours : List ℕ → Bool
fours [] = false
fours (n ∷ []) = between 1 n 4
fours (n ∷ m ∷ groups) = n == 4 && fours (m ∷ groups)

-- 4-6-5
abbrev amex : List ℕ → Bool
amex [] = false
amex (a ∷ []) = false
amex (a ∷ b ∷ []) = false
amex (a ∷ b ∷ c ∷ groups) = a == 4 && b == 6 && c == 5

abbrev grouped : List ℕ → Bool
grouped groups =
    if length groups == 3 then amex groups else between 4 (length groups) 5 && fours groups

unfoldable pub card_grouping_ok : List ℕ → Bool
unfolding group_lengths
card_grouping_ok candidate =
    if not (length candidate == 0) && all is_digit candidate
    then true
    else if not (one_separator (separators candidate))
    then false
    else grouped (group_lengths candidate)

-- `/^(\d)\1+$/` on at least two digits
abbrev all_same : List ℕ → Bool
all_same [] = false
all_same (d ∷ ds) = all (λ x. x == d) ds

unfoldable pub valid_card : List ℕ → Bool
valid_card candidate =
    let d = digits_of candidate in
    if ltb (length d) 13 || ltb 19 (length d)
    then false
    else if all_same d
    then false
    else if not (card_grouping_ok candidate)
    then false
    else known_card_issuer d && issuer_length_ok d && luhn_valid d

-- On the first three of the numbers between the dots.
unfoldable pub valid_ipv4 : ℕ → ℕ → ℕ → Bool
valid_ipv4 a b c =
    if a == 0 || a == 127
    then false
    else if a == 255 && b == 255 && c == 255
    then false
    else if a == 192 && b == 0 && c == 2
    then false
    else if a == 198 && b == 51 && c == 100
    then false
    else if a == 203 && b == 0 && c == 113
    then false
    else true
