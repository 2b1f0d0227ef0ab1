-- ===== src/Codex/Journal/Ranges.antt =====
-- The excluded ranges of a journal: what they cover, and how they grow.
use skillmeter_claude_code_m.Prelude.{
  ℕ, ◌≤◌, ◌<◌, Bool, true, ◌&&◌, any, List, [], ◌∷◌, leb, ltb, ◌≡◌, refl, arith,
}
use skillmeter_claude_code_m.Codex.Journal.{
  Journal, ranges_valid, is_valid, Boundary, extend, fresh, continued,
}

abbrev pub holds : ℕ → ℕ × ℕ → Bool
holds x (from, to) = leb from x && ltb x to

abbrev pub is_covered : List (ℕ × ℕ) → ℕ → Bool
is_covered ranges x = any (holds x) ranges

pub is_covered-extend_old :
    (ranges : List (ℕ × ℕ)) (from to x : ℕ)
    → from ≤ to
    → is_covered ranges x ≡ true
    → is_covered (extend ranges from to) x ≡ true
unfolding extend
is_covered-extend_old [] from to x le e = ground (arith, e)
is_covered-extend_old ((a, b) ∷ []) from to x le e = ground (arith, le, e)
is_covered-extend_old ((a, b) ∷ (s ∷ ranges)) from to x le e =
    ground (arith, e, is_covered-extend_old (s ∷ ranges) from to x le)

pub is_covered-extend_new :
    (ranges : List (ℕ × ℕ)) (from to x previous observed : ℕ)
    → ranges_valid previous observed ranges ≡ true
    → from ≤ x
    → x < to
    → is_covered (extend ranges from to) x ≡ true
unfolding extend ranges_valid
is_covered-extend_new [] from to x previous observed v le lt = ground (arith, le, lt)
is_covered-extend_new ((a, b) ∷ []) from to x previous observed v le lt = ground (arith, le, lt, v)
is_covered-extend_new ((a, b) ∷ (s ∷ ranges)) from to x previous observed v le lt =
    ground
      (arith, v, is_covered-extend_new (s ∷ ranges) from to x b observed (ground (arith, v)) le lt)

pub ranges_valid-extend :
    (ranges : List (ℕ × ℕ)) (from to previous : ℕ)
    → from ≤ to
    → previous ≤ from
    → ranges_valid previous from ranges ≡ true
    → ranges_valid previous to (extend ranges from to) ≡ true
unfolding extend ranges_valid
ranges_valid-extend [] from to previous le first v = ground (arith, le, first)
ranges_valid-extend ((a, b) ∷ []) from to previous le first v = ground (arith, le, first, v)
ranges_valid-extend ((a, b) ∷ (s ∷ ranges)) from to previous le first v =
    ground (arith, le, first, v, ranges_valid-extend (s ∷ ranges) from to b le)

pub ranges_valid_mono :
    (ranges : List (ℕ × ℕ)) (previous from to : ℕ)
    → from ≤ to
    → ranges_valid previous from ranges ≡ true
    → ranges_valid previous to ranges ≡ true
unfolding ranges_valid
ranges_valid_mono [] previous from to le v = refl
ranges_valid_mono ((a, b) ∷ ranges) previous from to le v =
    ground (arith, le, v, ranges_valid_mono ranges b from to le)

pub fresh-IsValid : (b : Boundary) → is_valid (fresh b) ≡ true
unfolding is_valid fresh
fresh-IsValid b = ground arith

pub continued-IsValid :
    (b : Boundary) (j : Journal)
    → is_valid j ≡ true
    → j.observed ≤ b.size
    → is_valid (continued b j) ≡ true
unfolding is_valid continued
continued-IsValid b j v le = ground (
  arith,
  ranges_valid_mono j.excluded 0 j.observed b.size le v,
  ranges_valid-extend j.excluded j.observed b.size 0 le (ground arith) v,
)
