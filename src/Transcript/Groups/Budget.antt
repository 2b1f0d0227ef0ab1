-- ===== src/Transcript/Groups/Budget.antt =====
-- The split by budget: its lines and its bound.
use mathlib.Core.List.{flatten, append_assoc}
use skillmeter_claude_code_m.Prelude.{
  ℕ, ◌+◌, ◌≤◌, ◌<◌, ◌≡◌, ◌⊎◌, inl, inr, refl, ap, ◌∙◌, false, ◌&&◌, List, [], ◌∷◌, ◌++◌, arith, ltb,
  length, All, Bool-cases,
}
use skillmeter_claude_code_m.Transcript.Groups.{total, split_from, split_lines_by_budget}

module _ {ℓ} {A : Type ℓ} (bytes : A → ℕ) where
  total-append : (xs ys : List A) → total bytes (xs ++ ys) ≡ total bytes xs + total bytes ys
  total-append [] ys = omega arith
  total-append (x ∷ xs) ys = omega (arith, total-append xs ys)

  flatten-split_from :
      (most : ℕ) (current : List A) (size : ℕ) (lines : List A)
      → flatten (split_from bytes most current size lines) ≡ current ++ lines
  unfolding split_from flatten
  flatten-split_from most [] size [] = refl
  flatten-split_from most (x ∷ current) size [] = refl
  flatten-split_from most current size (x ∷ xs) =
      elim (Bool-cases (ltb 0 (length current) && ltb most (size + (bytes x + 1)))) [
        | inl full ↦
            rw full (ap (λ l. current ++ l) (flatten-split_from most (x ∷ []) (bytes x + 1) xs))
        | inr room ↦ rw room (
            flatten-split_from most (current ++ x ∷ []) (size + (bytes x + 1)) xs
            ∙ append_assoc current (x ∷ []) xs)
      ]

  -- Not empty, and within the budget unless it is a single line.
  abbrev pub IsWithin : ℕ → List A → Type 0
  IsWithin most group = (0 < length group) × ((total bytes group ≤ most) ⊎ (length group ≡ 1))

  IsWithin-snoc :
      (most : ℕ) (current : List A) (x : A)
      → (ltb 0 (length current) && ltb most (total bytes current + (bytes x + 1))) ≡ false
      → IsWithin most (current ++ x ∷ [])
  IsWithin-snoc most [] x room = (omega arith, inr refl)
  IsWithin-snoc most (y ∷ current) x room =
      (omega arith, inl (omega (arith, total-append (y ∷ current) (x ∷ []), lt_of_room)))
    where
      lt_of_room : total bytes (y ∷ current) + (bytes x + 1) ≤ most
      lt_of_room = ground arith

  IsWithin-of_pos :
      (most : ℕ) (current : List A)
      → (current ≡ []) ⊎ IsWithin most current
      → 0 < length current
      → IsWithin most current
  IsWithin-of_pos most current (inl e) h = absurd (omega (arith, ap length e))
  IsWithin-of_pos most current (inr w) h = w

  split_from-IsWithin :
      (most : ℕ) (current : List A) (size : ℕ) (lines : List A)
      → size ≡ total bytes current
      → (current ≡ []) ⊎ IsWithin most current
      → All (IsWithin most) (split_from bytes most current size lines)
  unfolding split_from
  split_from-IsWithin most [] size [] e h = tt
  split_from-IsWithin most (x ∷ current) size [] e h =
      (IsWithin-of_pos most (x ∷ current) h (omega arith), tt)
  split_from-IsWithin most current size (x ∷ xs) e h =
      elim (Bool-cases (ltb 0 (length current) && ltb most (size + (bytes x + 1)))) [
        | inl full ↦ rw full (
          IsWithin-of_pos most current h (ground arith),
          split_from-IsWithin most (x ∷ []) (bytes x + 1) xs (omega arith)
              (inr (omega arith, inr refl)),
        )
        | inr room ↦ rw room (
            split_from-IsWithin most (current ++ x ∷ []) (size + (bytes x + 1)) xs
              (omega (arith, total-append current (x ∷ [])))
              (inr (IsWithin-snoc most current x (rw e at room))))
      ]

  -- The groups hold every line, in order; each is not empty, and within the budget unless it is one
  -- line.
  pub split_lines_by_budget-IsWithin :
      (most : ℕ) (lines : List A)
      → (flatten (split_lines_by_budget bytes most lines) ≡ lines)
        × All (IsWithin most) (split_lines_by_budget bytes most lines)
  unfolding split_lines_by_budget
  split_lines_by_budget-IsWithin most lines =
      (flatten-split_from most [] 0 lines, split_from-IsWithin most [] 0 lines refl (inl refl))
