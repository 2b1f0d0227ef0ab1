-- ===== src/Staging/Stored.antt =====
-- Which chunks are sealed, what a cursor holds, and where a record goes, as staging leaves them.
use skillmeter_claude_code_m.Prelude.{
  ◌↔◌, ◌≢◌, ℕ, ◌≤◌, Bool, true, false, not, eq_iff, ◌==◌, any, length, Option, none, some,
  Bool-cases, List, [], ◌∷◌, String, ◌≡◌, ◌⊎◌, inl, inr, refl, ap, arith,
}
use skillmeter_claude_code_m.Transcript.{Line, Cursor, non_empty}
use skillmeter_claude_code_m.Transcript.Turns.{Destination, unassigned, nowhere, repository}
use skillmeter_claude_code_m.Transcript.Plan.{Chunk, or_zero}
use skillmeter_claude_code_m.Staging.{
  StoredCursor, Evidence, hold, live_delta_start, is_kept, has_prompt, or_else, baseline_of,
  sealed_chunks,
}

module _ {ℓ} {A : Type ℓ} (seals : Chunk A → Bool) where
  sealed_chunks-length : (l : List (Chunk A)) → length (sealed_chunks seals l) ≤ length l
  unfolding sealed_chunks
  sealed_chunks-length [] = ground arith
  sealed_chunks-length (c ∷ l) = ground (arith, sealed_chunks-length l)

  -- As many sealed as planned: all of them.
  pub all_sealed :
      (l : List (Chunk A)) → length (sealed_chunks seals l) ≡ length l → sealed_chunks seals l ≡ l
  unfolding sealed_chunks
  all_sealed [] e = refl
  all_sealed (c ∷ l) e = elim (Bool-cases (seals c)) [
    | inl y ↦
        let rest : length (sealed_chunks seals l) ≡ length l = ground (arith, y, e) in
        rw y (ap (λ m. c ∷ m) (all_sealed l rest))
    | inr n ↦ absurd (ground (arith, n, e, sealed_chunks-length l))
  ]

-- The chunks of a plan that the disk took, in their order, out of all.
pub data IsSealedOf {ℓ} {A : Type ℓ} (seals : Chunk A → Bool)
    : List (Chunk A) → List (Chunk A) → Type ℓ where
  no_more : IsSealedOf seals [] []
  taken :
      {c : Chunk A} {l m : List (Chunk A)}
      → seals c ≡ true
      → IsSealedOf seals l m
      → IsSealedOf seals (c ∷ l) (c ∷ m)
  failed :
      {c : Chunk A} {l m : List (Chunk A)}
      → seals c ≡ false
      → IsSealedOf seals l m
      → IsSealedOf seals (c ∷ l) m

pub sealed_chunks-IsSealedOf {ℓ} :
    {A : Type ℓ} (seals : Chunk A → Bool) (l : List (Chunk A))
    → IsSealedOf seals l (sealed_chunks seals l)
unfolding sealed_chunks
sealed_chunks-IsSealedOf seals [] = no_more
sealed_chunks-IsSealedOf seals (c ∷ l) = elim (Bool-cases (seals c)) [
  | inl y ↦ rw (y) (taken y (sealed_chunks-IsSealedOf seals l))
  | inr n ↦ rw (n) (failed n (sealed_chunks-IsSealedOf seals l))
]

-- Not all are sealed: one of them was refused.
pub some_failed {ℓ} :
    {A : Type ℓ} (seals : Chunk A → Bool) (l : List (Chunk A))
    → (length (sealed_chunks seals l) == length l) ≡ false
    → any (λ c. not (seals c)) l ≡ true
unfolding sealed_chunks
some_failed seals [] e = absurd (ground (arith, e))
some_failed seals (c ∷ l) e = elim (Bool-cases (seals c)) [
  | inl y ↦ let rest = some_failed seals l (ground (arith, rw (y) at e)) in ground (arith, y, rest)
  | inr n ↦ ground (arith, n)
]

-- The repository that a record may be sent for is this one, or is not decided.
abbrev pub GoesTo : String → Option Destination → Type 0
GoesTo key d = (d ≡ none) ⊎ (d ≡ some unassigned) ⊎ (d ≡ some (repository key))

pub is_kept-GoesTo : (key : String) (d : Option Destination) → (is_kept key d ≡ true) ↔ GoesTo key d
is_kept-GoesTo key none = (λ _. inl refl, λ _. refl)
is_kept-GoesTo key (some unassigned) = (λ _. inr (inl refl), λ _. refl)
is_kept-GoesTo key (some nowhere) =
    (λ e. absurd (ground (arith, e)), λ g. absurd (ground (arith, g)))
is_kept-GoesTo key (some (repository k)) = (
  λ e. inr (inr (ap (λ x. some (repository x)) ((eq_iff k key).0 e))),
  λ g. ground (arith, g, eq_iff k key),
)

-- The baseline carries over unless it is given.
abbrev pub baseline_for : Option ℕ → Option StoredCursor → ℕ
baseline_for (some n) previous = n
baseline_for none none = 0
baseline_for none (some c) = elim c.position.baseline [ none ↦ 0 | some n ↦ n ]

-- What a cursor holds that was written for a position, at a time, over the one before.
pub record IsStoredAs (wire : String) (now : ℕ) (position : Cursor) (discarded : Bool)
    (previous : Option StoredCursor) (c : StoredCursor) : Type 0 where
  pub last_uuid : c.position.last_uuid ≡ position.last_uuid
  pub seq : c.position.seq ≡ position.seq
  pub baseline : c.position.baseline ≡ some (baseline_for position.baseline previous)
  pub wire_id : c.wire_id ≡ some wire
  pub updated_at : c.updated_at ≡ now
  pub is_discarded : c.discarded ≡ discarded

pub baseline_lem :
    (given : Option ℕ) (previous : Option StoredCursor)
    → or_zero (or_else given (baseline_of previous)) ≡ baseline_for given previous
baseline_lem (some n) previous = refl
baseline_lem none none = refl
baseline_lem none (some c) =
    elim c.position.baseline as (λ o. or_zero o ≡ elim o [ none ↦ 0 | some n ↦ n ]) [
      | none ↦ refl
      | some n ↦ refl
    ]

-- Why nothing is staged: nothing was recorded for the repository, or where the delta starts is
-- unknown.
pub data MustHold (objs : List Line) (prompt_id : Option String) (b : Evidence) : Type 0 where
  never_recorded :
      b.cursor ≡ none
      → non_empty prompt_id ≡ none
      → any has_prompt objs ≡ true
      → MustHold objs prompt_id b
  unknown_start : live_delta_start objs b ≡ hold → MustHold objs prompt_id b

-- Something was recorded for the repository.
abbrev pub WasRecorded : List Line → Option String → Evidence → Type 0
WasRecorded objs prompt_id b =
    (b.cursor ≢ none) ⊎ (non_empty prompt_id ≢ none) ⊎ (any has_prompt objs ≡ false)
