-- ===== src/Transcript/Plan/Numbering.antt =====
-- The numbers, the lines and the cursor of a chunk plan.
use mathlib.Core.Path.{subst}
use mathlib.Core.List.{flatten}
use skillmeter_claude_code_m.Prelude.{
  ℕ, suc, ◌+◌, ◌<◌, ◌≡◌, ◌≢◌, ◌⊎◌, inl, inr, refl, sym, ap, ◌∙◌, Bool, true, Option, none, some,
  List, [], ◌∷◌, ◌++◌, arith, length, drop, All, Bool-cases, if◌then◌else◌,
}
use skillmeter_claude_code_m.Transcript.{Line, Cursor, compute_delta}
use skillmeter_claude_code_m.Transcript.Groups.{Split, split_lines_by_budget}
use skillmeter_claude_code_m.Transcript.Groups.Budget.{IsWithin, split_lines_by_budget-IsWithin}
use skillmeter_claude_code_m.Transcript.Groups.Envelope.{
  Fits, IsSplitOf, IsSplitOf-halves, split_by_envelope_total, joined,
}
use skillmeter_claude_code_m.Transcript.Plan.{
  Chunk, ChunkPlan, Options, cursor_baseline, seq_start_of, kept_lines, serialized, split_groups,
  number_chunks, build_chunk_plan, null_if_zero, envelope_of, budget_of, plan_of, is_empty,
}

abbrev pub all_lines {ℓ} : {A : Type ℓ} → List (Chunk A) → List A
all_lines [] = []
all_lines (c ∷ chunks) = c.lines ++ all_lines chunks

-- The chunks are numbered from `seq + 1` on without a gap, and share `reset` and the baseline.
abbrev pub IsNumbered {ℓ} : {A : Type ℓ} → ℕ → Bool → Option ℕ → List (Chunk A) → Type 0
IsNumbered seq reset baseline [] = Unit
IsNumbered seq reset baseline (c ∷ chunks) =
    (c.seq ≡ seq + 1)
    × (c.reset ≡ reset)
    × (c.reset_baseline_seq ≡ baseline)
    × IsNumbered (seq + 1) reset baseline chunks

is_empty-nil : (objs : List Line) → is_empty objs ≡ true → objs ≡ []
is_empty-nil [] h = refl
is_empty-nil (o ∷ objs) h = cc

abbrev pub next_seq : Option Cursor → Option ℕ
next_seq none = none
next_seq (some c) = c.seq

module _ {ℓ} {A : Type ℓ} (bytes : A → ℕ) (gzip_bytes : List A → ℕ) where
  split_groups_total :
      (most : ℕ) (groups : List (List A))
      → All (λ g. 0 < length g) groups
      → (r : Split A) × (split_groups bytes gzip_bytes most groups ≡ some r)
        × IsSplitOf bytes gzip_bytes most (flatten groups) r
  unfolding split_groups flatten
  split_groups_total most [] h =
      (_, refl, record { all_fit = tt; counted = omega arith; lossless = λ f. refl })
  split_groups_total most (g ∷ groups) (pos, h) =
      let (a, ea, pa) =
        split_by_envelope_total bytes gzip_bytes most (length g) g (omega arith) pos in
      let (b, eb, pb) = split_groups_total most groups h in
      (
        joined bytes gzip_bytes most a b,
        rw (ea, eb) refl,
        IsSplitOf-halves bytes gzip_bytes most g (flatten groups) a b pa pb,
      )

  number_chunks-IsNumbered :
      (seq : ℕ) (reset : Bool) (baseline : Option ℕ) (groups : List (List A))
      → IsNumbered seq reset baseline (number_chunks seq reset baseline groups)
        × (length (number_chunks seq reset baseline groups) ≡ length groups)
        × (all_lines (number_chunks seq reset baseline groups) ≡ flatten groups)
  unfolding number_chunks flatten
  number_chunks-IsNumbered seq reset baseline [] = (tt, refl, refl)
  number_chunks-IsNumbered seq reset baseline (g ∷ groups) =
      let (a, b, c) = number_chunks-IsNumbered (seq + 1) reset baseline groups in
      ((refl, refl, refl, a), ap suc b, ap (λ l. g ++ l) c)

  -- The plan of a delta that is not empty.
  pub record IsPlanOf (cursor : Option Cursor) (start : ℕ) (reset : Bool) (most : ℕ)
      (lines : List A) (plan : ChunkPlan A) : Type ℓ where
    pub numbered :
        IsNumbered start reset
          (null_if_zero (if reset then start + 1 else cursor_baseline cursor))
          plan.chunks
    pub last_seq : next_seq plan.new_cursor ≡ some (start + length plan.chunks)
    pub all_fit : All (λ c. Fits bytes gzip_bytes most (c.lines)) plan.chunks
    pub counted : length (all_lines plan.chunks) + plan.oversized ≡ length lines
    pub lossless :
        All (λ x. Fits bytes gzip_bytes most (x ∷ [])) lines → all_lines plan.chunks ≡ lines

  number_chunks_fit :
      (most seq : ℕ) (reset : Bool) (baseline : Option ℕ) (groups : List (List A))
      → All (Fits bytes gzip_bytes most) groups
      → All (λ c. Fits bytes gzip_bytes most c.lines) (number_chunks seq reset baseline groups)
  unfolding number_chunks
  number_chunks_fit most seq reset baseline [] h = tt
  number_chunks_fit most seq reset baseline (g ∷ groups) h =
      (h.0, number_chunks_fit most (seq + 1) reset baseline groups h.1)

  plan_of-IsPlanOf :
      (cursor : Option Cursor) (start : ℕ) (reset : Bool) (most : ℕ) (delta : List Line)
      (lines : List A) (split : Split A)
      → IsSplitOf bytes gzip_bytes most lines split
      → (plan : ChunkPlan A) × (plan_of cursor start reset delta (some split) ≡ some plan)
        × IsPlanOf cursor start reset most lines plan
  plan_of-IsPlanOf cursor start reset most delta lines split h =
      let baseline = null_if_zero (if reset then start + 1 else cursor_baseline cursor) in
      let (numbered, same_length, same_lines) =
        number_chunks-IsNumbered start reset baseline split.groups in
      (
        _,
        refl,
        record {
          numbered = numbered;
          last_seq = ap (λ n. some (start + n)) (sym same_length);
          all_fit = number_chunks_fit most start reset baseline split.groups h.all_fit;
          counted = omega (arith, h.counted, ap length same_lines);
          lossless = λ f. same_lines ∙ h.lossless f;
        },
      )

  IsWithin-pos :
      (most : ℕ) (groups : List (List A))
      → All (IsWithin bytes most) groups
      → All (λ g. 0 < length g) groups
  IsWithin-pos most [] h = tt
  IsWithin-pos most (g ∷ groups) h = (h.0.0, IsWithin-pos most groups h.1)

  -- The two cases of a delta.
  abbrev pub PlanOrNothing : (Line → A) → Option Cursor → Options → List Line → ChunkPlan A → Type ℓ
  PlanOrNothing serialize cursor opts objs plan =
      let start = compute_delta objs cursor in
      let delta = drop start.start_index objs in
      ((delta ≡ []) × (plan.chunks ≡ []) × (plan.new_cursor ≡ none) × (plan.oversized ≡ 0))
      ⊎ ((delta ≢ [])
          × IsPlanOf cursor (seq_start_of opts.seq_start cursor) start.reset
              (envelope_of opts.max_envelope)
              (serialized serialize (kept_lines opts.keep start.start_index delta)) plan)

  -- The plan always comes out. For an empty delta it is empty and stores no cursor. Otherwise its
  -- chunks are numbered without a gap from the start number, in one generation, and the cursor to
  -- store carries the last number; every chunk fits the envelope; the lines sent and the lines left
  -- out add up to the kept lines; and where each line fits alone, the chunks hold exactly the kept
  -- lines, in order.
  pub build_chunk_plan-IsPlanOf :
      (serialize : Line → A) (objs : List Line) (cursor : Option Cursor) (opts : Options)
      → (plan : ChunkPlan A) × (build_chunk_plan bytes gzip_bytes serialize objs cursor opts
          ≡ some plan)
        × PlanOrNothing serialize cursor opts objs plan
  unfolding build_chunk_plan
  build_chunk_plan-IsPlanOf serialize objs cursor opts =
      let start = compute_delta objs cursor in
      let delta = drop start.start_index objs in
      let lines = serialized serialize (kept_lines opts.keep start.start_index delta) in
      let groups = split_lines_by_budget bytes (budget_of opts.max_uncompressed_bytes) lines in
      let most = envelope_of opts.max_envelope in
      let (same, within) =
        split_lines_by_budget-IsWithin bytes (budget_of opts.max_uncompressed_bytes) lines in
      let (split, es, hs) = split_groups_total most groups (IsWithin-pos _ groups within) in
      let (plan, ep, hp) =
        plan_of-IsPlanOf cursor (seq_start_of opts.seq_start cursor) start.reset most delta lines
          split (subst (λ l. IsSplitOf bytes gzip_bytes most l split) same hs) in
      elim (Bool-cases (is_empty delta)) [
        | inl none_left ↦
            (_, rw none_left refl, inl (is_empty-nil delta none_left, refl, refl, refl))
        | inr some_left ↦
            (plan, rw (some_left, es) ep, inr (λ e. cc (ap is_empty e, some_left), hp))
      ]
