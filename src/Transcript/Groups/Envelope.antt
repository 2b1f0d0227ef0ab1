-- ===== src/Transcript/Groups/Envelope.antt =====
-- The split by envelope: its fuel, its parts and its losses.
use mathlib.Core.Path.{subst}
use mathlib.Core.List.{flatten, append-nil}
use skillmeter_claude_code_m.Prelude.{
  ℕ, zero, suc, ◌+◌, ◌/◌, ◌≤◌, ◌<◌, ◌≡◌, inl, inr, refl, ap, ap₂, ◌∙◌, true, false, List, [], ◌∷◌,
  ◌++◌, some, arith, length, take, drop, All, All-append, All-append_left, All-append_right,
  flatten-append, Bool-cases, length-append, length-take, length-drop, take-append-drop,
}
use skillmeter_claude_code_m.Transcript.Groups.{Split, fits_envelope, split_by_envelope}

module _ {ℓ} {A : Type ℓ} (bytes : A → ℕ) (gzip_bytes : List A → ℕ) (most : ℕ) where
  abbrev pub Fits : List A → Type 0
  Fits lines = fits_envelope bytes gzip_bytes most lines ≡ true

  pub record IsSplitOf (lines : List A) (r : Split A) : Type ℓ where
    pub all_fit : All Fits r.groups
    pub counted : length (flatten r.groups) + r.oversized ≡ length lines
    pub lossless : All (λ x. Fits (x ∷ [])) lines → flatten r.groups ≡ lines

  IsSplitOf-whole :
      (lines : List A)
      → Fits lines
      → IsSplitOf lines (record { groups = lines ∷ []; oversized = 0 })
  unfolding flatten
  IsSplitOf-whole lines h = record {
    all_fit = (h, tt);
    counted = omega (arith, ap length (append-nil lines));
    lossless = λ f. append-nil lines;
  }

  IsSplitOf-dropped :
      (x : A)
      → fits_envelope bytes gzip_bytes most (x ∷ []) ≡ false
      → IsSplitOf (x ∷ []) (record { groups = []; oversized = 1 })
  unfolding flatten
  IsSplitOf-dropped x h = record { all_fit = tt; counted = omega arith; lossless = λ f. cc (f.0) }

  abbrev pub joined : Split A → Split A → Split A
  joined a b = record { groups = a.groups ++ b.groups; oversized = a.oversized + b.oversized }

  pub IsSplitOf-halves :
      (xs ys : List A) (a b : Split A)
      → IsSplitOf xs a
      → IsSplitOf ys b
      → IsSplitOf (xs ++ ys) (joined a b)
  IsSplitOf-halves xs ys a b p q = record {
    all_fit = All-append Fits a.groups b.groups p.all_fit q.all_fit;
    counted = rw (flatten-append a.groups b.groups) (
        omega (
          arith,
          p.counted,
          q.counted,
          length-append (flatten a.groups) (flatten b.groups),
          length-append xs ys,
        ));
    lossless = λ f.
        flatten-append a.groups b.groups
        ∙ ap₂ (λ u v. u ++ v) (p.lossless (All-append_left _ xs ys f))
            (q.lossless (All-append_right _ xs ys f));
  }

  -- With fuel for each line and at least one line, the split comes out: every group fits the
  -- envelope, the lines in the groups and the oversized lines left out add up to the lines given,
  -- and where each line fits alone the groups hold exactly the lines, in order.
  pub split_by_envelope_total :
      (fuel : ℕ) (lines : List A)
      → length lines ≤ fuel
      → 0 < length lines
      → (r : Split A) × (split_by_envelope bytes gzip_bytes fuel most lines ≡ some r)
        × IsSplitOf lines r
  unfolding split_by_envelope
  split_by_envelope_total zero lines h pos = absurd (omega arith)
  split_by_envelope_total (suc fuel) [] h pos = absurd (omega arith)
  split_by_envelope_total (suc fuel) (x ∷ []) h pos =
      elim (Bool-cases (fits_envelope bytes gzip_bytes most (x ∷ []))) [
        | inl fit ↦ (_, rw fit refl, IsSplitOf-whole (x ∷ []) fit)
        | inr big ↦ (_, rw big refl, IsSplitOf-dropped x big)
      ]
  split_by_envelope_total (suc fuel) (x ∷ y ∷ rest) h pos =
      elim (Bool-cases (fits_envelope bytes gzip_bytes most (x ∷ y ∷ rest))) [
        | inl fit ↦ (_, rw fit refl, IsSplitOf-whole (x ∷ y ∷ rest) fit)
        | inr big ↦
            let middle : ℕ = (length (x ∷ y ∷ rest) + 1) / 2 in
            let (a, ea, pa) =
              split_by_envelope_total fuel (take middle (x ∷ y ∷ rest))
                (omega (arith, length-take middle (x ∷ y ∷ rest)))
                (omega (arith, length-take middle (x ∷ y ∷ rest))) in
            let (b, eb, pb) =
              split_by_envelope_total fuel (drop middle (x ∷ y ∷ rest))
                (omega (arith, length-drop middle (x ∷ y ∷ rest)))
                (omega (arith, length-drop middle (x ∷ y ∷ rest))) in
            (
              joined a b,
              ground (arith, big, ea, eb),
              subst (λ l. IsSplitOf l (joined a b)) (take-append-drop middle (x ∷ y ∷ rest))
                  (IsSplitOf-halves _ _ a b pa pb),
            )
      ]
