-- ===== src/Staging/Start.antt =====
-- The start of the live delta and the boundaries that are known.
use mathlib.Core.Path.{subst}
use skillmeter_claude_code_m.Prelude.{
  ℕ, suc, ◌+◌, ◌≤◌, true, false, any, leb, if_given, Option, none, some, Option-cases, Bool-cases,
  List, [], ◌∷◌, All, String, ◌≡◌, inl, inr, refl, sym, ap, ◌<◌, ◌<◌, ◌∙◌, arith,
}
use skillmeter_claude_code_m.Transcript.{
  Line, Cursor, non_empty, anchor_of, find_uuid, compute_delta,
}
use skillmeter_claude_code_m.Staging.{
  StoredCursor, Known, Evidence, latest, index_of, further, moved, position_of, furthest, start,
  known_boundaries, unplaced_boundaries, live_delta_start,
}
use skillmeter_claude_code_m.Staging.Boundaries.{
  IsBoundary, IsUnplaced, later-IsBoundary, All-IsBoundary,
}

-- The index is no later than the other; an unknown index is before all.
abbrev pub NoLater : Option ℕ → Option ℕ → Type 0
NoLater none j = Unit
NoLater (some i) none = ⊥
NoLater (some i) (some j) = i ≤ j

NoLater-refl : (i : Option ℕ) → NoLater i i
NoLater-refl none = tt
NoLater-refl (some i) = ground arith

NoLater-trans : (i j k : Option ℕ) → NoLater i j → NoLater j k → NoLater i k
NoLater-trans none j k p q = tt
NoLater-trans (some i) none k p q = absurd p
NoLater-trans (some i) (some j) none p q = absurd q
NoLater-trans (some i) (some j) (some k) p q = ground (arith, p, q)

further-NoLater : (i j : Option ℕ) → further i j ≡ true → NoLater j i
further-NoLater none j e = absurd (ground (arith, e))
further-NoLater (some i) none e = tt
further-NoLater (some i) (some j) e = ground (arith, e)

not_further-NoLater : (i j : Option ℕ) → further i j ≡ false → NoLater i j
not_further-NoLater none j e = tt
not_further-NoLater (some i) none e = absurd (ground (arith, e))
not_further-NoLater (some i) (some j) e = ground (arith, e)

module _ (objs : List Line) (cursor : Option StoredCursor) where
  moved-anchor : (c : Option StoredCursor) (u : Option String) → anchor_of (moved c u) ≡ u
  moved-anchor none u = refl
  moved-anchor (some c) u = refl

  -- The result is at its own index, no earlier than where it began and than each boundary.
  record Furthest (best : Option Cursor × Option ℕ) (known : List Known)
      (found : Option Cursor × Option ℕ) : Type 0 where
    own : found.1 ≡ index_of objs (anchor_of found.0)
    begun : NoLater best.1 found.1
    each : All (λ k. NoLater (index_of objs k.last_uuid) found.1) known

  furthest-Furthest :
      (best : Option Cursor × Option ℕ) (known : List Known)
      → best.1 ≡ index_of objs (anchor_of best.0)
      → Furthest best known (furthest objs cursor best known)
  unfolding furthest
  furthest-Furthest best [] own = record { own = own; begun = NoLater-refl best.1; each = tt }
  furthest-Furthest best (b ∷ known) own =
      let index = index_of objs b.last_uuid in
      let next : Option Cursor × Option ℕ = (moved cursor b.last_uuid, index) in
      if_given (λ x. Furthest best (b ∷ known) (furthest objs cursor x known))
        (further index best.1) next best
        (λ e.
          let rest =
            furthest-Furthest next known
              (ap (index_of objs) (sym (moved-anchor cursor b.last_uuid))) in
          record {
            own = rest.own;
            begun = NoLater-trans best.1 index _ (further-NoLater index best.1 e) rest.begun;
            each = (rest.begun, rest.each);
          })
        (λ e.
          let rest = furthest-Furthest best known own in
          record {
            own = rest.own;
            begun = rest.begun;
            each = (
              NoLater-trans index best.1 _ (not_further-NoLater index best.1 e) rest.begun,
              rest.each,
            );
          })

-- After a cursor whose record is in the transcript the delta starts with the record behind it.
compute_delta-index :
    (objs : List Line) (c : Option Cursor) (j : ℕ)
    → index_of objs (anchor_of c) ≡ some j
    → compute_delta objs c ≡ record { start_index = j + 1; reset = false }
unfolding compute_delta index_of
compute_delta-index objs c j e = elim (Option-cases (non_empty (anchor_of c))) [
  | inl n ↦ absurd (ground (arith, e, rw (n, index_of) at e))
  | inr (u, n) ↦
      let here : find_uuid objs u ≡ some j = rw (n, index_of) at e in
      rw (n, compute_delta) (rw here refl)
]

behind :
    (objs : List Line) (s : Option Cursor) (at : Option ℕ)
    → at ≡ index_of objs (anchor_of s)
    → (known : List Known) → All (λ k. NoLater (index_of objs k.last_uuid) at) known
    → All
        (λ k.
          (i : ℕ)
          → index_of objs k.last_uuid ≡ some i
          → (suc i ≤ (compute_delta objs s).start_index) × ((compute_delta objs s).reset ≡ false))
        known
behind objs s none own [] h = tt
behind objs s (some j) own [] h = tt
behind objs s none own (k ∷ known) h =
    (λ i e. absurd (subst (λ x. NoLater x none) e h.0), behind objs s none own known h.1)
behind objs s (some j) own (k ∷ known) h = (
  λ i e.
      let before : i ≤ j = subst (λ x. NoLater x (some j)) e h.0 in
      rw (compute_delta-index objs s j (sym own)) (ground (arith, before), refl),
  behind objs s (some j) own known h.1,
)

-- Where staging does not hold, its delta starts behind every record up to which nothing may be sent:
-- that of the cursor, of the signed-out mark, and of each pending line for every repository or for
-- this one; a record at or before one of them is not in the delta. And whatever is not recorded
-- since a time and cannot be placed, a cursor, a mark or a pending store that cannot be read, or a
-- pending line without a record, is older than one of those boundaries.
pub starts_behind_boundaries :
    (objs : List Line) (b : Evidence) (s : Option Cursor)
    → live_delta_start objs b ≡ start s
    → ((u : Option String) (at i : ℕ)
        → IsBoundary b u at
        → index_of objs u ≡ some i
        → (suc i ≤ (compute_delta objs s).start_index) × ((compute_delta objs s).reset ≡ false))
      × ((at : ℕ)
          → IsUnplaced b at
          → (u : Option String) × (since : ℕ) × IsBoundary b u since × (at < since))
unfolding live_delta_start
starts_behind_boundaries objs b s e =
    let known = known_boundaries b in
    let first : Option Cursor × Option ℕ =
      (position_of b.cursor, index_of objs (anchor_of (position_of b.cursor))) in
    let found = furthest objs b.cursor first known in
    let f = furthest-Furthest objs b.cursor first known refl in
    elim (Bool-cases (any (λ at. leb (latest known) at) (unplaced_boundaries b))) [
      | inl held ↦ absurd (ground (arith, held, e))
      | inr free ↦
          let same : found.0 ≡ s = ground (arith, free, e) in
          let all =
            behind objs s found.1 (f.own ∙ ap (λ c. index_of objs (anchor_of c)) same) known
              f.each in
          (
            λ u at i is there.
                All-IsBoundary
                  (λ v.
                    (i : ℕ)
                    → index_of objs v ≡ some i
                    → (suc i ≤ (compute_delta objs s).start_index)
                      × ((compute_delta objs s).reset ≡ false))
                  b all u at is i there,
            λ at unplaced. later-IsBoundary b at free unplaced,
          )
    ]
