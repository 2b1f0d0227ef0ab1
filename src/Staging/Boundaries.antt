-- ===== src/Staging/Boundaries.antt =====
-- Up to which records nothing of a transcript may be sent, and since when something is not recorded,
-- by what the boundary files hold, against the lists of the code.
use mathlib.Core.Path.{subst}
use skillmeter_claude_code_m.Prelude.{
  ℕ, ltb, Bool, false, if◌then◌else◌, suc, true, false, any, leb, if_given, Option, none, some,
  Bool-cases, List, [], ◌∷◌, All, String, ◌≡◌, inl, inr, refl, sym, ap, ◌⊎◌, ◌++◌, ◌<◌, str_eq,
  eq_iff, ◌∙◌, arith,
}
use skillmeter_claude_code_m.Transcript.{non_empty}
use skillmeter_claude_code_m.Staging.{
  StoredCursor, BoundaryFile, unreadable, readable, Mark, Pending, in_scope, placed,
  pending_boundaries, unplaced_entries, unplaced_entry, time_or, missing, cursor_boundary,
  mark_boundary, pending_entries, unreadable_since, Known, Evidence, latest, known_boundaries,
  unplaced_boundaries,
}

abbrev In : {A : Type 0} → A → List A → Type 0
In x [] = ⊥
In x (y ∷ l) = (x ≡ y) ⊎ In x l

In-append_left : {A : Type 0} (x : A) (l m : List A) → In x l → In x (l ++ m)
In-append_left x [] m i = absurd i
In-append_left x (y ∷ l) m (inl e) = inl e
In-append_left x (y ∷ l) m (inr i) = inr (In-append_left x l m i)

In-append_right : {A : Type 0} (x : A) (l m : List A) → In x m → In x (l ++ m)
In-append_right x [] m i = i
In-append_right x (y ∷ l) m i = inr (In-append_right x l m i)

append-In : {A : Type 0} (x : A) (l m : List A) → In x (l ++ m) → In x l ⊎ In x m
append-In x [] m i = inr i
append-In x (y ∷ l) m (inl e) = inl (inl e)
append-In x (y ∷ l) m (inr i) = elim (append-In x l m i) [ inl j ↦ inl (inr j) | inr j ↦ inr j ]

All-In : {A : Type 0} (P : A → Type 0) (x : A) (l : List A) → All P l → In x l → P x
All-In P x [] h i = absurd i
All-In P x (y ∷ l) h (inl e) = subst P (sym e) h.0
All-In P x (y ∷ l) h (inr i) = All-In P x l h.1 i

-- A pending line is for every repository, or for this one.
abbrev pub Concerns : String → Pending → Type 0
Concerns scope p = (p.scope ≡ "*") ⊎ (p.scope ≡ scope)

-- A record up to which nothing may be sent, and since when, by what the files hold.
pub data IsBoundary (b : Evidence) : Option String → ℕ → Type 0 where
  of_cursor :
      (c : StoredCursor) → b.cursor ≡ some c → IsBoundary b c.position.last_uuid c.updated_at
  of_mark :
      (m : Mark) (u : String)
      → b.mark ≡ readable m
      → non_empty m.last_uuid ≡ some u
      → IsBoundary b (some u) m.at
  of_pending :
      (l : List Pending) (p : Pending) (u : String)
      → b.pending ≡ readable l
      → In p l
      → Concerns b.scope p
      → non_empty p.last_uuid ≡ some u
      → IsBoundary b (some u) p.at

-- A time since when something is not recorded that cannot be placed in the transcript.
pub data IsUnplaced (b : Evidence) : ℕ → Type 0 where
  cursor_unread : (at : ℕ) → b.cursor_file ≡ unreadable (suc at) → IsUnplaced b (suc at)
  mark_unread : (at : ℕ) → b.mark ≡ unreadable (suc at) → IsUnplaced b (suc at)
  pending_unread : (at : ℕ) → b.pending ≡ unreadable (suc at) → IsUnplaced b (suc at)
  at_time :
      (l : List Pending) (p : Pending) (at : ℕ)
      → b.pending ≡ readable l
      → In p l
      → Concerns b.scope p
      → non_empty p.last_uuid ≡ none
      → p.at ≡ suc at
      → IsUnplaced b (suc at)
  at_no_time :
      (l : List Pending) (p : Pending)
      → b.pending ≡ readable l
      → In p l
      → Concerns b.scope p
      → non_empty p.last_uuid ≡ none
      → p.at ≡ 0
      → IsUnplaced b b.now

Concerns-in_scope : (scope : String) (p : Pending) → Concerns scope p → in_scope scope p ≡ true
Concerns-in_scope scope p (inl e) = ground (arith, eq_iff p.scope "*", e)
Concerns-in_scope scope p (inr e) = ground (arith, eq_iff p.scope scope, e)

in_scope-Concerns : (scope : String) (p : Pending) → in_scope scope p ≡ true → Concerns scope p
in_scope-Concerns scope p e = elim (Bool-cases (str_eq p.scope "*")) [
  | inl all ↦ inl ((eq_iff p.scope "*").0 all)
  | inr one ↦ inr ((eq_iff p.scope scope).0 (ground (arith, e, one)))
]

placed-In :
    (uuid : Option String) (at : ℕ) (u : String)
    → non_empty uuid ≡ some u
    → In (record { last_uuid = some u; at = at }) (placed uuid at)
placed-In uuid at u e =
    let K : Known = record { last_uuid = some u; at = at } in
    subst (λ o. In K (elim o [ none ↦ [] | some v ↦ record { last_uuid = some v; at = at } ∷ [] ]))
      (sym e) (inl refl)

unplaced-In :
    (now : ℕ) (p : Pending)
    → non_empty p.last_uuid ≡ none
    → In (time_or p.at now) (unplaced_entry now p)
unplaced-In now p e =
    subst (λ o. In (time_or p.at now) (elim o [ none ↦ time_or p.at now ∷ [] | some u ↦ [] ]))
      (sym e) (inl refl)

In-pending_boundaries :
    (scope : String) (l : List Pending) (p : Pending) (u : String)
    → In p l
    → Concerns scope p
    → non_empty p.last_uuid ≡ some u
    → In (record { last_uuid = some u; at = p.at }) (pending_boundaries scope l)
unfolding pending_boundaries
In-pending_boundaries scope [] p u i c e = absurd i
In-pending_boundaries scope (q ∷ l) p u (inl same) c e =
    let K : Known = record { last_uuid = some u; at = p.at } in
    subst
      (λ x. In K (
        if◌then◌else◌ (in_scope scope x) (placed x.last_uuid x.at ++ pending_boundaries scope l)
          (pending_boundaries scope l)))
      same
      (rw (Concerns-in_scope scope p c)
        (In-append_left K (placed p.last_uuid p.at) _ (placed-In p.last_uuid p.at u e)))
In-pending_boundaries scope (q ∷ l) p u (inr i) c e =
    if_given (In (record { last_uuid = some u; at = p.at })) (in_scope scope q) _ _
      (λ _. In-append_right _ (placed q.last_uuid q.at) _ (In-pending_boundaries scope l p u i c e))
      (λ _. In-pending_boundaries scope l p u i c e)

In-known_boundaries :
    (b : Evidence) (u : Option String) (at : ℕ)
    → IsBoundary b u at
    → In (record { last_uuid = u; at = at }) (known_boundaries b)
unfolding known_boundaries
In-known_boundaries b u at (of_cursor c e) =
    let K : Known = record { last_uuid = c.position.last_uuid; at = c.updated_at } in
    let here : In K (cursor_boundary b.cursor) = rw (e) (inl refl) in
    In-append_left K (cursor_boundary b.cursor ++ mark_boundary b.mark) _
      (In-append_left K (cursor_boundary b.cursor) _ here)
In-known_boundaries b u at (of_mark m v e f) =
    let K : Known = record { last_uuid = some v; at = m.at } in
    let here : In K (mark_boundary b.mark) = rw (e) (placed-In m.last_uuid m.at v f) in
    In-append_left K (cursor_boundary b.cursor ++ mark_boundary b.mark) _
      (In-append_right K (cursor_boundary b.cursor) _ here)
In-known_boundaries b u at (of_pending l p v e i c f) =
    let K : Known = record { last_uuid = some v; at = p.at } in
    let here : In K (pending_boundaries b.scope (pending_entries b.pending)) =
      rw (e) (In-pending_boundaries b.scope l p v i c f) in
    In-append_right K (cursor_boundary b.cursor ++ mark_boundary b.mark) _ here

In-unplaced_entries :
    (scope : String) (now : ℕ) (l : List Pending) (p : Pending)
    → In p l
    → Concerns scope p
    → non_empty p.last_uuid ≡ none
    → In (time_or p.at now) (unplaced_entries scope now l)
unfolding unplaced_entries
In-unplaced_entries scope now [] p i c e = absurd i
In-unplaced_entries scope now (q ∷ l) p (inl same) c e =
    subst
      (λ x. In (time_or p.at now) (
        if◌then◌else◌ (in_scope scope x) (unplaced_entry now x ++ unplaced_entries scope now l)
          (unplaced_entries scope now l)))
      same
      (rw (Concerns-in_scope scope p c)
        (In-append_left (time_or p.at now) (unplaced_entry now p) _ (unplaced-In now p e)))
In-unplaced_entries scope now (q ∷ l) p (inr i) c e =
    if_given (In (time_or p.at now)) (in_scope scope q) _ _
      (λ _. In-append_right _ (unplaced_entry now q) _ (In-unplaced_entries scope now l p i c e))
      (λ _. In-unplaced_entries scope now l p i c e)

In-unreadable_since :
    {A : Type 0} (file : BoundaryFile A) (n : ℕ)
    → file ≡ unreadable (suc n)
    → In (suc n) (unreadable_since file)
In-unreadable_since file n e =
    let listed : unreadable_since file ≡ suc n ∷ [] = ap unreadable_since e ∙ ground arith in
    subst (In (suc n)) (sym listed) (inl refl)

abbrev unread_marks : Evidence → List ℕ
unread_marks b = unreadable_since b.cursor_file ++ unreadable_since b.mark

abbrev unread_files : Evidence → List ℕ
unread_files b = unread_marks b ++ unreadable_since b.pending

In-files : (b : Evidence) (at : ℕ) → In at (unread_files b) → In at (unplaced_boundaries b)
unfolding unplaced_boundaries
In-files b at i = In-append_left at (unread_files b) _ i

In-last :
    (b : Evidence) (at : ℕ) (l : List Pending)
    → b.pending ≡ readable l
    → In at (unplaced_entries b.scope b.now l)
    → In at (unplaced_boundaries b)
unfolding unplaced_boundaries
In-last b at l e i =
    let here : In at (unplaced_entries b.scope b.now (pending_entries b.pending)) = rw (e) i in
    In-append_right at (unread_files b) _ here

In-unplaced_boundaries : (b : Evidence) (at : ℕ) → IsUnplaced b at → In at (unplaced_boundaries b)
unfolding unplaced_boundaries
In-unplaced_boundaries b at (cursor_unread n e) = In-files b at (
    In-append_left at (unread_marks b) _ (
      In-append_left at (unreadable_since b.cursor_file) _ (In-unreadable_since b.cursor_file n e)))
In-unplaced_boundaries b at (mark_unread n e) = In-files b at (
    In-append_left at (unread_marks b) _
      (In-append_right at (unreadable_since b.cursor_file) _ (In-unreadable_since b.mark n e)))
In-unplaced_boundaries b at (pending_unread n e) =
    In-files b at (In-append_right at (unread_marks b) _ (In-unreadable_since b.pending n e))
In-unplaced_boundaries b at (at_time l p n e i c f t) = In-last b at l e (
    subst (λ x. In x (unplaced_entries b.scope b.now l))
      (ap (λ k. time_or k b.now) t ∙ ground arith) (In-unplaced_entries b.scope b.now l p i c f))
In-unplaced_boundaries b at (at_no_time l p e i c f t) = In-last b at l e (
    subst (λ x. In x (unplaced_entries b.scope b.now l)) (ap (λ k. time_or k b.now) t)
      (In-unplaced_entries b.scope b.now l p i c f))

-- Back from the lists of the code.
In-placed :
    (k : Known) (uuid : Option String) (at : ℕ)
    → In k (placed uuid at)
    → (u : String) × (non_empty uuid ≡ some u) × (k ≡ record { last_uuid = some u; at = at })
In-placed k uuid at i =
    elim (non_empty uuid)
        as (λ o.
          non_empty uuid ≡ o
          → In k (elim o [ none ↦ [] | some u ↦ record { last_uuid = some u; at = at } ∷ [] ])
          → (u : String) × (non_empty uuid ≡ some u)
            × (k ≡ record { last_uuid = some u; at = at })) [
              | none ↦ λ e j. absurd j
              | some u ↦ λ e j. elim j [ inl same ↦ (u, e, same) | inr j' ↦ absurd j' ]
            ]
      refl i

Told : Evidence → Known → Type 0
Told b k = IsBoundary b k.last_uuid k.at

cursor-Told :
    (b : Evidence) (cursor : Option StoredCursor)
    → b.cursor ≡ cursor
    → (k : Known) → In k (cursor_boundary cursor)
    → Told b k
unfolding Told
cursor-Told b none e k i = absurd i
cursor-Told b (some c) e k (inl same) =
    subst (λ x. IsBoundary b x.last_uuid x.at) (sym same) (of_cursor c e)
cursor-Told b (some c) e k (inr i) = absurd i

mark-Told :
    (b : Evidence) (mark : BoundaryFile Mark)
    → b.mark ≡ mark
    → (k : Known) → In k (mark_boundary mark)
    → Told b k
unfolding Told
mark-Told b missing e k i = absurd i
mark-Told b (unreadable at) e k i = absurd i
mark-Told b (readable m) e k i =
    let (u, f, same) = In-placed k m.last_uuid m.at i in
    subst (λ x. IsBoundary b x.last_uuid x.at) (sym same) (of_mark m u e f)

entries-Told :
    (b : Evidence) (whole : List Pending)
    → b.pending ≡ readable whole
    → (l : List Pending) → ((p : Pending) → In p l → In p whole)
    → (k : Known) → In k (pending_boundaries b.scope l)
    → Told b k
unfolding pending_boundaries Told
entries-Told b whole e [] part k i = absurd i
entries-Told b whole e (p ∷ l) part k i = elim (Bool-cases (in_scope b.scope p)) [
  | inr out ↦ entries-Told b whole e l (λ q j. part q (inr j)) k (rw (out) at i)
  | inl within ↦
      elim (append-In k (placed p.last_uuid p.at) (pending_boundaries b.scope l)
        (rw (within) at i)) [
          | inr j ↦ entries-Told b whole e l (λ q r. part q (inr r)) k j
          | inl here ↦
              let (u, f, same) = In-placed k p.last_uuid p.at here in
              subst (λ x. IsBoundary b x.last_uuid x.at) (sym same)
                (of_pending whole p u e (part p (inl refl)) (in_scope-Concerns b.scope p within) f)
        ]
]

pending-Told :
    (b : Evidence) (pending : BoundaryFile (List Pending))
    → b.pending ≡ pending
    → (k : Known) → In k (pending_boundaries b.scope (pending_entries pending))
    → Told b k
unfolding pending_boundaries
pending-Told b missing e k i = absurd i
pending-Told b (unreadable at) e k i = absurd i
pending-Told b (readable l) e k i = entries-Told b l e l (λ p j. j) k i

known-Told : (b : Evidence) (k : Known) → In k (known_boundaries b) → Told b k
unfolding known_boundaries
known-Told b k i =
    let marks = cursor_boundary b.cursor ++ mark_boundary b.mark in
    elim (append-In k marks (pending_boundaries b.scope (pending_entries b.pending)) i) [
      | inr j ↦ pending-Told b b.pending refl k j
      | inl j ↦ elim (append-In k (cursor_boundary b.cursor) (mark_boundary b.mark) j) [
        | inl c ↦ cursor-Told b b.cursor refl k c
        | inr m ↦ mark-Told b b.mark refl k m
      ]
    ]

-- The latest of some boundaries is one of them, if it is later than something.
latest-In : (l : List Known) (at : ℕ) → at < latest l → (k : Known) × In k l × (at < k.at)
unfolding latest
latest-In [] at lt = absurd (ground (arith, lt))
latest-In (k ∷ l) at lt = elim (Bool-cases (ltb (latest l) k.at)) [
  | inl here ↦ (k, inl refl, rw (here) at lt)
  | inr there ↦ let (j, i, less) = latest-In l at (rw (there) at lt) in (j, inr i, less)
]

any-In : (p : ℕ → Bool) (x : ℕ) (l : List ℕ) → any p l ≡ false → In x l → p x ≡ false
any-In p x [] e i = absurd i
any-In p x (y ∷ l) e (inl same) = ground (arith, e, ap p same)
any-In p x (y ∷ l) e (inr i) = ground (arith, e, any-In p x l (ground (arith, e)) i)

-- Something unplaced that does not hold the delta back is older than a known boundary.
pub later-IsBoundary :
    (b : Evidence) (at : ℕ)
    → any (λ t. leb (latest (known_boundaries b)) t) (unplaced_boundaries b) ≡ false
    → IsUnplaced b at
    → (u : Option String) × (since : ℕ) × IsBoundary b u since × (at < since)
unfolding Told
later-IsBoundary b at e unplaced =
    let before =
      any-In (λ t. leb (latest (known_boundaries b)) t) at _ e
        (In-unplaced_boundaries b at unplaced) in
    let (k, i, less) = latest-In (known_boundaries b) at (ground (arith, before)) in
    (k.last_uuid, k.at, known-Told b k i, less)

-- What holds of all that the code lists holds of every boundary.
pub All-IsBoundary :
    (P : Option String → Type 0) (b : Evidence)
    → All (λ k. P k.last_uuid) (known_boundaries b)
    → (u : Option String) (at : ℕ) → IsBoundary b u at
    → P u
All-IsBoundary P b all u at is =
    All-In (λ k. P k.last_uuid) (record { last_uuid = u; at = at }) (known_boundaries b) all
      (In-known_boundaries b u at is)
