-- ===== src/Queue/Order.antt =====
-- The order in which a drain takes the chunks of a transcript.
use mathlib.Core.Path.{subst}
use skillmeter_claude_code_m.Prelude.{
  ℕ, ◌<◌, ◌≤◌, ◌≡◌, ◌≢◌, ◌⊎◌, inl, inr, refl, sym, ap, ◌∙◌, Bool, true, false, not, Option, none,
  some, List, [], ◌∷◌, String, arith, All, length, Bool-cases,
}
use skillmeter_claude_code_m.Retry.{is_chunk_eligible}
use skillmeter_claude_code_m.Queue.{
  Entry, group_entries, comes_after, insert_entry, sort_entries, eligible_prefix,
  eligible_of_groups, eligible_chunks_in_order, upload_group,
}
use skillmeter_claude_code_m.Queue.Grouping.{
  In, In-append, In-append_left, In-append_right, Lacks, IsGrouped, InGroups,
  IsGrouped-group_entries, InGroups-group_entries,
}

abbrev AtLeast : ℕ → List Entry → Type 0
AtLeast n l = All (λ e. n ≤ e.meta.seq) l

abbrev IsSorted : List Entry → Type 0
IsSorted [] = Unit
IsSorted (e ∷ l) = AtLeast e.meta.seq l × IsSorted l

AtLeast-le : (m n : ℕ) (l : List Entry) → m ≤ n → AtLeast n l → AtLeast m l
AtLeast-le m n [] le h = tt
AtLeast-le m n (e ∷ l) le (h, hs) = (omega (arith, le, h), AtLeast-le m n l le hs)

module _ (after : String → String → Bool) where
  AtLeast-insert_entry :
      (n : ℕ) (e : Entry) (l : List Entry)
      → n ≤ e.meta.seq
      → AtLeast n l
      → AtLeast n (insert_entry after e l)
  unfolding insert_entry
  AtLeast-insert_entry n e [] le h = (le, tt)
  AtLeast-insert_entry n e (x ∷ l) le (h, hs) = elim (Bool-cases (comes_after after e x)) [
    | inl t ↦ rw t (h, AtLeast-insert_entry n e l le hs)
    | inr f ↦ rw f (le, (h, hs))
  ]

  IsSorted-insert_entry :
      (e : Entry) (l : List Entry) → IsSorted l → IsSorted (insert_entry after e l)
  unfolding insert_entry
  IsSorted-insert_entry e [] h = (tt, tt)
  IsSorted-insert_entry e (x ∷ l) (least, sorted) = elim (Bool-cases (comes_after after e x)) [
    | inl t ↦ rw t (
      AtLeast-insert_entry x.meta.seq e l (ground (arith, t)) least,
      IsSorted-insert_entry e l sorted,
    )
    | inr f ↦
        let le : e.meta.seq ≤ x.meta.seq = ground (arith, f) in
        rw f ((le, AtLeast-le e.meta.seq x.meta.seq l le least), (least, sorted))
  ]

  IsSorted-sort_entries : (l : List Entry) → IsSorted (sort_entries after l)
  unfolding sort_entries
  IsSorted-sort_entries [] = tt
  IsSorted-sort_entries (e ∷ l) =
      IsSorted-insert_entry e (sort_entries after l) (IsSorted-sort_entries l)

  In-insert_entry :
      (y e : Entry) (l : List Entry) → (y ≡ e) ⊎ In y l → In y (insert_entry after e l)
  unfolding insert_entry
  In-insert_entry y e [] h = h
  In-insert_entry y e (x ∷ l) h = elim (Bool-cases (comes_after after e x)) [
    | inl t ↦ rw t (elim h [
      | inl q ↦ inr (In-insert_entry y e l (inl q))
      | inr (inl q) ↦ inl q
      | inr (inr i) ↦ inr (In-insert_entry y e l (inr i))
    ])
    | inr f ↦ rw f h
  ]

  In-sort_entries : (y : Entry) (l : List Entry) → In y l → In y (sort_entries after l)
  unfolding sort_entries
  In-sort_entries y [] h = h
  In-sort_entries y (e ∷ l) h =
      In-insert_entry y e (sort_entries after l)
        (elim h [ inl q ↦ inl q | inr i ↦ inr (In-sort_entries y l i) ])

  insert_entry-In :
      (y e : Entry) (l : List Entry) → In y (insert_entry after e l) → (y ≡ e) ⊎ In y l
  unfolding insert_entry
  insert_entry-In y e [] h = h
  insert_entry-In y e (x ∷ l) h = elim (Bool-cases (comes_after after e x)) [
    | inl t ↦ elim (rw t at h) [
      | inl q ↦ inr (inl q)
      | inr i ↦ elim (insert_entry-In y e l i) [ inl q ↦ inl q | inr j ↦ inr (inr j) ]
    ]
    | inr f ↦ rw f at h
  ]

  sort_entries-In : (y : Entry) (l : List Entry) → In y (sort_entries after l) → In y l
  unfolding sort_entries
  sort_entries-In y [] h = h
  sort_entries-In y (e ∷ l) h = elim (insert_entry-In y e (sort_entries after l) h) [
    | inl q ↦ inl q
    | inr i ↦ inr (sort_entries-In y l i)
  ]

AtLeast-In : (n : ℕ) (y : Entry) (l : List Entry) → AtLeast n l → In y l → n ≤ y.meta.seq
AtLeast-In n y [] h i = absurd i
AtLeast-In n y (x ∷ l) (h, hs) (inl q) = subst (λ z. n ≤ z.meta.seq) (sym q) h
AtLeast-In n y (x ∷ l) (h, hs) (inr i) = AtLeast-In n y l hs i

eligible_prefix-In : (now : ℕ) (y : Entry) (l : List Entry) → In y (eligible_prefix now l) → In y l
unfolding eligible_prefix
eligible_prefix-In now y [] h = h
eligible_prefix-In now y (e ∷ l) h = elim (Bool-cases (is_chunk_eligible (some e.meta.retry) now)) [
  | inl t ↦ elim (rw t at h) [ inl q ↦ inl q | inr i ↦ inr (eligible_prefix-In now y l i) ]
  | inr f ↦ absurd (rw f at h)
]

-- In a sorted list the eligible prefix has every entry with a smaller number than one of its own.
eligible_prefix-IsClosed :
    (now : ℕ) (x y : Entry) (l : List Entry)
    → IsSorted l
    → In x (eligible_prefix now l)
    → In y l
    → y.meta.seq < x.meta.seq
    → In y (eligible_prefix now l)
unfolding eligible_prefix
eligible_prefix-IsClosed now x y [] s h i lt = absurd h
eligible_prefix-IsClosed now x y (e ∷ l) (least, s) h i lt =
    elim (Bool-cases (is_chunk_eligible (some e.meta.retry) now)) [
      | inl t ↦ rw t (elim (rw t at h) [
        | inl q ↦ elim i [
          | inl q' ↦ inl q'
          | inr j ↦
              let le = AtLeast-In e.meta.seq y l least j in
              let same : x.meta.seq ≡ e.meta.seq = ap (λ z. z.meta.seq) q in
              absurd (omega (arith, le, same, lt))
        ]
        | inr h' ↦ elim i [
          | inl q' ↦ inl q'
          | inr j ↦ inr (eligible_prefix-IsClosed now x y l s h' j lt)
        ]
      ])
      | inr f ↦ absurd (rw f at h)
    ]

InGroups-Lacks :
    (y : Entry) (k : String) (groups : List (String × List Entry))
    → IsGrouped groups
    → Lacks k groups
    → InGroups y groups
    → y.key ≢ k
InGroups-Lacks y k [] grouped lacks i = absurd i
InGroups-Lacks y k ((k', g) ∷ groups) (own, l, rest) (other, lacks) (inl i) =
    λ e. other (sym (own y i) ∙ e)
InGroups-Lacks y k ((k', g) ∷ groups) (own, l, rest) (other, lacks) (inr i) =
    InGroups-Lacks y k groups rest lacks i

module _ (after : String → String → Bool) where
  eligible_of_groups-InGroups :
      (now : ℕ) (x : Entry) (groups : List (String × List Entry))
      → In x (eligible_of_groups after now groups)
      → InGroups x groups
  unfolding eligible_of_groups
  eligible_of_groups-InGroups now x [] h = h
  eligible_of_groups-InGroups now x ((k, g) ∷ groups) h =
      elim (In-append x (eligible_prefix now (sort_entries after g))
        (eligible_of_groups after now groups) h) [
          | inl i ↦
              inl (sort_entries-In after x g (eligible_prefix-In now x (sort_entries after g) i))
          | inr i ↦ inr (eligible_of_groups-InGroups now x groups i)
        ]

  -- An eligible entry is in the eligible prefix of its group, and so is every entry of the group
  -- with a smaller number.
  eligible_of_groups-IsClosed :
      (now : ℕ) (x y : Entry) (groups : List (String × List Entry))
      → IsGrouped groups
      → In x (eligible_of_groups after now groups)
      → InGroups y groups
      → y.key ≡ x.key
      → y.meta.seq < x.meta.seq
      → In y (eligible_of_groups after now groups)
  unfolding eligible_of_groups
  eligible_of_groups-IsClosed now x y [] grouped h i same lt = absurd h
  eligible_of_groups-IsClosed now x y ((k, g) ∷ groups) (own, lacks, rest) h i same lt =
      let first = eligible_prefix now (sort_entries after g) in
      let others = eligible_of_groups after now groups in
      elim (In-append x first others h) [
        | inl here ↦ elim i [
          | inl j ↦ In-append_left y first others (
              eligible_prefix-IsClosed now x y (sort_entries after g)
                (IsSorted-sort_entries after g) here (In-sort_entries after y g j) lt)
          | inr j ↦
              let x_is = own x (
                sort_entries-In after x g (eligible_prefix-In now x (sort_entries after g) here)) in
              absurd (InGroups-Lacks y k groups rest lacks j (same ∙ x_is))
        ]
        | inr there ↦ elim i [
          | inl j ↦ absurd (
              InGroups-Lacks x k groups rest lacks (eligible_of_groups-InGroups now x groups there)
                (sym same ∙ own y j))
          | inr j ↦
              In-append_right y first others
                (eligible_of_groups-IsClosed now x y groups rest there j same lt)
        ]
      ]

  -- A drain leaves no gap: with a chunk that it may try now it may try every queued chunk of the
  -- same transcript with a smaller sequence number, so nothing is sent ahead of a chunk that still
  -- waits out its backoff.
  pub eligible_chunks_in_order-IsClosed :
      (entries : List Entry) (now : ℕ) (x y : Entry)
      → In x (eligible_chunks_in_order after entries now)
      → In y entries
      → y.key ≡ x.key
      → y.meta.seq < x.meta.seq
      → In y (eligible_chunks_in_order after entries now)
  unfolding eligible_chunks_in_order
  eligible_chunks_in_order-IsClosed entries now x y h i same lt =
      eligible_of_groups-IsClosed now x y (group_entries entries [])
        (IsGrouped-group_entries entries [] tt) h (InGroups-group_entries y entries [] (inl i)) same
        lt

abbrev pub AllHeld : List (Option Bool) → Type 0
AllHeld l = All (λ r. r ≡ none) l

-- Successes, then at most one failure, after which everything is held back.
abbrev pub StopsAtFailure : List (Option Bool) → Type 0
StopsAtFailure [] = Unit
StopsAtFailure (none ∷ l) = ⊥
StopsAtFailure (some true ∷ l) = StopsAtFailure l
StopsAtFailure (some false ∷ l) = AllHeld l

upload_group-AllHeld :
    (upload : Entry → Bool) (l : List Entry) → AllHeld (upload_group upload true l)
unfolding upload_group
upload_group-AllHeld upload [] = tt
upload_group-AllHeld upload (e ∷ l) = (refl, upload_group-AllHeld upload l)

length-upload_group :
    (upload : Entry → Bool) (held : Bool) (l : List Entry)
    → length (upload_group upload held l) ≡ length l
unfolding upload_group
length-upload_group upload held [] = refl
length-upload_group upload true (e ∷ l) = omega (arith, length-upload_group upload true l)
length-upload_group upload false (e ∷ l) =
    omega (arith, length-upload_group upload (not (upload e)) l)

stops : (upload : Entry → Bool) (l : List Entry) → StopsAtFailure (upload_group upload false l)
unfolding upload_group
stops upload [] = tt
stops upload (e ∷ l) = elim (Bool-cases (upload e)) [
  | inl sent ↦ rw sent (stops upload l)
  | inr failed ↦ rw failed (upload_group-AllHeld upload l)
]

-- The uploads of a transcript stop at the first that fails: each chunk before it is sent, and each
-- after it is held back without being sent; every chunk gets one result.
pub upload_group-StopsAtFailure :
    (upload : Entry → Bool) (l : List Entry)
    → StopsAtFailure (upload_group upload false l)
      × (length (upload_group upload false l) ≡ length l)
upload_group-StopsAtFailure upload l = (stops upload l, length-upload_group upload false l)
