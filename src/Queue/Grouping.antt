-- ===== src/Queue/Grouping.antt =====
-- The groups of a drain, one for each transcript.
use mathlib.Core.Path.{subst}
use skillmeter_claude_code_m.Prelude.{
  ◌≡◌, ◌≢◌, ◌⊎◌, inl, inr, refl, sym, ap, ◌∙◌, List, [], ◌∷◌, ◌++◌, String, arith, str_eq, eq_iff,
  Bool-cases,
}
use skillmeter_claude_code_m.Queue.{Entry, add_entry, group_entries}

abbrev pub In : Entry → List Entry → Type 0
In e [] = ⊥
In e (x ∷ l) = (e ≡ x) ⊎ In e l

pub In-append : (e : Entry) (l m : List Entry) → In e (l ++ m) → In e l ⊎ In e m
In-append e [] m h = inr h
In-append e (x ∷ l) m (inl h) = inl (inl h)
In-append e (x ∷ l) m (inr h) = elim (In-append e l m h) [ inl a ↦ inl (inr a) | inr b ↦ inr b ]

pub In-append_left : (e : Entry) (l m : List Entry) → In e l → In e (l ++ m)
In-append_left e [] m h = absurd h
In-append_left e (x ∷ l) m (inl h) = inl h
In-append_left e (x ∷ l) m (inr h) = inr (In-append_left e l m h)

pub In-append_right : (e : Entry) (l m : List Entry) → In e m → In e (l ++ m)
In-append_right e [] m h = h
In-append_right e (x ∷ l) m h = inr (In-append_right e l m h)

-- The groups: each entry is in the group of its key, which no other group has.
abbrev pub Lacks : String → List (String × List Entry) → Type 0
Lacks k [] = Unit
Lacks k ((k', g) ∷ groups) = (k' ≢ k) × Lacks k groups

abbrev pub IsGrouped : List (String × List Entry) → Type 0
IsGrouped [] = Unit
IsGrouped ((k, g) ∷ groups) = ((e : Entry) → In e g → e.key ≡ k) × Lacks k groups × IsGrouped groups

abbrev pub InGroups : Entry → List (String × List Entry) → Type 0
InGroups e [] = ⊥
InGroups e ((k, g) ∷ groups) = In e g ⊎ InGroups e groups

Lacks-add_entry :
    (k : String) (e : Entry) (groups : List (String × List Entry))
    → e.key ≢ k
    → Lacks k groups
    → Lacks k (add_entry e groups)
Lacks-add_entry k e [] h l = (h, tt)
Lacks-add_entry k e ((k', g) ∷ groups) h (l, ls) = elim (Bool-cases (str_eq k' e.key)) [
  | inl same ↦ rw same (l, ls)
  | inr other ↦ rw other (l, Lacks-add_entry k e groups h ls)
]

IsGrouped-add_entry :
    (e : Entry) (groups : List (String × List Entry))
    → IsGrouped groups
    → IsGrouped (add_entry e groups)
IsGrouped-add_entry e [] h =
    (λ x i. elim i [ inl q ↦ ap (λ y. y.key) q | inr b ↦ absurd b ], tt, tt)
IsGrouped-add_entry e ((k, g) ∷ groups) (own, lacks, rest) = elim (Bool-cases (str_eq k e.key)) [
  | inl same ↦
      let k_is : k ≡ e.key = (eq_iff k e.key).0 same in
      let joined : (x : Entry) → In x (g ++ e ∷ []) → x.key ≡ k = λ x i.
        elim (In-append x g (e ∷ []) i) [
          | inl a ↦ own x a
          | inr (inl q) ↦ ap (λ y. y.key) q ∙ sym k_is
          | inr (inr b) ↦ absurd b
        ] in
      rw same (joined, lacks, rest)
  | inr other ↦ rw other (
    own,
    Lacks-add_entry k e groups (λ q. ground (arith, other, eq_iff k e.key, q)) lacks,
    IsGrouped-add_entry e groups rest,
  )
]

InGroups-add_entry_self :
    (e : Entry) (groups : List (String × List Entry)) → InGroups e (add_entry e groups)
InGroups-add_entry_self e [] = inl (inl refl)
InGroups-add_entry_self e ((k, g) ∷ groups) = elim (Bool-cases (str_eq k e.key)) [
  | inl same ↦ rw same (inl (In-append_right e g (e ∷ []) (inl refl)))
  | inr other ↦ rw other (inr (InGroups-add_entry_self e groups))
]

InGroups-add_entry :
    (x e : Entry) (groups : List (String × List Entry))
    → InGroups x groups
    → InGroups x (add_entry e groups)
InGroups-add_entry x e [] h = absurd h
InGroups-add_entry x e ((k, g) ∷ groups) h = elim (Bool-cases (str_eq k e.key)) [
  | inl same ↦ rw same (elim h [ inl i ↦ inl (In-append_left x g (e ∷ []) i) | inr i ↦ inr i ])
  | inr other ↦ rw other (elim h [ inl i ↦ inl i | inr i ↦ inr (InGroups-add_entry x e groups i) ])
]

pub IsGrouped-group_entries :
    (entries : List Entry) (groups : List (String × List Entry))
    → IsGrouped groups
    → IsGrouped (group_entries entries groups)
unfolding group_entries
IsGrouped-group_entries [] groups h = h
IsGrouped-group_entries (e ∷ entries) groups h =
    IsGrouped-group_entries entries (add_entry e groups) (IsGrouped-add_entry e groups h)

pub InGroups-group_entries :
    (x : Entry) (entries : List Entry) (groups : List (String × List Entry))
    → In x entries ⊎ InGroups x groups
    → InGroups x (group_entries entries groups)
unfolding group_entries
InGroups-group_entries x [] groups h = elim h [ inl b ↦ absurd b | inr i ↦ i ]
InGroups-group_entries x (e ∷ entries) groups h =
    InGroups-group_entries x entries (add_entry e groups) (elim h [
      | inl (inl q) ↦
          inr (
            subst (λ y. InGroups y (add_entry e groups)) (sym q) (InGroups-add_entry_self e groups))
      | inl (inr i) ↦ inl i
      | inr i ↦ inr (InGroups-add_entry x e groups i)
    ])
