-- ===== src/Codex/Record/RoundTrip.antt =====
-- Reading back a consent record as it is written.
use skillmeter_claude_code_m.Prelude.{
  ℕ, Bool, true, Option, none, some, List, [], ◌∷◌, String, ◌≡◌, refl, ap₂, ◌∙◌, arith,
}
use skillmeter_claude_code_m.Prelude.Assoc.{lookup, string_eq}
use skillmeter_claude_code_m.Codex.Record.{
  Choice, ConsentRecord, choice_of, with_entry, choices_of, record_with, validate_policy, is_safe,
  raw_choice, raw_choices, raw_record,
}

choice_of-raw_choice : (c d : Choice) → choice_of (some (raw_choice c)) ≡ some d → d ≡ c
unfolding choice_of
choice_of-raw_choice c d e = ground (arith, e)

with_entry-some :
    (k : String) (a : Option Choice) (b : Option (List (String × Choice)))
    (m : List (String × Choice))
    → with_entry k a b ≡ some m
    → (c : Choice) × (r : List (String × Choice)) × (a ≡ some c) × (b ≡ some r) × (m ≡ (k, c) ∷ r)
with_entry-some k none b m e = ground (arith, e)
with_entry-some k (some c) none m e = ground (arith, e)
with_entry-some k (some c) (some r) m e = (c, r, refl, refl, ground (arith, e))

choices_of-raw_choices :
    (l m : List (String × Choice)) → choices_of (raw_choices l) ≡ some m → m ≡ l
unfolding choices_of raw_choices
choices_of-raw_choices [] m e = ground (arith, e)
choices_of-raw_choices ((k, c) ∷ l) m e =
    let parts =
      with_entry-some k (choice_of (some (raw_choice c))) (choices_of (raw_choices l)) m e in
    parts.4
    ∙ ap₂ (λ d r. (k, d) ∷ r) (choice_of-raw_choice c parts.0 parts.2)
        (choices_of-raw_choices l parts.1 parts.3)

record_with-some :
    (p q : ConsentRecord) (revision : Option ℕ) (global : Option Choice)
    (organizations repositories : Option (List (String × Choice)))
    → record_with revision global organizations repositories ≡ some q
    → ((n : ℕ) → revision ≡ some n → n ≡ p.revision)
    → ((c : Choice) → global ≡ some c → c ≡ p.global)
    → ((l : List (String × Choice)) → organizations ≡ some l → l ≡ p.organizations)
    → ((l : List (String × Choice)) → repositories ≡ some l → l ≡ p.repositories)
    → q ≡ p
record_with-some p q none global organizations repositories e r g o s = ground (arith, e)
record_with-some p q (some n) none organizations repositories e r g o s = ground (arith, e)
record_with-some p q (some n) (some c) none repositories e r g o s = ground (arith, e)
record_with-some p q (some n) (some c) (some l) none e r g o s = ground (arith, e)
record_with-some p q (some n) (some c) (some l) (some m) e r g o s =
    ground (arith, e, r n refl, g c refl, o l refl, s m refl)

pub validate_policy-raw_record :
    (p q : ConsentRecord) → validate_policy (raw_record p) ≡ some q → q ≡ p
unfolding validate_policy raw_record
validate_policy-raw_record p q e =
    record_with-some p q _ _ _ _ e (λ n h. ground (arith, h))
      (λ c h. choice_of-raw_choice p.global c h) (λ l h. choices_of-raw_choices p.organizations l h)
      (λ l h. choices_of-raw_choices p.repositories l h)

-- A choice of a valid record was decided at a safe time.
abbrev pub decided_safely : Choice → Bool
decided_safely c = elim c.decided_at [ none ↦ true | some n ↦ is_safe n ]

choice_of-safe : (c d : Choice) → choice_of (some (raw_choice c)) ≡ some d → decided_safely c ≡ true
unfolding choice_of
choice_of-safe c d e = ground (arith, e)

choices_of-safe :
    (l m : List (String × Choice)) (k : String) (c : Choice)
    → choices_of (raw_choices l) ≡ some m
    → lookup k l ≡ some c
    → decided_safely c ≡ true
unfolding choices_of raw_choices lookup
choices_of-safe [] m k c e f = ground (arith, f)
choices_of-safe ((j, x) ∷ l) m k c e f =
    let parts =
      with_entry-some j (choice_of (some (raw_choice x))) (choices_of (raw_choices l)) m e in
    ground (arith, f, choice_of-safe x parts.0 parts.2, choices_of-safe l parts.1 k c parts.3)

record_with-sections :
    (q : ConsentRecord) (revision : Option ℕ) (global : Option Choice)
    (organizations repositories : Option (List (String × Choice)))
    → record_with revision global organizations repositories ≡ some q
    → ((l : List (String × Choice)) × (organizations ≡ some l))
      × ((l : List (String × Choice)) × (repositories ≡ some l))
record_with-sections q none global organizations repositories e = ground (arith, e)
record_with-sections q (some n) none organizations repositories e = ground (arith, e)
record_with-sections q (some n) (some c) none repositories e = ground (arith, e)
record_with-sections q (some n) (some c) (some l) none e = ground (arith, e)
record_with-sections q (some n) (some c) (some l) (some m) e = ((l, refl), (m, refl))

module _ (p q : ConsentRecord) (e : validate_policy (raw_record p) ≡ some q) where
  sections :
      ((l : List (String × Choice)) × (choices_of (raw_choices p.organizations) ≡ some l))
      × ((l : List (String × Choice)) × (choices_of (raw_choices p.repositories) ≡ some l))
  unfolding validate_policy raw_record
  sections = record_with-sections q _ _ _ _ e

  pub organization_is_safe :
      (k : String) (c : Choice) → lookup k p.organizations ≡ some c → decided_safely c ≡ true
  organization_is_safe k c f = choices_of-safe p.organizations sections.0.0 k c sections.0.1 f

  pub repository_is_safe :
      (k : String) (c : Choice) → lookup k p.repositories ≡ some c → decided_safely c ≡ true
  repository_is_safe k c f = choices_of-safe p.repositories sections.1.0 k c sections.1.1 f
