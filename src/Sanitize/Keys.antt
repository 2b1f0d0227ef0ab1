-- ===== src/Sanitize/Keys.antt =====
-- The keys of an output object and the search for a free ordinal.
use text.Mathlib.TextLemmas.{append_cancel_left, append_cancel_right}
use skillmeter_claude_code_m.Prelude.{
  ℕ, zero, suc, ◌<◌, ◌≤◌, true, false, length, none, some, Bool-cases, List, [], ◌∷◌, String,
  str_eq, eq_iff, if◌then◌else◌, ◌≡◌, ◌≢◌, inl, inr, refl, ap, ◌∙◌, arith,
}
use mathlib.Core.Path.{subst}
use skillmeter_claude_code_m.Prelude.Assoc.{lookup, insert, string_eq}
use skillmeter_claude_code_m.Host.{Host}
use skillmeter_claude_code_m.Sanitize.{
  KeyState, one_of, numbered, free_ordinal, allocate, prepend, allocate_all, ordinal_of,
  output_keys,
}

-- No text of the list is among `used`, and none stands in it twice.
abbrev pub NoneTwice : List String → List String → Type 0
NoneTwice used [] = Unit
NoneTwice used (k ∷ keys) = (one_of k used ≡ false) × NoneTwice (k ∷ used) keys

abbrev pub Injective : (ℕ → String) → Type 0
Injective f = (a b : ℕ) → f a ≡ f b → a ≡ b

erase : String → List String → List String
erase s [] = []
erase s (t ∷ l) = if str_eq t s then l else t ∷ erase s l

length-erase :
    (s : String) (l : List String) → one_of s l ≡ true → suc (length (erase s l)) ≡ length l
unfolding erase
length-erase s [] e = ground (arith, e)
length-erase s (t ∷ l) e = ground (arith, e, length-erase s l)

one_of-erase :
    (s t : String) (l : List String) → s ≢ t → one_of t l ≡ true → one_of t (erase s l) ≡ true
unfolding erase
one_of-erase s t [] ne e = e
one_of-erase s t (u ∷ l) ne e = ground (arith, ne, e, eq_iff u s, eq_iff u t, one_of-erase s t l ne)

module _ ⦃h : Host⦄ (parts : String → String × String) (injective : Injective h.decimal) where
  numbered-injective :
      (key : String) (a b : ℕ) → numbered parts key a ≡ numbered parts key b → a ≡ b
  unfolding numbered
  numbered-injective key a b e =
      let after_stem = append_cancel_left (parts key).0 _ _ e in
      let after_mark = append_cancel_left "[key-" _ _ after_stem in
      injective a b (append_cancel_right (h.decimal a) (h.decimal b) _ after_mark)

  Taken : String → List String → List String → ℕ → Type 0
  Taken key reserved left n =
      (m : ℕ)
      → n ≤ m
      → one_of (numbered parts key m) reserved ≡ true
      → one_of (numbered parts key m) left ≡ true

  unchanged : (key : String) (reserved : List String) (n : ℕ) → Taken key reserved reserved n
  unfolding Taken
  unchanged key reserved n m le e = e

  Taken-erase :
      (n : ℕ) (key : String) (reserved left : List String)
      → Taken key reserved left n
      → Taken key reserved (erase (numbered parts key n) left) (suc n)
  unfolding Taken
  Taken-erase n key reserved left all m le e =
      one_of-erase (numbered parts key n) (numbered parts key m) left
        (λ same. ground (arith, le, numbered-injective key n m same)) (all m (ground (arith, le)) e)

  -- `left` holds what is taken from `n` on.
  free_ordinal_lem :
      (fuel n : ℕ) (key : String) (reserved left : List String)
      → Taken key reserved left n
      → length left < fuel
      → (m : ℕ) × (free_ordinal parts fuel key reserved n ≡ some m)
        × (one_of (numbered parts key m) reserved ≡ false)
  unfolding free_ordinal Taken
  free_ordinal_lem zero n key reserved left all short = ground (arith, short)
  free_ordinal_lem (suc fuel) n key reserved left all short =
      elim (Bool-cases (one_of (numbered parts key n) reserved)) [
        | inr is_free ↦ (n, rw (is_free), is_free)
        | inl taken ↦
            let here = all n (ground arith) taken in
            let shorter = length-erase (numbered parts key n) left here in
            let rest =
              free_ordinal_lem fuel (suc n) key reserved (erase (numbered parts key n) left)
                (Taken-erase n key reserved left all) (ground (arith, shorter, short)) in
            (rest.0, rw (taken, rest.1), rest.2)
      ]

  -- What an object has given out is taken.
  IsReserved : KeyState → Type 0
  IsReserved s = (t : String) → one_of t s.used ≡ true → one_of t s.reserved ≡ true

  nothing_used :
      (keys : List String) → IsReserved (record { used = []; reserved = keys; ordinals = [] })
  unfolding IsReserved
  nothing_used keys t e = ground (arith, e)

  record Allocated (key : String) (s : KeyState) : Type 0 where
    made : String × KeyState
    ends : allocate parts key s ≡ some made
    is_new : one_of made.0 s.used ≡ false
    uses : made.1.used ≡ made.0 ∷ s.used
    keeps : (t : String) → one_of t s.reserved ≡ true → one_of t made.1.reserved ≡ true
    is_reserved : IsReserved made.1

  allocate_numbered :
      (key : String) (s : KeyState) (n : ℕ)
      → one_of key s.used ≡ true
      → free_ordinal parts
          (suc (length s.reserved))
          key
          s.reserved
          (ordinal_of parts (lookup key s.ordinals))
        ≡ some n
      → one_of (numbered parts key n) s.reserved ≡ false
      → IsReserved s
      → Allocated key s
  unfolding allocate IsReserved
  allocate_numbered key s n taken found is_free all = record {
    made = (
      numbered parts key n,
      record {
        used = numbered parts key n ∷ s.used;
        reserved = numbered parts key n ∷ s.reserved;
        ordinals = insert key (suc n) s.ordinals;
      },
    );
    ends = rw (taken, found);
    is_new = ground (arith, all (numbered parts key n), is_free);
    uses = refl;
    keeps = λ t e. ground (arith, e);
    is_reserved = λ t e. ground (arith, e, all t);
  }

  allocate_lem :
      (key : String) (s : KeyState) → one_of key s.reserved ≡ true → IsReserved s → Allocated key s
  unfolding allocate IsReserved
  allocate_lem key s known all = elim (Bool-cases (one_of key s.used)) [
    | inr is_free ↦ record {
      made = (key, record s { used = key ∷ s.used });
      ends = rw (is_free);
      is_new = is_free;
      uses = refl;
      keeps = λ t e. e;
      is_reserved = λ t e. ground (arith, e, all t, known, eq_iff key t);
    }
    | inl taken ↦
        let first = ordinal_of parts (lookup key s.ordinals) in
        let found =
          free_ordinal_lem (suc (length s.reserved)) first key s.reserved s.reserved
            (unchanged key s.reserved first) (ground arith) in
        allocate_numbered key s found.0 taken found.1 found.2 all
  ]

  -- The keys still to come are taken.
  allocate_all_lem :
      (keys : List String) (s : KeyState)
      → ((t : String) → one_of t keys ≡ true → one_of t s.reserved ≡ true)
      → IsReserved s
      → (outs : List String) × (allocate_all parts keys s ≡ some outs)
        × NoneTwice s.used outs
        × (length outs ≡ length keys)
  unfolding allocate_all
  allocate_all_lem [] s known all = ([], refl, tt, refl)
  allocate_all_lem (key ∷ keys) s known all =
      let one = allocate_lem key s (known key (ground (arith, eq_iff key key))) all in
      let rest =
        allocate_all_lem keys one.made.1 (λ t e. one.keeps t (known t (ground (arith, e))))
          one.is_reserved in
      (
        one.made.0 ∷ rest.0,
        ap
              (λ r. elim r [
                | none ↦ none
                | some made ↦ prepend parts (allocate_all parts keys made.1) made.0
              ])
              one.ends
            ∙ ap (λ r. prepend parts r one.made.0) rest.1,
        (one.is_new, subst (λ used. NoneTwice used rest.0) one.uses rest.2),
        ap suc rest.3,
      )

-- Given that different numbers have different decimal forms, an object gets as many output keys as
-- it has fields, and no two of them are the same, whatever its scrubbed keys are: the search for a
-- free ordinal always ends.
pub output_keys_lem :
    ⦃h : Host⦄ (parts : String → String × String)
    → Injective h.decimal
    → (keys : List String)
    → (outs : List String) × (output_keys parts keys ≡ some outs)
      × NoneTwice [] outs
      × (length outs ≡ length keys)
unfolding output_keys
output_keys_lem parts injective keys =
    allocate_all_lem parts injective keys _ (λ t e. e) (nothing_used parts injective keys)
