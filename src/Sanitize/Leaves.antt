-- ===== src/Sanitize/Leaves.antt =====
-- What the walk makes of the texts and scalars of a record.
use skillmeter_claude_code_m.Prelude.{
  ℕ, suc, length, Option, none, some, List, [], ◌∷◌, ◌++◌, String, ◌≡◌, refl, sym, ap, ap₂, ◌∙◌,
  arith,
}
use mathlib.Core.List.{map, map-append}
use skillmeter_claude_code_m.Host.{Host}
use skillmeter_claude_code_m.Sanitize.{
  Redaction, Scrubber, Json, text, scalar, array, object, Items, nil, cons, Fields, end, field,
  scrub_text, scrubbed_keys,
}
use skillmeter_claude_code_m.Sanitize.Keys.{Injective, output_keys_lem}
use skillmeter_claude_code_m.Sanitize.Walk.{
  Walked, after, both, scrub_deep, scrub_items, scrub_fields,
}

-- The texts and scalars of a record in their order, each with the nearest key above it.
unfoldable mutual
  pub leaves : Option String → Json → List (Option String × Json)
  leaves key (text s) = (key, text s) ∷ []
  leaves key (scalar s) = (key, scalar s) ∷ []
  leaves key (array items) = leaves_items key items
  leaves key (object fields) = leaves_fields fields

  pub leaves_items : Option String → Items → List (Option String × Json)
  leaves_items key nil = []
  leaves_items key (cons v items) = leaves key v ++ leaves_items key items

  pub leaves_fields : Fields → List (Option String × Json)
  leaves_fields end = []
  leaves_fields (field key v fields) = leaves (some key) v ++ leaves_fields fields

abbrev pub unkeyed : List (Option String × Json) → List Json
unkeyed l = map (λ leaf. leaf.1) l

-- One leaf, cleaned on its own.
abbrev pub clean : Scrubber → String → Option String × Json → Json
clean p salt (key, text s) = text (scrub_text p key s salt).0
clean p salt (key, scalar s) = scalar s
clean p salt (key, array items) = array items
clean p salt (key, object fields) = object fields

fields_length : Fields → ℕ
fields_length end = 0
fields_length (field key v fields) = suc (fields_length fields)

length-scrubbed_keys :
    (p : Scrubber) (fields : Fields) (salt : String)
    → length (scrubbed_keys p fields salt).0 ≡ fields_length fields
unfolding scrubbed_keys fields_length
length-scrubbed_keys p end salt = refl
length-scrubbed_keys p (field key v fields) salt = ap suc (length-scrubbed_keys p fields salt)

-- A walk ends, and lists what is expected, whatever key the result stands under.
record Ends {A : Type 0} (list : Option String → A → List (Option String × Json)) (walk : Walked A)
    (expected : List Json) : Type 0 where
  value : A × List Redaction
  ends : walk ≡ some value
  same : (key : Option String) → unkeyed (list key value.0) ≡ expected

abbrev of_fields : Option String → Fields → List (Option String × Json)
of_fields key fields = leaves_fields fields

module _ ⦃h : Host⦄ (p : Scrubber) (parts : String → String × String) (salt : String)
    (injective : Injective h.decimal) where
  abbrev cleaned : List (Option String × Json) → List Json
  cleaned l = map (clean p salt) l

  joined :
      (a b l m : List (Option String × Json))
      → unkeyed a ≡ cleaned l
      → unkeyed b ≡ cleaned m
      → unkeyed (a ++ b) ≡ cleaned (l ++ m)
  joined a b l m e e' =
      map-append (λ leaf. leaf.1) a b
      ∙ ap₂ (λ x y. x ++ y) e e'
      ∙ sym (map-append (clean p salt) l m)

  mutual
    unfolding scrub_deep leaves fields_length

    deep-Ends :
        (key : Option String) (j : Json)
        → Ends leaves (scrub_deep p parts salt key j) (cleaned (leaves key j))
    deep-Ends key (text s) = record { value = _; ends = refl; same = λ k. refl }
    deep-Ends key (scalar s) = record { value = _; ends = refl; same = λ k. refl }
    deep-Ends key (array items) =
        let rest = items-Ends key items in
        record { value = _; ends = ap (after [] array) rest.ends; same = rest.same }
    deep-Ends key (object fields) =
        let keys = scrubbed_keys p fields salt in
        let outs = output_keys_lem parts injective keys.0 in
        let rest = fields-Ends outs.0 fields (outs.3 ∙ length-scrubbed_keys p fields salt) in
        record {
          value = _;
          ends =
              ap
                (λ found. elim found [
                  | none ↦ none
                  | some l ↦ after keys.1 object (scrub_fields p parts salt l fields)
                ])
                outs.1
              ∙ ap (after keys.1 object) rest.ends;
          same = rest.same;
        }

    items-Ends :
        (key : Option String) (items : Items)
        → Ends leaves_items (scrub_items p parts salt key items) (cleaned (leaves_items key items))
    items-Ends key nil = record { value = _; ends = refl; same = λ k. refl }
    items-Ends key (cons v items) =
        let first = deep-Ends key v in
        let rest = items-Ends key items in
        record {
          value = _;
          ends = ap₂ (both cons) first.ends rest.ends;
          same =
              λ k. joined _ _ (leaves key v) (leaves_items key items) (first.same k) (rest.same k);
        }

    fields-Ends :
        (outs : List String) (fields : Fields)
        → length outs ≡ fields_length fields
        → Ends of_fields (scrub_fields p parts salt outs fields) (cleaned (leaves_fields fields))
    fields-Ends outs end e = record { value = _; ends = refl; same = λ k. refl }
    fields-Ends [] (field key v fields) e = ground (arith, e)
    fields-Ends (out ∷ outs) (field key v fields) e =
        let first = deep-Ends (some key) v in
        let rest = fields-Ends outs fields (ground (arith, e)) in
        record {
          value = _;
          ends = ap₂ (both (field out)) first.ends rest.ends;
          same = λ k.
              joined _ _ (leaves (some key) v) (leaves_fields fields) (first.same (some out))
                (rest.same k);
        }

-- Given that different numbers have different decimal forms, the walk over a record returns a
-- record whose texts and scalars are those of the input, in the same order: each scalar as it was,
-- and each text as it is cleaned on its own under the nearest key that stood above it in the input
-- (an array's elements under the array's key), whatever keys the output got.
pub scrub_deep_lem :
    ⦃h : Host⦄ (p : Scrubber) (parts : String → String × String) (salt : String)
    → Injective h.decimal
    → (key : Option String) (j : Json)
    → (out : Json × List Redaction) × (scrub_deep p parts salt key j ≡ some out)
      × (unkeyed (leaves key out.0) ≡ map (clean p salt) (leaves key j))
scrub_deep_lem p parts salt injective key j =
    let walk = deep-Ends p parts salt injective key j in (walk.value, walk.ends, walk.same key)
