-- ===== src/Sanitize/Walk.antt =====
-- The walk over a record (`scrubDeep`), with what it replaced.
use skillmeter_claude_code_m.Prelude.{Option, none, some, List, [], ◌∷◌, ◌++◌, String}
use skillmeter_claude_code_m.Host.{Host}
use skillmeter_claude_code_m.Sanitize.{
  Redaction, Scrubber, Json, text, scalar, array, object, Items, nil, cons, Fields, end, field,
  scrub_text, scrubbed_keys, output_keys,
}

abbrev pub Walked : Type 0 → Type 0
Walked A = Option (A × List Redaction)

-- `first` is what was replaced before the walk of the rest.
abbrev pub after : {A B : Type 0} → List Redaction → (A → B) → Walked A → Walked B
after first make none = none
after first make (some walked) = some (make walked.0, first ++ walked.1)

abbrev pub both : {A B C : Type 0} → (A → B → C) → Walked A → Walked B → Walked C
both make none second = none
both make (some walked) second = after walked.1 (make walked.0) second

module _ ⦃h : Host⦄ (p : Scrubber) (parts : String → String × String) (salt : String) where
  -- An array's elements stand under the array's own key; a field's value under the key that the
  -- input has, and its output under the key given out. More fields than keys cannot be.
  unfoldable mutual
    pub scrub_deep : Option String → Json → Walked Json
    scrub_deep key (text s) =
        let scrubbed = scrub_text p key s salt in some (text scrubbed.0, scrubbed.1)
    scrub_deep key (scalar s) = some (scalar s, [])
    scrub_deep key (array items) = after [] array (scrub_items key items)
    scrub_deep key (object fields) =
        let keys = scrubbed_keys p fields salt in
        elim (output_keys parts keys.0) [
          | none ↦ none
          | some outs ↦ after keys.1 object (scrub_fields outs fields)
        ]

    pub scrub_items : Option String → Items → Walked Items
    scrub_items key nil = some (nil, [])
    scrub_items key (cons v items) = both cons (scrub_deep key v) (scrub_items key items)

    pub scrub_fields : List String → Fields → Walked Fields
    scrub_fields outs end = some (end, [])
    scrub_fields [] (field key v fields) = none
    scrub_fields (out ∷ outs) (field key v fields) =
        both (field out) (scrub_deep (some key) v) (scrub_fields outs fields)
