-- ===== src/Sanitize/Tests.antt =====
-- Sanitizing a record whose two keys come out the same.
use skillmeter_claude_code_m.Prelude.{
  if◌then◌else◌, true, none, some, List, [], ◌∷◌, String, str_eq, length, ◌≡◌, refl,
}
use mathlib.Core.List.{map}
use skillmeter_claude_code_m.Prelude.Assoc.{lookup}
use skillmeter_claude_code_m.Examples.{counting_host, letters, letters-injective}
use skillmeter_claude_code_m.Sanitize.{
  secret, Redaction, Scrubber, Rule, Json, text, scalar, array, object, nil, cons, end, field,
  free_ordinal, output_keys, allocate, between, hit, redact_string, scrub_text,
}
use skillmeter_claude_code_m.Sanitize.Keys.{NoneTwice, output_keys_lem}
use skillmeter_claude_code_m.Sanitize.Walk.{scrub_deep}
use skillmeter_claude_code_m.Sanitize.Leaves.{leaves, unkeyed, clean, scrub_deep_lem}

abbrev token_rule : Rule
token_rule = record {
  redaction = record { id = "token"; category = secret; kind = "secret" };
  replacement = "[TOKEN]";
  applies = λ s. true;
  split = λ s.
      if str_eq s "t1"
      then hit "" "t1" "" ∷ []
      else if str_eq s "t2"
      then hit "" "t2" "" ∷ []
      else between s ∷ [];
  accepts = λ s. true;
}

abbrev test_policy : Scrubber
test_policy = record {
  rules = token_rule ∷ [];
  is_stopword = λ s. str_eq s "null";
  is_placeholder = λ s. str_eq s "[TOKEN]";
  is_secret_key = λ s. str_eq s "password";
  hmac = λ salt s. "hash";
  hash_home = λ salt s. (s, 0);
  hash_path = λ salt s. ("path", 1);
  secret_placeholder = "[SECRET]";
}

abbrev whole_key : String → String × String
whole_key key = (key, "")

abbrev sample : Json
sample = object (
    field "t1" (text "t2") (
      field "t2" (array (cons (text "plain") (cons (scalar "7") nil)))
        (field "password" (array (cons (text "p1") nil)) (field "cwd" (text "home") end))))

cleaned_sample :
    map (clean test_policy "salt") (leaves none sample)
    ≡ text "[TOKEN]" ∷ text "plain" ∷ scalar "7" ∷ text "[SECRET]" ∷ text "hash" ∷ []
unfolding scrub_text leaves redact_string
cleaned_sample = refl

numbered_keys :
    output_keys ⦃h = counting_host⦄ whole_key ("[TOKEN]" ∷ "[TOKEN]" ∷ "cwd" ∷ [])
    ≡ some ("[TOKEN]" ∷ "[TOKEN][key-aa]" ∷ "cwd" ∷ [])
unfolding output_keys free_ordinal allocate letters lookup
numbered_keys = refl

output_keys_lem_example :
    (outs : List String) × (output_keys ⦃h = counting_host⦄ whole_key
        ("[TOKEN]" ∷ "[TOKEN]" ∷ "cwd" ∷ [])
      ≡ some outs)
    × NoneTwice [] outs
    × (length outs ≡ 3)
output_keys_lem_example =
    output_keys_lem ⦃h = counting_host⦄ whole_key letters-injective
      ("[TOKEN]" ∷ "[TOKEN]" ∷ "cwd" ∷ [])

scrub_deep_lem_example :
    (out : Json × List Redaction) × (scrub_deep ⦃h = counting_host⦄ test_policy whole_key "salt"
        none sample
      ≡ some out)
    × (unkeyed (leaves none out.0) ≡ map (clean test_policy "salt") (leaves none sample))
scrub_deep_lem_example =
    scrub_deep_lem ⦃h = counting_host⦄ test_policy whole_key "salt" letters-injective none sample
