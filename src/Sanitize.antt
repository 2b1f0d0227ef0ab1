-- ===== src/Sanitize.antt =====
-- The sanitizer of shared/lib/sanitize.js: the rules on one text (`redactString`), the hash of the
-- home folder, and the keys of an output object; Walk is `scrubDeep`. The runtime's regular
-- expressions are parameters: how a rule's expression splits a text into matches, the patterns of
-- secret names, clear path segments and placeholders; so are HMAC-SHA256 and a rule's validator with
-- its entropy floor. Segment-wise path hashing is `hash_path`, given.
pub mod Walk
pub mod Leaves
pub mod Keys
mod Tests
use Prim.Native.String.{◌++◌ as ◌++ˢ◌}
use skillmeter_claude_code_m.Prelude.Assoc.{lookup, insert, string_eq}
use skillmeter_claude_code_m.Host.{Host}
use skillmeter_claude_code_m.Prelude.{
  ℕ, zero, suc, ◌+◌, Bool, true, false, not, ◌&&◌, ◌||◌, ◌==◌, any, length, Option, none, some,
  List, [], ◌∷◌, ◌++◌, String, str_eq, if◌then◌else◌,
}

pub data Category : Type 0 where
  secret pii path : Category

pub record Redaction : Type 0 where
  pub id : String
  pub category : Category
  pub kind : String

-- A piece of a text that a rule's expression has split: text between matches, a match with the last
-- place of its candidate in it, and a match whose capture took no part.
pub data Piece : Type 0 where
  between no_candidate : String → Piece
  hit : (before candidate after : String) → Piece

pub record Rule : Type 0 where
  pub redaction : Redaction
  pub replacement : String
  -- `keywords` and `precheck`, on the whole text.
  pub applies : String → Bool
  pub split : String → List Piece
  -- The entropy floor and the validator.
  pub accepts : String → Bool

-- What the runtime and the tables give.
pub record Scrubber : Type 0 where
  pub rules : List Rule
  pub is_stopword : String → Bool
  pub is_placeholder : String → Bool
  pub is_secret_key : String → Bool
  pub hmac : String → String → String
  -- Every occurrence of the home folder replaced by its hash, with their number.
  pub hash_home : String → String → String × ℕ
  -- A file path hashed by segment, with the number of hashes.
  pub hash_path : String → String → String × ℕ
  pub secret_placeholder : String

-- A parsed value: texts are scrubbed, other scalars pass; an object's fields are in their order.
mutual
  pub data Json : Type 0 where
    text scalar : String → Json
    array : Items → Json
    object : Fields → Json

  pub data Items : Type 0 where
    nil : Items
    cons : Json → Items → Items

  pub data Fields : Type 0 where
    end : Fields
    field : String → Json → Fields → Fields

abbrev path_hash : Redaction
path_hash = record { id = "path-hash"; category = path; kind = "path" }

abbrev labelled_secret : Redaction
labelled_secret = record { id = "labelled-secret"; category = secret; kind = "secret" }

abbrev pub repeated : ℕ → List Redaction
repeated zero = []
repeated (suc n) = path_hash ∷ repeated n

abbrev pub segment_keys : List String
segment_keys = "file_path" ∷ "filePath" ∷ "notebook_path" ∷ []

abbrev pub whole_keys : List String
whole_keys =
    "path" ∷ "cwd" ∷ "old_cwd" ∷ "new_cwd" ∷ "directory" ∷ "worktree_path" ∷ "scratchpad_dir" ∷ []

abbrev pub one_of : String → List String → Bool
one_of s l = any (λ t. str_eq t s) l

-- The keys that an object has given out, those that are taken, and the next ordinal of each.
pub record KeyState : Type 0 where
  pub used : List String
  pub reserved : List String
  pub ordinals : List (String × ℕ)

module _ (p : Scrubber) where
  -- One match: the rule's replacement in place of the candidate, unless it is refused.
  abbrev pub redact_piece : Rule → Piece → String × List Redaction
  redact_piece r (between s) = (s, [])
  redact_piece r (no_candidate s) = (s, [])
  redact_piece r (hit before candidate after) =
      if p.is_stopword candidate || p.is_placeholder candidate || not (r.accepts candidate)
      then (before ++ˢ (candidate ++ˢ after), [])
      else (before ++ˢ (r.replacement ++ˢ after), r.redaction ∷ [])

  unfoldable pub redact_pieces : Rule → List Piece → String × List Redaction
  redact_pieces r [] = ("", [])
  redact_pieces r (piece ∷ pieces) =
      let here = redact_piece r piece in
      let rest = redact_pieces r pieces in (here.0 ++ˢ rest.0, here.1 ++ rest.1)

  -- The rules in the order of the table; `input` is the text before the first.
  unfoldable pub run_rules : List Rule → String → String → String × List Redaction
  unfolding redact_pieces
  run_rules [] input value = (value, [])
  run_rules (r ∷ rules) input value =
      let once = redact_pieces r (r.split value) in
      let skipped = run_rules rules input value in
      let after = run_rules rules input once.0 in
      if r.applies input then (after.0, once.1 ++ after.1) else skipped

  unfoldable pub redact_string : String → String × List Redaction
  unfolding run_rules
  redact_string input =
      if str_eq input "" || p.is_placeholder input
      then (input, [])
      else run_rules p.rules input input

  unfoldable pub hash_hmac : String → String → String
  hash_hmac s salt = if str_eq s "" || str_eq salt "" then "" else p.hmac salt s

  abbrev pub hash_home_paths : String → String → String × List Redaction
  hash_home_paths s salt =
      let hashed = p.hash_home salt s in
      if str_eq salt "" then (s, []) else (hashed.0, repeated hashed.1)

  unfoldable pub scrub_string : String → String → String × List Redaction
  unfolding redact_string
  scrub_string s salt =
      let redacted = redact_string s in
      let home = hash_home_paths redacted.0 salt in
      if str_eq s "" then (s, []) else (home.0, redacted.1 ++ home.1)

  abbrev pub has_key : (String → Bool) → Option String → Bool
  has_key test none = false
  has_key test (some k) = not (str_eq k "") && test k

  -- A text under the nearest key above it.
  unfoldable pub scrub_text : Option String → String → String → String × List Redaction
  unfolding scrub_string hash_hmac
  scrub_text key s salt =
      let hashed = p.hash_path salt s in
      if has_key p.is_secret_key key && not (p.is_stopword s) && not (p.is_placeholder s)
      then (p.secret_placeholder, labelled_secret ∷ [])
      else if has_key (λ k. one_of k segment_keys) key
      then (hashed.0, repeated hashed.1)
      else if has_key (λ k. one_of k whole_keys) key
      then (
        hash_hmac s salt,
        if not (str_eq salt "") && not (str_eq s "") then path_hash ∷ [] else [],
      )
      else scrub_string s salt

  unfoldable pub scrubbed_keys : Fields → String → List String × List Redaction
  unfolding scrub_string
  scrubbed_keys end salt = ([], [])
  scrubbed_keys (field k v fs) salt =
      let here = scrub_string k salt in
      let rest = scrubbed_keys fs salt in (here.0 ∷ rest.0, here.1 ++ rest.1)

-- The part of a key before its extension, and the extension, as `splitExtension` of the key's last
-- path part gives them, are `parts`.
module _ ⦃h : Host⦄ (parts : String → String × String) where
  unfoldable pub numbered : String → ℕ → String
  numbered key n = (parts key).0 ++ˢ ("[key-" ++ˢ (h.decimal n ++ˢ ("]" ++ˢ (parts key).1)))

  -- The first ordinal from `n` on whose key is not taken; `fuel` many are tried.
  unfoldable pub free_ordinal : ℕ → String → List String → ℕ → Option ℕ
  unfolding numbered
  free_ordinal zero key reserved n = none
  free_ordinal (suc fuel) key reserved n =
      let next = free_ordinal fuel key reserved (suc n) in
      if one_of (numbered key n) reserved then next else some n

  abbrev pub ordinal_of : Option ℕ → ℕ
  ordinal_of none = 2
  ordinal_of (some n) = if n == 0 then 2 else n

  abbrev pub take_ordinal : String → KeyState → Option ℕ → Option (String × KeyState)
  take_ordinal key s none = none
  take_ordinal key s (some n) = some (
    numbered key n,
    record {
      used = numbered key n ∷ s.used;
      reserved = numbered key n ∷ s.reserved;
      ordinals = insert key (suc n) s.ordinals;
    },
  )

  -- The output key of one field: its scrubbed key, or one with an ordinal if the object has it.
  unfoldable pub allocate : String → KeyState → Option (String × KeyState)
  unfolding free_ordinal
  allocate key s =
      let first = ordinal_of (lookup key s.ordinals) in
      if one_of key s.used
      then take_ordinal key s (free_ordinal (suc (length s.reserved)) key s.reserved first)
      else some (key, record s { used = key ∷ s.used })

  abbrev pub prepend : Option (List String) → String → Option (List String)
  prepend none key = none
  prepend (some keys) key = some (key ∷ keys)

  unfoldable pub allocate_all : List String → KeyState → Option (List String)
  allocate_all [] s = some []
  allocate_all (key ∷ keys) s = elim (allocate key s) [
    | none ↦ none
    | some made ↦ prepend (allocate_all keys made.1) made.0
  ]

  -- The keys of an output object, from the scrubbed keys in their order.
  unfoldable pub output_keys : List String → Option (List String)
  unfolding allocate_all
  output_keys keys = allocate_all keys (record { used = []; reserved = keys; ordinals = [] })
