-- ===== src/Codex/Record.antt =====
-- The consent record of consent-store.js as it stands in the file, and `validatePolicy`.
pub mod RoundTrip
use skillmeter_claude_code_m.Prelude.{
  ℕ, ◌^◌, Bool, true, false, ◌||◌, Option, none, some, List, [], ◌∷◌, String, ltb, ◌==◌,
  if◌then◌else◌, ◌≡◌, refl, arith,
}

-- A value under a key that may hold a number: no such key, a whole number of any size that is not
-- negative, or anything else.
pub data Number : Type 0 where
  undefined other : Number
  whole : ℕ → Number

-- One choice as JSON; `enabled` is `none` unless it is a boolean.
pub record RawChoice : Type 0 where
  pub enabled : Option Bool
  pub decided_at : Number
  pub consent_version : Number
  pub source : Option String

-- An entry that is no object is `none`.
pub record RawRecord : Type 0 where
  pub schema_version : Number
  pub revision : Number
  pub has_unknown_field : Bool
  pub global : Option RawChoice
  pub organizations : Option (List (String × Option RawChoice))
  pub repositories : Option (List (String × Option RawChoice))

pub record Choice : Type 0 where
  pub enabled : Bool
  pub decided_at : Option ℕ
  pub consent_version : Option ℕ
  pub source : Option String

pub record ConsentRecord : Type 0 where
  pub revision : ℕ
  pub global : Choice
  pub organizations : List (String × Choice)
  pub repositories : List (String × Choice)

-- `Number.isSafeInteger(value) && value >= 0`, of a whole number
abbrev pub is_safe : ℕ → Bool
is_safe n = ltb n (2 ^ 53)

abbrev time_of : Number → Option (Option ℕ)
time_of undefined = some none
time_of other = none
time_of (whole n) = if is_safe n then some (some n) else none

abbrev version_of : Number → Option (Option ℕ)
version_of undefined = some none
version_of other = none
version_of (whole n) = if n == 1 || n == 2 then some (some n) else none

abbrev integer_of : Number → Option ℕ
integer_of undefined = none
integer_of other = none
integer_of (whole n) = if is_safe n then some n else none

abbrev choice_with :
    Option Bool → Option (Option ℕ) → Option (Option ℕ) → Option String → Option Choice
choice_with (some enabled) (some time) (some version) source =
    some
      (record { enabled = enabled; decided_at = time; consent_version = version; source = source })
choice_with (some enabled) (some time) none source = none
choice_with (some enabled) none version source = none
choice_with none time version source = none

-- The choice, if it is one: `record(value)`.
unfoldable pub choice_of : Option RawChoice → Option Choice
choice_of none = none
choice_of (some r) =
    choice_with r.enabled (time_of r.decided_at) (version_of r.consent_version) r.source

abbrev pub with_entry :
    String → Option Choice → Option (List (String × Choice)) → Option (List (String × Choice))
with_entry k none rest = none
with_entry k (some c) none = none
with_entry k (some c) (some rest) = some ((k, c) ∷ rest)

unfoldable pub choices_of : List (String × Option RawChoice) → Option (List (String × Choice))
choices_of [] = some []
choices_of ((k, r) ∷ entries) = with_entry k (choice_of r) (choices_of entries)

abbrev pub section_of : Option (List (String × Option RawChoice)) → Option (List (String × Choice))
section_of none = none
section_of (some entries) = choices_of entries

abbrev is_one : Number → Bool
is_one undefined = false
is_one other = false
is_one (whole n) = n == 1

abbrev pub record_with :
    Option ℕ
    → Option Choice
    → Option (List (String × Choice))
    → Option (List (String × Choice))
    → Option ConsentRecord
record_with (some revision) (some global) (some organizations) (some repositories) = some (record {
  revision = revision;
  global = global;
  organizations = organizations;
  repositories = repositories;
})
record_with none global organizations repositories = none
record_with (some revision) none organizations repositories = none
record_with (some revision) (some global) none repositories = none
record_with (some revision) (some global) (some organizations) none = none

-- `validatePolicy`, of an object
unfoldable pub validate_policy : RawRecord → Option ConsentRecord
unfolding choice_of choices_of
validate_policy r =
    if is_one r.schema_version
    then if r.has_unknown_field
      then none
      else record_with (integer_of r.revision) (choice_of r.global) (section_of r.organizations)
          (section_of r.repositories)
    else none

-- What a choice and a record are in the file.
abbrev number_of : Option ℕ → Number
number_of none = undefined
number_of (some n) = whole n

abbrev pub raw_choice : Choice → RawChoice
raw_choice c = record {
  enabled = some c.enabled;
  decided_at = number_of c.decided_at;
  consent_version = number_of c.consent_version;
  source = c.source;
}

unfoldable pub raw_choices : List (String × Choice) → List (String × Option RawChoice)
raw_choices [] = []
raw_choices ((k, c) ∷ entries) = (k, some (raw_choice c)) ∷ raw_choices entries

unfoldable pub raw_record : ConsentRecord → RawRecord
unfolding raw_choices
raw_record p = record {
  schema_version = whole 1;
  revision = whole p.revision;
  has_unknown_field = false;
  global = some (raw_choice p.global);
  organizations = some (raw_choices p.organizations);
  repositories = some (raw_choices p.repositories);
}
