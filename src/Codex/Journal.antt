-- ===== src/Codex/Journal.antt =====
-- The consent journal of one transcript, `validateConsent` and `observeConsent` of
-- transcript-delta.js: at each boundary of a session it notes how long the transcript is and whether
-- telemetry was on, and keeps the byte ranges that may never be read. The lock, the journal's folder
-- and the pointers to the source are left out; `uuid` is the epoch that a fresh journal draws.
pub mod Ranges
pub mod Log
pub mod Windows
use skillmeter_claude_code_m.Prelude.{
  ℕ, Bool, true, false, not, ◌&&◌, ◌||◌, Option, none, some, List, [], ◌∷◌, String, str_eq, leb,
  ltb, ◌==◌, if◌then◌else◌,
}

pub record Journal : Type 0 where
  pub epoch : String
  pub owner : String
  pub file_id : String
  pub observed : ℕ
  pub excluded : List (ℕ × ℕ)
  pub enabled : Bool
  pub stamp : String
  pub authorization : String

-- The loop of `validateConsent`: each range starts behind the one before, and ends where the
-- journal does at most.
unfoldable pub ranges_valid : ℕ → ℕ → List (ℕ × ℕ) → Bool
ranges_valid previous observed [] = true
ranges_valid previous observed ((from, to) ∷ ranges) =
    leb previous from && leb from to && leb to observed && ranges_valid to observed ranges

unfoldable pub is_valid : Journal → Bool
unfolding ranges_valid
is_valid j = ranges_valid 0 j.observed j.excluded

pub data JournalError : Type 0 where
  invalid_consent_journal source_owner_changed : JournalError

-- What the call is given: the scope, the transcript's length and file, and the state of telemetry.
pub record Boundary : Type 0 where
  pub owner : String
  pub authorization : String
  pub file_id : String
  pub size : ℕ
  pub enabled : Bool
  pub stamp : String
  pub rebase : Bool
  pub verify_replacement : Bool
  -- The committed cursor of the epoch, if there is one, and whether the file still starts with it.
  pub committed : Option ℕ
  pub has_prefix : Bool
  pub uuid : String

pub data Observation : Type 0 where
  -- The journal as it is, not written.
  seen : Journal → Observation
  written : Journal → Observation
  failed : JournalError → Observation

-- `state.excluded.at(-1)` grows, or a range is added.
unfoldable pub extend : List (ℕ × ℕ) → ℕ → ℕ → List (ℕ × ℕ)
extend [] from to = (from, to) ∷ []
extend ((a, b) ∷ []) from to = if b == from then (a, to) ∷ [] else (a, b) ∷ ((from, to) ∷ [])
extend (r ∷ (s ∷ ranges)) from to = r ∷ extend (s ∷ ranges) from to

unfoldable pub fresh : Boundary → Journal
fresh b = record {
  epoch = b.uuid;
  owner = b.owner;
  file_id = b.file_id;
  observed = b.size;
  excluded = (0, b.size) ∷ [];
  enabled = b.enabled;
  stamp = b.stamp;
  authorization = b.authorization;
}

-- Telemetry was on at the boundary before and is on now, by the same choices.
abbrev pub stays_on : Boundary → Journal → Bool
stays_on b j = b.enabled && j.enabled && str_eq j.stamp b.stamp

unfoldable pub continued : Boundary → Journal → Journal
unfolding extend
continued b j = record j {
  excluded = if stays_on b j then j.excluded else extend j.excluded j.observed b.size;
  observed = b.size;
  enabled = b.enabled;
  stamp = b.stamp;
}

abbrev pub is_proved : Boundary → Journal → Bool
is_proved b j = elim b.committed [
  | none ↦ false
  | some offset ↦ leb j.observed offset && leb offset b.size && b.has_prefix
]

-- Whether the journal can be continued.
abbrev pub is_same_source : Boundary → Journal → Bool
is_same_source b j =
    not b.rebase
    && str_eq j.authorization b.authorization
    && str_eq j.file_id b.file_id
    && leb j.observed b.size

abbrev pub next_journal : Boundary → Journal → Journal
next_journal b j = if is_same_source b j then continued b j else fresh b

abbrev pub is_replaced : Boundary → Journal → Bool
is_replaced b j = not (str_eq j.file_id b.file_id) && not b.rebase && stays_on b j

abbrev pub observe_journal : Boundary → Journal → Observation
observe_journal b j =
    if not (is_valid j)
    then failed invalid_consent_journal
    else if not (str_eq j.owner b.owner)
    then failed source_owner_changed
    else if is_replaced b j && not b.verify_replacement
    then seen j
    else written (
        next_journal b
          (if is_replaced b j && is_proved b j then record j { file_id = b.file_id } else j))

unfoldable pub observe_consent : Boundary → Option Journal → Observation
unfolding is_valid fresh continued
observe_consent b none = written (fresh b)
observe_consent b (some j) = observe_journal b j
