-- ===== src/Codex/Choices.antt =====
-- The writes of consent-store.js: each checks what it is given and changes the record by `mutate`.
-- `now` is the time of the change. Choices are booleans, which the commands check before.
use Prim.Native.String.{◌++◌ as ◌++ˢ◌}
use Prim.Native.Nat.{max}
use skillmeter_claude_code_m.Prelude.{
  ℕ, ◌+◌, Bool, true, false, not, ◌&&◌, any, Option, none, some, List, [], ◌∷◌, String, str_eq,
  ◌==◌, if◌then◌else◌,
}
use skillmeter_claude_code_m.Prelude.Assoc.{lookup, insert, string_eq}
use skillmeter_claude_code_m.Host.{Host}
use skillmeter_claude_code_m.Jwt.{distinct}
use skillmeter_claude_code_m.Policy.Keys.{RepoKey, is_part, normalize_repo_key}
use skillmeter_claude_code_m.Codex.Record.{Choice, ConsentRecord}
use skillmeter_claude_code_m.Codex.Store.{
  Disk, Run, Expected, Saved, acknowledgement_required, not_canonical, mutate,
}

pub data Section : Type 0 where
  organizations repositories : Section

-- `github.com/owner/name`
abbrev pub key_text : RepoKey → String
key_text k = "github.com/" ++ˢ (k.owner ++ˢ ("/" ++ˢ k.name))

abbrev pub time_before : Option Choice → ℕ
time_before none = 0
time_before (some c) = elim c.decided_at [ none ↦ 0 | some t ↦ t ]

-- `decision(enabled, previous)`: a later time than the choice before it.
unfoldable pub decision : Bool → ℕ → Option Choice → Choice
decision enabled now previous = record {
  enabled = enabled;
  decided_at = some (max now (time_before previous + 1));
  consent_version = none;
  source = some "user";
}

-- ON records that its scope was shown.
unfoldable pub decided : Bool → ℕ → Option Choice → Choice
unfolding decision
decided enabled now previous = record (decision enabled now previous) {
  consent_version = if enabled then some 2 else none;
}

abbrev pub put_choice : Section → String → Choice → ConsentRecord → ConsentRecord
put_choice organizations key c p = record p { organizations = insert key c p.organizations }
put_choice repositories key c p = record p { repositories = insert key c p.repositories }

abbrev pub choice_at : Section → String → ConsentRecord → Option Choice
choice_at organizations key p = lookup key p.organizations
choice_at repositories key p = lookup key p.repositories

unfoldable pub choose : Section → Bool → ℕ → String → ConsentRecord → ConsentRecord
choose section enabled now key p =
    put_choice section key (decided enabled now (choice_at section key p)) p

unfoldable pub choose_all : ℕ → List (String × Bool) → ConsentRecord → ConsentRecord
choose_all now [] p = p
choose_all now ((key, enabled) ∷ entries) p =
    choose_all now entries (choose repositories enabled now key p)

abbrev pub is_granted : Option Choice → Bool
is_granted none = false
is_granted (some c) = c.enabled && elim c.consent_version [ none ↦ false | some v ↦ v == 2 ]

-- An organization that is ON keeps its choice, and with it the time of it.
unfoldable pub choose_organization : ℕ → String → ConsentRecord → ConsentRecord
choose_organization now org p =
    if is_granted (lookup org p.organizations) then p else choose organizations true now org p

abbrev pub texts_of : List RepoKey → List String
texts_of [] = []
texts_of (k ∷ keys) = key_text k ∷ texts_of keys

abbrev pub keyed : Bool → List String → List (String × Bool)
keyed enabled [] = []
keyed enabled (key ∷ keys) = (key, enabled) ∷ keyed enabled keys

-- The keys, if each is canonical.
abbrev pub cons_key : Option RepoKey → Option (List RepoKey) → Option (List RepoKey)
cons_key none rest = none
cons_key (some k) none = none
cons_key (some k) (some rest) = some (k ∷ rest)

abbrev pub cons_entry :
    Option RepoKey → Bool → Option (List (String × Bool)) → Option (List (String × Bool))
cons_entry none enabled rest = none
cons_entry (some k) enabled none = none
cons_entry (some k) enabled (some rest) = some ((key_text k, enabled) ∷ rest)

abbrev pub is_on : String × Bool → Bool
is_on (key, enabled) = enabled

module _ ⦃h : Host⦄ where
  -- `normalizeOrg`; "" is `none`.
  unfoldable pub normalize_org : String → Option String
  normalize_org org =
      let text = h.to_lower_case (h.trim org) in if is_part text then some text else none

  unfoldable pub normalize_keys : List String → Option (List RepoKey)
  normalize_keys [] = some []
  normalize_keys (key ∷ keys) = cons_key (normalize_repo_key key) (normalize_keys keys)

  unfoldable pub normalize_entries : List (String × Bool) → Option (List (String × Bool))
  normalize_entries [] = some []
  normalize_entries ((key, enabled) ∷ entries) =
      cons_entry (normalize_repo_key key) enabled (normalize_entries entries)

  module _ (acknowledged : Bool) (expected : Expected) (now : ℕ) (run : Run) (d : Disk) where
    unfoldable pub set_choice : Section → String → Bool → Saved × Disk
    set_choice section key enabled =
        if enabled && not acknowledged
        then (Saved.failed acknowledgement_required, d)
        else mutate (choose section enabled now key) expected run d

    abbrev set_canonical : Option RepoKey → Bool → Saved × Disk
    set_canonical none enabled = (Saved.failed not_canonical, d)
    set_canonical (some k) enabled =
        if str_eq k.name ""
        then (Saved.failed not_canonical, d)
        else set_choice repositories (key_text k) enabled

    unfoldable pub set_repository_override : String → Bool → Saved × Disk
    unfolding set_choice
    set_repository_override key enabled = set_canonical (normalize_repo_key key) enabled

    abbrev set_normal : Option String → Bool → Saved × Disk
    set_normal none enabled = (Saved.failed not_canonical, d)
    set_normal (some org) enabled = set_choice organizations org enabled

    unfoldable pub set_organization_consent : String → Bool → Saved × Disk
    unfolding set_choice
    set_organization_consent org enabled = set_normal (normalize_org org) enabled

    abbrev pub set_together : Option String → Option (List RepoKey) → Bool → Saved × Disk
    set_together none keys enabled = (Saved.failed not_canonical, d)
    set_together (some org) none enabled = (Saved.failed not_canonical, d)
    set_together (some org) (some keys) enabled =
        if any (λ k. not (str_eq k.owner org)) keys
        then (Saved.failed not_canonical, d)
        else if not acknowledged
        then (Saved.failed acknowledgement_required, d)
        else mutate
            (λ p.
              choose_all now (keyed enabled (distinct [] (texts_of keys)))
                (choose_organization now org p))
            expected run d

    -- Onboarding: the organization ON and its repositories ON or OFF, in one revision.
    unfoldable pub set_organization_repositories : String → List String → Bool → Saved × Disk
    set_organization_repositories org keys enabled =
        set_together (normalize_org org) (normalize_keys keys) enabled

    abbrev set_entries : Option (List (String × Bool)) → Saved × Disk
    set_entries none = (Saved.failed not_canonical, d)
    set_entries (some []) = (Saved.failed not_canonical, d)
    set_entries (some (entry ∷ entries)) =
        if any is_on (entry ∷ entries) && not acknowledged
        then (Saved.failed acknowledgement_required, d)
        else mutate (choose_all now (entry ∷ entries)) expected run d

    unfoldable pub set_repository_choices : List (String × Bool) → Saved × Disk
    set_repository_choices entries = set_entries (normalize_entries entries)

  unfoldable pub set_global_enabled : Bool → Expected → ℕ → Run → Disk → Saved × Disk
  unfolding decision
  set_global_enabled enabled expected now =
      mutate (λ p. record p { global = decision enabled now (some p.global) }) expected
