-- ===== src/Policy/Store.antt =====
-- telemetry-store.js: the machine-wide policy file. Each write is a function on the file's content
-- as it is under the policy lock; the time is an argument. A setting's `enabled` that is no boolean
-- is `none`.
pub mod Laws
pub mod Authorize
use skillmeter_claude_code_m.Prelude.{
  ℕ, ◌+◌, Bool, true, false, not, ◌&&◌, Option, none, some, List, [], ◌∷◌, String, str_eq, ◌==◌,
  all, if◌then◌else◌,
}
use skillmeter_claude_code_m.Prelude.Assoc.{lookup, insert, string_eq}
use skillmeter_claude_code_m.Host.{Host}
use skillmeter_claude_code_m.Policy.Keys.{RepoKey, repo_key_eq, normalize_org, normalize_repo_key}

abbrev pub schema_version : ℕ
schema_version = 1

pub record Setting : Type 0 where
  pub enabled : Option Bool
  pub consent_version : Option ℕ
  pub decided_at : Option ℕ
  pub source : Option String

pub record Policy : Type 0 where
  pub revision : ℕ
  pub global : Setting
  pub organizations : List (String × Setting)
  pub repositories : List (RepoKey × Setting)

-- `enabled` under `global` in the file: no such key, or its value.
pub data RawFlag : Type 0 where
  absent : RawFlag
  value : Option Bool → RawFlag

pub record RawGlobal : Type 0 where
  pub enabled : RawFlag
  pub consent_version : Option ℕ
  pub decided_at : Option ℕ
  pub source : Option String

pub record RawPolicy : Type 0 where
  pub version : Option ℕ
  pub revision : Option ℕ
  pub global : Option RawGlobal
  pub organizations : Option (List (String × Setting))
  pub repositories : Option (List (RepoKey × Setting))

-- `content` is `none` for a file that is missing, is not JSON, or holds no object.
pub record PolicyFile : Type 0 where
  pub exists : Bool
  pub content : Option RawPolicy

abbrev pub enabled_setting : Setting
enabled_setting = record {
  enabled = some true;
  consent_version = none;
  decided_at = none;
  source = none;
}

abbrev pub empty_policy : Policy
empty_policy = record {
  revision = 0;
  global = enabled_setting;
  organizations = [];
  repositories = [];
}

abbrev flag_of : RawFlag → Option Bool
flag_of absent = some true
flag_of (value v) = v

abbrev global_of : Option RawGlobal → Setting
global_of none = enabled_setting
global_of (some g) = record {
  enabled = flag_of g.enabled;
  consent_version = g.consent_version;
  decided_at = g.decided_at;
  source = g.source;
}

abbrev revision_of : Option ℕ → ℕ
revision_of none = 0
revision_of (some n) = n

abbrev entries_of : {V : Type 0} → Option (List V) → List V
entries_of none = []
entries_of (some l) = l

unfoldable pub normalize_policy : Option RawPolicy → Policy
normalize_policy none = empty_policy
normalize_policy (some raw) = record {
  revision = revision_of raw.revision;
  global = global_of raw.global;
  organizations = entries_of raw.organizations;
  repositories = entries_of raw.repositories;
}

-- `atomicWriteJson(TELEMETRY_POLICY_FILE, policy)`
abbrev pub raw_of : Policy → RawPolicy
raw_of p = record {
  version = some schema_version;
  revision = some p.revision;
  global = some (record {
    enabled = value p.global.enabled;
    consent_version = p.global.consent_version;
    decided_at = p.global.decided_at;
    source = p.global.source;
  });
  organizations = some p.organizations;
  repositories = some p.repositories;
}

abbrev pub written : Policy → PolicyFile
written p = record { exists = true; content = some (raw_of p) }

unfoldable pub ensure_policy : PolicyFile → Policy × PolicyFile
ensure_policy file =
    let current = normalize_policy file.content in
    let created = record current { revision = current.revision + 1 } in
    if file.exists then (current, file) else (created, written created)

abbrev has_version : Option RawPolicy → Bool
has_version none = false
has_version (some raw) = elim raw.version [ none ↦ false | some v ↦ v == schema_version ]

unfoldable pub read_policy : PolicyFile → Policy × PolicyFile
read_policy file =
    if has_version file.content then (normalize_policy file.content, file) else ensure_policy file

-- The end of a write: the policy written, `STALE_POLICY` with the current one, or another error.
pub data Written : Type 0 where
  done stale : Policy → Written
  refused : Written

abbrev pub is_stale : Option ℕ → ℕ → Bool
is_stale none revision = false
is_stale (some expected) revision = not (revision == expected)

unfoldable pub mutate_policy : (Policy → Policy) → Option ℕ → PolicyFile → Written × PolicyFile
mutate_policy mutator expected file =
    let current = normalize_policy file.content in
    let changed = mutator current in
    let next = record changed { revision = changed.revision + 1 } in
    if is_stale expected current.revision then (stale current, file) else (done next, written next)

unfoldable pub get_global_disabled : PolicyFile → Bool
get_global_disabled file = elim (read_policy file).0.global.enabled [
  | none ↦ false
  | some b ↦ not b
]

abbrev pub user_setting : Bool → Option ℕ → ℕ → Setting
user_setting enabled version now = record {
  enabled = some enabled;
  consent_version = version;
  decided_at = some now;
  source = some "user";
}

unfoldable pub set_global_enabled : Bool → ℕ → PolicyFile → Written × PolicyFile
set_global_enabled enabled now =
    mutate_policy (λ p. record p { global = user_setting enabled none now }) none

abbrev pub setting_flag : Option Setting → Option Bool
setting_flag none = none
setting_flag (some s) = s.enabled

abbrev pub set_repositories :
    List RepoKey → Setting → List (RepoKey × Setting) → List (RepoKey × Setting)
set_repositories [] setting repositories = repositories
set_repositories (k ∷ keys) setting repositories =
    set_repositories keys setting (insert k setting repositories)

-- `repoKeys.map(normalizeRepoKey)`, or `none` if a key is not canonical or not of the organization
abbrev pub keys_of_org : String → List (Option RepoKey) → Option (List RepoKey)
keys_of_org org [] = some []
keys_of_org org (none ∷ keys) = none
keys_of_org org (some k ∷ keys) =
    let rest = keys_of_org org keys in
    if str_eq k.owner org then elim rest [ none ↦ none | some l ↦ some (k ∷ l) ] else none

module _ ⦃h : Host⦄ where
  unfoldable pub get_organization_consent : String → PolicyFile → Option Bool
  get_organization_consent org file =
      setting_flag (lookup (normalize_org org) (read_policy file).0.organizations)

  unfoldable pub set_organization_consent : String → Bool → ℕ → PolicyFile → Written × PolicyFile
  set_organization_consent org enabled now file =
      let normalized = normalize_org org in
      if str_eq normalized ""
      then (refused, file)
      else mutate_policy
          (λ p. record p {
            organizations = insert normalized (user_setting enabled (some 1) now) p.organizations;
          })
          none file

  unfoldable pub get_repository_override : String → PolicyFile → Option Bool
  get_repository_override key file = elim (normalize_repo_key key) [
    | none ↦ none
    | some k ↦ setting_flag (lookup k (read_policy file).0.repositories)
  ]

  unfoldable pub set_repository_override :
      String → Bool → Option ℕ → ℕ → PolicyFile → Written × PolicyFile
  set_repository_override key enabled expected now file = elim (normalize_repo_key key) [
    | none ↦ (refused, file)
    | some k ↦
        mutate_policy
          (λ p. record p { repositories = insert k (user_setting enabled none now) p.repositories })
          expected file
  ]

  abbrev pub normalized_keys : List String → List (Option RepoKey)
  normalized_keys [] = []
  normalized_keys (k ∷ keys) = normalize_repo_key k ∷ normalized_keys keys

  unfoldable pub authorize_organization_repositories :
      String → List String → Bool → Option ℕ → ℕ → PolicyFile → Written × PolicyFile
  authorize_organization_repositories org repo_keys enabled expected now file =
      let normalized = normalize_org org in
      if str_eq normalized ""
      then (refused, file)
      else elim (keys_of_org normalized (normalized_keys repo_keys)) [
        | none ↦ (refused, file)
        | some keys ↦
            mutate_policy
              (λ p. record p {
                organizations = insert normalized (user_setting true (some 1) now) p.organizations;
                repositories = set_repositories keys (user_setting enabled none now) p.repositories;
              })
              expected file
      ]
