-- ===== src/Policy/Store/Laws.antt =====
-- What a write to the policy file changes, what it keeps, and when it is refused.
use mathlib.Core.Path.{subst}
use skillmeter_claude_code_m.Prelude.{
  ℕ, ◌+◌, ◌≡◌, ◌≢◌, inl, inr, refl, sym, ap, ◌∙◌, Bool, false, not, Option, none, some, List,
  String, arith, Bool-cases, Option-cases, if◌then◌else◌,
}
use skillmeter_claude_code_m.Prelude.Assoc.{lookup, insert, lookup-insert, string_eq}
use skillmeter_claude_code_m.Host.{Host}
use skillmeter_claude_code_m.Policy.Keys.{
  RepoKey, repo_key_eq, key_eq, normalize_org, normalize_repo_key,
}
use skillmeter_claude_code_m.Policy.Store.{
  ensure_policy, Setting, Policy, PolicyFile, done, stale, normalize_policy, read_policy, written,
  mutate_policy, is_stale, get_global_disabled, get_organization_consent, get_repository_override,
  set_repository_override, setting_flag, user_setting,
}

-- The policy that a reader of the file sees.
abbrev pub policy_of : PolicyFile → Policy
policy_of file = (read_policy file).0

pub read-written : (p : Policy) → policy_of (written p) ≡ p
unfolding read_policy normalize_policy
read-written p = refl

-- What a reader sees differs from the normalized content in the revision at most.
pub record SameSettings (p q : Policy) : Type 0 where
  pub global : p.global ≡ q.global
  pub organizations : p.organizations ≡ q.organizations
  pub repositories : p.repositories ≡ q.repositories

read-SameSettings :
    (file : PolicyFile) → SameSettings (policy_of file) (normalize_policy file.content)
unfolding read_policy ensure_policy
read-SameSettings file = ground arith

-- A write that reports `done p` has put `p` into the file: the changed settings under the next
-- revision.
pub record Changed (mutator : Policy → Policy) (file : PolicyFile) (p : Policy) : Type 0 where
  pub same : SameSettings p (mutator (normalize_policy file.content))
  pub next : p.revision ≡ (mutator (normalize_policy file.content)).revision + 1

abbrev next_policy : (Policy → Policy) → PolicyFile → Policy
next_policy mutator file =
    let changed = mutator (normalize_policy file.content) in
    record changed { revision = changed.revision + 1 }

next-Changed :
    (mutator : Policy → Policy) (file : PolicyFile)
    → Changed mutator file (next_policy mutator file)
next-Changed mutator file = record {
  same = record { global = refl; organizations = refl; repositories = refl };
  next = refl;
}

pub mutate_policy-done :
    (mutator : Policy → Policy) (expected : Option ℕ) (file : PolicyFile) (p : Policy)
    → (mutate_policy mutator expected file).0 ≡ done p
    → ((mutate_policy mutator expected file).1 ≡ written p) × Changed mutator file p
unfolding mutate_policy
mutate_policy-done mutator expected file p ok =
    elim (Bool-cases (is_stale expected (normalize_policy file.content).revision)) [
      | inl old ↦ cc (rw (old, mutate_policy) at ok)
      | inr current ↦
          let same : next_policy mutator file ≡ p = cc (rw (current, mutate_policy) at ok) in
          (
            rw current (ap written same),
            subst (Changed mutator file) same (next-Changed mutator file),
          )
    ]

abbrev pub same_repository : Option RepoKey → Option RepoKey → Bool
same_repository none other = false
same_repository (some k) none = false
same_repository (some k) (some j) = key_eq k j

abbrev pub flag_at : Option RepoKey → List (RepoKey × Setting) → Option Bool
flag_at none repositories = none
flag_at (some k) repositories = setting_flag (lookup k repositories)

pub flag_at-insert :
    (k : RepoKey) (j : Option RepoKey) (b : Bool) (now : ℕ) (m : List (RepoKey × Setting))
    → flag_at j (insert k (user_setting b none now) m)
      ≡ (if same_repository (some k) j then some b else flag_at j m)
flag_at-insert k none b now m = refl
flag_at-insert k (some j) b now m =
    rw (lookup-insert k j (user_setting b none now) m) (ground arith)

-- Each reader of a file is a function of the settings that the file holds.
pub repositories-read :
    (file : PolicyFile)
    → (policy_of file).repositories ≡ (normalize_policy file.content).repositories
repositories-read file = (read-SameSettings file).repositories

pub disabled_flag : Option Bool → Bool
disabled_flag none = false
disabled_flag (some b) = not b

pub get_global_disabled-flag :
    (file : PolicyFile)
    → get_global_disabled file ≡ disabled_flag (normalize_policy file.content).global.enabled
unfolding get_global_disabled disabled_flag
get_global_disabled-flag file = ground (arith, (read-SameSettings file).global)

module _ ⦃h : Host⦄ where
  pub get_repository_override-flag_at :
      (key : String) (file : PolicyFile)
      → get_repository_override key file
        ≡ flag_at (normalize_repo_key key) (normalize_policy file.content).repositories
  unfolding get_repository_override
  get_repository_override-flag_at key file = rw (← repositories-read file) (ground arith)

  pub get_organization_consent-lookup :
      (org : String) (file : PolicyFile)
      → get_organization_consent org file
        ≡ setting_flag (lookup (normalize_org org) (normalize_policy file.content).organizations)
  unfolding get_organization_consent
  get_organization_consent-lookup org file =
      ap (λ m. setting_flag (lookup (normalize_org org) m)) (read-SameSettings file).organizations

  abbrev put_repository : RepoKey → Bool → ℕ → Policy → Policy
  put_repository k enabled now q = record q {
    repositories = insert k (user_setting enabled none now) q.repositories;
  }

  pub set_repository_override-done :
      (key : String) (enabled : Bool) (expected : Option ℕ) (now : ℕ) (file : PolicyFile)
      (p : Policy)
      → (set_repository_override key enabled expected now file).0 ≡ done p
      → (k : RepoKey) × (normalize_repo_key key ≡ some k)
        × ((set_repository_override key enabled expected now file).1 ≡ written p)
        × Changed (put_repository k enabled now) file p
  unfolding set_repository_override
  set_repository_override-done key enabled expected now file p ok =
      elim (Option-cases (normalize_repo_key key)) [
        | inl e ↦ cc (rw (e, set_repository_override) at ok)
        | inr (k, e) ↦
            let (there, change) =
              mutate_policy-done (put_repository k enabled now) expected file p
                (rw (e, set_repository_override) at ok) in
            (k, e, rw (e, set_repository_override) there, change)
      ]

  -- A repository switch that is written is what every reader sees for each spelling of that
  -- repository, and no other repository, no organization and not the global switch change.
  pub set_repository_override_lem :
      (key : String) (enabled : Bool) (expected : Option ℕ) (now : ℕ) (file : PolicyFile)
      (p : Policy)
      → (set_repository_override key enabled expected now file).0 ≡ done p
      → (other : String)
      → (get_repository_override other (set_repository_override key enabled expected now file).1 ≡ (
          if same_repository (normalize_repo_key key) (normalize_repo_key other)
          then some enabled
          else get_repository_override other file))
        × ((org : String)
            → get_organization_consent org (set_repository_override key enabled expected now file).1
              ≡ get_organization_consent org file)
        × (get_global_disabled (set_repository_override key enabled expected now file).1
            ≡ get_global_disabled file)
  unfolding normalize_policy
  set_repository_override_lem key enabled expected now file p ok other =
      let (k, e, there, change) = set_repository_override-done key enabled expected now file p ok in
      rw there (
        get_repository_override-flag_at other (written p)
            ∙ ap (flag_at (normalize_repo_key other)) change.same.repositories
            ∙ rw
                (
                  flag_at-insert k (normalize_repo_key other) enabled now
                      (normalize_policy file.content).repositories,
                  e,
                  get_repository_override-flag_at other file,
                )
                refl,
        λ org.
            get_organization_consent-lookup org (written p)
            ∙ ap (λ m. setting_flag (lookup (normalize_org org) m)) change.same.organizations
            ∙ sym (get_organization_consent-lookup org file),
        get_global_disabled-flag (written p)
            ∙ ap (λ g. disabled_flag g.enabled) change.same.global
            ∙ sym (get_global_disabled-flag file),
      )

  -- A repository switch under an expected revision: with another revision in the file the write is
  -- refused as stale and the file is left as it is; with that revision it is written, and the
  -- revision moves on by one.
  pub set_repository_override_stale :
      (key : String) (k : RepoKey) (enabled : Bool) (n now : ℕ) (file : PolicyFile)
      → normalize_repo_key key ≡ some k
      → (n ≢ (normalize_policy file.content).revision
          → set_repository_override key enabled (some n) now file
            ≡ (stale (normalize_policy file.content), file))
        × (n ≡ (normalize_policy file.content).revision
            → (p : Policy) × ((set_repository_override key enabled (some n) now file).0 ≡ done p)
              × (p.revision ≡ n + 1))
  unfolding set_repository_override mutate_policy
  set_repository_override_stale key k enabled n now file e = (
    λ other. rw (e, set_repository_override) (ground (arith, other)),
    λ same. (
      next_policy (put_repository k enabled now) file,
      rw (e, set_repository_override) (ground (arith, same)),
      omega (arith, same),
    ),
  )
