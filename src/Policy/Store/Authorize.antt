-- ===== src/Policy/Store/Authorize.antt =====
-- What authorizing repositories of an organization writes.
use skillmeter_claude_code_m.Prelude.{
  ℕ, ◌≡◌, inl, inr, refl, ap, ◌∙◌, Bool, true, false, ◌||◌, Option, none, some, List, [], ◌∷◌,
  String, arith, str_eq, eq_iff, All, Bool-cases, Option-cases, if◌then◌else◌,
}
use skillmeter_claude_code_m.Prelude.Assoc.{lookup, insert, lookup-insert, string_eq}
use skillmeter_claude_code_m.Host.{Host}
use skillmeter_claude_code_m.Policy.Keys.{RepoKey, repo_key_eq, normalize_org, normalize_repo_key}
use skillmeter_claude_code_m.Policy.Store.{
  Setting, Policy, PolicyFile, done, normalize_policy, written, get_organization_consent,
  get_repository_override, authorize_organization_repositories, setting_flag, user_setting,
  set_repositories, keys_of_org, normalized_keys,
}
use skillmeter_claude_code_m.Policy.Store.Laws.{
  same_repository, flag_at, flag_at-insert, Changed, mutate_policy-done,
  get_repository_override-flag_at, get_organization_consent-lookup,
}

-- Some key of the list is the repository.
abbrev pub among : List RepoKey → Option RepoKey → Bool
among [] j = false
among (k ∷ keys) j = same_repository (some k) j || among keys j

flag_at-set_repositories :
    (keys : List RepoKey) (j : Option RepoKey) (b : Bool) (now : ℕ) (m : List (RepoKey × Setting))
    → flag_at j (set_repositories keys (user_setting b none now) m)
      ≡ (if among keys j then some b else flag_at j m)
flag_at-set_repositories [] j b now m = refl
flag_at-set_repositories (k ∷ keys) j b now m = ground (
  arith,
  flag_at-set_repositories keys j b now (insert k (user_setting b none now) m),
  flag_at-insert k j b now m,
)

keys_of_org-owner :
    (org : String) (given : List (Option RepoKey)) (keys : List RepoKey)
    → keys_of_org org given ≡ some keys
    → All (λ k. k.owner ≡ org) keys
keys_of_org-owner org [] [] e = tt
keys_of_org-owner org [] (k ∷ keys) e = cc
keys_of_org-owner org (none ∷ given) keys e = cc
keys_of_org-owner org (some k ∷ given) [] e = ground arith
keys_of_org-owner org (some k ∷ given) (j ∷ keys) e =
    (ground (arith, eq_iff k.owner org), keys_of_org-owner org given keys (ground arith))

module _ ⦃h : Host⦄ where
  -- The change that an accepted selection makes.
  abbrev authorize : String → List RepoKey → Bool → ℕ → Policy → Policy
  authorize org keys enabled now p = record p {
    organizations = insert org (user_setting true (some 1) now) p.organizations;
    repositories = set_repositories keys (user_setting enabled none now) p.repositories;
  }

  record Authorized (org : String) (given : List String) (enabled : Bool) (now : ℕ)
      (file : PolicyFile) (p : Policy) (after : PolicyFile) : Type 0 where
    keys : List RepoKey
    canonical : keys_of_org (normalize_org org) (normalized_keys given) ≡ some keys
    there : after ≡ written p
    change : Changed (authorize (normalize_org org) keys enabled now) file p

  authorize-done :
      (org : String) (given : List String) (enabled : Bool) (expected : Option ℕ) (now : ℕ)
      (file : PolicyFile) (p : Policy)
      → (authorize_organization_repositories org given enabled expected now file).0 ≡ done p
      → Authorized org given enabled now file p
          (authorize_organization_repositories org given enabled expected now file).1
  unfolding authorize_organization_repositories
  authorize-done org given enabled expected now file p ok =
      elim (Bool-cases (str_eq (normalize_org org) "")) [
        | inl e ↦ cc (rw (e, authorize_organization_repositories) at ok)
        | inr named ↦
            elim (Option-cases (keys_of_org (normalize_org org) (normalized_keys given))) [
              | inl e ↦ cc (rw (named, e, authorize_organization_repositories) at ok)
              | inr (keys, e) ↦
                  let (there, change) =
                    mutate_policy-done (authorize (normalize_org org) keys enabled now) expected
                      file p (rw (named, e, authorize_organization_repositories) at ok) in
                  record {
                    keys = keys;
                    canonical = e;
                    there = rw (named, e, authorize_organization_repositories) there;
                    change = change;
                  }
            ]
      ]

  -- A selection that is written names repositories of the one organization only; then every reader
  -- sees that organization authorized and each selected repository, however it is spelled,
  -- switched as asked, and no other repository or organization changes.
  pub authorize_organization_repositories_lem :
      (org : String) (given : List String) (enabled : Bool) (expected : Option ℕ) (now : ℕ)
      (file : PolicyFile) (p : Policy)
      → (authorize_organization_repositories org given enabled expected now file).0 ≡ done p
      → (keys : List RepoKey) × (keys_of_org (normalize_org org) (normalized_keys given)
          ≡ some keys)
        × All (λ k. k.owner ≡ normalize_org org) keys
        × ((other : String)
            → get_repository_override other
                (authorize_organization_repositories org given enabled expected now file).1
              ≡ (if among keys (normalize_repo_key other)
                  then some enabled
                  else get_repository_override other file))
        × ((other : String)
            → get_organization_consent other
                (authorize_organization_repositories org given enabled expected now file).1
              ≡ (if str_eq (normalize_org org) (normalize_org other)
                  then some true
                  else get_organization_consent other file))
  unfolding normalize_policy
  authorize_organization_repositories_lem org given enabled expected now file p ok =
      let a = authorize-done org given enabled expected now file p ok in
      (
        a.keys,
        a.canonical,
        keys_of_org-owner (normalize_org org) (normalized_keys given) a.keys a.canonical,
        λ other. rw a.there (
            get_repository_override-flag_at other (written p)
            ∙ ap (flag_at (normalize_repo_key other)) a.change.same.repositories
            ∙ rw
                (
                  flag_at-set_repositories a.keys (normalize_repo_key other) enabled now
                      (normalize_policy file.content).repositories,
                  get_repository_override-flag_at other file,
                )
                refl),
        λ other. rw a.there (
            get_organization_consent-lookup other (written p)
            ∙ ap (λ m. setting_flag (lookup (normalize_org other) m)) a.change.same.organizations
            ∙ rw
                (
                  lookup-insert (normalize_org org) (normalize_org other)
                      (user_setting true (some 1) now)
                      (normalize_policy file.content).organizations,
                  get_organization_consent-lookup other file,
                )
                (ground arith)),
      )
