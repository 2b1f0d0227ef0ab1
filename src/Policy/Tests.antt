-- ===== src/Policy/Tests.antt =====
-- The policy at concrete inputs.
use skillmeter_claude_code_m.Prelude.{
  ◌≡◌, refl, true, false, none, some, List, [], ◌∷◌, String, All, str_eq, if◌then◌else◌,
}
use skillmeter_claude_code_m.Prelude.Assoc.{insert}
use skillmeter_claude_code_m.Policy.{GateInput}
use skillmeter_claude_code_m.Policy.Keys.{RepoKey, normalize_repo_key, normalize_org}
use skillmeter_claude_code_m.Policy.Store.{
  Policy, done, normalize_policy, mutate_policy, get_organization_consent, get_repository_override,
  set_repository_override, authorize_organization_repositories, keys_of_org, normalized_keys,
  user_setting, set_repositories,
}
use skillmeter_claude_code_m.Policy.Store.Authorize.{among, authorize_organization_repositories_lem}
use skillmeter_claude_code_m.Examples.{plain_host, tool, policy, policy_file}

abbrev open_gate : GateInput
open_gate = record {
  global_disabled = false;
  signed_in = true;
  cwd_available = true;
  repo_org_owned = true;
  org_consent = some true;
  project_opt_in = some true;
}

tool_key : normalize_repo_key "github.com/acme/tool.git" ≡ some tool
unfolding normalize_repo_key
tool_key = refl

abbrev switched : Policy
switched = record policy {
  revision = 4;
  repositories = set_repositories (tool ∷ []) (user_setting false none 9) policy.repositories;
}

switched_done :
    (set_repository_override "github.com/acme/tool.git" false (some 3) 9 policy_file).0
    ≡ done switched
unfolding set_repository_override normalize_repo_key mutate_policy normalize_policy
switched_done = refl

abbrev authorized : Policy
authorized = record policy {
  revision = 4;
  organizations = ("acme", user_setting true (some 1) 9) ∷ [];
  repositories = set_repositories (tool ∷ []) (user_setting true none 9) policy.repositories;
}

authorized_done :
    (authorize_organization_repositories "acme"
      ("github.com/acme/tool" ∷ [])
      true
      none
      9
      policy_file).0
    ≡ done authorized
unfolding authorize_organization_repositories normalize_repo_key normalize_org mutate_policy
    normalize_policy insert
authorized_done = refl

authorize_organization_repositories_lem_example :
    (keys : List RepoKey) × (keys_of_org
        (normalize_org "acme")
        (normalized_keys ("github.com/acme/tool" ∷ []))
      ≡ some keys)
    × All (λ k. k.owner ≡ normalize_org "acme") keys
    × ((other : String)
        → get_repository_override other
            (authorize_organization_repositories "acme"
              ("github.com/acme/tool" ∷ [])
              true
              none
              9
              policy_file).1
          ≡ (if among keys (normalize_repo_key other)
              then some true
              else get_repository_override other policy_file))
    × ((other : String)
        → get_organization_consent other
            (authorize_organization_repositories "acme"
              ("github.com/acme/tool" ∷ [])
              true
              none
              9
              policy_file).1
          ≡ (if str_eq (normalize_org "acme") (normalize_org other)
              then some true
              else get_organization_consent other policy_file))
authorize_organization_repositories_lem_example =
    authorize_organization_repositories_lem "acme" ("github.com/acme/tool" ∷ []) true none 9
      policy_file authorized authorized_done
