-- ===== src/Session/Transmission.antt =====
-- The network-side consent check of credstore.js against the capture gate of telemetry-policy.js.
use skillmeter_claude_code_m.Prelude.{
  ◌≡◌, ◌↔◌, refl, Bool, true, false, not, ◌&&◌, Option, none, some, List, [], ◌∷◌, String, arith,
  str_eq, inl, inr, Option-cases, if◌then◌else◌,
}
use skillmeter_claude_code_m.Prelude.Assoc.{lookup, string_eq}
use skillmeter_claude_code_m.Host.{Host}
use skillmeter_claude_code_m.Jwt.{or_null, get_license_orgs}
use skillmeter_claude_code_m.Policy.{Gate, resolve_telemetry_gate}
use skillmeter_claude_code_m.Policy.Keys.{RepoKey, repo_key_eq, normalize_org, normalize_repo_key}
use skillmeter_claude_code_m.Policy.Store.{
  PolicyFile, Setting, setting_flag, read_policy, get_global_disabled, get_organization_consent,
  get_repository_override,
}
use skillmeter_claude_code_m.Session.{
  Account, is_signed_in, session_orgs, includes, is_telemetry_transmission_allowed, enabled_is_true,
  is_some, is_false, is_empty,
}

-- The two checks over the values that they read.
checks_agree :
    (global : Option Bool) (out : Bool) (jwt : Option String) (orgs : List String) (owner : String)
    (o r : Option Setting)
    → (includes owner orgs ≡ true → is_some jwt ≡ true)
    → ((if is_false global
          then false
          else if out
          then false
          else if is_empty orgs
          then false
          else includes owner orgs && enabled_is_true o && enabled_is_true r)
        ≡ true)
      ↔ ((includes owner orgs ≡ true)
          × ((resolve_telemetry_gate (record {
            global_disabled = elim global [ none ↦ false | some b ↦ not b ];
            signed_in = is_some (if out then none else jwt);
            cwd_available = true;
            repo_org_owned = true;
            org_consent = setting_flag o;
            project_opt_in = setting_flag r;
          })).capture
              ≡ true))
unfolding resolve_telemetry_gate
checks_agree global out jwt [] owner o r licensed = ground arith
checks_agree global out jwt (org ∷ orgs) owner o r licensed = ground (arith, licensed)

module _ ⦃h : Host⦄ where
  licensed_of_includes :
      (a : Account) (owner : String)
      → includes owner (session_orgs a) ≡ true
      → is_some (or_null a.session.license_jwt) ≡ true
  unfolding get_license_orgs
  licensed_of_includes a owner inc = elim (Option-cases (or_null a.session.license_jwt)) [
    | inl e ↦ cc (rw (e, get_license_orgs) at inc)
    | inr (t, e) ↦ rw e
  ]

  consent_of :
      (owner : String) (file : PolicyFile)
      → normalize_org owner ≡ owner
      → get_organization_consent owner file
        ≡ setting_flag (lookup owner (read_policy file).0.organizations)
  unfolding get_organization_consent
  consent_of owner file plain = rw plain

  override_of :
      (key : String) (k : RepoKey) (file : PolicyFile)
      → normalize_repo_key key ≡ some k
      → get_repository_override key file ≡ setting_flag (lookup k (read_policy file).0.repositories)
  unfolding get_repository_override
  override_of key k file e = rw (e, get_repository_override) refl

  -- What a hook in a licensed checkout of the repository `key`, owned by `owner`, asks the gate.
  abbrev pub hook_gate : String → String → PolicyFile → Account → Gate
  hook_gate key owner file a = resolve_telemetry_gate (record {
    global_disabled = get_global_disabled file;
    signed_in = is_signed_in a;
    cwd_available = true;
    repo_org_owned = true;
    org_consent = get_organization_consent owner file;
    project_opt_in = get_repository_override key file;
  })

  -- For a canonical repository key that is not empty, with an owner in the spelling of an
  -- organization, transmission of the repository's data is allowed exactly when the owner is among
  -- the license's organizations and the capture gate captures in a checkout of the repository.
  pub transmission_iff_capture :
      (key : String) (k : RepoKey) (file : PolicyFile) (a : Account)
      → normalize_repo_key key ≡ some k
      → str_eq key "" ≡ false
      → normalize_org k.owner ≡ k.owner
      → (is_telemetry_transmission_allowed key file a ≡ true) ↔ (
          (includes k.owner (session_orgs a) ≡ true)
          × ((hook_gate key k.owner file a).capture ≡ true))
  unfolding is_telemetry_transmission_allowed get_global_disabled is_signed_in
  transmission_iff_capture key k file a e nonempty plain =
      let policy = (read_policy file).0 in
      rw (nonempty, e, consent_of k.owner file plain, override_of key k file e)
        (checks_agree policy.global.enabled a.session.signed_out (or_null a.session.license_jwt)
          (session_orgs a) k.owner (lookup k.owner policy.organizations)
          (lookup k policy.repositories) (licensed_of_includes a k.owner))
