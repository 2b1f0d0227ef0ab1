-- ===== src/Codex/Evaluate/Effect.antt =====
-- What a saved choice does to what the client may capture and send, read back from the disk.
use skillmeter_claude_code_m.Prelude.{
  ℕ, Bool, true, false, not, ◌&&◌, Option, none, some, Bool-cases, String, eq_iff, ◌≡◌, ◌⊎◌, inl,
  inr, refl, ap, ◌∙◌, arith,
}
use skillmeter_claude_code_m.Prelude.Assoc.{lookup, lookup-insert, string_eq}
use skillmeter_claude_code_m.Host.{Host}
use skillmeter_claude_code_m.Codex.Record.{Choice, ConsentRecord, validate_policy, raw_record}
use skillmeter_claude_code_m.Codex.Record.RoundTrip.{
  decided_safely, organization_is_safe, repository_is_safe,
}
use skillmeter_claude_code_m.Codex.Store.{
  Disk, Marking, Run, loaded, Expected, saved, read_policy, or_empty, bumped,
}
use skillmeter_claude_code_m.Codex.Store.Commit.{mutate_lem, Saves}
use skillmeter_claude_code_m.Codex.Choices.{
  Section, organizations, repositories, decided, choice_at, choose, is_granted, set_choice,
}
use skillmeter_claude_code_m.Codex.Evaluate.{
  Scope, Evaluation, judge, key_of, is_valid_choice, is_off, consent_of, global_of,
  evaluate_repository_consent, read_repository_consent,
}

-- A scope that is allowed, of a repository with this key.
pub record Covers (scope : Scope) (key : String) : Type 0 where
  pub allowed : scope.allowed ≡ true
  pub names : key_of scope ≡ some key

abbrev pub judged : Scope → String → ConsentRecord → Evaluation
judged scope key p = judge key (lookup scope.remote_org p.organizations) (lookup key p.repositories)

pub consent_of-loaded :
    (scope : Scope) (key : String) (p : ConsentRecord)
    → Covers scope key
    → consent_of scope (global_of (loaded p)) ≡ judged scope key p
unfolding evaluate_repository_consent
consent_of-loaded scope key p c = elim (Bool-cases p.global.enabled) [
  | inl on ↦ rw (on, c.names, c.allowed) refl
  | inr off ↦ rw (off, c.names, c.allowed) refl
]

pub read_repository_consent-judged :
    (m : Marking) (scope : Scope) (key : String) (d : Disk) (p : ConsentRecord)
    → read_policy m d ≡ (loaded p, d)
    → Covers scope key
    → (read_repository_consent m scope d).0 ≡ judged scope key p
unfolding read_repository_consent
read_repository_consent-judged m scope key d p e c =
    ap (λ r. consent_of scope (global_of r.0)) e ∙ consent_of-loaded scope key p c

-- The place of a scope in a section of the record.
abbrev pub place : Section → Scope → String → String
place organizations scope key = scope.remote_org
place repositories scope key = key

pub choice_at-choose :
    (section : Section) (enabled : Bool) (now : ℕ) (key : String) (p : ConsentRecord)
    → choice_at section key (choose section enabled now key p)
      ≡ some (decided enabled now (choice_at section key p))
unfolding choose
choice_at-choose organizations enabled now key p = ground (
  arith,
  lookup-insert key key (decided enabled now (lookup key p.organizations)) p.organizations,
  eq_iff key key,
)
choice_at-choose repositories enabled now key p = ground (
  arith,
  lookup-insert key key (decided enabled now (lookup key p.repositories)) p.repositories,
  eq_iff key key,
)

judge-off :
    (key : String) (o r : Option Choice)
    → (is_valid_choice o && is_off o ≡ true) ⊎ (is_valid_choice r && is_off r ≡ true)
    → ((judge key o r).allowed ≡ false) × ((judge key o r).revoked ≡ true)
unfolding judge
judge-off key o r (inl e) = ground (arith, e)
judge-off key o r (inr e) = ground (arith, e)

judge-granted :
    (key : String) (o r : Option Choice)
    → is_valid_choice o ≡ true
    → is_valid_choice r ≡ true
    → is_granted o ≡ true
    → is_granted r ≡ true
    → ((judge key o r).allowed ≡ true) × ((judge key o r).acknowledged ≡ true)
unfolding judge
judge-granted key none r vo vr go gr = ground (arith, vo)
judge-granted key (some o) none vo vr go gr = ground (arith, vr)
judge-granted key (some o) (some r) vo vr go gr = ground (arith, vo, vr, go, gr)

off_choice :
    (o : Option Choice) (c : Choice)
    → o ≡ some c
    → decided_safely c ≡ true
    → c.enabled ≡ false
    → is_valid_choice o && is_off o ≡ true
off_choice none c e safe off = ground (arith, e)
off_choice (some b) c e safe off = ground (arith, e, safe, off)

off_at :
    (section : Section) (scope : Scope) (repo_key key : String) (p : ConsentRecord) (c : Choice)
    → place section scope repo_key ≡ key
    → choice_at section key p ≡ some c
    → decided_safely c ≡ true
    → c.enabled ≡ false
    → ((judged scope repo_key p).allowed ≡ false) × ((judged scope repo_key p).revoked ≡ true)
off_at organizations scope repo_key key p c same found safe off =
    judge-off _ _ _
      (inl (off_choice _ c (ap (λ k. lookup k p.organizations) same ∙ found) safe off))
off_at repositories scope repo_key key p c same found safe off =
    judge-off _ _ _ (inr (off_choice _ c (ap (λ k. lookup k p.repositories) same ∙ found) safe off))

granted_choice : (o : Option Choice) → is_granted o ≡ true → (c : Choice) × (o ≡ some c)
granted_choice none e = ground (arith, e)
granted_choice (some c) e = (c, refl)

decided-off : (now : ℕ) (previous : Option Choice) → (decided false now previous).enabled ≡ false
unfolding decided
decided-off now previous = refl

decided-IsGranted :
    (now : ℕ) (previous : Option Choice) → is_granted (some (decided true now previous)) ≡ true
unfolding decided
decided-IsGranted now previous = refl

module _ ⦃h : Host⦄ (acknowledged : Bool) (expected : Expected) (now : ℕ) (run : Run) (d d' : Disk)
    (p : ConsentRecord) (durable : Bool) where
  pub set_choice-Saves :
      (section : Section) (key : String) (enabled : Bool)
      → set_choice acknowledged expected now run d section key enabled ≡ (saved p durable, d')
      → Saves (choose section enabled now key) expected run d p d'
  unfolding set_choice
  set_choice-Saves section key enabled e = elim (Bool-cases (enabled && not acknowledged)) [
    | inl refused ↦ ground (arith, refused, e)
    | inr accepted ↦
        mutate_lem (choose section enabled now key) expected run d d' p durable (rw accepted at e)
  ]

  chosen :
      (section : Section) (key : String) (enabled : Bool)
      → Saves (choose section enabled now key) expected run d p d'
      → (previous : Option Choice) × (choice_at section key p ≡ some (decided enabled now previous))
  chosen section key enabled done = (
    choice_at section key (or_empty done.0),
    ap (λ r. choice_at section key r) done.3
        ∙ at_bumped section
        ∙ choice_at-choose section enabled now key (or_empty done.0),
  )
    where
      at_bumped :
          (s : Section)
          → choice_at s key (bumped (choose section enabled now key (or_empty done.0)))
            ≡ choice_at s key (choose section enabled now key (or_empty done.0))
      at_bumped organizations = refl
      at_bumped repositories = refl

  safe_at :
      (section : Section) (key : String) (c : Choice)
      → validate_policy (raw_record p) ≡ some p
      → choice_at section key p ≡ some c
      → decided_safely c ≡ true
  safe_at organizations key c v f = organization_is_safe p p v key c f
  safe_at repositories key c v f = repository_is_safe p p v key c f

  -- A saved OFF, of an organization or of a repository, revokes: whoever reads the record afterwards
  -- finds that a repository that it concerns is neither allowed nor undecided, but revoked, whatever
  -- the other choice is and even where there is none.
  pub off_revokes :
      (section : Section) (key : String) (m : Marking) (scope : Scope) (repo_key : String)
      → set_choice acknowledged expected now run d section key false ≡ (saved p durable, d')
      → Covers scope repo_key
      → place section scope repo_key ≡ key
      → ((read_repository_consent m scope d').0.allowed ≡ false)
        × ((read_repository_consent m scope d').0.revoked ≡ true)
  off_revokes section key m scope repo_key e c same =
      let done = set_choice-Saves section key false e in
      let new = chosen section key false done in
      let safe = safe_at section key _ done.5 new.1 in
      rw (read_repository_consent-judged m scope repo_key d' p (done.4 m) c)
        (off_at section scope repo_key key p _ same new.1 safe (decided-off now new.0))

  acknowledged_on :
      (key : String)
      → set_choice acknowledged expected now run d repositories key true ≡ (saved p durable, d')
      → acknowledged ≡ true
  unfolding set_choice
  acknowledged_on key e = ground (arith, e)

  -- A saved ON of a repository, in a record where its organization is granted, allows it: whoever
  -- reads the record afterwards finds the repository allowed and its scope acknowledged; and the
  -- ON is saved only if its scope was acknowledged.
  pub on_allows :
      (key : String) (m : Marking) (scope : Scope)
      → set_choice acknowledged expected now run d repositories key true ≡ (saved p durable, d')
      → Covers scope key
      → is_granted (lookup scope.remote_org p.organizations) ≡ true
      → ((read_repository_consent m scope d').0.allowed ≡ true)
        × ((read_repository_consent m scope d').0.acknowledged ≡ true)
        × (acknowledged ≡ true)
  on_allows key m scope e c granted =
      let done = set_choice-Saves repositories key true e in
      let new = chosen repositories key true done in
      let safe = safe_at repositories key _ done.5 new.1 in
      let org = granted_choice (lookup scope.remote_org p.organizations) granted in
      let org_safe = organization_is_safe p p done.5 scope.remote_org org.0 org.1 in
      let result =
        judge-granted key (lookup scope.remote_org p.organizations) (lookup key p.repositories)
          (rw (org.1) org_safe) (rw (new.1) safe) granted
          (rw (new.1) (decided-IsGranted now new.0)) in
      let read = read_repository_consent-judged m scope key d' p (done.4 m) c in
      (
        ap (λ v. v.allowed) read ∙ result.0,
        ap (λ v. v.acknowledged) read ∙ result.1,
        acknowledged_on key e,
      )
