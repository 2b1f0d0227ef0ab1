-- ===== src/Codex/Evaluate/Stamps.antt =====
-- The stamp of a repository's consent, by which queues notice that a choice was made again.
use skillmeter_claude_code_m.Prelude.{
  ℕ, Bool, true, false, not, any, Option, none, some, Bool-cases, Option-cases, List, [], ◌∷◌,
  String, str_eq, ◌≡◌, ◌≢◌, inl, inr, refl, sym, ap, ap₂, ◌∙◌, arith,
}
use skillmeter_claude_code_m.Prelude.Assoc.{lookup, lookup-insert, string_eq}
use skillmeter_claude_code_m.Codex.Record.{Choice, ConsentRecord}
use skillmeter_claude_code_m.Codex.Choices.{
  repositories, decided, choose, choose_all, choose_organization, is_granted, keyed, texts_of,
  normalize_org, normalize_keys, set_together, set_organization_repositories, set_choice,
}
use skillmeter_claude_code_m.Codex.Evaluate.{
  Scope, choices, choice_stamp, stamp_of, judge, is_valid_choice, read_repository_consent,
}
use skillmeter_claude_code_m.Codex.Evaluate.Effect.{
  Covers, judged, choice_at-choose, read_repository_consent-judged, set_choice-Saves,
}
use skillmeter_claude_code_m.Codex.Record.RoundTrip.{repository_is_safe}
use skillmeter_claude_code_m.Codex.Store.{
  Disk, Marking, Run, loaded, Expected, saved, read_policy, bumped, or_empty,
}
use skillmeter_claude_code_m.Codex.Store.Commit.{locked_disk, mutate_lem, Saves, read_of}
use skillmeter_claude_code_m.Host.{Host}
use skillmeter_claude_code_m.Jwt.{distinct}
use skillmeter_claude_code_m.Policy.Keys.{RepoKey}

-- The choice made is decided later than the one before.
decided-ne :
    (enabled : Bool) (now : ℕ) (c : Choice)
    → choice_stamp (decided enabled now (some c)) ≢ choice_stamp c
unfolding decided
decided-ne enabled now c e = elim (Option-cases c.decided_at) [
  | inl missing ↦ ground (arith, e, missing)
  | inr (t, found) ↦ ground (arith, e, found)
]

stamp-valid :
    (c : Choice) → is_valid_choice (some c) ≡ true → stamp_of (some c) ≡ some (choice_stamp c)
stamp-valid c e = rw (e) refl

judge-stamp :
    (key : String) (o r : Option Choice)
    → is_valid_choice o ≡ true
    → is_valid_choice r ≡ true
    → (judge key o r).stamp ≡ some (choices key (stamp_of o) (stamp_of r))
unfolding judge
judge-stamp key o r vo vr = ground (arith, vo, vr)

stamps-ne :
    (key : String) (o : Option Choice) (c c' : Choice)
    → is_valid_choice o ≡ true
    → is_valid_choice (some c) ≡ true
    → is_valid_choice (some c') ≡ true
    → choice_stamp c' ≢ choice_stamp c
    → (judge key o (some c')).stamp ≢ (judge key o (some c)).stamp
stamps-ne key o c c' vo vc vc' ne e =
    let both = sym (judge-stamp key o (some c') vo vc') ∙ e ∙ judge-stamp key o (some c) vo vc in
    ground (arith, both, stamp-valid c vc, stamp-valid c' vc', ne)

choose_all-others :
    (now : ℕ) (enabled : Bool) (keys : List String) (key : String) (p : ConsentRecord)
    → any (λ k. str_eq k key) keys ≡ false
    → (lookup key (choose_all now (keyed enabled keys) p).repositories ≡ lookup key p.repositories)
      × ((choose_all now (keyed enabled keys) p).organizations ≡ p.organizations)
unfolding choose_all choose
choose_all-others now enabled [] key p e = (refl, refl)
choose_all-others now enabled (k ∷ keys) key p e =
    let rest =
      choose_all-others now enabled keys key (choose repositories enabled now k p)
        (ground (arith, e)) in
    (
      rest.0
          ∙ ground (
            arith,
            e,
            lookup-insert k key (decided enabled now (lookup k p.repositories)) p.repositories,
          ),
      rest.1,
    )

any-distinct :
    (key : String) (seen l : List String)
    → any (λ k. str_eq k key) l ≡ false
    → any (λ k. str_eq k key) (distinct seen l) ≡ false
unfolding distinct
any-distinct key seen [] e = refl
any-distinct key seen (k ∷ l) e =
    ground (arith, e, any-distinct key seen l, any-distinct key (k ∷ seen) l)

abbrev together : ℕ → String → List RepoKey → Bool → ConsentRecord → ConsentRecord
together now org ks enabled q =
    choose_all now (keyed enabled (distinct [] (texts_of ks))) (choose_organization now org q)

pub organizations-choose :
    (enabled : Bool) (now : ℕ) (key org : String) (p : ConsentRecord)
    → lookup org (choose repositories enabled now key p).organizations ≡ lookup org p.organizations
unfolding choose
organizations-choose enabled now key org p = refl

read_of-loaded :
    (previous : Option ConsentRecord) (q : ConsentRecord)
    → read_of previous ≡ loaded q
    → or_empty previous ≡ q
read_of-loaded none q e = ground (arith, e)
read_of-loaded (some p) q e = ground (arith, e)

together-others :
    (now : ℕ) (org : String) (ks : List RepoKey) (enabled : Bool) (q : ConsentRecord)
    (scope : Scope) (key : String)
    → is_granted (lookup org q.organizations) ≡ true
    → any (λ k. str_eq k key) (texts_of ks) ≡ false
    → judged scope key (bumped (together now org ks enabled q)) ≡ judged scope key q
unfolding choose_organization
together-others now org ks enabled q scope key granted other =
    let same =
      choose_all-others now enabled (distinct [] (texts_of ks)) key q
        (any-distinct key [] (texts_of ks) other) in
    rw (granted) (ap₂ (λ o r. judge key (lookup scope.remote_org o) r) same.1 same.0)

module _ ⦃h : Host⦄ (acknowledged : Bool) (expected : Expected) (now : ℕ) (run : Run) (d d' : Disk)
    (p : ConsentRecord) (durable : Bool) where
  together-Saves :
      (org : String) (ks : List RepoKey) (enabled : Bool)
      → set_together acknowledged expected now run d (some org) (some ks) enabled
        ≡ (saved p durable, d')
      → Saves (together now org ks enabled) expected run d p d'
  together-Saves org ks enabled e = elim (Bool-cases (any (λ k. not (str_eq k.owner org)) ks)) [
    | inl foreign ↦ ground (arith, e, foreign)
    | inr own ↦ elim (Bool-cases acknowledged) [
      | inr silent ↦ ground (arith, e, own, silent)
      | inl shown ↦
          mutate_lem (together now org ks enabled) expected run d d' p durable
            (rw (own, shown) at e)
    ]
  ]

  -- Onboarding an organization that is ON already leaves every other repository of it as it was: a
  -- reading afterwards finds the same consent, with the same stamp, as the record gave before, so
  -- that what these repositories have queued is not held.
  pub onboarding_keeps_others :
      (org : String) (keys : List String) (enabled : Bool) (o : String) (ks : List RepoKey)
      (q : ConsentRecord) (m : Marking) (scope : Scope) (key : String)
      → set_organization_repositories acknowledged expected now run d org keys enabled
        ≡ (saved p durable, d')
      → normalize_org org ≡ some o
      → normalize_keys keys ≡ some ks
      → (read_policy run.reading_again (locked_disk run d)).0 ≡ loaded q
      → is_granted (lookup o q.organizations) ≡ true
      → Covers scope key
      → any (λ k. str_eq k key) (texts_of ks) ≡ false
      → (read_repository_consent m scope d').0 ≡ judged scope key q
  unfolding set_organization_repositories
  onboarding_keeps_others org keys enabled o ks q m scope key e eo ek before granted c other =
      let done = together-Saves o ks enabled (rw (eo, ek) at e) in
      let was = read_of-loaded done.0 q (sym done.1 ∙ before) in
      read_repository_consent-judged m scope key d' p (done.4 m) c
      ∙ ap (judged scope key) (done.3 ∙ ap (λ r. bumped (together now o ks enabled r)) was)
      ∙ together-others now o ks enabled q scope key granted other

  -- A choice for a repository that had one, where its organization is decided too, changes the
  -- stamp of the repository's consent, also where the choice says the same again: it is decided at
  -- a later time than the one before.
  pub choice_changes_stamp :
      (key : String) (enabled : Bool) (q : ConsentRecord) (c : Choice) (m : Marking) (scope : Scope)
      → set_choice acknowledged expected now run d repositories key enabled ≡ (saved p durable, d')
      → (read_policy run.reading_again (locked_disk run d)).0 ≡ loaded q
      → lookup key q.repositories ≡ some c
      → is_valid_choice (some c) ≡ true
      → is_valid_choice (lookup scope.remote_org q.organizations) ≡ true
      → Covers scope key
      → (read_repository_consent m scope d').0.stamp ≢ (judged scope key q).stamp
  choice_changes_stamp key enabled q c m scope e before found valid org covers same =
      let done =
        set_choice-Saves acknowledged expected now run d d' p durable repositories key enabled e in
      let was = read_of-loaded done.0 q (sym done.1 ∙ before) in
      let made = done.3 ∙ ap (λ r. bumped (choose repositories enabled now key r)) was in
      let new =
        ap (λ r. lookup key r.repositories) made
        ∙ choice_at-choose repositories enabled now key q
        ∙ ap (λ o. some (decided enabled now o)) found in
      let organization =
        ap (λ r. lookup scope.remote_org r.organizations) made
        ∙ organizations-choose enabled now key scope.remote_org q in
      let after =
        read_repository_consent-judged m scope key d' p (done.4 m) covers
        ∙ ap₂ (judge key) organization new in
      stamps-ne key (lookup scope.remote_org q.organizations) c (decided enabled now (some c)) org
        valid (repository_is_safe p p done.5 key (decided enabled now (some c)) new)
        (decided-ne enabled now c)
        (sym (ap (λ v. v.stamp) after)
          ∙ same
          ∙ ap (λ r. (judge key (lookup scope.remote_org q.organizations) r).stamp) found)
