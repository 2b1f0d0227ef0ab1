-- ===== src/Lock/Frame.antt =====
-- What one call's new phase and one write leave of `IsSafe`: the facts of the other calls.
use skillmeter_claude_code_m.Prelude.{
  ℕ, ◌≡◌, ◌≢◌, refl, sym, ap, ◌∙◌, String, arith, Bool-cases, inl, inr, str_eq, eq_iff, ◌==◌,
}
use mathlib.Core.Path.{subst}
use skillmeter_claude_code_m.Lock.{
  Owner, Content, found, read_owner, Target, guard, Phase, idle, closed, observed, suspecting,
  matched, reaping, holding, releasing, Life, unborn, System, World, owner, path, set_file, set_at,
  to_phase, put,
}
use skillmeter_claude_code_m.Lock.Invariant.{
  IsSound, Reads, IsAlive, IsKnown, IsGone, Holds, Reaps, PhaseOk, IsSafe, owner-injective,
}

module _ {ℓ ℓ'} {A : Type ℓ} (c : ℕ) (q : A) (f : ℕ → A) where
  set_at-here : set_at c q f c ≡ q
  unfolding set_at
  set_at-here = ground arith

  pub set_at-elim :
      (P : ℕ → A → Type ℓ') → P c q → ((d : ℕ) → d ≢ c → P d (f d)) → (d : ℕ) → P d (set_at c q f d)
  unfolding set_at
  set_at-elim P here there d = elim (Bool-cases (c == d)) [
    | inl e ↦
        let same : c ≡ d = ground (arith, e) in
        subst (λ x. P x (set_at c q f x)) same (rw set_at-here here)
    | inr e ↦ let off : set_at c q f d ≡ f d = rw e refl in rw off (there d (ground (arith, e)))
  ]

module _ (w : World) (sound : IsSound w) where
  open w use {process, pid_of, reaper_of, is_uuid}

  -- A write to `p` that leaves what the call `d` relies on.
  pub record Spares (files : String → Content) (life : ℕ → Life) (p : String) (d : ℕ) : Type 0 where
    pub lock : IsAlive w life d → Reads w files p (owner w d) → ⊥
    pub subject :
        (o : Owner)
        → IsAlive w life d
        → IsGone w life o
        → Reads w files p o
        → Reads w files (reaper_of p o.token) (owner w d)
        → ⊥

  module _ (files : String → Content) (life : ℕ → Life) (p : String) (v : Content) (d : ℕ) where
    pub keep :
        (q : String) (o : Owner)
        → (p ≡ q → Reads w files q o → ⊥)
        → Reads w files q o
        → Reads w (set_file p v files) q o
    unfolding set_file
    keep q o other h = elim (Bool-cases (str_eq p q)) [
      | inl e ↦ absurd (other (ground (arith, eq_iff p q)) h)
      | inr e ↦ rw e h
    ]

    Holds-set_file :
        (t : Target)
        → Spares files life p d
        → Holds w files life d t
        → Holds w (set_file p v files) life d t
    Holds-set_file t safe h = record {
      named = λ a. keep (path w t) (owner w d) (λ e r. safe.lock a (rw e r)) (h.named a);
      suspect = h.suspect;
    }

    Reaps-set_file :
        (f : String) (o : Owner)
        → Spares files life p d
        → Reaps w files life d f o
        → Reaps w (set_file p v files) life d f o
    Reaps-set_file f o safe h = record {
      holds = Holds-set_file (guard f o) safe h.holds;
      same = λ a.
          keep f o (λ e r. safe.subject o a h.holds.suspect (rw e r) (rw e (h.holds.named a)))
            (h.same a);
    }

    PhaseOk-set_file :
        (q : Phase)
        → Spares files life p d
        → PhaseOk w files life d q
        → PhaseOk w (set_file p v files) life d q
    unfolding PhaseOk
    PhaseOk-set_file idle safe h = tt
    PhaseOk-set_file closed safe h = tt
    PhaseOk-set_file (observed f o) safe h = h
    PhaseOk-set_file (suspecting f o) safe h = h
    PhaseOk-set_file (holding t) safe h = Holds-set_file t safe h
    PhaseOk-set_file (releasing t) safe h = Holds-set_file t safe h
    PhaseOk-set_file (matched f o) safe h = Reaps-set_file f o safe h
    PhaseOk-set_file (reaping f o) safe h = Reaps-set_file f o safe h

  IsKnown-set_file :
      (files : String → Content) (life : ℕ → Life) (p r : String) (v : Content) (o : Owner)
      → (Reads w files r o → IsKnown w life o)
      → (read_owner is_uuid v ≡ found o → IsKnown w life o)
      → Reads w (set_file p v files) r o
      → IsKnown w life o
  unfolding set_file
  IsKnown-set_file files life p r v o old new h = elim (Bool-cases (str_eq p r)) [
    | inl e ↦
        let here : set_file p v files r ≡ v = rw e refl in
        new (ap (read_owner is_uuid) (sym here) ∙ h)
    | inr e ↦
        let there : set_file p v files r ≡ files r = rw e refl in
        old (ap (read_owner is_uuid) (sym there) ∙ h)
  ]

  -- Two owners of one reading are the same, so a live owner is not a gone one.
  pub alive_not_gone :
      (life : ℕ → Life) (c : ℕ) (o : Owner) → IsAlive w life c → IsGone w life o → owner w c ≡ o → ⊥
  alive_not_gone life c o a g e =
      let same = owner-injective w sound c g.author (e ∙ sym g.wrote) in
      ground (arith, a, g.ended, ap (λ i. life (process i)) same)

  module _ (s : System) (safe : IsSafe w s) (c : ℕ) where
    -- The call moves to a phase whose facts hold, and writes no file.
    pub IsSafe-to_phase :
        (q : Phase)
        → IsAlive w s.life c
        → PhaseOk w s.files s.life c q
        → IsSafe w (to_phase w s c q)
    IsSafe-to_phase q a ok = record {
      calls =
          set_at-elim c q s.phase (λ d r. PhaseOk w s.files s.life d r) ok (λ d n. safe.calls d);
      unborn_idle =
          set_at-elim c q s.phase (λ d r. s.life (process d) ≡ unborn → r ≡ idle)
            (λ u. ground (arith, a, u)) (λ d n. safe.unborn_idle d);
      known = safe.known;
    }

    pub IsSafe-put :
        (q : Phase) (p : String) (v : Content)
        → IsAlive w s.life c
        → PhaseOk w (set_file p v s.files) s.life c q
        → ((d : ℕ) → d ≢ c → Spares s.files s.life p d)
        → ((o : Owner) → read_owner is_uuid v ≡ found o → IsKnown w s.life o)
        → IsSafe w (put w s c q p v)
    IsSafe-put q p v a ok spares new = record {
      calls =
          set_at-elim c q s.phase (λ d r. PhaseOk w (set_file p v s.files) s.life d r) ok
            (λ d n. PhaseOk-set_file s.files s.life p v d (s.phase d) (spares d n) (safe.calls d));
      unborn_idle =
          set_at-elim c q s.phase (λ d r. s.life (process d) ≡ unborn → r ≡ idle)
            (λ u. ground (arith, a, u)) (λ d n. safe.unborn_idle d);
      known = λ r o. IsKnown-set_file s.files s.life p r v o (safe.known r o) (new o);
    }
