-- ===== src/Lock/Exclusion.antt =====
-- Mutual exclusion, and whose file is taken away.
use skillmeter_claude_code_m.Prelude.{
  ℕ, ◌≡◌, ◌≢◌, refl, sym, ◌∙◌, String, arith, ◌⊎◌, inl, inr, Option, none, some,
}
use mathlib.Core.Path.{subst}
use mathlib.Core.Option.{some-injective}
use skillmeter_claude_code_m.Lock.{
  Owner, Content, Target, own, guard, Phase, idle, closed, observed, suspecting, matched, reaping,
  holding, releasing, Life, unborn, alive, gone, System, World, owner, path, set_at, move, start,
  die, Reach, initial, later,
}
use skillmeter_claude_code_m.Lock.Invariant.{
  IsSound, Reads, IsAlive, IsKnown, IsGone, IsSuspect, Holds, Reaps, PhaseOk, IsSafe,
  owner-injective, found-injective,
}
use skillmeter_claude_code_m.Lock.Frame.{set_at-elim}
use skillmeter_claude_code_m.Lock.Moves.{Move-IsSafe}

started : (l : Life) → (l ≡ unborn) ⊎ (l ≢ unborn)
started unborn = inl refl
started alive = inr (ground arith)
started gone = inr (ground arith)

module _ (w : World) where
  open w use {process}

  -- Another course of the processes' lives that takes nothing from what a call relies on.
  record Follows (life life' : ℕ → Life) : Type 0 where
    born : (i : ℕ) → life i ≢ unborn → life' i ≢ unborn
    ended : (i : ℕ) → life i ≡ gone → life' i ≡ gone

  module _ (files : String → Content) (life life' : ℕ → Life) (f : Follows life life') where
    IsKnown-Follows : (o : Owner) → IsKnown w life o → IsKnown w life' o
    IsKnown-Follows o k = record {
      author = k.author;
      wrote = k.wrote;
      born = f.born (process k.author) k.born;
    }

    IsGone-Follows : (o : Owner) → IsGone w life o → IsGone w life' o
    IsGone-Follows o g = record {
      author = g.author;
      wrote = g.wrote;
      ended = f.ended (process g.author) g.ended;
    }

    IsSuspect-Follows : (t : Target) → IsSuspect w life t → IsSuspect w life' t
    IsSuspect-Follows (own p) g = tt
    IsSuspect-Follows (guard p o) g = IsGone-Follows o g

    module _ (d : ℕ) (back : IsAlive w life' d → IsAlive w life d) where
      Holds-Follows : (t : Target) → Holds w files life d t → Holds w files life' d t
      Holds-Follows t h = record {
        named = λ a. h.named (back a);
        suspect = IsSuspect-Follows t h.suspect;
      }

      Reaps-Follows :
          (p : String) (o : Owner) → Reaps w files life d p o → Reaps w files life' d p o
      Reaps-Follows p o h = record {
        holds = Holds-Follows (guard p o) h.holds;
        same = λ a. h.same (back a);
      }

      PhaseOk-Follows : (q : Phase) → PhaseOk w files life d q → PhaseOk w files life' d q
      unfolding PhaseOk
      PhaseOk-Follows idle h = tt
      PhaseOk-Follows closed h = tt
      PhaseOk-Follows (observed p o) h = IsKnown-Follows o h
      PhaseOk-Follows (suspecting p o) h = IsGone-Follows o h
      PhaseOk-Follows (holding t) h = Holds-Follows t h
      PhaseOk-Follows (releasing t) h = Holds-Follows t h
      PhaseOk-Follows (matched p o) h = Reaps-Follows p o h
      PhaseOk-Follows (reaping p o) h = Reaps-Follows p o h

  module _ (sound : IsSound w) (s : System) (safe : IsSafe w s) (i : ℕ) where
    start-IsSafe : s.life i ≡ unborn → IsSafe w (record s { life = set_at i alive s.life })
    unfolding PhaseOk
    start-IsSafe u = record {
      calls = λ d. elim (started (s.life (process d))) [
        | inl e ↦ rw (safe.unborn_idle d e) tt
        | inr n ↦
            PhaseOk-Follows s.files s.life (set_at i alive s.life) follows d
              (set_at-elim i alive s.life (λ j l. s.life j ≢ unborn → l ≡ alive → s.life j ≡ alive)
                (λ n' _. absurd (n' u)) (λ j m n' x. x) (process d) n)
              (s.phase d) (safe.calls d)
      ];
      unborn_idle = λ d h. safe.unborn_idle d (
          set_at-elim i alive s.life (λ j l. l ≡ unborn → s.life j ≡ unborn) (λ _. u) (λ j n x. x)
            (process d) h);
      known = λ p o r.
          IsKnown-Follows s.files s.life (set_at i alive s.life) follows o (safe.known p o r);
    }
      where
        follows : Follows s.life (set_at i alive s.life)
        follows = record {
          born =
              set_at-elim i alive s.life (λ j l. s.life j ≢ unborn → l ≢ unborn) (λ n. ground arith)
                (λ j n x. x);
          ended =
              set_at-elim i alive s.life (λ j l. s.life j ≡ gone → l ≡ gone)
                (λ e. ground (arith, e, u)) (λ j n x. x);
        }

    die-IsSafe : s.life i ≡ alive → IsSafe w (record s { life = set_at i gone s.life })
    die-IsSafe a = record {
      calls = λ d.
          PhaseOk-Follows s.files s.life (set_at i gone s.life) follows d
            (set_at-elim i gone s.life (λ j l. l ≡ alive → s.life j ≡ alive) (λ _. a) (λ j n x. x)
              (process d))
            (s.phase d) (safe.calls d);
      unborn_idle = λ d h. safe.unborn_idle d (
          set_at-elim i gone s.life (λ j l. l ≡ unborn → s.life j ≡ unborn) (λ e. ground arith)
            (λ j n x. x) (process d) h);
      known = λ p o r.
          IsKnown-Follows s.files s.life (set_at i gone s.life) follows o (safe.known p o r);
    }
      where
        follows : Follows s.life (set_at i gone s.life)
        follows = record {
          born =
              set_at-elim i gone s.life (λ j l. s.life j ≢ unborn → l ≢ unborn) (λ n. ground arith)
                (λ j n x. x);
          ended =
              set_at-elim i gone s.life (λ j l. s.life j ≡ gone → l ≡ gone) (λ e. refl)
                (λ j n x. x);
        }

  Reach-IsSafe : IsSound w → {s : System} → Reach w s → IsSafe w s
  unfolding PhaseOk
  Reach-IsSafe sound {s} (initial first) = record {
    calls = λ d. rw (first.quiet d) tt;
    unborn_idle = λ d u. first.quiet d;
    known = λ p o r. absurd (first.unowned p o r);
  }
  Reach-IsSafe sound (later r (move c a m)) = Move-IsSafe w sound _ (Reach-IsSafe sound r) c a m
  Reach-IsSafe sound (later r (start i u)) = start-IsSafe sound _ (Reach-IsSafe sound r) i u
  Reach-IsSafe sound (later r (die i a)) = die-IsSafe sound _ (Reach-IsSafe sound r) i a

  -- The path of the lock that a call in this phase has published.
  abbrev pub lock_of : Phase → Option String
  lock_of idle = none
  lock_of closed = none
  lock_of (observed f o) = none
  lock_of (suspecting f o) = none
  lock_of (matched f o) = some (w.reaper_of f o.token)
  lock_of (reaping f o) = some (w.reaper_of f o.token)
  lock_of (holding t) = some (path w t)
  lock_of (releasing t) = some (path w t)

  holder_is_named :
      (s : System) (c : ℕ) (p : String) (q : Phase)
      → PhaseOk w s.files s.life c q
      → IsAlive w s.life c
      → lock_of q ≡ some p
      → Reads w s.files p (owner w c)
  unfolding PhaseOk
  holder_is_named s c p idle h a e = absurd (ground arith)
  holder_is_named s c p closed h a e = absurd (ground arith)
  holder_is_named s c p (observed f o) h a e = absurd (ground arith)
  holder_is_named s c p (suspecting f o) h a e = absurd (ground arith)
  holder_is_named s c p (matched f o) h a e = rw (some-injective _ _ (sym e)) (h.holds.named a)
  holder_is_named s c p (reaping f o) h a e = rw (some-injective _ _ (sym e)) (h.holds.named a)
  holder_is_named s c p (holding t) h a e = rw (some-injective _ _ (sym e)) (h.named a)
  holder_is_named s c p (releasing t) h a e = rw (some-injective _ _ (sym e)) (h.named a)

  -- Two calls of processes that run never hold the lock of one path: at any moment that the steps
  -- lead to, if both have published the path's lock and not given it back, they are one call. The
  -- UUIDs are drawn once and process ids are positive.
  pub lock_is_exclusive :
      {s : System} (sound : IsSound w)
      → Reach w s
      → (c d : ℕ) (p : String) → IsAlive w s.life c
      → IsAlive w s.life d
      → lock_of (s.phase c) ≡ some p
      → lock_of (s.phase d) ≡ some p
      → c ≡ d
  lock_is_exclusive {s} sound r c d p a b e e' =
      let safe = Reach-IsSafe sound r in
      let mine = holder_is_named s c p (s.phase c) (safe.calls c) a e in
      let its = holder_is_named s d p (s.phase d) (safe.calls d) b e' in
      owner-injective w sound c d (found-injective w (owner w c) (owner w d) (sym mine ∙ its))

  -- A reaper that runs and is about to remove a file removes that of the owner it found dead, whose
  -- process is gone, however long it was delayed: never the file of a later owner.
  pub reaper_removes_the_dead :
      {s : System} (sound : IsSound w)
      → Reach w s
      → (c : ℕ) (f : String) (o : Owner) → IsAlive w s.life c
      → s.phase c ≡ reaping f o
      → Reads w s.files f o × ((d : ℕ) → Reads w s.files f (owner w d) → s.life (process d) ≡ gone)
  unfolding PhaseOk
  reaper_removes_the_dead {s} sound r c f o a e =
      let safe = Reach-IsSafe sound r in
      let h : Reaps w s.files s.life c f o = subst (PhaseOk w s.files s.life c) e (safe.calls c) in
      (
        h.same a,
        λ d r'.
            let g = h.holds.suspect in
            let same =
              owner-injective w sound d g.author
                (found-injective w (owner w d) o (sym r' ∙ h.same a) ∙ sym g.wrote) in
            rw same g.ended,
      )
