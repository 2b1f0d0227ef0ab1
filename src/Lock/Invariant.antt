-- ===== src/Lock/Invariant.antt =====
-- What `IsSafe` asks of a state of the lock: a live call that holds a lock is the owner its file
-- names, and what a call is about to remove names a process that is gone.
use skillmeter_claude_code_m.Prelude.{ℕ, true, ◌≡◌, ◌≢◌, ap, String, arith, ltb}
use skillmeter_claude_code_m.Lock.{
  Owner, Content, found, read_owner, Target, own, guard, Phase, idle, closed, observed, suspecting,
  matched, reaping, holding, releasing, Life, unborn, alive, gone, System, World, owner, owner_file,
  path,
}

module _ (w : World) where
  -- UUIDs are never drawn twice and match the pattern, and process ids are positive.
  pub record IsSound : Type 0 where
    pub fresh : (c d : ℕ) → w.token c ≡ w.token d → c ≡ d
    pub uuids : (c : ℕ) → w.is_uuid (w.token c) ≡ true
    pub positive : (i : ℕ) → ltb 0 (w.pid_of i) ≡ true

  abbrev pub Reads : (String → Content) → String → Owner → Type 0
  Reads files p o = read_owner w.is_uuid (files p) ≡ found o

  module _ (life : ℕ → Life) where
    abbrev pub IsAlive : ℕ → Type 0
    IsAlive d = life (w.process d) ≡ alive

    -- The process that wrote the owner has started, or is gone.
    pub record IsKnown (o : Owner) : Type 0 where
      pub author : ℕ
      pub wrote : owner w author ≡ o
      pub born : life (w.process author) ≢ unborn

    pub record IsGone (o : Owner) : Type 0 where
      pub author : ℕ
      pub wrote : owner w author ≡ o
      pub ended : life (w.process author) ≡ gone

    abbrev pub IsSuspect : Target → Type 0
    IsSuspect (own f) = Unit
    IsSuspect (guard f o) = IsGone o

  module _ (files : String → Content) (life : ℕ → Life) where
    pub record Holds (d : ℕ) (t : Target) : Type 0 where
      pub named : IsAlive life d → Reads files (path w t) (owner w d)
      pub suspect : IsSuspect life t

    pub record Reaps (d : ℕ) (f : String) (o : Owner) : Type 0 where
      pub holds : Holds d (guard f o)
      pub same : IsAlive life d → Reads files f o

    unfoldable pub PhaseOk : ℕ → Phase → Type 0
    PhaseOk d idle = Unit
    PhaseOk d closed = Unit
    PhaseOk d (observed f o) = IsKnown life o
    PhaseOk d (suspecting f o) = IsGone life o
    PhaseOk d (holding t) = Holds d t
    PhaseOk d (releasing t) = Holds d t
    PhaseOk d (matched f o) = Reaps d f o
    PhaseOk d (reaping f o) = Reaps d f o

  pub record IsSafe (s : System) : Type 0 where
    pub calls : (d : ℕ) → PhaseOk s.files s.life d (s.phase d)
    pub unborn_idle : (d : ℕ) → s.life (w.process d) ≡ unborn → s.phase d ≡ idle
    pub known : (p : String) (o : Owner) → Reads s.files p o → IsKnown s.life o

  module _ (sound : IsSound) where
    open sound use {fresh, uuids, positive}

    pub owner-injective : (c d : ℕ) → owner w c ≡ owner w d → c ≡ d
    owner-injective c d e = fresh c d (ap (λ o. o.token) e)

    pub read_owner-owner_file : (c : ℕ) → read_owner w.is_uuid (owner_file w c) ≡ found (owner w c)
    unfolding read_owner
    read_owner-owner_file c = ground (arith, uuids c, positive (w.process c))

  pub found-injective : (o o' : Owner) → found o ≡ found o' → o ≡ o'
  found-injective o o' e = cc
