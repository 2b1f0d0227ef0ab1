-- ===== src/Lock/Moves.antt =====
-- The steps of the lock and `IsSafe`.
use skillmeter_claude_code_m.Prelude.{
  ℕ, true, ◌≡◌, ◌≢◌, refl, sym, ap, ◌∙◌, String, arith, str_eq, eq_iff,
}
use mathlib.Core.Path.{subst}
use skillmeter_claude_code_m.Lock.{
  Owner, Content, absent, found, read_owner, Target, own, guard, Phase, closed, observed,
  suspecting, matched, reaping, holding, releasing, Life, unborn, alive, gone, System, World, owner,
  owner_file, path, set_file, Dead, Move, same_owner, put, publish, observe, suspect, publish_guard,
  give_up, lose_guard, match_again, confirm, spare, remove, check_own, release,
}
use skillmeter_claude_code_m.Lock.Invariant.{
  IsSound, Reads, IsAlive, IsKnown, IsGone, IsSuspect, Holds, Reaps, PhaseOk, IsSafe,
  owner-injective, read_owner-owner_file, found-injective,
}
use skillmeter_claude_code_m.Lock.Frame.{alive_not_gone, keep, IsSafe-to_phase, IsSafe-put}

same_owner-found : (o o' : Owner) → same_owner (found o') o ≡ true → o' ≡ o
unfolding same_owner
same_owner-found o o' h = ground (arith, h, eq_iff o'.token o.token)

ended : (l : Life) → l ≢ unborn → l ≢ alive → l ≡ gone
ended unborn u a = absurd (u refl)
ended alive u a = absurd (a refl)
ended gone u a = refl

absent_unread : (w : World) (o : Owner) → read_owner w.is_uuid absent ≡ found o → ⊥
unfolding read_owner
absent_unread w o r = ground (arith, r)

set_file-reads :
    (w : World) (p : String) (v : Content) (files : String → Content) (o : Owner)
    → read_owner w.is_uuid v ≡ found o
    → Reads w (set_file p v files) p o
unfolding set_file
set_file-reads w p v files o r =
    let same : str_eq p p ≡ true = ground (arith, eq_iff p p) in rw same r

module _ (w : World) (sound : IsSound w) (s : System) (safe : IsSafe w s) (c : ℕ) where
  open w use {process, pid_of, reaper_of, is_uuid}

  here : (q : Phase) → s.phase c ≡ q → PhaseOk w s.files s.life c q
  here q e = subst (PhaseOk w s.files s.life c) e (safe.calls c)

  one_reading : (p : String) (o o' : Owner) → Reads w s.files p o → Reads w s.files p o' → o ≡ o'
  one_reading p o o' r r' = found-injective w o o' (sym r ∙ r')

  free_unread : (p : String) (o : Owner) → s.files p ≡ absent → Reads w s.files p o → ⊥
  free_unread p o free r = absent_unread w o (ap (read_owner is_uuid) (sym free) ∙ r)

  Dead-IsGone : (o : Owner) → IsKnown w s.life o → Dead w s o.pid → IsGone w s.life o
  unfolding Dead
  Dead-IsGone o k dead = record {
    author = k.author;
    wrote = k.wrote;
    ended =
        ended (s.life (process k.author)) k.born
          (dead (process k.author) (ap (λ x. x.pid) k.wrote));
  }

  module _ (a : IsAlive w s.life c) where
    -- The lock is new: its path held nothing.
    publish-IsSafe :
        (t : Target)
        → IsSuspect w s.life t
        → s.files (path w t) ≡ absent
        → IsSafe w (put w s c (holding t) (path w t) (owner_file w c))
    unfolding PhaseOk
    publish-IsSafe t g free =
        IsSafe-put w sound s safe c (holding t) (path w t) (owner_file w c) a
          (record {
            named = λ b.
                set_file-reads w (path w t) (owner_file w c) s.files (owner w c)
                  (read_owner-owner_file w sound c);
            suspect = g;
          })
          (λ d n. record {
            lock = λ b r. free_unread (path w t) (owner w d) free r;
            subject = λ o b i r r'. free_unread (path w t) o free r;
          })
          (λ o r. record {
            author = c;
            wrote = found-injective w (owner w c) o (sym (read_owner-owner_file w sound c) ∙ r);
            born = ground (arith, a);
          })

    -- A call removes the file of a lock that it holds itself.
    release-IsSafe :
        (t : Target) → Holds w s.files s.life c t → IsSafe w (put w s c closed (path w t) absent)
    unfolding PhaseOk
    release-IsSafe t h =
        IsSafe-put w sound s safe c closed (path w t) absent a tt
          (λ d n. record {
            lock = λ b r. n (
                owner-injective w sound d c
                  (one_reading (path w t) (owner w d) (owner w c) r (h.named a)));
            subject = λ o b g r r'.
                alive_not_gone w sound s.life c o a g
                  (one_reading (path w t) (owner w c) o (h.named a) r);
          })
          (λ o r. absurd (absent_unread w o r))

    remove-IsSafe :
        (f : String) (o : Owner)
        → Reaps w s.files s.life c f o
        → IsSafe w (put w s c (holding (guard f o)) f absent)
    unfolding PhaseOk
    remove-IsSafe f o h =
        IsSafe-put w sound s safe c (holding (guard f o)) f absent a
          (record {
            named = λ b.
                keep w sound s.files s.life f absent c (reaper_of f o.token) (owner w c)
                  (λ e r. mine c a (rw e r)) (h.holds.named b);
            suspect = h.holds.suspect;
          })
          (λ d n. record {
            lock = λ b r. mine d b r;
            subject = λ o' b g r r'. n (
                owner-injective w sound d c (
                  one_reading (reaper_of f o.token) (owner w d) (owner w c)
                    (rw (one_reading f o o' (h.same a) r) r') (h.holds.named a)));
          })
          (λ o' r. absurd (absent_unread w o' r))
      where
        mine : (d : ℕ) → IsAlive w s.life d → Reads w s.files f (owner w d) → ⊥
        mine d b r =
            alive_not_gone w sound s.life d o b h.holds.suspect
              (one_reading f (owner w d) o r (h.same a))

    -- Every move keeps what is safe.
    pub Move-IsSafe : {s' : System} → Move w s c s' → IsSafe w s'
    unfolding PhaseOk
    Move-IsSafe (publish f e free) = publish-IsSafe (own f) tt free
    Move-IsSafe (observe f o e r) =
        IsSafe-to_phase w sound s safe c (observed f o) a (safe.known f o r)
    Move-IsSafe (suspect f o e dead) =
        IsSafe-to_phase w sound s safe c (suspecting f o) a
          (Dead-IsGone o (here (observed f o) e) dead)
    Move-IsSafe (publish_guard f o e free) =
        publish-IsSafe (guard f o) (here (suspecting f o) e) free
    Move-IsSafe (give_up f o e) = IsSafe-to_phase w sound s safe c closed a tt
    Move-IsSafe (lose_guard f o e) = IsSafe-to_phase w sound s safe c closed a tt
    Move-IsSafe (match_again f o o' e r same) =
        IsSafe-to_phase w sound s safe c (matched f o) a (record {
          holds = here (holding (guard f o)) e;
          same = λ b. rw (sym (same_owner-found o o' same)) r;
        })
    Move-IsSafe (confirm f o e dead) =
        IsSafe-to_phase w sound s safe c (reaping f o) a (here (matched f o) e)
    Move-IsSafe (spare f o e) =
        let reaps : Reaps w s.files s.life c f o = here (matched f o) e in
        IsSafe-to_phase w sound s safe c (holding (guard f o)) a reaps.holds
    Move-IsSafe (remove f o e) = remove-IsSafe f o (here (reaping f o) e)
    Move-IsSafe (check_own t o e r same) =
        IsSafe-to_phase w sound s safe c (releasing t) a (here (holding t) e)
    Move-IsSafe (release t e) = release-IsSafe t (here (releasing t) e)
