-- ===== src/Queue/Purge/Kept.antt =====
-- What a purge leaves of the queue of a repository.
use skillmeter_claude_code_m.Prelude.{
  Bool, true, false, not, any, Option, some, List, [], ◌∷◌, String, str_eq, eq_iff, if_given, ◌≡◌,
  ◌⊎◌, inl, inr, refl, ap, ◌∙◌, arith,
}
use skillmeter_claude_code_m.Backfill.{Backfill}
use skillmeter_claude_code_m.Queue.{QueueContext, ChunkMeta}
use skillmeter_claude_code_m.Queue.Purge.{
  ChunkEntry, sidecar_file, body_file, other_file, RepositoryQueue, is_body_of, is_accepted,
  preserves, is_preserved, kept_entries, clear_repository_payloads,
}

abbrev pub In : ChunkEntry → List ChunkEntry → Type 0
In e [] = ⊥
In e (x ∷ l) = (e ≡ x) ⊎ In e l

any-In :
    (p : ChunkEntry → Bool) (e : ChunkEntry) (l : List ChunkEntry)
    → In e l
    → p e ≡ true
    → any p l ≡ true
any-In p e [] i h = absurd i
any-In p e (x ∷ l) (inl same) h = ground (arith, ap p same, h)
any-In p e (x ∷ l) (inr i) h = ground (arith, any-In p e l i h)

any_mono :
    (p q : ChunkEntry → Bool) (l : List ChunkEntry)
    → ((e : ChunkEntry) → p e ≡ true → q e ≡ true)
    → any p l ≡ true
    → any q l ≡ true
any_mono p q [] f h = h
any_mono p q (x ∷ l) f h = ground (arith, f x, any_mono p q l f, h)

module _ (state : Option Backfill) (c : QueueContext) (folder : List ChunkEntry) where
  pub In-kept :
      (e : ChunkEntry) (l : List ChunkEntry)
      → In e l
      → is_preserved state c folder e ≡ true
      → In e (kept_entries state c folder l)
  unfolding kept_entries
  In-kept e [] i h = absurd i
  In-kept e (x ∷ l) (inl same) h =
      if_given (In e) (is_preserved state c folder x) _ _ (λ _. inl same)
        (λ n. absurd (ground (arith, n, h, ap (is_preserved state c folder) same)))
  In-kept e (x ∷ l) (inr i) h =
      if_given (In e) (is_preserved state c folder x) _ _ (λ _. inr (In-kept e l i h))
        (λ _. In-kept e l i h)

  any-kept :
      (p : ChunkEntry → Bool) (l : List ChunkEntry)
      → ((e : ChunkEntry) → p e ≡ true → is_preserved state c folder e ≡ true)
      → any p (kept_entries state c folder l) ≡ any p l
  unfolding kept_entries
  any-kept p [] f = refl
  any-kept p (x ∷ l) f = ground (arith, f x, any-kept p l f)

  abbrev remaining : List ChunkEntry
  remaining = kept_entries state c folder folder

  -- Whether some sidecar preserves the stem.
  abbrev is_safe : String → Bool
  is_safe s = any (preserves state c folder s) folder

  of_stem : (s t : String) → str_eq s t ≡ true → is_safe t ≡ true → is_safe s ≡ true
  of_stem s t e h = let same : s ≡ t = ground (arith, e, eq_iff s t) in rw same h

  body_preserved :
      (s : String) (e : ChunkEntry)
      → is_safe s ≡ true
      → is_body_of s e ≡ true
      → is_preserved state c folder e ≡ true
  unfolding is_preserved
  body_preserved s (sidecar_file t m) safe h = absurd (ground (arith, h))
  body_preserved s (body_file t) safe h = of_stem t s h safe
  body_preserved s (other_file t) safe h = absurd (ground (arith, h))

  sidecar_preserved :
      (s : String) (e : ChunkEntry)
      → is_safe s ≡ true
      → preserves state c folder s e ≡ true
      → is_preserved state c folder e ≡ true
  unfolding is_preserved preserves
  sidecar_preserved s (sidecar_file t m) safe h = of_stem t s (ground (arith, h)) safe
  sidecar_preserved s (body_file t) safe h = absurd (ground (arith, h))
  sidecar_preserved s (other_file t) safe h = absurd (ground (arith, h))

  -- What preserved a stem is still there, and preserves it again.
  preserves_again :
      (s : String) (e : ChunkEntry)
      → is_safe s ≡ true
      → preserves state c folder s e ≡ true
      → preserves state c remaining s e ≡ true
  unfolding preserves
  preserves_again s (sidecar_file t m) safe h =
      let bodies =
        any-kept (is_body_of t) folder
          (λ e g. body_preserved t e (of_stem t s (ground (arith, h)) safe) g) in
      ground (arith, h, bodies)
  preserves_again s (body_file t) safe h = absurd (ground (arith, h))
  preserves_again s (other_file t) safe h = absurd (ground (arith, h))

  is_safe_again :
      (s : String) → is_safe s ≡ true → any (preserves state c remaining s) remaining ≡ true
  is_safe_again s safe =
      any_mono (preserves state c folder s) (preserves state c remaining s) remaining
        (λ e h. preserves_again s e safe h)
        (any-kept (preserves state c folder s) folder (λ e h. sidecar_preserved s e safe h) ∙ safe)

  is_preserved_again :
      (e : ChunkEntry)
      → is_preserved state c folder e ≡ true
      → is_preserved state c remaining e ≡ true
  unfolding is_preserved
  is_preserved_again (sidecar_file s m) h = is_safe_again s h
  is_preserved_again (body_file s) h = is_safe_again s h
  is_preserved_again (other_file s) h = h

  -- Nothing of a list of what remains would be removed now.
  kept_again :
      (l : List ChunkEntry)
      → (kept_entries state c remaining (kept_entries state c folder l)
          ≡ kept_entries state c folder l)
        × (any (λ e. not (is_preserved state c remaining e)) (kept_entries state c folder l)
            ≡ false)
  unfolding kept_entries
  kept_again [] = (refl, refl)
  kept_again (x ∷ l) = ground (arith, is_preserved_again x, kept_again l)

module _ (state : Option Backfill) (c : QueueContext) (q : RepositoryQueue) where
  -- A second purge of a queue finds nothing to remove and changes nothing: what the first left is
  -- just what the accepted imports preserve.
  pub clear_repository_payloads_again :
      clear_repository_payloads state c (clear_repository_payloads state c q).1
      ≡ (false, (clear_repository_payloads state c q).1)
  unfolding clear_repository_payloads
  clear_repository_payloads_again =
      let (same, none_removed) = kept_again state c q.chunks q.chunks in
      rw (none_removed, same) refl

  -- A purge leaves the body and the sidecar of every chunk whose import was accepted for the
  -- repository, and it leaves no event log.
  pub clear_keeps_accepted :
      (stem : String) (m : ChunkMeta)
      → In (sidecar_file stem (some m)) q.chunks
      → In (body_file stem) q.chunks
      → is_accepted state c (some m) ≡ true
      → In (sidecar_file stem (some m)) (clear_repository_payloads state c q).1.chunks
        × In (body_file stem) (clear_repository_payloads state c q).1.chunks
        × ((clear_repository_payloads state c q).1.events ≡ [])
  unfolding clear_repository_payloads is_preserved preserves
  clear_keeps_accepted stem m here there accepted =
      let same : str_eq stem stem ≡ true = ground (arith, eq_iff stem stem) in
      let body = any-In (is_body_of stem) (body_file stem) q.chunks there same in
      let safe =
        any-In (preserves state c q.chunks stem) (sidecar_file stem (some m)) q.chunks here
          (ground (arith, same, body, accepted)) in
      (
        In-kept state c q.chunks (sidecar_file stem (some m)) q.chunks here safe,
        In-kept state c q.chunks (body_file stem) q.chunks there safe,
        refl,
      )
