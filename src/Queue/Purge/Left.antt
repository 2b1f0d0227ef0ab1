-- ===== src/Queue/Purge/Left.antt =====
-- What is left in the folder of a queue after purges of it: `clearRepositoryPayloads` of
-- lib/repository-queue.js.
use skillmeter_claude_code_m.Prelude.{
  Bool, true, any, All, Option, none, some, List, [], ◌∷◌, String, eq_iff, if_given, ◌≡◌, inl, inr,
  refl, arith, Bool-cases,
}
use skillmeter_claude_code_m.Backfill.{Backfill}
use skillmeter_claude_code_m.Queue.{QueueContext, ChunkMeta}
use skillmeter_claude_code_m.Queue.Purge.{
  ChunkEntry, sidecar_file, body_file, other_file, RepositoryQueue, is_body_of, is_accepted,
  preserves, is_preserved, kept_entries, clear_repository_payloads,
}
use skillmeter_claude_code_m.Queue.Purge.Kept.{In, In-kept}

any-found :
    (p : ChunkEntry → Bool) (l : List ChunkEntry)
    → any p l ≡ true
    → (e : ChunkEntry) × In e l × (p e ≡ true)
any-found p [] h = absurd (ground (arith, h))
any-found p (x ∷ l) h = elim (Bool-cases (p x)) [
  | inl y ↦ (x, inl refl, y)
  | inr n ↦ let (e, i, y) = any-found p l (ground (arith, h, n)) in (e, inr i, y)
]

module _ (state : Option Backfill) where
  -- The folder has both files of a chunk of an import that was accepted for the repository.
  pub record HasImport (c : QueueContext) (folder : List ChunkEntry) (stem : String) : Type 0 where
    pub meta : ChunkMeta
    pub sidecar : In (sidecar_file stem (some meta)) folder
    pub body : In (body_file stem) folder
    pub accepted : is_accepted state c (some meta) ≡ true

  -- A body or a sidecar of such a chunk.
  abbrev pub IsImported : QueueContext → List ChunkEntry → ChunkEntry → Type 0
  IsImported c folder (sidecar_file s m) = HasImport c folder s
  IsImported c folder (body_file s) = HasImport c folder s
  IsImported c folder (other_file s) = ⊥

  -- A queue without event logs, with nothing but such files in its chunk folder.
  abbrev pub IsSpent : QueueContext → RepositoryQueue → Type 0
  IsSpent c q = (q.events ≡ []) × All (IsImported c q.chunks) q.chunks

  body_of :
      (folder : List ChunkEntry) (s : String) (e : ChunkEntry)
      → In e folder
      → is_body_of s e ≡ true
      → In (body_file s) folder
  body_of folder s (sidecar_file t m) i h = absurd (ground (arith, h))
  body_of folder s (body_file t) i h = let same : s ≡ t = ground (arith, h, eq_iff t s) in rw same i
  body_of folder s (other_file t) i h = absurd (ground (arith, h))

  preserves-HasImport :
      (c : QueueContext) (folder : List ChunkEntry) (s : String) (e : ChunkEntry)
      → In e folder
      → preserves state c folder s e ≡ true
      → HasImport c folder s
  unfolding preserves
  preserves-HasImport c folder s (sidecar_file t none) i h = absurd (ground (arith, h))
  preserves-HasImport c folder s (sidecar_file t (some m)) i h =
      let same : s ≡ t = ground (arith, h, eq_iff t s) in
      let (b, there, y) = any-found (is_body_of t) folder (ground (arith, h)) in
      let found : HasImport c folder t = record {
        meta = m;
        sidecar = i;
        body = body_of folder t b there y;
        accepted = ground (arith, h);
      } in
      rw same found
  preserves-HasImport c folder s (body_file t) i h = absurd (ground (arith, h))
  preserves-HasImport c folder s (other_file t) i h = absurd (ground (arith, h))

  safe-HasImport :
      (c : QueueContext) (folder : List ChunkEntry) (s : String)
      → any (preserves state c folder s) folder ≡ true
      → HasImport c folder s
  safe-HasImport c folder s h =
      let (e, i, y) = any-found (preserves state c folder s) folder h in
      preserves-HasImport c folder s e i y

  -- A purge that keeps the files of a stem keeps its import.
  HasImport-kept :
      (c d : QueueContext) (folder : List ChunkEntry) (s : String)
      → any (preserves state d folder s) folder ≡ true
      → HasImport c folder s
      → HasImport c (kept_entries state d folder folder) s
  unfolding is_preserved
  HasImport-kept c d folder s safe found = record {
    meta = found.meta;
    sidecar = In-kept state d folder (sidecar_file s (some found.meta)) folder found.sidecar safe;
    body = In-kept state d folder (body_file s) folder found.body safe;
    accepted = found.accepted;
  }

  kept-All :
      (c : QueueContext) (folder : List ChunkEntry) (P Q : ChunkEntry → Type 0)
      (l : List ChunkEntry)
      → ((e : ChunkEntry) → is_preserved state c folder e ≡ true → P e → Q e)
      → All P l
      → All Q (kept_entries state c folder l)
  unfolding kept_entries
  kept-All c folder P Q [] f h = tt
  kept-All c folder P Q (e ∷ l) f (first, others) =
      let rest = kept-All c folder P Q l f others in
      if_given (All Q) (is_preserved state c folder e) _ _ (λ y. (f e y first, rest)) (λ _. rest)

  preserved-IsImported :
      (c : QueueContext) (folder : List ChunkEntry) (e : ChunkEntry)
      → is_preserved state c folder e ≡ true
      → IsImported c (kept_entries state c folder folder) e
  unfolding is_preserved
  preserved-IsImported c folder (sidecar_file s m) h =
      HasImport-kept c c folder s h (safe-HasImport c folder s h)
  preserved-IsImported c folder (body_file s) h =
      HasImport-kept c c folder s h (safe-HasImport c folder s h)
  preserved-IsImported c folder (other_file s) h = absurd (ground (arith, h))

  IsImported-kept :
      (c d : QueueContext) (folder : List ChunkEntry) (e : ChunkEntry)
      → is_preserved state d folder e ≡ true
      → IsImported c folder e
      → IsImported c (kept_entries state d folder folder) e
  unfolding is_preserved
  IsImported-kept c d folder (sidecar_file s m) h found = HasImport-kept c d folder s h found
  IsImported-kept c d folder (body_file s) h found = HasImport-kept c d folder s h found
  IsImported-kept c d folder (other_file s) h found = found

  abbrev IsEntry : ChunkEntry → Type 0
  IsEntry e = Unit

  all_files : (l : List ChunkEntry) → All IsEntry l
  all_files [] = tt
  all_files (e ∷ l) = (tt, all_files l)

  -- A purge spends the queue.
  pub cleared-IsSpent :
      (c : QueueContext) (q : RepositoryQueue) → IsSpent c (clear_repository_payloads state c q).1
  unfolding clear_repository_payloads
  cleared-IsSpent c q = (
    refl,
    kept-All c q.chunks IsEntry _ q.chunks (λ e y _. preserved-IsImported c q.chunks e y)
        (all_files q.chunks),
  )

  -- A purge for any repository leaves a spent queue spent.
  pub IsSpent-cleared :
      (c d : QueueContext) (q : RepositoryQueue)
      → IsSpent c q
      → IsSpent c (clear_repository_payloads state d q).1
  unfolding clear_repository_payloads
  IsSpent-cleared c d q (_, imported) = (
    refl,
    kept-All d q.chunks (IsImported c q.chunks) _ q.chunks (IsImported-kept c d q.chunks) imported,
  )
