-- ===== src/Codex/Queue/Atomic.antt =====
-- A publication that stops after any of its steps, with `recover` behind it.
use skillmeter_claude_code_m.Prelude.{
  ℕ, zero, suc, ◌+◌, ◌≤◌, ◌<◌, Bool, true, false, Option, none, List, [], ◌∷◌, ◌++◌, String, ltb,
  if◌then◌else◌, length, ◌≡◌, refl, sym, ap, ◌∙◌, arith,
}
use skillmeter_claude_code_m.Codex.Queue.{
  QueueCursor, Staging, Folder, insert_group, FileStep, write_commit, rename_stage, write_cursor,
  write_ready, stopped_after, Encoded, RecoverError, last_seq, entries, write_steps, commit_of,
  publication, recover,
}
use skillmeter_claude_code_m.Codex.Queue.Settled.{
  IsSettled, filled, insert_group_last, mark_ready_last, low_of-IsOld,
}
use skillmeter_claude_code_m.Codex.Queue.Recovered.{
  new_group, new_cursor, published, recover-IsSettled, recover_renamed, recover_moved,
}

module _ (digest : String → String) where
  stopped_after_nil : (n : ℕ) (d : Folder) → stopped_after n [] d ≡ d
  unfolding stopped_after
  stopped_after_nil zero d = refl
  stopped_after_nil (suc n) d = refl

  -- Writes into the newest staging folder, stopped among them or behind them.
  writes_stopped :
      (P : ℕ → Folder → Type 0) (n seq reset : ℕ) (encoded : List Encoded) (steps : List FileStep)
      (d : Folder) (s : Staging) (stages : List Staging)
      → ((m : ℕ) (stages : List Staging) → m < length encoded → P m (record d { stages = stages }))
      → ((m k : ℕ)
          → k ≡ length encoded + m
          → P k (
              stopped_after m steps (record d {
                stages =
                    record s { files = filled digest (entries digest seq reset encoded) s.files }
                    ∷ stages;
              })))
      → P n (
          stopped_after n
            (write_steps digest (entries digest seq reset encoded) steps)
            (record d { stages = s ∷ stages }))
  unfolding stopped_after entries
  writes_stopped P n seq reset [] steps d s stages among behind = behind n n (omega arith)
  writes_stopped P zero seq reset (e ∷ encoded) steps d s stages among behind =
      among 0 (s ∷ stages) (omega arith)
  writes_stopped P (suc n) seq reset (e ∷ encoded) steps d s stages among behind =
      writes_stopped (λ m. P (suc m)) n (suc seq) reset encoded steps d
        (record s { files = (suc seq, e.body) ∷ s.files }) stages
        (λ m stages less. among (suc m) stages (omega (arith, less)))
        (λ m k same. behind m (suc k) (omega (arith, same)))

module _ (digest : String → String) (d : Folder) (next : QueueCursor) (e : Encoded)
    (others : List Encoded) where
  abbrev pub steps_of_publication : List FileStep
  steps_of_publication = publication digest d.cursor next (e ∷ others)

  abbrev Recovers : ℕ → Folder → Type 0
  Recovers n d' = recover digest d' ≡ (
    none,
    if ltb n (length others + 4)
        then record d { stages = [] }
        else published digest d next e others,
  )

  before_rename :
      (k : ℕ) (stages : List Staging)
      → IsSettled d
      → k < length others + 4
      → Recovers k (record d { stages = stages })
  before_rename k stages settled less =
      let early : ltb k (length others + 4) ≡ true = ground (arith, less) in
      recover-IsSettled digest d stages settled
      ∙ ap {A = Bool} {B = Option RecoverError × Folder}
          (λ b. (none, if b then record d { stages = [] } else published digest d next e others))
          (sym early)

  after_rename :
      (k : ℕ) (d' : Folder)
      → length others + 4 ≤ k
      → recover digest d' ≡ (none, published digest d next e others)
      → Recovers k d'
  after_rename k d' le made =
      let late : ltb k (length others + 4) ≡ false = ground (arith, le) in
      made
      ∙ ap {A = Bool} {B = Option RecoverError × Folder}
          (λ b. (none, if b then record d { stages = [] } else published digest d next e others))
          (sym late)

  abbrev last_steps : List FileStep
  last_steps =
      write_commit (commit_of digest d.cursor next (e ∷ others))
      ∷ (rename_stage (suc (last_seq d.cursor))
          ∷ (write_cursor (new_cursor digest d.cursor next e others)
              ∷ (write_ready (suc (last_seq d.cursor)) ∷ [])))

  inserted :
      IsSettled d
      → insert_group (new_group digest d.cursor next e others false) d.groups
        ≡ d.groups ++ (new_group digest d.cursor next e others false ∷ [])
  inserted settled =
      insert_group_last (new_group digest d.cursor next e others false) d.groups
        (low_of-IsOld d.cursor d.groups settled.old)

  last_stopped :
      (n k : ℕ)
      → IsSettled d
      → k ≡ 2 + length others + n
      → Recovers k (
          stopped_after n last_steps (record d {
            stages =
                record {
                  files =
                      filled digest
                        (entries digest (last_seq d.cursor) next.baseline (e ∷ others))
                        [];
                  commit = none;
                }
                ∷ d.stages;
          }))
  unfolding stopped_after
  last_stopped zero k settled at = before_rename k _ settled (omega (arith, at))
  last_stopped (suc zero) k settled at = before_rename k _ settled (omega (arith, at))
  last_stopped (suc (suc zero)) k settled at =
      after_rename k _ (omega (arith, at))
        (rw (inserted settled) (recover_renamed digest d next e others d.stages false settled))
  last_stopped (suc (suc (suc zero))) k settled at =
      after_rename k _ (omega (arith, at))
        (rw (inserted settled) (recover_moved digest d next e others d.stages false settled))
  last_stopped (suc (suc (suc (suc n)))) k settled at = after_rename k _ (omega (arith, at)) (
      rw
        (
          stopped_after_nil digest n _,
          inserted settled,
          mark_ready_last (new_group digest d.cursor next e others false) d.groups
              (low_of-IsOld d.cursor d.groups settled.old),
        )
        (recover_moved digest d next e others d.stages true settled))

  -- Wherever a publication in a settled folder stops, `recover` leaves the folder as it was before
  -- it, without the staging folders, if the rename was not reached, and with the whole publication
  -- from there on, and no error in either case.
  pub publication_is_atomic :
      (n : ℕ)
      → IsSettled d
      → recover digest (stopped_after n steps_of_publication d) ≡ (
        none,
        if ltb n (length others + 4)
            then record d { stages = [] }
            else published digest d next e others,
      )
  unfolding stopped_after entries
  publication_is_atomic zero settled = before_rename 0 d.stages settled (omega arith)
  publication_is_atomic (suc n) settled =
      writes_stopped digest (λ k. Recovers (suc k)) n (last_seq d.cursor) next.baseline (e ∷ others)
        last_steps d (record { files = []; commit = none }) d.stages
        (λ m stages less. before_rename (suc m) stages settled (omega (arith, less)))
        (λ m k at. last_stopped m (suc k) settled (omega (arith, at)))
