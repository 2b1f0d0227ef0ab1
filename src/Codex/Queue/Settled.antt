-- ===== src/Codex/Queue/Settled.antt =====
-- A folder in order, and what `recover` makes of its groups.
use mathlib.Core.Path.{subst}
use skillmeter_claude_code_m.Prelude.{
  ℕ, suc, ◌≤◌, ◌<◌, Bool, true, false, All, Option, none, some, List, [], ◌∷◌, ◌++◌, String, eq_iff,
  ◌≡◌, refl, sym, ap, ◌∙◌, arith,
}
use skillmeter_claude_code_m.Codex.Queue.{
  QueueCursor, QueueChunk, Commit, ChunkGroup, Folder, insert_group, mark_ready, Encoded, last_seq,
  is_sound_cursor, find_file, is_later, Recovery, entries, chunks_of, check_chunks, recover_groups,
}

-- The folder's cursor is not behind this group, which is ready.
pub record IsOld (cursor : Option QueueCursor) (g : ChunkGroup) : Type 0 where
  pub commit : Commit
  pub has : g.commit ≡ some commit
  pub old : is_later cursor commit ≡ false
  pub is_ready : g.ready ≡ true
  pub low : g.first ≤ last_seq cursor

-- A folder as a publication, or a recovery, that was not stopped leaves it.
pub record IsSettled (d : Folder) : Type 0 where
  pub sound : is_sound_cursor d.cursor ≡ true
  pub old : All (IsOld d.cursor) d.groups

pub insert_group_last :
    (g : ChunkGroup) (groups : List ChunkGroup)
    → All (λ h. h.first < g.first) groups
    → insert_group g groups ≡ groups ++ (g ∷ [])
unfolding insert_group
insert_group_last g [] low = refl
insert_group_last g (h ∷ groups) (first, others) =
    ground (arith, first, insert_group_last g groups others)

pub mark_ready_last :
    (g : ChunkGroup) (groups : List ChunkGroup)
    → All (λ h. h.first < g.first) groups
    → mark_ready g.first (groups ++ (g ∷ [])) ≡ groups ++ (record g { ready = true } ∷ [])
mark_ready_last g [] low = ground arith
mark_ready_last g (h ∷ groups) (first, others) =
    ground (arith, first, mark_ready_last g groups others)

pub low_of-IsOld :
    (cursor : Option QueueCursor) (groups : List ChunkGroup)
    → All (IsOld cursor) groups
    → All (λ h. h.first < suc (last_seq cursor)) groups
low_of-IsOld cursor [] old = tt
low_of-IsOld cursor (g ∷ groups) (first, others) =
    let le = first.low in (omega arith, low_of-IsOld cursor groups others)

module _ (digest : String → String) where
  pub recover_groups_kept :
      (cursor : Option QueueCursor) (first : ℕ) (commit : Commit) (files : List (ℕ × String))
      (ready : Bool) (rest : List ChunkGroup)
      → is_later cursor commit ≡ false
      → recover_groups digest cursor
          (record { first = first; commit = some commit; files = files; ready = ready } ∷ rest)
        ≡ (let r = recover_groups digest cursor rest in
            record r {
              groups =
                  record { first = first; commit = some commit; files = files; ready = true }
                  ∷ r.groups;
            })
  unfolding recover_groups
  recover_groups_kept none first commit files ready rest old = absurd (ground (arith, old))
  recover_groups_kept (some cursor) first commit files ready rest old = ground (arith, old)

  pub recover_groups_later :
      (cursor : Option QueueCursor) (first : ℕ) (commit : Commit) (files : List (ℕ × String))
      (ready : Bool) (rest : List ChunkGroup)
      → is_later cursor commit ≡ true
      → check_chunks digest commit.chunks files ≡ none
      → recover_groups digest cursor
          (record { first = first; commit = some commit; files = files; ready = ready } ∷ rest)
        ≡ (let r = recover_groups digest (some commit.cursor) rest in
            record r {
              groups =
                  record { first = first; commit = some commit; files = files; ready = true }
                  ∷ r.groups;
            })
  unfolding recover_groups
  recover_groups_later none first commit files ready rest later checked = ground (arith, checked)
  recover_groups_later (some cursor) first commit files ready rest later checked =
      ground (arith, later, checked)

  abbrev whole : ChunkGroup → Commit → ChunkGroup
  whole g commit = record { first = g.first; commit = some commit; files = g.files; ready = true }

  shape :
      {cursor : Option QueueCursor} {g : ChunkGroup} (old : IsOld cursor g) → whole g old.commit ≡ g
  shape {g = g} old =
      ap (λ c. record g { commit = c; ready = true }) (sym old.has)
      ∙ ap (λ b. record g { ready = b }) (sym old.is_ready)

  pub recover_groups-IsOld :
      (cursor : Option QueueCursor) (groups rest : List ChunkGroup)
      → All (IsOld cursor) groups
      → recover_groups digest cursor (groups ++ rest)
        ≡ (let r = recover_groups digest cursor rest in record r { groups = groups ++ r.groups })
  unfolding recover_groups
  recover_groups-IsOld cursor [] rest old = refl
  recover_groups-IsOld cursor (g ∷ groups) rest (first, others) =
      let le = recover_groups-IsOld cursor groups rest others in
      subst
        (λ h. recover_groups digest cursor (h ∷ (groups ++ rest)) ≡ (
          let r = recover_groups digest cursor rest in
          record r { groups = h ∷ (groups ++ r.groups) }))
        (shape first)
        (recover_groups_kept cursor g.first first.commit g.files true (groups ++ rest) first.old
          ∙ ap {A = Recovery} {B = Recovery}
              (λ r. record r { groups = whole g first.commit ∷ r.groups }) le)

  -- The files of a staging folder after these writes.
  abbrev pub filled : List (QueueChunk × String) → List (ℕ × String) → List (ℕ × String)
  filled [] files = files
  filled ((chunk, body) ∷ entries) files = filled entries ((chunk.seq, body) ∷ files)

  find_file-filled :
      (n seq reset : ℕ) (encoded : List Encoded) (files : List (ℕ × String))
      → n ≤ seq
      → find_file n (filled (entries digest seq reset encoded) files) ≡ find_file n files
  unfolding find_file entries
  find_file-filled n seq reset [] files le = refl
  find_file-filled n seq reset (e ∷ encoded) files le =
      ground (arith, le, find_file-filled n (suc seq) reset encoded ((suc seq, e.body) ∷ files))

  pub check_chunks-filled :
      (seq reset : ℕ) (encoded : List Encoded) (files : List (ℕ × String))
      → check_chunks digest
          (chunks_of digest (entries digest seq reset encoded))
          (filled (entries digest seq reset encoded) files)
        ≡ none
  unfolding check_chunks entries find_file
  check_chunks-filled seq reset [] files = refl
  check_chunks-filled seq reset (e ∷ encoded) files =
      let files' = (suc seq, e.body) ∷ files in
      rw (check_chunks, find_file-filled (suc seq) (suc seq) reset encoded files' (omega arith))
        (ground (
          arith,
          eq_iff (digest e.body) (digest e.body),
          check_chunks-filled (suc seq) reset encoded files',
        ))
