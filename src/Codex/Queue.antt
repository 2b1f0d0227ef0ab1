-- ===== src/Codex/Queue.antt =====
-- The folder of one transcript in transcript-delta.js of the Codex client: how `stage` publishes the
-- chunks it has encoded, one file operation after the other, and how `recover` puts the folder in
-- order under the lock. `writeDurable` writes a file whole or not at all; a group's folder has the
-- number of its first chunk in its name. The digest of a chunk's bytes is a parameter.
pub mod Settled
pub mod Recovered
pub mod Atomic
pub mod Numbers
use skillmeter_claude_code_m.Prelude.{
  ℕ, zero, suc, ◌+◌, Bool, true, false, not, ◌&&◌, Option, none, some, List, [], ◌∷◌, ◌++◌, String,
  str_eq, leb, ltb, ◌==◌, if◌then◌else◌, length,
}

pub record QueueCursor : Type 0 where
  pub version : ℕ
  pub seq : ℕ
  pub baseline : ℕ
  pub generation : ℕ
  pub offset : ℕ
  pub line_count : ℕ
  pub consent_epoch : Option String
  pub metadata_version : Option ℕ
  pub prefix : String
  pub file_id : String
  pub scope : String
  pub source : String
  pub transcript_id : String

pub record QueueChunk : Type 0 where
  pub seq : ℕ
  pub reset : ℕ
  pub records : ℕ
  pub sha256 : String

pub record Commit : Type 0 where
  pub cursor : QueueCursor
  pub chunks : List QueueChunk

-- A chunk's file has the chunk's number as its name.
pub record ChunkGroup : Type 0 where
  pub first : ℕ
  pub commit : Option Commit
  pub files : List (ℕ × String)
  pub ready : Bool

pub record Staging : Type 0 where
  pub files : List (ℕ × String)
  pub commit : Option Commit

pub record Folder : Type 0 where
  pub cursor : Option QueueCursor
  pub stages : List Staging
  pub groups : List ChunkGroup

-- `groups` lists the folders by name.
unfoldable pub insert_group : ChunkGroup → List ChunkGroup → List ChunkGroup
insert_group g [] = g ∷ []
insert_group g (h ∷ groups) =
    if ltb g.first h.first then g ∷ (h ∷ groups) else h ∷ insert_group g groups

-- The operations on files of a publication.
pub data FileStep : Type 0 where
  make_stage : FileStep
  write_chunk : ℕ → String → FileStep
  write_commit : Commit → FileStep
  rename_stage : ℕ → FileStep
  write_cursor : QueueCursor → FileStep
  write_ready : ℕ → FileStep

abbrev pub on_stage : (Staging → Staging) → List Staging → List Staging
on_stage f [] = []
on_stage f (s ∷ stages) = f s ∷ stages

abbrev pub mark_ready : ℕ → List ChunkGroup → List ChunkGroup
mark_ready first [] = []
mark_ready first (g ∷ groups) =
    (if g.first == first then record g { ready = true } else g) ∷ mark_ready first groups

abbrev pub publish_stage : ℕ → List Staging → Folder → Folder
publish_stage first [] d = d
publish_stage first (s ∷ stages) d = record d {
  stages = stages;
  groups =
      insert_group (record { first = first; commit = s.commit; files = s.files; ready = false })
        d.groups;
}

abbrev pub do_step : FileStep → Folder → Folder
do_step make_stage d = record d { stages = record { files = []; commit = none } ∷ d.stages }
do_step (write_chunk seq body) d = record d {
  stages = on_stage (λ s. record s { files = (seq, body) ∷ s.files }) d.stages;
}
do_step (write_commit commit) d = record d {
  stages = on_stage (λ s. record s { commit = some commit }) d.stages;
}
do_step (rename_stage first) d = publish_stage first d.stages d
do_step (write_cursor cursor) d = record d { cursor = some cursor }
do_step (write_ready first) d = record d { groups = mark_ready first d.groups }

-- The folder as it is where the process ends, or an error ends `stage`, after `n` of the steps.
unfoldable pub stopped_after : ℕ → List FileStep → Folder → Folder
stopped_after zero steps d = d
stopped_after (suc n) [] d = d
stopped_after (suc n) (step ∷ steps) d = stopped_after n steps (do_step step d)

-- A body that `encodeChunks` gives, with the number of its records.
pub record Encoded : Type 0 where
  pub body : String
  pub records : ℕ

abbrev pub last_seq : Option QueueCursor → ℕ
last_seq none = 0
last_seq (some cursor) = cursor.seq

abbrev pub is_sound_cursor : Option QueueCursor → Bool
is_sound_cursor none = true
is_sound_cursor (some cursor) = cursor.version == 1 && leb 1 cursor.seq

pub data RecoverError : Type 0 where
  invalid_cursor incomplete_transaction unreadable_commit missing_chunk : RecoverError

unfoldable pub find_file : ℕ → List (ℕ × String) → Option String
find_file seq [] = none
find_file seq ((n, body) ∷ files) = if n == seq then some body else find_file seq files

-- The commit has a later cursor than the folder.
abbrev pub is_later : Option QueueCursor → Commit → Bool
is_later none commit = true
is_later (some cursor) commit = ltb cursor.seq commit.cursor.seq

pub record Recovery : Type 0 where
  pub error : Option RecoverError
  pub cursor : Option QueueCursor
  pub groups : List ChunkGroup

module _ (digest : String → String) where
  unfoldable pub entries : ℕ → ℕ → List Encoded → List (QueueChunk × String)
  entries seq reset [] = []
  entries seq reset (e ∷ encoded) =
      (record { seq = suc seq; reset = reset; records = e.records; sha256 = digest e.body }, e.body)
      ∷ entries (suc seq) reset encoded

  abbrev pub chunks_of : List (QueueChunk × String) → List QueueChunk
  chunks_of [] = []
  chunks_of ((chunk, body) ∷ entries) = chunk ∷ chunks_of entries

  abbrev pub write_steps : List (QueueChunk × String) → List FileStep → List FileStep
  write_steps [] steps = steps
  write_steps ((chunk, body) ∷ entries) steps =
      write_chunk chunk.seq body ∷ write_steps entries steps

  -- `next` has everything of the new cursor but its number.
  abbrev pub next_cursor : Option QueueCursor → QueueCursor → List Encoded → QueueCursor
  next_cursor cursor next encoded = record next {
    version = 1;
    seq = last_seq cursor + length encoded;
  }

  abbrev pub commit_of : Option QueueCursor → QueueCursor → List Encoded → Commit
  commit_of cursor next encoded = record {
    cursor = next_cursor cursor next encoded;
    chunks = chunks_of (entries (last_seq cursor) next.baseline encoded);
  }

  abbrev pub publication : Option QueueCursor → QueueCursor → List Encoded → List FileStep
  publication cursor next encoded =
      let first = suc (last_seq cursor) in
      make_stage
      ∷ write_steps (entries (last_seq cursor) next.baseline encoded) (
          write_commit (commit_of cursor next encoded)
          ∷ (rename_stage first
              ∷ (write_cursor (next_cursor cursor next encoded) ∷ (write_ready first ∷ []))))

  unfoldable pub check_chunks : List QueueChunk → List (ℕ × String) → Option RecoverError
  check_chunks [] files = none
  check_chunks (chunk ∷ chunks) files = elim (find_file chunk.seq files) [
    | none ↦ some missing_chunk
    | some body ↦
        if str_eq (digest body) chunk.sha256
        then check_chunks chunks files
        else some incomplete_transaction
  ]

  abbrev pub check_commit : Option QueueCursor → Commit → List (ℕ × String) → Option RecoverError
  check_commit cursor commit files =
      if is_later cursor commit then check_chunks commit.chunks files else none

  -- The loop over the groups; an error leaves it and the groups from there on as they are.
  unfoldable pub recover_groups : Option QueueCursor → List ChunkGroup → Recovery
  recover_groups cursor [] = record { error = none; cursor = cursor; groups = [] }
  recover_groups cursor (g ∷ groups) = elim g.commit [
    | none ↦ record { error = some unreadable_commit; cursor = cursor; groups = g ∷ groups }
    | some commit ↦ elim (check_commit cursor commit g.files) [
      | some error ↦ record { error = some error; cursor = cursor; groups = g ∷ groups }
      | none ↦
          let later = if is_later cursor commit then some commit.cursor else cursor in
          let rest = recover_groups later groups in
          record rest { groups = record g { ready = true } ∷ rest.groups }
    ]
  ]

  -- The error that is thrown, if there is one, and the folder afterwards.
  unfoldable pub recover : Folder → Option RecoverError × Folder
  unfolding recover_groups
  recover d =
      if not (is_sound_cursor d.cursor)
      then (some invalid_cursor, d)
      else let r = recover_groups d.cursor d.groups in
        (r.error, record { cursor = r.cursor; stages = []; groups = r.groups })
