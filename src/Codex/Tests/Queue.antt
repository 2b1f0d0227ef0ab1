-- ===== src/Codex/Tests/Queue.antt =====
-- Two publications into a new folder: the second stops right behind its rename.
use skillmeter_claude_code_m.Prelude.{ℕ, none, some, List, [], ◌∷◌, String, ◌≡◌, refl}
use skillmeter_claude_code_m.Codex.Queue.{
  QueueCursor, Encoded, Folder, entries, recover, recover_groups, check_chunks, find_file,
  insert_group, stopped_after,
}
use skillmeter_claude_code_m.Codex.Queue.Settled.{IsSettled}
use skillmeter_claude_code_m.Codex.Queue.Recovered.{published, published-IsSettled}
use skillmeter_claude_code_m.Codex.Queue.Atomic.{steps_of_publication, publication_is_atomic}
use skillmeter_claude_code_m.Codex.Queue.Numbers.{
  Attempt, attempt_all, empty_folder, all_seqs, recover-all_seqs,
}

abbrev plain : String → String
plain body = body

abbrev cursor_at : ℕ → QueueCursor
cursor_at offset = record {
  version = 1;
  seq = 0;
  baseline = 1;
  generation = 1;
  offset = offset;
  line_count = 3;
  consent_epoch = some "e1";
  metadata_version = some 1;
  prefix = "p1";
  file_id = "1:7";
  scope = "acme";
  source = "/t1.jsonl";
  transcript_id = "t1";
}

abbrev chunk : String → Encoded
chunk body = record { body = body; records = 2 }

abbrev one : Folder
one = published plain empty_folder (cursor_at 20) (chunk "a") (chunk "b" ∷ [])

one-IsSettled : IsSettled one
one-IsSettled =
    published-IsSettled plain empty_folder (cursor_at 20) (chunk "a") (chunk "b" ∷ [])
      (record { sound = refl; old = tt })

publication_is_atomic_example :
    recover plain
      (stopped_after 4 (steps_of_publication plain one (cursor_at 30) (chunk "c") []) one)
    ≡ (none, published plain one (cursor_at 30) (chunk "c") [])
publication_is_atomic_example =
    publication_is_atomic plain one (cursor_at 30) (chunk "c") [] 4 one-IsSettled

-- The first call stops before its rename, the second behind it, the third ends.
abbrev attempts : List Attempt
attempts =
    record { next = cursor_at 20; first = chunk "a"; others = chunk "b" ∷ []; stops = 4 }
    ∷ (record { next = cursor_at 30; first = chunk "a"; others = chunk "b" ∷ []; stops = 5 }
        ∷ (record { next = cursor_at 40; first = chunk "c"; others = []; stops = 9 } ∷ []))

recover-all_seqs_example :
    ((recover plain (attempt_all plain attempts empty_folder)).0 ≡ none)
    × (all_seqs (recover plain (attempt_all plain attempts empty_folder)).1.groups
        ≡ 1 ∷ (2 ∷ (3 ∷ [])))
unfolding entries recover recover_groups check_chunks find_file insert_group stopped_after
recover-all_seqs_example = recover-all_seqs plain attempts
