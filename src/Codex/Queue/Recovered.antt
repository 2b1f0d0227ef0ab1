-- ===== src/Codex/Queue/Recovered.antt =====
-- What `recover` makes of a publication that stopped at any of its steps.
use mathlib.Core.List.{append-nil}
use skillmeter_claude_code_m.Prelude.{
  suc, Bool, true, false, All, All-append, Option, none, some, List, [], ◌∷◌, ◌++◌, String, ◌≡◌,
  refl, sym, ap, ◌∙◌, arith,
}
use skillmeter_claude_code_m.Codex.Queue.{
  QueueCursor, ChunkGroup, Staging, Folder, Encoded, last_seq, is_sound_cursor, is_later, Recovery,
  entries, next_cursor, commit_of, recover_groups, recover,
}
use skillmeter_claude_code_m.Codex.Queue.Settled.{
  IsOld, IsSettled, filled, recover_groups_kept, recover_groups_later, recover_groups-IsOld,
  check_chunks-filled,
}

module _ (digest : String → String) (cursor : Option QueueCursor) (next : QueueCursor) (e : Encoded)
    (others : List Encoded) where
  abbrev pub encoded : List Encoded
  encoded = e ∷ others

  abbrev pub new_cursor : QueueCursor
  new_cursor = next_cursor digest cursor next encoded

  -- The group that the publication makes.
  abbrev pub new_group : Bool → ChunkGroup
  new_group ready = record {
    first = suc (last_seq cursor);
    commit = some (commit_of digest cursor next encoded);
    files = filled digest (entries digest (last_seq cursor) next.baseline encoded) [];
    ready = ready;
  }

  later_of_new : is_later cursor (commit_of digest cursor next encoded) ≡ true
  later_of_new = elim cursor as (λ k. is_later k (commit_of digest k next encoded) ≡ true) [
    | none ↦ refl
    | some k ↦ ground arith
  ]

  -- What the loop makes of the new group, with the cursor before it or its own.
  recover_groups_new :
      (ready : Bool)
      → recover_groups digest cursor (new_group ready ∷ [])
        ≡ record { error = none; cursor = some new_cursor; groups = new_group true ∷ [] }
  unfolding recover_groups
  recover_groups_new ready =
      recover_groups_later digest cursor _ (commit_of digest cursor next encoded) _ ready []
        later_of_new (check_chunks-filled digest (last_seq cursor) next.baseline encoded [])

  recover_groups_done :
      (ready : Bool)
      → recover_groups digest (some new_cursor) (new_group ready ∷ [])
        ≡ record { error = none; cursor = some new_cursor; groups = new_group true ∷ [] }
  unfolding recover_groups
  recover_groups_done ready =
      recover_groups_kept digest (some new_cursor) _ (commit_of digest cursor next encoded) _ ready
        [] (ground arith)

  IsOld-new_cursor : (g : ChunkGroup) → IsOld cursor g → IsOld (some new_cursor) g
  IsOld-new_cursor g h = record {
    commit = h.commit;
    has = h.has;
    old =
        elim cursor
            as (λ k.
              is_later k h.commit ≡ false
              → is_later (some (next_cursor digest k next encoded)) h.commit ≡ false) [
                | none ↦ λ old. absurd (ground (arith, old))
                | some k ↦ λ old. ground (arith, old)
              ]
          h.old;
    is_ready = h.is_ready;
    low = let le = h.low in omega arith;
  }

  All-IsOld :
      (groups : List ChunkGroup) → All (IsOld cursor) groups → All (IsOld (some new_cursor)) groups
  All-IsOld [] old = tt
  All-IsOld (g ∷ groups) (first, rest) = (IsOld-new_cursor g first, All-IsOld groups rest)

  new_group-IsOld : IsOld (some new_cursor) (new_group true)
  new_group-IsOld = record {
    commit = commit_of digest cursor next encoded;
    has = refl;
    old = ground arith;
    is_ready = refl;
    low = omega arith;
  }

module _ (digest : String → String) where
  recover_of :
      (d : Folder) (r : Recovery)
      → is_sound_cursor d.cursor ≡ true
      → recover_groups digest d.cursor d.groups ≡ r
      → recover digest d ≡ (r.error, record { cursor = r.cursor; stages = []; groups = r.groups })
  unfolding recover
  recover_of d r sound made = rw (sound, made) refl

  pub recover-IsSettled :
      (d : Folder) (stages : List Staging)
      → IsSettled d
      → recover digest (record d { stages = stages }) ≡ (none, record d { stages = [] })
  unfolding recover_groups
  recover-IsSettled d stages settled =
      recover_of (record d { stages = stages })
        (record { error = none; cursor = d.cursor; groups = d.groups }) settled.sound
        (ap (recover_groups digest d.cursor) (sym (append-nil d.groups))
          ∙ recover_groups-IsOld digest d.cursor d.groups [] settled.old
          ∙ ap {A = List ChunkGroup} {B = Recovery}
              (λ groups. record { error = none; cursor = d.cursor; groups = groups })
              (append-nil d.groups))

module _ (digest : String → String) (d : Folder) (next : QueueCursor) (e : Encoded)
    (others : List Encoded) where
  abbrev pub published : Folder
  published = record {
    cursor = some (new_cursor digest d.cursor next e others);
    stages = [];
    groups = d.groups ++ (new_group digest d.cursor next e others true ∷ []);
  }

  pub recover_renamed :
      (stages : List Staging) (ready : Bool)
      → IsSettled d
      → recover digest (record d {
        stages = stages;
        groups = d.groups ++ (new_group digest d.cursor next e others ready ∷ []);
      })
        ≡ (none, published)
  recover_renamed stages ready settled =
      recover_of digest _
        (record { error = none; cursor = published.cursor; groups = published.groups })
        settled.sound
        (recover_groups-IsOld digest d.cursor d.groups _ settled.old
          ∙ ap {A = Recovery} {B = Recovery} (λ r. record r { groups = d.groups ++ r.groups })
              (recover_groups_new digest d.cursor next e others ready))

  pub recover_moved :
      (stages : List Staging) (ready : Bool)
      → IsSettled d
      → recover digest (record {
        cursor = some (new_cursor digest d.cursor next e others);
        stages = stages;
        groups = d.groups ++ (new_group digest d.cursor next e others ready ∷ []);
      })
        ≡ (none, published)
  recover_moved stages ready settled =
      recover_of digest _
        (record { error = none; cursor = published.cursor; groups = published.groups })
        (ground arith)
        (recover_groups-IsOld digest _ d.groups _
            (All-IsOld digest d.cursor next e others d.groups settled.old)
          ∙ ap {A = Recovery} {B = Recovery} (λ r. record r { groups = d.groups ++ r.groups })
              (recover_groups_done digest d.cursor next e others ready))

  pub published-IsSettled : IsSettled d → IsSettled published
  published-IsSettled settled = record {
    sound = ground arith;
    old =
        All-append (IsOld published.cursor) d.groups _
          (All-IsOld digest d.cursor next e others d.groups settled.old)
          (new_group-IsOld digest d.cursor next e others, tt);
  }
