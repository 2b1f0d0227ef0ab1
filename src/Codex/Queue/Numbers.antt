-- ===== src/Codex/Queue/Numbers.antt =====
-- Publications one after the other, each of which may stop anywhere and the next begins with
-- `recover`, as `stage` does.
use mathlib.Core.Path.{subst}
use mathlib.Core.List.{append_assoc, append-nil}
use skillmeter_claude_code_m.Prelude.{
  ℕ, zero, suc, ◌+◌, true, Bool-cases, Option, none, some, List, [], ◌∷◌, ◌++◌, String, ltb, length,
  ◌≡◌, inl, inr, refl, sym, ap, ◌∙◌, arith,
}
use skillmeter_claude_code_m.Codex.Queue.{
  QueueCursor, QueueChunk, ChunkGroup, Folder, stopped_after, Encoded, RecoverError, last_seq,
  entries, chunks_of, publication, recover,
}
use skillmeter_claude_code_m.Codex.Queue.Settled.{IsSettled}
use skillmeter_claude_code_m.Codex.Queue.Recovered.{published, published-IsSettled, new_group}
use skillmeter_claude_code_m.Codex.Queue.Atomic.{publication_is_atomic}

-- What one call of `stage` has captured, and after how many steps it stops.
pub record Attempt : Type 0 where
  pub next : QueueCursor
  pub first : Encoded
  pub others : List Encoded
  pub stops : ℕ

abbrev pub empty_folder : Folder
empty_folder = record { cursor = none; stages = []; groups = [] }

abbrev seqs : List QueueChunk → List ℕ
seqs [] = []
seqs (chunk ∷ chunks) = chunk.seq ∷ seqs chunks

abbrev seqs_of : ChunkGroup → List ℕ
seqs_of g = elim g.commit [ none ↦ [] | some commit ↦ seqs commit.chunks ]

-- The numbers of all chunks, in the order of their groups.
abbrev pub all_seqs : List ChunkGroup → List ℕ
all_seqs [] = []
all_seqs (g ∷ groups) = seqs_of g ++ all_seqs groups

-- `k` numbers from `from` on.
abbrev pub numbers_from : ℕ → ℕ → List ℕ
numbers_from from zero = []
numbers_from from (suc k) = from ∷ numbers_from (suc from) k

numbers_from-append :
    (from k m : ℕ) → numbers_from from (k + m) ≡ numbers_from from k ++ numbers_from (from + k) m
numbers_from-append from zero m =
    let same : 0 + m ≡ m = omega arith in
    let start : from + 0 ≡ from = omega arith in rw (same, start) refl
numbers_from-append from (suc k) m =
    let same : suc k + m ≡ suc (k + m) = omega arith in
    let start : from + suc k ≡ suc from + k = omega arith in
    rw (same, start) (ap (λ l. from ∷ l) (numbers_from-append (suc from) k m))

module _ (digest : String → String) where
  abbrev attempt_from : Attempt → Option RecoverError × Folder → Folder
  attempt_from a (some error, d) = d
  attempt_from a (none, d) =
      stopped_after a.stops (publication digest d.cursor a.next (a.first ∷ a.others)) d

  abbrev pub attempt : Attempt → Folder → Folder
  attempt a d = attempt_from a (recover digest d)

  abbrev pub attempt_all : List Attempt → Folder → Folder
  attempt_all [] d = d
  attempt_all (a ∷ attempts) d = attempt_all attempts (attempt a d)

  seqs-entries :
      (seq reset : ℕ) (encoded : List Encoded)
      → seqs (chunks_of digest (entries digest seq reset encoded))
        ≡ numbers_from (suc seq) (length encoded)
  unfolding entries
  seqs-entries seq reset [] = refl
  seqs-entries seq reset (e ∷ encoded) =
      ap (λ l. suc seq ∷ l) (seqs-entries (suc seq) reset encoded)

  all_seqs-append : (xs ys : List ChunkGroup) → all_seqs (xs ++ ys) ≡ all_seqs xs ++ all_seqs ys
  all_seqs-append [] ys = refl
  all_seqs-append (g ∷ xs) ys =
      ap (λ l. seqs_of g ++ l) (all_seqs-append xs ys)
      ∙ sym (append_assoc (seqs_of g) (all_seqs xs) (all_seqs ys))

  -- `recover` gives a settled folder whose chunks have the numbers up to its cursor's.
  record IsCounted (d : Folder) : Type 0 where
    folder : Folder
    made : recover digest d ≡ (none, folder)
    settled : IsSettled folder
    all : all_seqs folder.groups ≡ numbers_from 1 (last_seq folder.cursor)

  published_seqs :
      (d : Folder) (next : QueueCursor) (e : Encoded) (others : List Encoded)
      → all_seqs d.groups ≡ numbers_from 1 (last_seq d.cursor)
      → all_seqs (published digest d next e others).groups
        ≡ numbers_from 1 (last_seq (published digest d next e others).cursor)
  published_seqs d next e others all =
      let made = entries digest (last_seq d.cursor) next.baseline (e ∷ others) in
      let from : suc (last_seq d.cursor) ≡ 1 + last_seq d.cursor = omega arith in
      let numbers : seqs (chunks_of digest made)
          ≡ numbers_from (1 + last_seq d.cursor) (suc (length others)) =
        seqs-entries (last_seq d.cursor) next.baseline (e ∷ others)
        ∙ ap (λ k. numbers_from k (suc (length others))) from in
      all_seqs-append d.groups (new_group digest d.cursor next e others true ∷ [])
      ∙ ap (λ l. l ++ (seqs (chunks_of digest made) ++ [])) all
      ∙ ap (λ l. numbers_from 1 (last_seq d.cursor) ++ l)
          (append-nil (seqs (chunks_of digest made)) ∙ numbers)
      ∙ sym (numbers_from-append 1 (last_seq d.cursor) (suc (length others)))

  stopped-IsCounted :
      (a : Attempt) (d : Folder)
      → IsSettled d
      → all_seqs d.groups ≡ numbers_from 1 (last_seq d.cursor)
      → IsCounted (attempt_from a (none, d))
  stopped-IsCounted a d settled all =
      let is = publication_is_atomic digest d a.next a.first a.others a.stops settled in
      elim (Bool-cases (ltb a.stops (length a.others + 4))) [
        | inl early ↦ record {
          folder = record d { stages = [] };
          made = rw (early) at is;
          settled = record { sound = settled.sound; old = settled.old };
          all = all;
        }
        | inr late ↦ record {
          folder = published digest d a.next a.first a.others;
          made = rw (late) at is;
          settled = published-IsSettled digest d a.next a.first a.others settled;
          all = published_seqs d a.next a.first a.others all;
        }
      ]

  attempt-IsCounted : (a : Attempt) (d : Folder) → IsCounted d → IsCounted (attempt a d)
  attempt-IsCounted a d counts =
      subst (λ r. IsCounted (attempt_from a r)) (sym counts.made)
        (stopped-IsCounted a counts.folder counts.settled counts.all)

  attempt_all-IsCounted :
      (attempts : List Attempt) (d : Folder) → IsCounted d → IsCounted (attempt_all attempts d)
  attempt_all-IsCounted [] d counts = counts
  attempt_all-IsCounted (a ∷ attempts) d counts =
      attempt_all-IsCounted attempts (attempt a d) (attempt-IsCounted a d counts)

  empty_folder-IsCounted : IsCounted empty_folder
  unfolding recover
  empty_folder-IsCounted = record {
    folder = empty_folder;
    made = refl;
    settled = record { sound = refl; old = tt };
    all = refl;
  }

  -- After any calls of `stage` on a new folder, each stopped wherever it was, `recover` finds no
  -- error, and the chunks in all groups have the numbers 1, 2, 3 and so on in their order, without
  -- a gap or a number twice, up to the number in the cursor.
  pub recover-all_seqs :
      (attempts : List Attempt)
      → ((recover digest (attempt_all attempts empty_folder)).0 ≡ none)
        × (all_seqs (recover digest (attempt_all attempts empty_folder)).1.groups
            ≡ numbers_from 1
                (last_seq (recover digest (attempt_all attempts empty_folder)).1.cursor))
  recover-all_seqs attempts =
      let counts = attempt_all-IsCounted attempts empty_folder empty_folder-IsCounted in
      subst (λ r. (r.0 ≡ none) × (all_seqs r.1.groups ≡ numbers_from 1 (last_seq r.1.cursor)))
        (sym counts.made) (refl, counts.all)
