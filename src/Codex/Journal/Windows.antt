-- ===== src/Codex/Journal/Windows.antt =====
-- The excluded ranges of a journal against the windows in which a transcript grew, each with the
-- state of telemetry at both ends.
use mathlib.Core.Path.{subst}
use skillmeter_claude_code_m.Prelude.{
  ℕ, ◌≤◌, Bool, true, false, not, ◌&&◌, ◌||◌, Bool-cases, Option, none, some, List, [], ◌∷◌, String,
  str_eq, if◌then◌else◌, past_guard, past_stop, ◌≡◌, inl, inr, refl, sym, ap, ◌∙◌, eq_iff, arith,
}
use skillmeter_claude_code_m.Codex.Journal.{
  Journal, is_valid, Boundary, Observation, seen, written, failed, fresh, stays_on, continued,
  is_same_source, next_journal, is_replaced, is_proved, observe_consent,
}
use skillmeter_claude_code_m.Codex.Journal.Ranges.{
  is_covered-extend_old, is_covered-extend_new, fresh-IsValid, continued-IsValid,
}
use skillmeter_claude_code_m.Codex.Journal.Log.{
  Window, was_on, continues, Log, windows_to, logged, watch, IsHonest,
}

-- The journal that a boundary leaves, by its owner, its epoch and its excluded ranges.
abbrev noted : Boundary → String → String → List (ℕ × ℕ) → Journal
noted p owner epoch excluded = record {
  epoch = epoch;
  owner = owner;
  file_id = p.file_id;
  observed = p.size;
  excluded = excluded;
  enabled = p.enabled;
  stamp = p.stamp;
  authorization = p.authorization;
}

-- The journal is what the last boundary left.
record IsNoted (j : Journal) (last : Option Boundary) : Type 0 where
  from : Boundary
  owner : String
  epoch : String
  excluded : List (ℕ × ℕ)
  known : last ≡ some from
  same : noted from owner epoch excluded ≡ j

-- Both.
record IsTrue (j : Journal) (last : Option Boundary) (windows : List Window) : Type 0 where
  is_noted : IsNoted j last
  honest : IsHonest j windows

fresh-IsTrue : (b : Boundary) → IsTrue (fresh b) (some b) []
unfolding fresh
fresh-IsTrue b = record {
  is_noted = record {
    from = b;
    owner = b.owner;
    epoch = b.uuid;
    excluded = (0, b.size) ∷ [];
    known = refl;
    same = refl;
  };
  honest = record { valid = fresh-IsValid b; watched = λ x lt e. ground (arith, lt, e) };
}

continued-IsHonest :
    (b p : Boundary) (j : Journal) (windows : List Window)
    → j.observed ≡ p.size
    → stays_on b j ≡ was_on p b
    → j.observed ≤ b.size
    → IsHonest j windows
    → IsHonest (continued b j) (record { opened = p; closed = b } ∷ windows)
unfolding continued is_valid
continued-IsHonest b p j windows end on_both le honest = record {
  valid = continued-IsValid b j honest.valid le;
  watched = λ x lt e. elim (Bool-cases (stays_on b j)) [
    | inl on ↦
        let was = sym on_both ∙ on in
        ground (arith, lt, le, on, was, end, rw on at e, honest.watched x)
    | inr off ↦ ground (
      arith,
      lt,
      le,
      off,
      rw off at e,
      honest.watched x,
      is_covered-extend_old j.excluded j.observed b.size x le,
      is_covered-extend_new j.excluded j.observed b.size x 0 j.observed honest.valid,
    )
  ];
}

continued-IsNoted :
    (b : Boundary) (j : Journal)
    → j.file_id ≡ b.file_id
    → j.authorization ≡ b.authorization
    → IsNoted (continued b j) (some b)
unfolding continued
continued-IsNoted b j file authorization =
    let next = continued b j in
    record {
      from = b;
      owner = j.owner;
      epoch = j.epoch;
      excluded = next.excluded;
      known = refl;
      same =
          ap {A = String} {B = Journal}
            (λ f. record next { file_id = f; authorization = b.authorization }) (sym file)
          ∙ ap {A = String} {B = Journal} (λ a. record next { authorization = a })
              (sym authorization);
    }

next-IsTrue :
    (b p : Boundary) (j : Journal) (windows : List Window)
    → continues p b ≡ is_same_source b j
    → j.observed ≡ p.size
    → stays_on b j ≡ was_on p b
    → IsHonest j windows
    → IsTrue (next_journal b j) (some b) (windows_to b (some p) windows)
next-IsTrue b p j windows agree end on_both honest = elim (Bool-cases (is_same_source b j)) [
  | inl same ↦
      let file : j.file_id ≡ b.file_id = (eq_iff _ _).0 (ground (arith, same)) in
      let authorization : j.authorization ≡ b.authorization =
        (eq_iff _ _).0 (ground (arith, same)) in
      rw (agree, same)
        (record {
          is_noted = continued-IsNoted b j file authorization;
          honest = continued-IsHonest b p j windows end on_both (ground (arith, same)) honest;
        })
  | inr other ↦ rw (agree, other) (fresh-IsTrue b)
]

-- A journal that takes over another file, if it does.
abbrev taken : Boundary → Journal → Bool → Journal
taken b j test = if test then record j { file_id = b.file_id } else j

-- `continues` against `is_same_source`, on the outcomes of their tests: where a journal takes over
-- another file, and where it does not.
taken_over :
    (rebase authorized long same on proved itself : Bool)
    → itself ≡ true
    → (not same && not rebase && on) && proved ≡ true
    → (not rebase && authorized && long && (same || on && proved))
      ≡ (not rebase && authorized && itself && long)
taken_over rebase authorized long true on proved itself i e = absurd (ground (arith, e))
taken_over true authorized long false on proved itself i e = absurd (ground (arith, e))
taken_over false authorized long false false proved itself i e = absurd (ground (arith, e))
taken_over false authorized long false true false itself i e = absurd (ground (arith, e))
taken_over false authorized long false true true false i e = absurd (ground (arith, i))
taken_over false true true false true true true i e = refl
taken_over false true false false true true true i e = refl
taken_over false false long false true true true i e = refl

left_alone :
    (rebase authorized long same on proved : Bool)
    → (not same && not rebase && on) && proved ≡ false
    → (not rebase && authorized && long && (same || on && proved))
      ≡ (not rebase && authorized && same && long)
left_alone true authorized long same on proved e = refl
left_alone false false long same on proved e = refl
left_alone false true true true on proved e = refl
left_alone false true false true on proved e = refl
left_alone false true true false on proved e = e
left_alone false true false false on proved e = refl

taken-IsTrue :
    (b p : Boundary) (owner epoch : String) (excluded : List (ℕ × ℕ)) (windows : List Window)
    (test : Bool)
    → (is_replaced b (noted p owner epoch excluded) && is_proved b (noted p owner epoch excluded))
      ≡ test
    → IsHonest (noted p owner epoch excluded) windows
    → IsTrue
        (next_journal b (taken b (noted p owner epoch excluded) test))
        (some b)
        (windows_to b (some p) windows)
unfolding is_valid
taken-IsTrue b p owner epoch excluded windows true e honest =
    next-IsTrue b p _ windows
      (taken_over b.rebase _ _ _ _ (is_proved b (noted p owner epoch excluded)) _
        ((eq_iff b.file_id b.file_id).1 refl) e)
      refl refl (record { valid = honest.valid; watched = honest.watched })
taken-IsTrue b p owner epoch excluded windows false e honest =
    next-IsTrue b p _ windows (left_alone b.rebase _ _ _ _ _ e) refl refl honest

written-IsTrue :
    (b p : Boundary) (owner epoch : String) (excluded : List (ℕ × ℕ)) (windows : List Window)
    (k : Journal)
    → observe_consent b (some (noted p owner epoch excluded)) ≡ written k
    → IsHonest (noted p owner epoch excluded) windows
    → IsTrue k (some b) (windows_to b (some p) windows)
unfolding observe_consent
written-IsTrue b p owner epoch excluded windows k e honest =
    let j = noted p owner epoch excluded in
    let e' = past_guard _ _ _ _ (ap not honest.valid) e in
    elim (Bool-cases (str_eq j.owner b.owner)) [
      | inr foreign ↦ absurd (ground (arith, past_stop _ _ _ _ (ap not foreign) e'))
      | inl own ↦
          let e'' = past_guard _ _ _ _ (ap not own) e' in
          elim (Bool-cases (is_replaced b j && not b.verify_replacement)) [
            | inr goes ↦
                let made = past_guard _ _ _ _ goes e'' in
                let test = is_replaced b j && is_proved b j in
                let same : next_journal b (taken b j test) ≡ k = ground (arith, made) in
                subst (λ q. IsTrue q (some b) (windows_to b (some p) windows)) same
                  (taken-IsTrue b p owner epoch excluded windows test refl honest)
            | inl waits ↦ absurd (ground (arith, past_stop _ _ _ _ waits e''))
          ]
    ]

noted_again :
    (b : Boundary) (j k : Journal) (last : Option Boundary) (windows : List Window)
    → observe_consent b (some j) ≡ written k
    → IsTrue j last windows
    → IsTrue k (some b) (windows_to b last windows)
noted_again b j k last windows e true_so =
    let n = true_so.is_noted in
    subst (λ l. IsTrue k (some b) (windows_to b l windows)) (sym n.known)
      (written-IsTrue b n.from n.owner n.epoch n.excluded windows k
        (ap (λ q. observe_consent b (some q)) n.same ∙ e)
        (subst (λ q. IsHonest q windows) (sym n.same) true_so.honest))

-- Of a log: there is a journal where there is a last boundary, and what it says is true.
record IsKnown (log : Log) : Type 0 where
  none_yet : log.journal ≡ none → log.last ≡ none
  told : (j : Journal) → log.journal ≡ some j → IsTrue j log.last log.windows

first_noted :
    (b : Boundary) (k : Journal) (last : Option Boundary) (windows : List Window)
    → observe_consent b none ≡ written k
    → last ≡ none
    → IsTrue k (some b) (windows_to b last windows)
unfolding observe_consent
first_noted b k last windows e empty =
    let same : fresh b ≡ k = ground (arith, e) in
    rw (empty) (subst (λ q. IsTrue q (some b) []) same (fresh-IsTrue b))

some_written :
    (b : Boundary) (journal : Option Journal) (last : Option Boundary) (windows : List Window)
    (k : Journal)
    → observe_consent b journal ≡ written k
    → (journal ≡ none → last ≡ none)
    → ((j : Journal) → journal ≡ some j → IsTrue j last windows)
    → IsTrue k (some b) (windows_to b last windows)
some_written b none last windows k e empty told = first_noted b k last windows e (empty refl)
some_written b (some j) last windows k e empty told = noted_again b j k last windows e (told j refl)

logged-IsKnown :
    (b : Boundary) (o : Observation) (log : Log)
    → observe_consent b log.journal ≡ o
    → IsKnown log
    → IsKnown (logged b o log)
logged-IsKnown b (seen k) log made known = known
logged-IsKnown b (failed error) log made known = known
logged-IsKnown b (written k) log made known = record {
  none_yet = λ e. absurd (ground (arith, e));
  told = λ j e.
      let same : k ≡ j = ground (arith, e) in
      subst (λ x. IsTrue x (some b) (windows_to b log.last log.windows)) same
        (some_written b log.journal log.last log.windows k made known.none_yet known.told);
}

watch-IsKnown :
    (boundaries : List Boundary) (log : Log) → IsKnown log → IsKnown (watch boundaries log)
watch-IsKnown [] log known = known
watch-IsKnown (b ∷ boundaries) log known =
    watch-IsKnown boundaries _ (logged-IsKnown b _ log refl known)

abbrev pub unwatched : Log
unwatched = record { journal = none; last = none; windows = [] }

-- After any boundaries of a transcript, from before the first, the journal is valid, and a byte
-- below its end that it does not exclude was written between two boundaries that it noted one after
-- the other, each of which continued the one before since the journal's epoch began, and at both of
-- which telemetry was on by the same choices: nothing that was written while it was off, or while
-- the choices changed, or before the first boundary, may be read.
pub watch-IsHonest :
    (boundaries : List Boundary) (j : Journal)
    → (watch boundaries unwatched).journal ≡ some j
    → IsHonest j (watch boundaries unwatched).windows
watch-IsHonest boundaries j e =
    let start : IsKnown unwatched = record {
      none_yet = λ _. refl;
      told = λ k absent. absurd (ground (arith, absent));
    } in
    ((watch-IsKnown boundaries unwatched start).told j e).honest
