-- ===== src/Lock/Tests.antt =====
-- A process that takes a lock and ends, and another that reaps it: the results at these states.
use skillmeter_claude_code_m.Prelude.{ℕ, zero, suc, ◌+◌, true, ◌≡◌, ◌≢◌, refl, arith, some, none}
use skillmeter_claude_code_m.Examples.{letters, letters-injective}
use skillmeter_claude_code_m.Lock.{
  Owner, absent, written, found, malformed, read_owner, same_owner, idle, Life, unborn, alive, gone,
  System, World, owner, set_at, set_file, Dead, move, start, die, Reach, initial, later, publish,
  observe, suspect, publish_guard, match_again, confirm,
}
use skillmeter_claude_code_m.Lock.Invariant.{IsSound, Reads}
use skillmeter_claude_code_m.Lock.Exclusion.{lock_is_exclusive, reaper_removes_the_dead}

abbrev world : World
world = record {
  process = λ c. c;
  pid_of = λ i. i + 1;
  token = letters;
  reaper_of = λ f t. "reap";
  is_uuid = λ t. true;
}

world-IsSound : IsSound world
world-IsSound = record {
  fresh = letters-injective;
  uuids = λ c. refl;
  positive = λ i. ground arith;
}

abbrev nothing : System
nothing = record { files = λ p. absent; phase = λ c. idle; life = λ i. unborn }

abbrev first_owner : Owner
first_owner = owner world 0

record Run : Type 0 where
  last : System
  reach : Reach world last

nothing_read : (o : Owner) → read_owner world.is_uuid absent ≢ found o
unfolding read_owner
nothing_read o = ground arith

-- Both processes run.
unfoldable started : Run
unfolding set_at
started = record {
  last = _;
  reach =
      later
        (later
          (initial {s = nothing} (record { quiet = λ c. refl; unowned = λ p o. nothing_read o }))
          (start 0 refl))
        (start 1 refl);
}

-- The first has taken the lock.
unfoldable taken : Run
unfolding started set_at
taken = record { last = _; reach = later started.reach (move 0 refl (publish "lock" refl refl)) }

first_gone : (life : ℕ → Life) (i : ℕ) → i + 1 ≡ 1 → set_at 0 gone life i ≢ alive
unfolding set_at
first_gone life zero e = ground arith
first_gone life (suc i) e = absurd (omega (arith, e))

-- It has ended, and the second is about to remove its file.
unfoldable reaped : Run
unfolding started taken set_at set_file read_owner same_owner Dead letters
reaped =
    let r1 = later taken.reach (die 0 refl) in
    let r2 = later r1 (move 1 refl (observe "lock" first_owner refl refl)) in
    let r3 =
      later r2 (move 1 refl (suspect "lock" first_owner refl (first_gone taken.last.life))) in
    let r4 = later r3 (move 1 refl (publish_guard "lock" first_owner refl refl)) in
    let r5 = later r4 (move 1 refl (match_again "lock" first_owner first_owner refl refl refl)) in
    let r6 =
      later r5 (move 1 refl (confirm "lock" first_owner refl (first_gone taken.last.life))) in
    record { last = _; reach = r6 }

lock_is_exclusive_example : ◌≡◌ {A = ℕ} 0 0
unfolding started taken set_at
lock_is_exclusive_example =
    lock_is_exclusive world world-IsSound taken.reach 0 0 "lock" refl refl refl refl

reaper_removes_the_dead_example :
    Reads world reaped.last.files "lock" first_owner
    × ((d : ℕ) → Reads world reaped.last.files "lock" (owner world d) → reaped.last.life d ≡ gone)
unfolding started taken reaped set_at
reaper_removes_the_dead_example =
    reaper_removes_the_dead world world-IsSound reaped.reach 1 "lock" first_owner refl refl

-- A record of a later version, or whose process id is 0, is no owner.
other_versions :
    (read_owner
        (λ t. true)
        (written (record { pid = some 7; token = some "t"; version = some (some 3) }))
      ≡ malformed)
    × (read_owner (λ t. true) (written (record { pid = some 0; token = some "t"; version = none }))
        ≡ malformed)
    × (read_owner (λ t. true) (written (record { pid = some 7; token = some "t"; version = none }))
        ≡ found (record { pid = 7; token = "t" }))
unfolding read_owner
other_versions = (refl, refl, refl)
