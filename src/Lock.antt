-- ===== src/Lock.antt =====
-- The lock of shared/lib/credential-lock.js: `readOwner`, `sameOwner` and the steps of `acquireLock`
-- and of its release, as a relation between the states of a file system that several processes
-- share. A call of `acquireLock` has a number, a process and the UUID it drew. The nested call that
-- takes a reaper lock has the number of the steps that lead to it. SHA-256 over the name and the
-- token is `reaper_of`, and the pattern of a UUID is `is_uuid`. Process ids may be used again: a
-- process here is one incarnation.
mod Invariant
mod Frame
mod Moves
mod Exclusion
mod Tests
use skillmeter_claude_code_m.Prelude.{
  ℕ, zero, Bool, true, false, not, ◌&&◌, ◌||◌, Option, none, some, String, ltb, ◌==◌, str_eq, ◌≡◌,
  ◌≢◌, if◌then◌else◌,
}

pub record Owner : Type 0 where
  pub pid : ℕ
  pub token : String

-- A parsed owner file: `pid` is `none` unless it is a safe integer, `token` unless it is a string,
-- and `version` is `none` where it is not written, `some none` where it is no number.
pub record OwnerFile : Type 0 where
  pub pid : Option ℕ
  pub token : Option String
  pub version : Option (Option ℕ)

-- What a path holds: nothing, what cannot be read or parsed, or a parsed value.
pub data Content : Type 0 where
  absent garbled : Content
  written : OwnerFile → Content

-- `undefined`, `null` and an owner.
pub data Reading : Type 0 where
  not_found malformed : Reading
  found : Owner → Reading

abbrev pub version_is_known : Option (Option ℕ) → Bool
version_is_known none = true
version_is_known (some none) = false
version_is_known (some (some v)) = v == 2

module _ (is_uuid : String → Bool) where
  abbrev checked_owner : Option ℕ → Option String → Bool → Reading
  checked_owner none token known = malformed
  checked_owner (some pid) none known = malformed
  checked_owner (some pid) (some token) known =
      if not (ltb 0 pid)
      then malformed
      else if not (is_uuid token) || not known
      then malformed
      else found (record { pid = pid; token = token })

  unfoldable pub read_owner : Content → Reading
  read_owner absent = not_found
  read_owner garbled = malformed
  read_owner (written o) = checked_owner o.pid o.token (version_is_known o.version)

unfoldable pub same_owner : Reading → Owner → Bool
same_owner not_found observed = false
same_owner malformed observed = false
same_owner (found o) observed = o.pid == observed.pid && str_eq o.token observed.token

-- A lock of its own, or the reaper lock for a path and the dead owner seen there.
pub data Target : Type 0 where
  own : String → Target
  guard : String → Owner → Target

-- How far a call has come: it has read another owner, found it dead, published its lock, read the
-- same owner again under the reaper lock, found it dead again, seen that it still holds its lock.
pub data Phase : Type 0 where
  idle closed : Phase
  observed suspecting matched reaping : String → Owner → Phase
  holding releasing : Target → Phase

pub data Life : Type 0 where
  unborn alive gone : Life

pub record System : Type 0 where
  pub files : String → Content
  pub phase : ℕ → Phase
  pub life : ℕ → Life

unfoldable pub set_file : String → Content → (String → Content) → String → Content
set_file p v files q = if str_eq p q then v else files q

unfoldable pub set_at {ℓ} : {A : Type ℓ} → ℕ → A → (ℕ → A) → ℕ → A
set_at c q f d = if c == d then q else f d

-- The processes that make calls, the UUIDs the calls draw, and the names of the reaper locks.
pub record World : Type 0 where
  pub process : ℕ → ℕ
  pub pid_of : ℕ → ℕ
  pub token : ℕ → String
  pub reaper_of : String → String → String
  pub is_uuid : String → Bool

module _ (w : World) where
  abbrev pub owner : ℕ → Owner
  owner c = record { pid = w.pid_of (w.process c); token = w.token c }

  abbrev pub owner_file : ℕ → Content
  owner_file c = written (record {
    pid = some (w.pid_of (w.process c));
    token = some (w.token c);
    version = some (some 2);
  })

  abbrev pub path : Target → String
  path (own f) = f
  path (guard f o) = w.reaper_of f o.token

  -- `process.kill(pid, 0)` fails with ESRCH: no process that runs has the id.
  unfoldable pub Dead : System → ℕ → Type 0
  Dead s pid = (i : ℕ) → w.pid_of i ≡ pid → s.life i ≢ alive

  abbrev pub to_phase : System → ℕ → Phase → System
  to_phase s c q = record s { phase = set_at c q s.phase }

  abbrev pub put : System → ℕ → Phase → String → Content → System
  put s c q p v = record s { phase = set_at c q s.phase; files = set_file p v s.files }

  -- One step of the call `c`.
  pub data Move (s : System) (c : ℕ) : System → Type 0 where
    publish :
        (f : String)
        → s.phase c ≡ idle
        → s.files f ≡ absent
        → Move s c (put s c (holding (own f)) f (owner_file c))
    observe :
        (f : String) (o : Owner)
        → s.phase c ≡ idle
        → read_owner w.is_uuid (s.files f) ≡ found o
        → Move s c (to_phase s c (observed f o))
    suspect :
        (f : String) (o : Owner)
        → s.phase c ≡ observed f o
        → Dead s o.pid
        → Move s c (to_phase s c (suspecting f o))
    publish_guard :
        (f : String) (o : Owner)
        → s.phase c ≡ suspecting f o
        → s.files (w.reaper_of f o.token) ≡ absent
        → Move s c (put s c (holding (guard f o)) (w.reaper_of f o.token) (owner_file c))
    give_up : (f : String) (o : Owner) → (s.phase c ≡ observed f o) → Move s c (to_phase s c closed)
    lose_guard :
        (f : String) (o : Owner) → s.phase c ≡ suspecting f o → Move s c (to_phase s c closed)
    match_again :
        (f : String) (o o' : Owner)
        → s.phase c ≡ holding (guard f o)
        → read_owner w.is_uuid (s.files f) ≡ found o'
        → same_owner (found o') o ≡ true
        → Move s c (to_phase s c (matched f o))
    confirm :
        (f : String) (o : Owner)
        → s.phase c ≡ matched f o
        → Dead s o.pid
        → Move s c (to_phase s c (reaping f o))
    spare :
        (f : String) (o : Owner)
        → s.phase c ≡ matched f o
        → Move s c (to_phase s c (holding (guard f o)))
    remove :
        (f : String) (o : Owner)
        → s.phase c ≡ reaping f o
        → Move s c (put s c (holding (guard f o)) f absent)
    check_own :
        (t : Target) (o : Owner)
        → s.phase c ≡ holding t
        → read_owner w.is_uuid (s.files (path t)) ≡ found o
        → same_owner (found o) (owner c) ≡ true
        → Move s c (to_phase s c (releasing t))
    release : (t : Target) → s.phase c ≡ releasing t → Move s c (put s c closed (path t) absent)

  -- A process that runs moves one of its calls, or a process starts or ends.
  pub data Step (s : System) : System → Type 0 where
    move : {s' : System} (c : ℕ) → s.life (w.process c) ≡ alive → Move s c s' → Step s s'
    start : (i : ℕ) → s.life i ≡ unborn → Step s (record s { life = set_at i alive s.life })
    die : (i : ℕ) → s.life i ≡ alive → Step s (record s { life = set_at i gone s.life })

  -- At first no call has begun, and no path holds what reads as an owner.
  pub record IsInitial (s : System) : Type 0 where
    pub quiet : (c : ℕ) → s.phase c ≡ idle
    pub unowned : (p : String) (o : Owner) → read_owner w.is_uuid (s.files p) ≢ found o

  pub data Reach : System → Type 0 where
    initial : {s : System} → IsInitial s → Reach s
    later : {s s' : System} → Reach s → Step s s' → Reach s'
