-- ===== src/Codex/Store/Commit.antt =====
-- What a write leaves behind.
use skillmeter_claude_code_m.Prelude.{
  Bool, true, false, Option, none, some, Bool-cases, ◌≡◌, ◌≢◌, ◌⊎◌, not, if_given, if◌then◌else◌,
  inl, inr, refl, sym, ap, ◌∙◌, arith,
}
use skillmeter_claude_code_m.Codex.Record.{ConsentRecord, validate_policy, raw_record}
use skillmeter_claude_code_m.Codex.Record.RoundTrip.{validate_policy-raw_record}
use skillmeter_claude_code_m.Codex.Store.{
  ConsentError, observer_failed, durability_uncertain, json, marked, Disk, Marking, Run, acquired,
  taken, unavailable, Read, nothing, loaded, Saved, saved, observe, read_policy, Expected,
  is_usable, is_expected, or_empty, publish, roll_back, is_failed, observation_failed, io_failed,
  policy_busy, bumped, unlock, publish_valid, change, change_read, change_locked, change_after,
  mutate,
}

pub observe-file : (m : Marking) (d : Disk) → (observe m d).disk.file ≡ d.file
unfolding observe
observe-file m d = ground arith

pub read_policy-file : (m : Marking) (d : Disk) → (read_policy m d).1.file ≡ d.file
unfolding read_policy
read_policy-file m d = ground (arith, observe-file m d)

abbrev pub read_of : Option ConsentRecord → Read
read_of none = nothing
read_of (some p) = loaded p

abbrev pub disk_of : ConsentRecord → Disk
disk_of p = record { file = json (raw_record p); marker = marked }

read-disk_of :
    (m : Marking) (p q : ConsentRecord)
    → validate_policy (raw_record p) ≡ some q
    → read_policy m (disk_of p) ≡ (loaded p, disk_of p)
unfolding read_policy observe
read-disk_of m p q e = rw (e) (ap (λ r. (loaded r, disk_of p)) (validate_policy-raw_record p q e))

module _ (run : Run) (previous : Option ConsentRecord) (next : ConsentRecord) where
  publish-saved :
      (d d' : Disk) (p : ConsentRecord) (durable : Bool)
      → publish run previous next d ≡ (saved p durable, d')
      → (p ≡ next) × (d' ≡ disk_of next)
  unfolding publish observe
  publish-saved d d' p durable e = ground (arith, e)

  roll_back-file :
      (created : Bool) (error : ConsentError) (x : Disk)
      → (roll_back run previous created error x).1.file ≡ x.file
  unfolding roll_back
  roll_back-file created error x = ground arith

  -- A result that keeps the file, unless its error says that the record was saved.
  abbrev Spares : Disk → Saved × Disk → Type 0
  Spares d r =
      (e : ConsentError)
      → r.0 ≡ Saved.failed e
      → e ≢ observer_failed
      → e ≢ durability_uncertain
      → r.1.file ≡ d.file

  roll_back-Spares :
      (created : Bool) (error : ConsentError) (x d : Disk)
      → x.file ≡ d.file
      → Spares d (roll_back run previous created error x)
  roll_back-Spares created error x d same e _ _ _ = roll_back-file created error x ∙ same

  -- The errors after the rename are the two.
  told-Spares :
      (created : Bool) (error : ConsentError) (x d : Disk)
      → (error ≡ observer_failed) ⊎ (error ≡ durability_uncertain)
      → Spares d (roll_back run previous created error x)
  unfolding roll_back
  told-Spares created error x d (inl told) e same o u = absurd (o (cc (told, same)))
  told-Spares created error x d (inr told) e same o u = absurd (u (cc (told, same)))

  publish-Spares : (d : Disk) → run.owned ≡ true → Spares d (publish run previous next d)
  unfolding publish
  publish-Spares d owned =
      let seen = observe run.marking d in
      let kept = observe-file run.marking d in
      let before = if run.owned then seen.disk else run.interference seen.disk in
      let after : Disk = record before { file = json (raw_record next) } in
      let same : before.file ≡ d.file = rw (owned) kept in
      if_given (Spares d) (not seen.ok) _ _
        (λ _. roll_back-Spares seen.created observation_failed seen.disk d kept)
        (λ _.
          if_given (Spares d) (not run.writes) _ _
            (λ _. roll_back-Spares seen.created io_failed seen.disk d kept)
            (λ _.
              if_given (Spares d) (not run.owned) _ _
                (λ _. roll_back-Spares seen.created policy_busy before d same)
                (λ _.
                  if_given (Spares d) (not run.renames) _ _
                    (λ _. roll_back-Spares seen.created io_failed before d same)
                    (λ _.
                      if_given (Spares d) (not (run.observer next)) _ _
                        (λ _. told-Spares seen.created observer_failed after d (inl refl))
                        (λ _.
                          if_given (Spares d) (is_failed run.sync) _ _
                            (λ _. told-Spares seen.created durability_uncertain after d (inr refl))
                            (λ _ e saved_so o u. cc (saved_so)))))))

  publish-failed :
      (d d' : Disk) (e : ConsentError)
      → run.owned ≡ true
      → publish run previous next d ≡ (Saved.failed e, d')
      → e ≢ observer_failed
      → e ≢ durability_uncertain
      → d'.file ≡ d.file
  publish-failed d d' e owned same o u =
      sym (ap (λ r. r.1.file) same) ∙ publish-Spares d owned e (ap (λ r. r.0) same) o u

-- The disk at the moment at which the lock is taken.
abbrev pub locked_disk : Run → Disk → Disk
locked_disk run d = run.meanwhile (read_policy run.reading d).1

-- A write between its locked reading and its end.
module _ (mutator : ConsentRecord → ConsentRecord) (expected : Expected) (run : Run) where
  record Changed (previous : Option ConsentRecord) (p : ConsentRecord) (d' : Disk) : Type 0 where
    fits : is_expected previous expected ≡ true
    made : p ≡ bumped (mutator (or_empty previous))
    disk : d' ≡ disk_of p
    valid : (q : ConsentRecord) × (validate_policy (raw_record p) ≡ some q)

  publish_valid-saved :
      (previous : Option ConsentRecord) (next : ConsentRecord) (v : Option ConsentRecord)
      (d d' : Disk) (p : ConsentRecord) (durable : Bool)
      → publish_valid run previous next v d ≡ (saved p durable, d')
      → (p ≡ next) × (d' ≡ disk_of next) × ((q : ConsentRecord) × (v ≡ some q))
  publish_valid-saved previous next none d d' p durable e = ground (arith, e)
  publish_valid-saved previous next (some q) d d' p durable e =
      let done = publish-saved run previous next d d' p durable e in (done.0, done.1, (q, refl))

  publish_valid-failed :
      (previous : Option ConsentRecord) (next : ConsentRecord) (v : Option ConsentRecord)
      (d d' : Disk) (e : ConsentError)
      → run.owned ≡ true
      → publish_valid run previous next v d ≡ (Saved.failed e, d')
      → e ≢ observer_failed
      → e ≢ durability_uncertain
      → d'.file ≡ d.file
  publish_valid-failed previous next none d d' e owned same o u = ground (arith, same)
  publish_valid-failed previous next (some q) d d' e owned same o u =
      publish-failed run previous next d d' e owned same o u

  change-saved :
      (previous : Option ConsentRecord) (d d' : Disk) (p : ConsentRecord) (durable : Bool)
      → change mutator expected run previous d ≡ (saved p durable, d')
      → Changed previous p d'
  unfolding change
  change-saved previous d d' p durable e = elim (Bool-cases (is_expected previous expected)) [
    | inr stale ↦ ground (arith, stale, e)
    | inl fits ↦
        let next = bumped (mutator (or_empty previous)) in
        let done =
          publish_valid-saved previous next (validate_policy (raw_record next)) d d' p durable
            (rw fits at e) in
        record {
          fits = fits;
          made = done.0;
          disk = done.1 ∙ ap disk_of (sym done.0);
          valid = (done.2.0, ap (λ r. validate_policy (raw_record r)) done.0 ∙ done.2.1);
        }
  ]

  change-failed :
      (previous : Option ConsentRecord) (d d' : Disk) (e : ConsentError)
      → run.owned ≡ true
      → change mutator expected run previous d ≡ (Saved.failed e, d')
      → e ≢ observer_failed
      → e ≢ durability_uncertain
      → d'.file ≡ d.file
  unfolding change
  change-failed previous d d' e owned same o u =
      let next = bumped (mutator (or_empty previous)) in
      ground (
        arith,
        same,
        publish_valid-failed previous next (validate_policy (raw_record next)) d d' e owned,
        o,
        u,
      )

  change_read-saved :
      (r : Read × Disk) (d' : Disk) (p : ConsentRecord) (durable : Bool)
      → change_read mutator expected run r ≡ (saved p durable, d')
      → (previous : Option ConsentRecord) × (r.0 ≡ read_of previous) × Changed previous p d'
  change_read-saved (nothing, d) d' p durable e = (none, refl, change-saved none d d' p durable e)
  change_read-saved (loaded q, d) d' p durable e =
      (some q, refl, change-saved (some q) d d' p durable e)
  change_read-saved (Read.failed error, d) d' p durable e = ground (arith, e)

  pub change_read-failed :
      (r : Read × Disk) (d' : Disk) (e : ConsentError)
      → run.owned ≡ true
      → change_read mutator expected run r ≡ (Saved.failed e, d')
      → e ≢ observer_failed
      → e ≢ durability_uncertain
      → d'.file ≡ r.1.file
  change_read-failed (nothing, d) d' e owned same o u = change-failed none d d' e owned same o u
  change_read-failed (loaded q, d) d' e owned same o u =
      change-failed (some q) d d' e owned same o u
  change_read-failed (Read.failed error, d) d' e owned same o u = ground (arith, same)

  abbrev pub Saves : Disk → ConsentRecord → Disk → Type 0
  Saves d p d' =
      (previous : Option ConsentRecord) × ((read_policy run.reading_again (locked_disk run d)).0
        ≡ read_of previous)
      × (is_expected previous expected ≡ true)
      × (p ≡ bumped (mutator (or_empty previous)))
      × ((m : Marking) → read_policy m d' ≡ (loaded p, d'))
      × (validate_policy (raw_record p) ≡ some p)

  unlock-saved :
      (unlocks : Bool) (r : Saved × Disk) (p : ConsentRecord) (durable : Bool) (d' : Disk)
      → unlock unlocks r ≡ (saved p durable, d')
      → r ≡ (saved p durable, d')
  unlock-saved true r p durable d' e = e
  unlock-saved false (result, d) p durable d' e = absurd (ground (arith, e))

  change_locked-Saves :
      (d d' : Disk) (p : ConsentRecord) (durable : Bool)
      → change_locked mutator expected run run.lock (locked_disk run d) ≡ (saved p durable, d')
      → Saves d p d'
  change_locked-Saves d d' p durable e =
      elim run.lock
          as (λ l.
            change_locked mutator expected run l (locked_disk run d) ≡ (saved p durable, d')
            → Saves d p d') [
              | taken ↦ λ h. ground (arith, h)
              | unavailable ↦ λ h. ground (arith, h)
              | acquired ↦ λ h.
                  let done =
                    change_read-saved (read_policy run.reading_again (locked_disk run d)) d' p
                      durable
                      (unlock-saved run.unlocks
                        (change_read mutator expected run
                          (read_policy run.reading_again (locked_disk run d)))
                        p durable d' h) in
                  (
                    done.0,
                    done.1,
                    done.2.fits,
                    done.2.made,
                    λ m. rw (done.2.disk) (read-disk_of m p done.2.valid.0 done.2.valid.1),
                    done.2.valid.1
                        ∙ ap (λ r. some r)
                            (validate_policy-raw_record p done.2.valid.0 done.2.valid.1),
                  )
            ]
        e

  change_after-Saves :
      (r : Read × Disk) (d d' : Disk) (p : ConsentRecord) (durable : Bool)
      → r ≡ read_policy run.reading d
      → change_after mutator expected run r ≡ (saved p durable, d')
      → Saves d p d'
  change_after-Saves (nothing, x) d d' p durable same e =
      change_locked-Saves d d' p durable (rw (ap (λ t. t.1) same) at e)
  change_after-Saves (loaded q, x) d d' p durable same e =
      change_locked-Saves d d' p durable (rw (ap (λ t. t.1) same) at e)
  change_after-Saves (Read.failed error, x) d d' p durable same e = ground (arith, e)

-- A write that reports success has written the record that was the expected one when the lock was
-- held, changed as asked and with the next revision, or the first record where none was there; and
-- every later reading returns it.
pub mutate_lem :
    (mutator : ConsentRecord → ConsentRecord) (expected : Expected) (run : Run) (d d' : Disk)
    (p : ConsentRecord) (durable : Bool)
    → mutate mutator expected run d ≡ (saved p durable, d')
    → Saves mutator expected run d p d'
unfolding mutate
mutate_lem mutator expected run d d' p durable e = elim (Bool-cases (is_usable expected)) [
  | inl usable ↦
      change_after-Saves mutator expected run (read_policy run.reading d) d d' p durable refl
        (rw usable at e)
  | inr not_usable ↦ ground (arith, not_usable, e)
]
