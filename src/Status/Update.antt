-- ===== src/Status/Update.antt =====
-- Concurrent updates of the refresh status by the compare-and-update loop.
use mathlib.Core.Path.{subst}
use skillmeter_claude_code_m.Prelude.{
  ℕ, zero, suc, ◌≡◌, ◌<◌, inl, inr, refl, ◌∙◌, false, String, arith, ltb, ◌==◌, Bool-cases,
}
use skillmeter_claude_code_m.Status.{
  Status, StatusFile, Surroundings, missing, foreign, stored, empty_status, read_license_status,
  current_revision, stamped, update_loop, update_license_status, max_update_attempts,
}

-- No record of another schema is in the file.
abbrev pub IsOwn : StatusFile → Type 0
IsOwn missing = Unit
IsOwn (foreign n) = ⊥
IsOwn (stored s) = Unit

pub revision-read_license_status :
    (file : StatusFile) (context : String)
    → IsOwn file
    → (read_license_status file context).revision ≡ current_revision file
unfolding read_license_status current_revision
revision-read_license_status missing context own = refl
revision-read_license_status (foreign n) context own = absurd own
revision-read_license_status (stored s) context own = ground arith

module _ (around : Surroundings) (mutate : Status → Status) where
  -- The record that a loop with some tries left commits, from a file on: the change of the very
  -- file that the rename replaces, which has taken only other processes' writes in the meantime.
  pub data Committed : ℕ → StatusFile → Status → Type 0 where
    now :
        {k : ℕ} {file : StatusFile}
        → around.before_rename k (around.before_check k file) ≡ file
        → Committed
            (suc k)
            file
            (stamped mutate (around.context k) (read_license_status file (around.reading k)))
    later :
        {k : ℕ} {file : StatusFile} {r : Status}
        → Committed k (around.before_check k file) r
        → Committed (suc k) file r

  unfoldable pub Commits : ℕ → Status × StatusFile → StatusFile → Type 0
  Commits n result file = (r : Status) × (result ≡ (r, stored r)) × Committed n file r

  committed_later :
      (k : ℕ) (file : StatusFile) (result : Status × StatusFile)
      → Commits k result (around.before_check k file)
      → Commits (suc k) result file
  unfolding Commits
  committed_later k file result (r, e, c) = (r, e, later c)

  module _ (own : (k : ℕ) (file : StatusFile) → IsOwn file → IsOwn (around.before_check k file))
      (counts : (k : ℕ) (file : StatusFile)
        → current_revision (around.before_check k file) ≡ current_revision file
        → around.before_check k file ≡ file)
      (closed : (k : ℕ) (file : StatusFile) → around.before_rename k file ≡ file) where
    earlier :
        (k q : ℕ) (file : StatusFile)
        → q < suc k
        → ((f : StatusFile) → around.before_check q f ≡ f)
        → (read_license_status file (around.reading k)).revision ≡ current_revision file
        → (current_revision (around.before_check k file)
            == (read_license_status file (around.reading k)).revision)
          ≡ false
        → q < k
    earlier k q file le quiet same e = elim (Bool-cases (ltb q k)) [
      | inl lt ↦ ground arith
      | inr ge ↦
          let last : q ≡ k = ground arith in
          let still : around.before_check k file ≡ file =
            subst (λ j. around.before_check j file ≡ file) last (quiet file) in
          let e' = rw (still, same) at e in ground arith
    ]

    update_loop-Commits :
        (n q : ℕ) (last : Status) (file : StatusFile)
        → q < n
        → ((f : StatusFile) → around.before_check q f ≡ f)
        → IsOwn file
        → Commits n (update_loop n around mutate last file) file
    unfolding update_loop Commits
    update_loop-Commits zero q last file le quiet is_own = absurd (ground arith)
    update_loop-Commits (suc k) q last file le quiet is_own =
        let same = revision-read_license_status file (around.reading k) is_own in
        let next =
          stamped mutate (around.context k) (read_license_status file (around.reading k)) in
        let checked = around.before_check k file in
        elim (Bool-cases
          (current_revision checked == (read_license_status file (around.reading k)).revision)) [
            | inl e ↦
                let equal : current_revision checked ≡ current_revision file = ground (arith, e) in
                rw e (next, refl, now (closed k checked ∙ counts k file equal))
            | inr e ↦
                let r =
                  update_loop-Commits k q next checked (earlier k q file le quiet same e) quiet
                    (own k file is_own) in
                rw e (committed_later k file (update_loop k around mutate next checked) r)
          ]

-- An update whose check and rename nothing comes between replaces the very record that it changed:
-- where the writes of other processes keep the schema and change the revision, none of them falls
-- between a check of the revision and the rename behind it, and one of the five tries meets no write
-- between its read and its check, the update writes its change applied to the record that the
-- rename replaces, with the next revision and the context of that try; whatever others wrote during
-- the update stands before it.
pub update_license_status_lem :
    (around : Surroundings) (mutate : Status → Status) (file : StatusFile) (q : ℕ)
    → ((k : ℕ) (f : StatusFile) → IsOwn f → IsOwn (around.before_check k f))
    → ((k : ℕ) (f : StatusFile)
        → current_revision (around.before_check k f) ≡ current_revision f
        → around.before_check k f ≡ f)
    → ((k : ℕ) (f : StatusFile) → around.before_rename k f ≡ f)
    → q < max_update_attempts
    → ((f : StatusFile) → around.before_check q f ≡ f)
    → IsOwn file
    → Commits around mutate max_update_attempts (update_license_status around mutate file) file
unfolding update_license_status
update_license_status_lem around mutate file q own counts closed le quiet is_own =
    update_loop-Commits around mutate own counts closed max_update_attempts q empty_status file le
      quiet is_own
