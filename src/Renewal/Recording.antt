-- ===== src/Renewal/Recording.antt =====
-- What a renewal records: the status file after an update that no other writer disturbs.
use skillmeter_claude_code_m.Prelude.{
  ◌≡◌, refl, String, arith, eq_iff, Bool-cases, inl, inr, ◌==◌, str_eq,
}
use skillmeter_claude_code_m.Status.{
  Status, StatusFile, stored, read_license_status, current_revision, stamped, update_loop,
  undisturbed, update_license_status,
}

pub update_license_status-quiet :
    (context : String) (mutate : Status → Status) (file : StatusFile)
    → update_license_status (undisturbed context) mutate file ≡ (
      stamped mutate context (read_license_status file context),
      stored (stamped mutate context (read_license_status file context)),
    )
unfolding update_license_status update_loop
update_license_status-quiet context mutate file =
    elim (Bool-cases (current_revision file == (read_license_status file context).revision)) [
      | inl e ↦ rw e refl
      | inr e ↦ rw e refl
    ]

pub read_license_status-stamped :
    (context : String) (mutate : Status → Status) (prev : Status)
    → read_license_status (stored (stamped mutate context prev)) context
      ≡ stamped mutate context prev
unfolding read_license_status
read_license_status-stamped context mutate prev = elim (Bool-cases (str_eq context "")) [
  | inl e ↦ rw e refl
  | inr e ↦ ground (arith, eq_iff context context)
]
