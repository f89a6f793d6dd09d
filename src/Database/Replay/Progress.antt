-- ===== src/Database/Replay/Progress.antt =====
-- The status step, a second time.
use agenda_agent.Prelude.{
  ==_refl, Bool-cases, List, ap, arith, false, if◌then◌else◌, inl, inr, some, true, ◌==◌, ◌∙◌, ◌≡◌,
}
use agenda_agent.Database.Progress.{StatusWrite, apply_application_status, moved}
use agenda_agent.Database.Tables.{ApplicationRow, StatusHistoryRow, application_by_id}
use agenda_agent.Domain.Digest.{Digests, Uuid}
use agenda_agent.Domain.Enums.{ApplicationStatus, same_status, same_status_refl}
use agenda_agent.Domain.Status.{next_application_status}
use agenda_agent.Domain.Status.Laws.{next_again}
use agenda_agent.Prelude.Rows.{find-update_where}

abbrev pub repeated_status : StatusWrite → StatusWrite
repeated_status w = record w { changed = false }

-- The application as the status step leaves it.
abbrev pub settled : ApplicationStatus → ApplicationRow → ApplicationRow
settled after m =
    let target = next_application_status m.status after in
    if same_status target m.status then m else moved target m

module _ (d : Digests) (source : Uuid) (after : ApplicationStatus) (m : ApplicationRow)
    (rows : List ApplicationRow) (history : List StatusHistoryRow) where
  -- The step leaves the settled application under its identifier.
  pub find-apply_application_status :
      application_by_id rows m.id ≡ some m
      → application_by_id (apply_application_status d source after m rows history).applications m.id
        ≡ some (settled after m)
  unfolding apply_application_status
  find-apply_application_status found =
      let target = next_application_status m.status after in
      elim (Bool-cases (same_status target m.status)) [
        | inl same ↦ rw same found
        | inr other ↦ rw other (
            find-update_where (λ (x : ApplicationRow). x.id == m.id)
              (λ (x : ApplicationRow). x.id == m.id) (moved target) rows (λ y. ground arith) found
            ∙ ap some (rw (==_refl m.id)))
      ]

  -- Where the status has its target, the step changes nothing.
  status_still :
      same_status (next_application_status m.status after) m.status ≡ true
      → apply_application_status d source after m rows history
        ≡ record { applications = rows; history = history; changed = false }
  unfolding apply_application_status
  status_still same = rw same

settled-still :
    (after : ApplicationStatus) (m : ApplicationRow)
    → same_status (next_application_status (settled after m).status after) (settled after m).status
      ≡ true
settled-still after m =
    elim (Bool-cases (same_status (next_application_status m.status after) m.status)) [
      | inl same ↦ rw same same
      | inr other ↦ rw (other, next_again m.status after) (same_status_refl _)
    ]

pub apply_application_status_again :
    (d : Digests) (source : Uuid) (after : ApplicationStatus) (m : ApplicationRow) (w : StatusWrite)
    → apply_application_status d source after (settled after m) w.applications w.history
      ≡ repeated_status w
apply_application_status_again d source after m w =
    status_still d source after (settled after m) w.applications w.history (settled-still after m)
