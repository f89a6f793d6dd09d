-- ===== src/Database/Progress.antt =====
-- persistence/domain_processing.py: `_apply_application_status`, the second step of a transition.
use agenda_agent.Prelude.{
  Bool, List, [], false, if◌then◌else◌, true, ◌++◌, ◌+◌, ◌==◌, ◌∷◌, exists, update_where,
}
use agenda_agent.Database.Tables.{ApplicationRow, StatusHistoryRow}
use agenda_agent.Domain.Digest.{
  Digests, Uuid, application_history_namespace, uuid_part, status_part,
}
use agenda_agent.Domain.Enums.{ApplicationStatus, same_status, status_code}
use agenda_agent.Domain.Status.{next_application_status}

-- `insert … on_conflict_do_nothing(index_elements=["id"])`
unfoldable pub add_status_history : StatusHistoryRow → List StatusHistoryRow → List StatusHistoryRow
add_status_history row rows =
    if exists (λ (m : StatusHistoryRow). m.id == row.id) rows then rows else rows ++ row ∷ []

abbrev pub status_history_row :
    Digests → Uuid → ApplicationRow → ApplicationStatus → StatusHistoryRow
status_history_row d source m target = record {
  id = d.uuid5 application_history_namespace (
      uuid_part source
      ∷ uuid_part m.id
      ∷ status_part (status_code m.status)
      ∷ status_part (status_code target)
      ∷ []);
  application_id = m.id;
  from_status = m.status;
  to_status = target;
  source_email_id = source;
}

-- `application.status = …; application.version += 1`
abbrev pub moved : ApplicationStatus → ApplicationRow → ApplicationRow
moved target m = record m { status = target; version = m.version + 1 }

pub record StatusWrite : Type 0 where
  pub applications : List ApplicationRow
  pub history : List StatusHistoryRow
  pub changed : Bool

unfoldable pub apply_application_status :
    Digests
    → Uuid
    → ApplicationStatus
    → ApplicationRow
    → List ApplicationRow
    → List StatusHistoryRow
    → StatusWrite
unfolding add_status_history
apply_application_status d source after m rows history =
    let target = next_application_status m.status after in
    if same_status target m.status
    then record { applications = rows; history = history; changed = false }
    else record {
      applications = update_where (λ (x : ApplicationRow). x.id == m.id) (moved target) rows;
      history = add_status_history (status_history_row d source m target) history;
      changed = true;
    }
