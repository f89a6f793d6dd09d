-- ===== src/Examples/Database.antt =====
-- Runs of a transition on small tables.
use agenda_agent.Examples.Samples.{
  digests, database, database_after, plan, written, application_row,
}
use agenda_agent.Prelude.{false, ok, refl, some, ◌≡◌}
use agenda_agent.Database.Tables.{ApplicationRow, application_by_id}
use agenda_agent.Database.Invariant.Monotone.{IsForward, apply_transition-IsForward}
use agenda_agent.Domain.Enums.{ApplicationStatus}
use agenda_agent.Database.Transition.{apply_transition, write_plan}
use agenda_agent.Database.Replay.Whole.{apply_transition_again}
use agenda_agent.Database.Link.{resolve_application_for_write}
use agenda_agent.Database.Progress.{apply_application_status}
use agenda_agent.Domain.Status.{next_application_status}
use agenda_agent.Database.EventStep.{apply_event}
use agenda_agent.Database.ActionStep.{apply_action}

plan_run : apply_transition digests database plan ≡ ok (database_after, written)
unfolding apply_transition write_plan resolve_application_for_write apply_application_status
    next_application_status apply_event apply_action
plan_run = refl

apply_transition_again_example :
    apply_transition digests database_after plan
    ≡ ok (database_after, record written { changed = false })
apply_transition_again_example =
    apply_transition_again digests database plan (database_after, written) (refl, tt) plan_run

apply_transition-IsForward_example :
    (m' : ApplicationRow) × (application_by_id database_after.applications 11 ≡ some m')
    × IsForward (application_row ApplicationStatus.applied 2) m'
apply_transition-IsForward_example =
    apply_transition-IsForward digests database plan (database_after, written) 11
      (application_row ApplicationStatus.applied 2) (refl, tt) plan_run refl
