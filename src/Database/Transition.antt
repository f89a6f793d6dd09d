-- ===== src/Database/Transition.antt =====
-- persistence/domain_processing.py: `apply_transition`, the four steps in one transaction.
use agenda_agent.Prelude.{
  Result, [], err, false, if◌then◌else◌, none, not, ok, some, value_error, ◌>>=◌, ◌||◌,
}
use agenda_agent.Database.ActionStep.{ActionWrite, apply_action}
use agenda_agent.Database.Link.{ApplicationWrite, resolve_application_for_write}
use agenda_agent.Database.Progress.{StatusWrite, apply_application_status}
use agenda_agent.Database.Tables.{Database, SourceEmailRow, email_by_id}
use agenda_agent.Database.EventStep.{EventWrite, apply_event}
use agenda_agent.Domain.Digest.{Digests}
use agenda_agent.Domain.Processing.{DomainMutationResult, DomainTransitionPlan}

-- The tables behind the four steps, and what the transition reports.
unfoldable pub assembled :
    Database
    → DomainTransitionPlan
    → ApplicationWrite
    → StatusWrite
    → EventWrite
    → ActionWrite
    → Database × DomainMutationResult
assembled db p a s v x = (
  record {
    emails = a.emails;
    applications = s.applications;
    status_history = s.history;
    events = v.events;
    event_history = v.history;
    actions = x.actions;
    links = db.links;
  },
  record {
    application_id = some a.application.id;
    event_id = v.event_id;
    action_item_ids = x.action_ids;
    changed = a.changed || s.changed || v.changed || x.changed;
    no_mutation_reason = none;
  },
)

-- The status step of the plan, behind the first step.
unfoldable pub status_step :
    Digests → Database → DomainTransitionPlan → ApplicationWrite → StatusWrite
status_step d db p a =
    apply_application_status d p.source_email_id p.application_status_after a.application
      a.applications db.status_history

-- The three parts of the body, from the last.
abbrev pub write_action :
    Digests
    → Database
    → DomainTransitionPlan
    → ApplicationWrite
    → EventWrite
    → Result (Database × DomainMutationResult)
write_action d db p a v = do
  x ← apply_action p.source_email_id a.application.id p.action_item db.links db.actions
  ok (assembled db p a (status_step d db p a) v x)

abbrev pub write_event :
    Digests
    → Database
    → DomainTransitionPlan
    → ApplicationWrite
    → Result (Database × DomainMutationResult)
write_event d db p a = do
  v ← apply_event d p.source_email_id a.application.id p.event db.events db.event_history
  write_action d db p a v

unfoldable pub write_plan :
    Digests
    → Database
    → DomainTransitionPlan
    → SourceEmailRow
    → Result (Database × DomainMutationResult)
unfolding assembled status_step
write_plan d db p source = do
  a ← resolve_application_for_write p source db.emails db.applications
  write_event d db p a

unfoldable pub apply_transition :
    Digests → Database → DomainTransitionPlan → Result (Database × DomainMutationResult)
apply_transition d db p =
    if not p.mutations_allowed
    then ok (
      db,
      record {
        application_id = if p.create_application then none else some p.application_id;
        event_id = none;
        action_item_ids = [];
        changed = false;
        no_mutation_reason = p.no_mutation_reason;
      },
    )
    else elim (email_by_id db.emails p.source_email_id) [
      | none ↦ err (value_error "source email does not exist")
      | some source ↦ write_plan d db p source
    ]
