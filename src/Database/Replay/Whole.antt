-- ===== src/Database/Replay/Whole.antt =====
-- A whole transition, a second time.
use agenda_agent.Prelude.{
  ok, ok-injective, sym, ◌≡◌, >>=-eq-ok, arith, false, some, ◌∙◌, Bool-cases, Option-cases, ap, inl,
  inr, true, err, none, value_error, ◌⊎◌,
}
use agenda_agent.Database.ActionStep.{ActionWrite, apply_action}
use agenda_agent.Database.Link.{ApplicationWrite, resolve_application_for_write, link_changed}
use agenda_agent.Database.Tables.{Database, SourceEmailRow, ApplicationRow, email_by_id}
use agenda_agent.Database.EventStep.{EventWrite, apply_event}
use agenda_agent.Domain.Digest.{Digests}
use agenda_agent.Domain.Processing.{DomainMutationResult, DomainTransitionPlan}
use agenda_agent.Database.Transition.{
  write_plan, assembled, status_step, write_event, write_action, apply_transition,
}
use agenda_agent.Database.Replay.Link.{IsLinked, resolve-IsLinked, resolve_again}
use agenda_agent.Domain.Enums.{ApplicationStatus}
use agenda_agent.Prelude.Rows.{HasKey}
use agenda_agent.Database.Replay.Progress.{
  settled, repeated_status, apply_application_status_again, find-apply_application_status,
}
use agenda_agent.Database.Replay.Event.{repeated_event, apply_event_again}
use agenda_agent.Database.Replay.Action.{repeated_action, apply_action_again}

-- The steps of a transition that succeeds.
pub record Steps (d : Digests) (db : Database) (p : DomainTransitionPlan) (source : SourceEmailRow)
    : Type 0 where
  pub a : ApplicationWrite
  pub v : EventWrite
  pub x : ActionWrite
  pub linked : resolve_application_for_write p source db.emails db.applications ≡ ok a
  pub dated :
      apply_event d p.source_email_id a.application.id p.event db.events db.event_history ≡ ok v
  pub listed :
      apply_action p.source_email_id a.application.id p.action_item db.links db.actions ≡ ok x

module _ (d : Digests) (db : Database) (p : DomainTransitionPlan) (source : SourceEmailRow) where
  pub write_plan-Steps :
      (s : Steps d db p source)
      → write_plan d db p source ≡ ok (assembled db p s.a (status_step d db p s.a) s.v s.x)
  unfolding write_plan
  write_plan-Steps s = rw (s.linked, s.dated, s.listed)

  pub Steps_of-write_plan :
      (r : Database × DomainMutationResult)
      → write_plan d db p source ≡ ok r
      → (s : Steps d db p source) × (r ≡ assembled db p s.a (status_step d db p s.a) s.v s.x)
  unfolding write_plan
  Steps_of-write_plan r h =
      let (a, linked, h₁) =
        >>=-eq-ok (resolve_application_for_write p source db.emails db.applications)
          (write_event d db p) h in
      let (v, dated, h₂) =
        >>=-eq-ok
          (apply_event d p.source_email_id a.application.id p.event db.events db.event_history)
          (write_action d db p a) h₁ in
      let (x, listed, h₃) =
        >>=-eq-ok
          (apply_action p.source_email_id a.application.id p.action_item db.links db.actions)
          (λ x. ok (assembled db p a (status_step d db p a) v x)) h₂ in
      (
        record { a = a; v = v; x = x; linked = linked; dated = dated; listed = listed },
        sym (ok-injective h₃),
      )

-- Two applications that the plan cannot tell apart.
link_changed-settled :
    (p : DomainTransitionPlan) (after : ApplicationStatus) (m : ApplicationRow)
    → link_changed p (settled after m) ≡ link_changed p m
link_changed-settled p after m = ground arith

id-settled : (after : ApplicationStatus) (m : ApplicationRow) → (settled after m).id ≡ m.id
id-settled after m = ground arith

module _ (d : Digests) (db : Database) (p : DomainTransitionPlan) (source : SourceEmailRow)
    (keys : HasKey (λ (m : ApplicationRow). m.id) db.applications)
    (found : email_by_id db.emails p.source_email_id ≡ some source) (s : Steps d db p source) where
  abbrev after_first : Database
  after_first = (assembled db p s.a (status_step d db p s.a) s.v s.x).0

  abbrev taken : ApplicationWrite
  taken = record {
    emails = s.a.emails;
    applications = (status_step d db p s.a).applications;
    application = settled p.application_status_after s.a.application;
    changed = false;
  }

  linked_first : IsLinked p s.a
  linked_first = resolve-IsLinked p db.applications keys source db.emails s.a found s.linked

  same_id : taken.application.id ≡ s.a.application.id
  same_id = id-settled p.application_status_after s.a.application

  -- The steps of the second run.
  steps_again : Steps d after_first p linked_first.source
  unfolding assembled status_step
  steps_again = record {
    a = taken;
    v = repeated_event s.v;
    x = repeated_action s.x;
    linked =
        resolve_again p linked_first.source s.a.emails _ taken.application s.a.application.id
          linked_first.linked
          (find-apply_application_status d p.source_email_id p.application_status_after
            s.a.application s.a.applications db.status_history linked_first.found)
          (link_changed-settled p p.application_status_after s.a.application
            ∙ linked_first.accepted);
    dated = rw same_id (
        apply_event_again d p.source_email_id s.a.application.id p.event db.events db.event_history
          s.v s.dated);
    listed = rw same_id (
        apply_action_again p.source_email_id s.a.application.id p.action_item db.links db.actions
          s.x s.listed);
  }

  status_again : status_step d after_first p taken ≡ repeated_status (status_step d db p s.a)
  unfolding assembled status_step
  status_again =
      apply_application_status_again d p.source_email_id p.application_status_after s.a.application
        (status_step d db p s.a)

  assembled_again :
      assembled after_first p taken
        (status_step d after_first p taken)
        (repeated_event s.v)
        (repeated_action s.x)
      ≡ (
        after_first,
        record (assembled db p s.a (status_step d db p s.a) s.v s.x).1 { changed = false },
      )
  unfolding assembled
  assembled_again = rw status_again (rw same_id)

  write_plan_again :
      write_plan d after_first p linked_first.source
      ≡ ok (
        after_first,
        record (assembled db p s.a (status_step d db p s.a) s.v s.x).1 { changed = false },
      )
  unfolding steps_again
  write_plan_again =
      write_plan-Steps d after_first p linked_first.source steps_again ∙ ap ok assembled_again

  found_again : email_by_id after_first.emails p.source_email_id ≡ some linked_first.source
  unfolding assembled
  found_again = linked_first.found_source

-- The transaction of a plan that may change something, if the email is there.
apply_transition-write :
    (d : Digests) (db : Database) (p : DomainTransitionPlan) (source : SourceEmailRow)
    → p.mutations_allowed ≡ true
    → email_by_id db.emails p.source_email_id ≡ some source
    → apply_transition d db p ≡ write_plan d db p source
unfolding apply_transition
apply_transition-write d db p source allowed found = simp (allowed, found)

apply_transition-missing :
    (d : Digests) (db : Database) (p : DomainTransitionPlan)
    → p.mutations_allowed ≡ true
    → email_by_id db.emails p.source_email_id ≡ none
    → apply_transition d db p ≡ err (value_error "source email does not exist")
unfolding apply_transition
apply_transition-missing d db p allowed missing = simp (allowed, missing)

apply_transition-refused :
    (d : Digests) (db : Database) (p : DomainTransitionPlan) (r : Database × DomainMutationResult)
    → p.mutations_allowed ≡ false
    → apply_transition d db p ≡ ok r
    → r.0 ≡ db
unfolding apply_transition
apply_transition-refused d db p r refused h =
    sym (ap (λ (x : Database × DomainMutationResult). x.0) (ok-injective (simp refused at h)))

-- A transition that succeeds left the tables as they are, or went through the four steps.
pub apply_transition-cases :
    (d : Digests) (db : Database) (p : DomainTransitionPlan) (r : Database × DomainMutationResult)
    → apply_transition d db p ≡ ok r
    → (r.0 ≡ db)
      ⊎ ((source : SourceEmailRow) × ((email_by_id db.emails p.source_email_id ≡ some source)
            × (s : Steps d db p source) × (r
                ≡ assembled db p s.a (status_step d db p s.a) s.v s.x)))
apply_transition-cases d db p r h = elim (Bool-cases p.mutations_allowed) [
  | inr refused ↦ inl (apply_transition-refused d db p r refused h)
  | inl allowed ↦ elim (Option-cases (email_by_id db.emails p.source_email_id)) [
    | inl missing ↦ cc (apply_transition-missing d db p allowed missing)
    | inr (source, found) ↦
        let (s, e) =
          Steps_of-write_plan d db p source r
            (sym (apply_transition-write d db p source allowed found) ∙ h) in
        inr (source, (found, s, e))
  ]
]

again_written :
    (d : Digests) (db : Database) (p : DomainTransitionPlan) (r : Database × DomainMutationResult)
    (source : SourceEmailRow) (keys : HasKey (λ (m : ApplicationRow). m.id) db.applications)
    (found : email_by_id db.emails p.source_email_id ≡ some source) (s : Steps d db p source)
    → p.mutations_allowed ≡ true
    → r ≡ assembled db p s.a (status_step d db p s.a) s.v s.x
    → apply_transition d r.0 p ≡ ok (r.0, record r.1 { changed = false })
again_written d db p r source keys found s allowed e = rw e (
    apply_transition-write d (after_first d db p source keys found s) p
      (linked_first d db p source keys found s).source allowed
      (found_again d db p source keys found s)
    ∙ write_plan_again d db p source keys found s)

again_allowed :
    (d : Digests) (db : Database) (p : DomainTransitionPlan) (r : Database × DomainMutationResult)
    → HasKey (λ (m : ApplicationRow). m.id) db.applications
    → p.mutations_allowed ≡ true
    → apply_transition d db p ≡ ok r
    → apply_transition d r.0 p ≡ ok (r.0, record r.1 { changed = false })
again_allowed d db p r keys allowed h =
    elim (Option-cases (email_by_id db.emails p.source_email_id)) [
      | inl missing ↦ cc (apply_transition-missing d db p allowed missing)
      | inr (source, found) ↦
          let (s, e) =
            Steps_of-write_plan d db p source r
              (sym (apply_transition-write d db p source allowed found) ∙ h) in
          again_written d db p r source keys found s allowed e
    ]

again_refused :
    (d : Digests) (db : Database) (p : DomainTransitionPlan) (r : Database × DomainMutationResult)
    → p.mutations_allowed ≡ false
    → apply_transition d db p ≡ ok r
    → apply_transition d r.0 p ≡ ok (r.0, record r.1 { changed = false })
unfolding apply_transition
again_refused d db p r refused h =
    let e = ok-injective (simp refused at h) in rw (← e) (simp refused)

-- A plan that was applied may be applied again on the tables that it left: it succeeds, returns the
-- same identities, reports no change and leaves every table as it is. The identifiers of the
-- applications are distinct.
pub apply_transition_again :
    (d : Digests) (db : Database) (p : DomainTransitionPlan) (r : Database × DomainMutationResult)
    → HasKey (λ (m : ApplicationRow). m.id) db.applications
    → apply_transition d db p ≡ ok r
    → apply_transition d r.0 p ≡ ok (r.0, record r.1 { changed = false })
apply_transition_again d db p r keys h = elim (Bool-cases p.mutations_allowed) [
  | inl allowed ↦ again_allowed d db p r keys allowed h
  | inr refused ↦ again_refused d db p r refused h
]
