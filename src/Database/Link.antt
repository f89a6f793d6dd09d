-- ===== src/Database/Link.antt =====
-- persistence/domain_processing.py: `_resolve_application_for_write`, the first step of a transition,
-- over the tables that it reads and writes. The advisory lock and `FOR UPDATE` hold other
-- transactions back while this one runs; here a transaction runs alone.
use agenda_agent.Prelude.{
  Bool, List, Option, Result, [], err, false, if◌then◌else◌, integrity_error, is_some, none, not,
  ok, runtime_error, same_optional, some, true, value_error, ◌&&◌, ◌++◌, ◌==◌, ◌>>=◌, ◌||◌, ◌∷◌,
  exists, update_where,
}
use agenda_agent.Database.Tables.{
  ApplicationRow, SourceEmailRow, application_by_id, open_applications,
}
use agenda_agent.Domain.Digest.{Uuid}
use agenda_agent.Domain.Enums.{ApplicationStatus}
use agenda_agent.Domain.Processing.{DomainTransitionPlan}
use agenda_agent.Prelude.Text.{Text, same_optional_text}

-- The row that a plan creates.
abbrev pub planned_application : DomainTransitionPlan → ApplicationRow
planned_application p = record {
  id = p.application_id;
  company_id = p.company_id;
  raw_company_name = p.raw_company_name;
  role_name = p.role_name;
  role_normalized = p.role_normalized;
  status = ApplicationStatus.unknown;
  version = 1;
}

-- Only spaces: refused by the check `raw_company_name_not_empty`.
abbrev pub only_spaces : Text → Bool
only_spaces [] = true
only_spaces (c ∷ t) = c == 32 && only_spaces t

abbrev pub blank_company : Option Text → Bool
blank_company none = false
blank_company (some name) = only_spaces name

-- `session.add(application)` and `flush`
unfoldable pub insert_application :
    DomainTransitionPlan → List ApplicationRow → Result (List ApplicationRow × ApplicationRow)
insert_application p rows =
    if exists (λ (m : ApplicationRow). m.id == p.application_id) rows
    then err (integrity_error "applications_pkey")
    else if blank_company p.raw_company_name
    then err (integrity_error "raw_company_name_not_empty")
    else ok (rows ++ planned_application p ∷ [], planned_application p)

-- `candidates[0] if candidates else None`, and the refusal of several
unfoldable pub take_candidate :
    DomainTransitionPlan
    → List ApplicationRow
    → List ApplicationRow
    → Result (List ApplicationRow × ApplicationRow)
unfolding insert_application
take_candidate p rows [] = insert_application p rows
take_candidate p rows (c ∷ []) = ok (rows, c)
take_candidate p rows (c ∷ c' ∷ cs) =
    err (runtime_error "application identity became ambiguous during persistence")

-- The candidates that a creating plan looks for first.
abbrev pub candidates_for_write : DomainTransitionPlan → List ApplicationRow → List ApplicationRow
candidates_for_write p rows = elim p.company_id [
  | none ↦ []
  | some company ↦
      if p.reviewed_create_new_application
      then []
      else open_applications rows company p.role_normalized
]

-- The application of an email that has none yet.
unfoldable pub choose_for_write :
    DomainTransitionPlan → List ApplicationRow → Result (List ApplicationRow × ApplicationRow)
unfolding take_candidate
choose_for_write p rows =
    if p.create_application
    then take_candidate p rows (candidates_for_write p rows)
    else elim (application_by_id rows p.application_id) [
      | none ↦ err (value_error "resolved application does not exist")
      | some m ↦ ok (rows, m)
    ]

-- The linked application is another one than the plan's, for no reason that the plan allows.
abbrev pub link_changed : DomainTransitionPlan → ApplicationRow → Bool
link_changed p m =
    not (m.id == p.application_id)
    && (not p.create_application
        || not (same_optional m.company_id p.company_id)
        || is_some p.role_normalized
          && not (same_optional_text m.role_normalized p.role_normalized))

abbrev pub link_email : Uuid → Uuid → List SourceEmailRow → List SourceEmailRow
link_email source application =
    update_where (λ (m : SourceEmailRow). m.id == source)
      (λ m. record m { application_id = some application })

-- What the first step leaves: the tables, the application, and whether the email was linked now.
pub record ApplicationWrite : Type 0 where
  pub emails : List SourceEmailRow
  pub applications : List ApplicationRow
  pub application : ApplicationRow
  pub changed : Bool

-- `_resolve_application_for_write`
unfoldable pub resolve_application_for_write :
    DomainTransitionPlan
    → SourceEmailRow
    → List SourceEmailRow
    → List ApplicationRow
    → Result ApplicationWrite
unfolding choose_for_write
resolve_application_for_write p source emails rows = elim source.application_id [
  | some linked ↦ elim (application_by_id rows linked) [
    | none ↦ err (runtime_error "source email references a missing application")
    | some m ↦
        if link_changed p m
        then err (runtime_error "source-email application changed after resolution")
        else ok (record { emails = emails; applications = rows; application = m; changed = false })
  ]
  | none ↦ do
    (rows', m) ← choose_for_write p rows
    ok (record {
      emails = link_email source.id m.id emails;
      applications = rows';
      application = m;
      changed = true;
    })
]
