-- ===== src/Service/Application.antt =====
-- application/domain_processing.py: `resolve_application`. A query of the store is a function of the
-- interface; a raised exception is an `err`.
pub mod Laws
use agenda_agent.Domain.Evidence.{RecruitmentEvidence, new_application_id}
use agenda_agent.Service.Store.{DomainStore}
use agenda_agent.Domain.Digest.{Digests, Uuid}
use agenda_agent.Prelude.{
  List, Option, Bool, Result, false, [], err, find, if◌then◌else◌, is_none, is_some, map, none, not,
  some, true, value_error, ◌&&◌, ◌==◌, ◌∷◌,
}
use agenda_agent.Domain.Processing.{
  ApplicationSnapshot, ApplicationReason, ApplicationResolution, validate_application,
  ApplicationResolutionKind, reviewed_application, source_email_link, canonical_company_unresolved,
  reviewed_create_new, no_existing_application, reviewed_unresolved_company,
  unnormalized_role_ambiguous, exact_company_role, multiple_open_applications,
}
use agenda_agent.Domain.Enums.{ApplicationStatus}
use agenda_agent.Prelude.Sort.{sort_by}

unfoldable pub existing_application :
    ApplicationSnapshot → ApplicationReason → Result ApplicationResolution
existing_application a reason = validate_application (record {
  kind = ApplicationResolutionKind.existing;
  application_id = some a.id;
  current_status = some a.status;
  candidate_application_ids = [];
  reason = reason;
})

unfoldable pub review_application : List Uuid → ApplicationReason → Result ApplicationResolution
review_application candidates reason = validate_application (record {
  kind = ApplicationResolutionKind.review;
  application_id = none;
  current_status = none;
  candidate_application_ids = candidates;
  reason = reason;
})

-- `selected_application_id not in {None, linked.id}`
abbrev pub conflicts : Option Uuid → Uuid → Bool
conflicts none i = false
conflicts (some s) i = not (s == i)

module _ (d : Digests) where
  unfoldable pub new_application :
      RecruitmentEvidence → ApplicationReason → Result ApplicationResolution
  new_application e reason = validate_application (record {
    kind = ApplicationResolutionKind.create;
    application_id = some (new_application_id d e.source_email_id);
    current_status = some ApplicationStatus.unknown;
    candidate_application_ids = [];
    reason = reason;
  })

  -- The part of `resolve_application` behind the query of the open applications.
  unfoldable pub choose_application :
      RecruitmentEvidence
      → List ApplicationSnapshot
      → Option Uuid
      → Bool
      → Result ApplicationResolution
  unfolding existing_application new_application review_application
  choose_application e candidates (some selected) force_create =
      elim (find (λ (c : ApplicationSnapshot). c.id == selected) candidates) [
        | none ↦ err (value_error "reviewed application is not an allowed candidate")
        | some c ↦ existing_application c reviewed_application
      ]
  choose_application e candidates none true = new_application e reviewed_create_new
  choose_application e [] none false = new_application e no_existing_application
  choose_application e (c ∷ []) none false =
      if is_some e.role_name && is_none e.role_normalized
      then review_application (c.id ∷ []) unnormalized_role_ambiguous
      else existing_application c exact_company_role
  choose_application e (c ∷ c' ∷ cs) none false =
      review_application (map (λ (a : ApplicationSnapshot). a.id) (c ∷ c' ∷ cs))
        multiple_open_applications

  unfoldable pub resolve_application :
      DomainStore → RecruitmentEvidence → Option Uuid → Bool → Result ApplicationResolution
  unfolding choose_application
  resolve_application store e selected force_create =
      elim (store.application_for_source_email e.source_email_id) [
        | some linked ↦
            if conflicts selected linked.id
            then err (value_error "reviewed application conflicts with source-email identity")
            else existing_application linked source_email_link
        | none ↦ elim e.company_id [
          | none ↦
              if not force_create
              then review_application [] canonical_company_unresolved
              else new_application e reviewed_unresolved_company
          | some company ↦
              choose_application e
                (sort_by (λ (a : ApplicationSnapshot). a.id)
                  (store.find_open_applications company e.role_normalized))
                selected force_create
        ]
      ]
