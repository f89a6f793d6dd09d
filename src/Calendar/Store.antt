-- ===== src/Calendar/Store.antt =====
-- persistence/calendar.py: `SqlAlchemyCalendarSyncStore`.
use agenda_agent.Domain.Digest.{Uuid}
use agenda_agent.Database.Tables.{ApplicationRow, EventRow}
use agenda_agent.Calendar.Models.{CalendarCandidate, CalendarLink}
use agenda_agent.Prelude.{
  Bool, List, Option, Result, [], err, exists, find, if◌then◌else◌, integrity_error, is_empty,
  is_some, length, none, not, ok, same_optional, some, update_where, value_error, ◌&&◌, ◌++◌, ◌==◌,
  ◌∷◌,
}
use agenda_agent.Prelude.Text.{Text, text_eq}

-- The columns of `SourceEmailModel` and of `CompanyModel` that the query reads.
pub record LinkedEmailRow : Type 0 where
  pub id : Uuid
  pub account_id : Uuid
  pub application_id : Option Uuid
  pub outlook_web_link : Option Text

pub record CompanyNameRow : Type 0 where
  pub id : Uuid
  pub display_name : Text

pub record CalendarTables : Type 0 where
  pub events : List EventRow
  pub applications : List ApplicationRow
  pub companies : List CompanyNameRow
  pub emails : List LinkedEmailRow

-- The name of the company, by an outer join.
abbrev pub company_name : List CompanyNameRow → Option Uuid → Option Text
company_name companies none = none
company_name companies (some i) = elim (find (λ (m : CompanyNameRow). m.id == i) companies) [
  | none ↦ none
  | some m ↦ some m.display_name
]

-- The condition on the email, with that of its join.
abbrev pub is_source : Uuid → Uuid → Uuid → LinkedEmailRow → Bool
is_source account source application m =
    same_optional m.application_id (some application)
    && (m.id == source)
    && (m.account_id == account)

abbrev pub candidate_of :
    Uuid → Uuid → EventRow → ApplicationRow → Option Text → LinkedEmailRow → CalendarCandidate
candidate_of account source event application name email = record {
  account_id = account;
  source_email_id = source;
  recruitment_event_id = event.id;
  application_id = application.id;
  application_resolved = is_some application.company_id && is_some name;
  company_display_name = name;
  role_name = application.role_name;
  event_type = event.type;
  event_status = event.status;
  interview_round = event.round;
  starts_at = event.starts_at;
  deadline_at = event.deadline_at;
  timezone = event.timezone;
  source_datetime_text = event.source_datetime_text;
  outlook_web_link = email.outlook_web_link;
}

abbrev mismatch : Result CalendarCandidate
mismatch = err (value_error "calendar candidate does not match authoritative domain state")

unfoldable pub load_candidate : CalendarTables → Uuid → Uuid → Uuid → Result CalendarCandidate
load_candidate db account source event_id =
    elim (find (λ (m : EventRow). m.id == event_id) db.events) [
      | none ↦ mismatch
      | some event ↦
          elim (find (λ (m : ApplicationRow). m.id == event.application_id) db.applications) [
            | none ↦ mismatch
            | some application ↦ elim (find (is_source account source application.id) db.emails) [
              | none ↦ mismatch
              | some email ↦ ok (
                  candidate_of account source event application
                    (company_name db.companies application.company_id) email)
            ]
          ]
    ]

abbrev pub is_link_of : Uuid → CalendarLink → Bool
is_link_of event m = m.recruitment_event_id == event

abbrev pub get_link : Uuid → List CalendarLink → Option CalendarLink
get_link event links = find (is_link_of event) links

-- A link of another event with the same identity at the provider.
abbrev pub is_taken_by : CalendarLink → CalendarLink → Bool
is_taken_by link m =
    not (m.recruitment_event_id == link.recruitment_event_id)
    && text_eq m.provider link.provider
    && text_eq m.calendar_event_id link.calendar_event_id

abbrev pub upserted : CalendarLink → List CalendarLink → List CalendarLink
upserted link links =
    if exists (is_link_of link.recruitment_event_id) links
    then update_where (is_link_of link.recruitment_event_id) (λ m. link) links
    else links ++ link ∷ []

-- The upsert, with the constraints of the table.
unfoldable pub save_link : CalendarLink → List CalendarLink → Result (List CalendarLink)
save_link link links =
    if is_empty link.provider
    then err (integrity_error "provider_not_empty")
    else if is_empty link.calendar_event_id
    then err (integrity_error "calendar_event_id_not_empty")
    else if not (length link.content_fingerprint == 64)
    then err (integrity_error "content_fingerprint_sha256")
    else if exists (is_taken_by link) links
    then err (integrity_error "uq_calendar_links_provider_event")
    else ok (upserted link links)
