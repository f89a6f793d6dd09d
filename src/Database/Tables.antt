-- ===== src/Database/Tables.antt =====
-- persistence/models.py, as far as persistence/domain_processing.py uses it. The columns that only
-- record the time of writing are left out.
use agenda_agent.Prelude.{
  Bool, List, Option, false, find, none, not, same_optional, select, some, true, ℕ, ◌&&◌, ◌==◌,
}
use agenda_agent.Domain.Digest.{Datetime, Uuid}
use agenda_agent.Domain.Enums.{
  ActionType, ApplicationStatus, EventStatus, RecruitmentEventType, is_interview, is_active,
}
use agenda_agent.Domain.Processing.{ApplicationSnapshot, EventSnapshot}
use agenda_agent.Prelude.Text.{Text, same_optional_text}
use agenda_agent.Prelude.Sort.{sort_by}

pub record SourceEmailRow : Type 0 where
  pub id : Uuid
  pub application_id : Option Uuid

pub record ApplicationRow : Type 0 where
  pub id : Uuid
  pub company_id : Option Uuid
  pub raw_company_name : Option Text
  pub role_name : Option Text
  pub role_normalized : Option Text
  pub status : ApplicationStatus
  pub version : ℕ

pub record StatusHistoryRow : Type 0 where
  pub id : Uuid
  pub application_id : Uuid
  pub from_status : ApplicationStatus
  pub to_status : ApplicationStatus
  pub source_email_id : Uuid

pub record EventRow : Type 0 where
  pub id : Uuid
  pub application_id : Uuid
  pub type : RecruitmentEventType
  pub round : Option Text
  pub starts_at : Option Datetime
  pub deadline_at : Option Datetime
  pub timezone : Option Text
  pub source_datetime_text : Option Text
  pub status : EventStatus
  pub semantic_fingerprint : Option Text

pub record EventHistoryRow : Type 0 where
  pub id : Uuid
  pub recruitment_event_id : Uuid
  pub previous_starts_at : Option Datetime
  pub previous_deadline_at : Option Datetime
  pub previous_timezone : Option Text
  pub previous_status : EventStatus
  pub source_email_id : Uuid

pub record ActionItemRow : Type 0 where
  pub id : Uuid
  pub application_id : Uuid
  pub source_email_id : Uuid
  pub type : ActionType
  pub title : Text
  pub due_at : Option Datetime
  pub secure_link_id : Option Uuid
  pub idempotency_key : Text

pub record SecureLinkRow : Type 0 where
  pub id : Uuid
  pub source_email_id : Uuid
  pub ref : Text

pub record Database : Type 0 where
  pub emails : List SourceEmailRow
  pub applications : List ApplicationRow
  pub status_history : List StatusHistoryRow
  pub events : List EventRow
  pub event_history : List EventHistoryRow
  pub actions : List ActionItemRow
  pub links : List SecureLinkRow

-- `_application_snapshot`
abbrev pub application_snapshot : ApplicationRow → ApplicationSnapshot
application_snapshot m = record {
  id = m.id;
  company_id = m.company_id;
  role_normalized = m.role_normalized;
  status = m.status;
  version = m.version;
}

-- `_event_snapshot`
abbrev pub event_snapshot : EventRow → EventSnapshot
event_snapshot m = record {
  id = m.id;
  application_id = m.application_id;
  type = m.type;
  status = m.status;
  round = m.round;
  starts_at = m.starts_at;
  deadline_at = m.deadline_at;
  timezone = m.timezone;
  source_datetime_text = m.source_datetime_text;
  semantic_fingerprint = m.semantic_fingerprint;
}

-- `_CLOSED_APPLICATION_STATUSES`
abbrev pub is_closed : ApplicationStatus → Bool
is_closed ApplicationStatus.rejected = true
is_closed ApplicationStatus.withdrawn = true
is_closed _ = false

-- `role_normalized == …`, where the query has that condition.
abbrev pub role_matches : Option Text → Option Text → Bool
role_matches none stored = true
role_matches (some role) stored = same_optional_text stored (some role)

-- An open application of the company and the role. In SQL `company_id = …` is not true of NULL.
abbrev pub is_open : Uuid → Option Text → ApplicationRow → Bool
is_open company role m =
    same_optional m.company_id (some company)
    && not (is_closed m.status)
    && role_matches role m.role_normalized

-- `find_open_applications` and `_find_open_for_write`, ordered by the identifier
unfoldable pub open_applications : List ApplicationRow → Uuid → Option Text → List ApplicationRow
open_applications rows company role =
    sort_by (λ (m : ApplicationRow). m.id) (select (is_open company role) rows)

-- `session.get(ApplicationModel, …)`
abbrev pub application_by_id : List ApplicationRow → Uuid → Option ApplicationRow
application_by_id rows i = find (λ (m : ApplicationRow). m.id == i) rows

abbrev pub email_by_id : List SourceEmailRow → Uuid → Option SourceEmailRow
email_by_id rows i = find (λ (m : SourceEmailRow). m.id == i) rows

abbrev pub has_fingerprint : Uuid → Text → EventRow → Bool
has_fingerprint application fingerprint m =
    m.application_id == application && same_optional_text m.semantic_fingerprint (some fingerprint)

-- An interview of the application that is active.
abbrev pub is_active_interview : Uuid → EventRow → Bool
is_active_interview application m =
    m.application_id == application && is_interview m.type && is_active m.status
