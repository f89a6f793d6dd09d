-- ===== src/Calendar/Models.antt =====
-- calendar/models.py: the values of a calendar synchronisation.
use agenda_agent.Domain.Digest.{Datetime, Uuid}
use agenda_agent.Domain.Enums.{EventStatus, RecruitmentEventType}
use agenda_agent.Prelude.{
  Bool, Option, Result, String, err, if◌then◌else◌, leb, ok, value_error, ◌||◌,
}
use agenda_agent.Prelude.Text.{Text, Unicode, is_blank}

pub data CalendarSyncOperation : Type 0 where
  disabled skipped created updated unchanged review_required : CalendarSyncOperation

pub record CalendarSyncResult : Type 0 where
  pub operation : CalendarSyncOperation
  pub reason : String

pub record CalendarSyncRequest : Type 0 where
  pub account_id : Uuid
  pub source_email_id : Uuid
  pub recruitment_event_id : Option Uuid
  pub replace_missing_event : Bool
  pub skip_update : Bool

pub record CalendarCandidate : Type 0 where
  pub account_id : Uuid
  pub source_email_id : Uuid
  pub recruitment_event_id : Uuid
  pub application_id : Uuid
  pub application_resolved : Bool
  pub company_display_name : Option Text
  pub role_name : Option Text
  pub event_type : RecruitmentEventType
  pub event_status : EventStatus
  pub interview_round : Option Text
  pub starts_at : Option Datetime
  pub deadline_at : Option Datetime
  pub timezone : Option Text
  pub source_datetime_text : Option Text
  pub outlook_web_link : Option Text

pub record CalendarEventDraft : Type 0 where
  pub subject : Text
  pub body : Text
  pub starts_at : Datetime
  pub ends_at : Datetime
  pub content_fingerprint : Text
  pub transaction_id : Uuid

-- `CalendarEventDraft.__post_init__`
unfoldable pub check_draft : Unicode → CalendarEventDraft → Result CalendarEventDraft
check_draft u d =
    if leb d.ends_at d.starts_at
    then err (value_error "calendar event end must be after its start")
    else if is_blank u d.subject || is_blank u d.body
    then err (value_error "calendar event content must not be empty")
    else ok d

-- `CalendarProviderEvent`, with its check
unfoldable pub check_event_id : Unicode → Text → Result Text
check_event_id u event_id =
    if is_blank u event_id
    then err (value_error "provider calendar event ID must not be empty")
    else ok event_id

-- `CalendarLinkSnapshot`, and the columns of `CalendarLinkModel` that are read
pub record CalendarLink : Type 0 where
  pub recruitment_event_id : Uuid
  pub account_id : Uuid
  pub provider : Text
  pub calendar_event_id : Text
  pub content_fingerprint : Text
  pub last_synced_at : Datetime
