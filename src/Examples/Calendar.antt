-- ===== src/Examples/Calendar.antt =====
-- An interview that goes into the calendar.
use agenda_agent.Domain.Enums.{ApplicationStatus, EventStatus, RecruitmentEventType}
use agenda_agent.Database.Tables.{ApplicationRow, EventRow}
use agenda_agent.Examples.Samples.{fill}
use agenda_agent.Calendar.Models.{
  CalendarCandidate, CalendarSyncOperation, CalendarSyncRequest, check_event_id, check_draft,
}
use agenda_agent.Calendar.Planner.{
  CalendarContext, CalendarPlanner, check_planner, plan, plan_event, plan_slot, slot_for, draft_of,
  safe_text, digits, safe_optional_text, safe_outlook_link,
}
use agenda_agent.Calendar.Store.{
  CalendarTables, LinkedEmailRow, candidate_of, load_candidate, save_link,
}
use agenda_agent.Calendar.Sync.{
  CalendarSyncService, CalendarWorld, result, sync, sync_event, sync_candidate, follow_plan,
  write_draft, create_new, call_create, save, checked_id,
}
use agenda_agent.Prelude.{
  Bool, err, exists, if◌then◌else◌, value_error, ◌==◌, [], false, none, ok, refl, some, true, ◌++◌,
  ◌∷◌, ◌≡◌,
}
use agenda_agent.Calendar.Planner.Bounds.{Sound, plan-Sound}
use agenda_agent.Prelude.Text.{Text, ascii, codes, collapse, split, scan}
use agenda_agent.Calendar.Sync.Repeat.{without_replacement, sync_again}
use agenda_agent.Prelude.Steps.{pass}

-- The bracket that no link of these runs closes.
abbrev has_bracket : Text → Bool
has_bracket t = exists (λ c. c == 91) t

abbrev calendar_context : CalendarContext
calendar_context = record {
  unicode = ascii;
  has_url = λ t. false;
  urlsplit = λ t.
      if has_bracket t
      then err (value_error "Invalid IPv6 URL")
      else ok (record { scheme = codes "https"; hostname = none; netloc = []; path = [] });
  urlunsplit = λ netloc path. netloc ++ path;
  latest_instant = 1000000000000000000;
  content_digest = λ content. fill 64;
  transaction = λ event fingerprint. event;
}

abbrev planner : CalendarPlanner
planner = record { interview_minutes = 60; assessment_minutes = 30 }

abbrev calendar_service : CalendarSyncService
calendar_service = record {
  context = calendar_context;
  planner = planner;
  create_event = λ calls account draft. ok (codes "event-1");
  update_event = λ calls account event_id draft. ok event_id;
  now = 900;
  enabled = true;
}

abbrev interview_event : EventRow
interview_event = record {
  id = 31;
  application_id = 21;
  type = RecruitmentEventType.interview;
  round = some (codes "2");
  starts_at = some 1000;
  deadline_at = none;
  timezone = some (codes "UTC");
  source_datetime_text = none;
  status = EventStatus.active;
  semantic_fingerprint = none;
}

abbrev open_application : ApplicationRow
open_application = record {
  id = 21;
  company_id = some 11;
  raw_company_name = none;
  role_name = some (codes "Analyst");
  role_normalized = none;
  status = ApplicationStatus.interview_scheduled;
  version = 1;
}

abbrev linked_email : LinkedEmailRow
linked_email = record { id = 7; account_id = 5; application_id = some 21; outlook_web_link = none }

abbrev calendar_tables : CalendarTables
calendar_tables = record {
  events = interview_event ∷ [];
  applications = open_application ∷ [];
  companies = record { id = 11; display_name = codes "Acme" } ∷ [];
  emails = linked_email ∷ [];
}

abbrev calendar_request : CalendarSyncRequest
calendar_request = record {
  account_id = 5;
  source_email_id = 7;
  recruitment_event_id = some 31;
  replace_missing_event = true;
  skip_update = false;
}

abbrev empty_calendar : CalendarWorld
empty_calendar = record { links = []; calls = [] }

creates :
    (sync calendar_service calendar_tables calendar_request empty_calendar).1
    ≡ ok (result CalendarSyncOperation.created "missing_calendar_event_replaced")
unfolding sync sync_event sync_candidate follow_plan write_draft create_new call_create save pass
    checked_id check_event_id load_candidate save_link plan plan_slot plan_event slot_for
    check_draft draft_of safe_text collapse split scan digits safe_optional_text safe_outlook_link
creates = refl

sync_again_example :
    let v = (sync calendar_service calendar_tables calendar_request empty_calendar).0 in
    sync calendar_service calendar_tables (without_replacement calendar_request) v
    ≡ (v, ok (result CalendarSyncOperation.unchanged "calendar_event_already_current"))
sync_again_example =
    sync_again calendar_service calendar_tables calendar_request empty_calendar
      (result CalendarSyncOperation.created "missing_calendar_event_replaced") creates refl

abbrev interview_candidate : CalendarCandidate
interview_candidate =
    candidate_of 5 7 interview_event open_application (some (codes "Acme")) linked_email

planner_sane : check_planner planner ≡ ok planner
unfolding check_planner
planner_sane = refl

-- A link that cannot be parsed stops the planning of an event.
malformed_link :
    plan calendar_context planner
      (record interview_candidate { outlook_web_link = some (codes "https://[outlook") })
      false
    ≡ err (value_error "Invalid IPv6 URL")
unfolding plan plan_slot plan_event slot_for safe_outlook_link
malformed_link = refl

plan-Sound_example :
    Sound calendar_context
      (record { big_r = refl; big_c = refl })
      planner
      interview_candidate
      (plan calendar_context planner interview_candidate false)
plan-Sound_example =
    plan-Sound calendar_context (record { big_r = refl; big_c = refl }) planner interview_candidate
      false planner_sane
