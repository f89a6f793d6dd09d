-- ===== src/Calendar/Planner.antt =====
-- application/calendar_sync.py: `CalendarPlanner`, which writes the events of a calendar.
pub mod Bounds
pub mod Digits
use agenda_agent.Domain.Digest.{Datetime, Uuid}
use agenda_agent.Domain.Enums.{RecruitmentEventType, is_active}
use agenda_agent.Calendar.Models.{CalendarCandidate, CalendarEventDraft, check_draft}
use agenda_agent.Prelude.{
  Bool, List, Option, Result, String, [], err, false, if◌then◌else◌, is_empty, ltb, none, not, ok,
  overflow_error, some, suc, take, true, value_error, zero, ℕ, ◌%◌, ◌&&◌, ◌*◌, ◌++◌, ◌+◌, ◌/◌,
  ◌>>=◌, ◌||◌, ◌∷◌,
}
use agenda_agent.Prelude.Text.{Text, Unicode, codes, collapse, text_eq, truthy, is_blank}

-- The parts of a link that are read.
pub record SplitUrl : Type 0 where
  pub scheme : Text
  pub hostname : Option Text
  pub netloc : Text
  pub path : Text

-- The document of the fingerprint.
pub record CalendarContent : Type 0 where
  pub subject : Text
  pub body : List Text
  pub start : Datetime
  pub end : Datetime

-- Python's tables, `_URL.search`, `urlsplit` with the exception that it raises for a malformed link,
-- `urlunsplit` of an `https` link without query, the last instant of a `datetime`, the hash of a
-- document, and `uuid5` over an event and a fingerprint.
pub record CalendarContext : Type 0 where
  pub unicode : Unicode
  pub has_url : Text → Bool
  pub urlsplit : Text → Result SplitUrl
  pub urlunsplit : Text → Text → Text
  pub latest_instant : Datetime
  pub content_digest : CalendarContent → Text
  pub transaction : Uuid → Text → Uuid

pub record CalendarPlan : Type 0 where
  pub draft : Option CalendarEventDraft
  pub reason : String
  pub needs_review : Bool

pub record CalendarPlanner : Type 0 where
  pub interview_minutes : ℕ
  pub assessment_minutes : ℕ

-- `CalendarPlanner.__init__`
unfoldable pub check_planner : CalendarPlanner → Result CalendarPlanner
check_planner p =
    if ltb p.interview_minutes 1 || ltb p.assessment_minutes 1
    then err (value_error "calendar placeholder durations must be positive")
    else ok p

-- The decimal digits of a number; a number has at most as many as it counts.
unfoldable pub digits : ℕ → ℕ → Text
digits zero n = (48 + n % 10) ∷ []
digits (suc fuel) n =
    let front = digits fuel (n / 10) in
    if ltb n 10 then (48 + n) ∷ [] else front ++ (48 + n % 10) ∷ []

abbrev pub decimal : ℕ → Text
decimal n = digits n n

-- `"\n".join(lines)`
abbrev pub join_lines : List Text → Text
join_lines [] = []
join_lines (l ∷ []) = l
join_lines (l ∷ k ∷ ls) = l ++ (10 ∷ join_lines (k ∷ ls))

-- A minute, in microseconds.
abbrev pub minute : ℕ
minute = 60000000

-- A kind of event that has a place in the calendar: when it starts, how long it is, and its stage.
pub record Slot : Type 0 where
  pub starts_at : Option Datetime
  pub minutes : ℕ
  pub stage : Text

module _ (x : CalendarContext) where
  -- `_safe_text`
  unfoldable pub safe_text : Text → ℕ → Text
  safe_text value limit =
      let normalized = collapse x.unicode value in
      if is_empty normalized || x.has_url normalized
      then codes "Recruitment"
      else take limit normalized

  -- `_safe_optional_text`
  unfoldable pub safe_optional_text : Option Text → ℕ → Option Text
  safe_optional_text none limit = none
  safe_optional_text (some value) limit =
      let normalized = safe_text value limit in
      if x.has_url value
      then none
      else if text_eq normalized (codes "Recruitment") && is_blank x.unicode value
      then none
      else some normalized

  -- `_OUTLOOK_HOSTS`
  abbrev pub is_outlook_host : Option Text → Bool
  is_outlook_host none = false
  is_outlook_host (some host) =
      text_eq host (codes "outlook.office.com")
      || text_eq host (codes "outlook.office365.com")
      || text_eq host (codes "outlook.live.com")

  -- The link that is shown, if it is one of Outlook.
  abbrev pub outlook_link : SplitUrl → Option Text
  outlook_link parsed =
      if not (text_eq parsed.scheme (codes "https")) || not (is_outlook_host parsed.hostname)
      then none
      else some (x.urlunsplit parsed.netloc parsed.path)

  -- `_safe_outlook_link`
  unfoldable pub safe_outlook_link : Option Text → Result (Option Text)
  safe_outlook_link none = ok none
  safe_outlook_link (some value) = x.urlsplit value >>= (λ parsed. ok (outlook_link parsed))

  -- `if candidate.interview_round:`
  abbrev pub interview_stage : Option Text → Text
  interview_stage none = codes "Interview"
  interview_stage (some []) = codes "Interview"
  interview_stage (some (c ∷ round)) = codes "Interview " ++ safe_text (c ∷ round) 60

  abbrev pub interview_slot : CalendarPlanner → CalendarCandidate → Slot
  interview_slot p c = record {
    starts_at = c.starts_at;
    minutes = p.interview_minutes;
    stage = interview_stage c.interview_round;
  }

  abbrev pub assessment_slot : CalendarPlanner → CalendarCandidate → Slot
  assessment_slot p c = record {
    starts_at = c.deadline_at;
    minutes = p.assessment_minutes;
    stage = codes "Assessment Deadline";
  }

  -- The event types of a calendar.
  unfoldable pub slot_for : CalendarPlanner → CalendarCandidate → RecruitmentEventType → Option Slot
  slot_for p c RecruitmentEventType.interview = some (interview_slot p c)
  slot_for p c RecruitmentEventType.interview_reschedule = some (interview_slot p c)
  slot_for p c RecruitmentEventType.assessment = some (assessment_slot p c)
  slot_for p c RecruitmentEventType.deadline = some (assessment_slot p c)
  slot_for p c _ = none

  -- A line that is there only with its text.
  abbrev pub optional_line : String → Option Text → List Text
  optional_line label none = []
  optional_line label (some t) = (codes label ++ t) ∷ []

  abbrev pub body_lines : CalendarCandidate → Text → Text → Text → ℕ → Option Text → List Text
  body_lines c company role stage minutes source =
      (codes "Company: " ++ company)
      ∷ (codes "Role: " ++ role)
      ∷ (codes "Stage: " ++ stage)
      ∷ (optional_line "Original time: " (safe_optional_text c.source_datetime_text 300)
          ++ ((codes "Calendar duration: "
                ++ (decimal minutes ++ codes "-minute placeholder; verify the original email."))
              ∷ (optional_line "Source: " source
                  ++ codes "Managed by Recruitment Inbox Agent" ∷ [])))

  -- `candidate.role_name or "Recruitment"`
  abbrev pub role_or_default : Option Text → Text
  role_or_default none = codes "Recruitment"
  role_or_default (some []) = codes "Recruitment"
  role_or_default (some (c ∷ role)) = c ∷ role

  -- The draft of an event with its source link, before its check.
  unfoldable pub draft_of :
      CalendarCandidate → Text → Slot → Datetime → Option Text → CalendarEventDraft
  draft_of c display_name slot starts_at source =
      let ends_at = starts_at + slot.minutes * minute in
      let company = safe_text display_name 100 in
      let role = safe_text (role_or_default c.role_name) 100 in
      let subject =
        safe_text (company ++ (codes " | " ++ (role ++ (codes " | " ++ slot.stage)))) 255 in
      let lines = body_lines c company role slot.stage slot.minutes source in
      let fingerprint =
        x.content_digest
          (record { subject = subject; body = lines; start = starts_at; end = ends_at }) in
      record {
        subject = subject;
        body = join_lines lines;
        starts_at = starts_at;
        ends_at = ends_at;
        content_fingerprint = fingerprint;
        transaction_id = x.transaction c.recruitment_event_id fingerprint;
      }

  abbrev pub no_draft : String → Bool → Result CalendarPlan
  no_draft reason needs_review =
      ok (record { draft = none; reason = reason; needs_review = needs_review })

  -- The end of the event, whose sum may overflow, then its texts and its source link.
  unfoldable pub plan_event : CalendarCandidate → Text → Slot → Datetime → Result CalendarPlan
  plan_event c display_name slot starts_at =
      if ltb x.latest_instant (starts_at + slot.minutes * minute)
      then err (overflow_error "date value out of range")
      else safe_outlook_link c.outlook_web_link >>= (λ source.
        check_draft x.unicode (draft_of c display_name slot starts_at source) >>= (λ d.
          ok (record { draft = some d; reason = "calendar_event_ready"; needs_review = false })))

  -- A plan for an event of a known company, in a known time zone.
  unfoldable pub plan_slot : CalendarCandidate → Text → Option Slot → Result CalendarPlan
  plan_slot c display_name none = no_draft "event_type_not_calendar_eligible" false
  plan_slot c display_name (some slot) = elim slot.starts_at [
    | none ↦ no_draft "calendar_datetime_unresolved" true
    | some starts_at ↦ plan_event c display_name slot starts_at
  ]

  -- `plan`
  unfoldable pub plan : CalendarPlanner → CalendarCandidate → Bool → Result CalendarPlan
  plan p c has_existing_link =
      if not (is_active c.event_status)
      then no_draft
          (if has_existing_link then "inactive_event_has_calendar_link" else "inactive_event")
          has_existing_link
      else elim c.company_display_name [
        | none ↦ no_draft "application_not_resolved_for_calendar" true
        | some display_name ↦
            if not c.application_resolved
            then no_draft "application_not_resolved_for_calendar" true
            else if not (truthy c.timezone)
            then no_draft "calendar_timezone_unresolved" true
            else plan_slot c display_name (slot_for p c c.event_type)
      ]
