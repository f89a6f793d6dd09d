-- ===== src/Review/Decision.antt =====
-- graph/contracts.py: the question of a review, and the validation of an answer to it.
use agenda_agent.Prelude.Text.{Text, Unicode, codes, strip, text_eq}
use agenda_agent.Prelude.{
  Bool, Error, List, Option, Result, String, [], err, exists, false, if◌then◌else◌, is_empty,
  is_some, none, ok, not, some, true, value_error, ℕ, ◌&&◌, ◌>>=◌, ◌||◌, ◌∷◌, ltb,
}

pub data ReviewType : Type 0 where
  timezone_ambiguity application_ambiguity datetime_conflict : ReviewType
  uncertain_reschedule unsafe_calendar_update : ReviewType

-- `ReviewType(value)`
unfoldable pub review_type_of : Text → Result ReviewType
review_type_of t =
    if text_eq t (codes "TIMEZONE_AMBIGUITY")
    then ok ReviewType.timezone_ambiguity
    else if text_eq t (codes "APPLICATION_AMBIGUITY")
    then ok ReviewType.application_ambiguity
    else if text_eq t (codes "DATETIME_CONFLICT")
    then ok ReviewType.datetime_conflict
    else if text_eq t (codes "UNCERTAIN_RESCHEDULE")
    then ok ReviewType.uncertain_reschedule
    else if text_eq t (codes "UNSAFE_CALENDAR_UPDATE")
    then ok ReviewType.unsafe_calendar_update
    else err (value_error "is not a valid ReviewType")

pub record ReviewRequest : Type 0 where
  pub review_type : ReviewType
  pub reason : Text
  pub question : Text
  pub allowed_choices : List Text

pub record ReviewDecision : Type 0 where
  pub choice : Text
  pub override_value : Option Text
  pub clock_override : Option Text
  pub expected_version : ℕ

-- What `ZoneInfo(key)` gives: a zone, a `ZoneInfoNotFoundError`, or another exception.
pub data ZoneLookup : Type 0 where
  found not_found : ZoneLookup
  raises : Error → ZoneLookup

-- Python's libraries of time: the dates that they read, and the zones that they know.
pub record TimeLibrary : Type 1 where
  pub Moment : Type 0
  pub fromisoformat : Text → Option Moment
  pub strptime : Text → Text → Option Moment
  pub zone_info : Text → ZoneLookup

unfoldable pub has_repeated : List Text → Bool
has_repeated [] = false
has_repeated (t ∷ ts) = exists (text_eq t) ts || has_repeated ts

-- `COMBINED_TIME_REASONS`
unfoldable pub is_combined : Text → Bool
is_combined reason =
    text_eq reason (codes "timezone_and_datetime") || text_eq reason (codes "timezone_and_deadline")

abbrev pub review_formats : List Text
review_formats =
    codes "%Y-%m-%d %H:%M"
    ∷ codes "%Y-%m-%dT%H:%M"
    ∷ codes "%Y-%m-%d %H:%M:%S"
    ∷ codes "%Y-%m-%dT%H:%M:%S"
    ∷ []

module _ (u : Unicode) where
  -- `require_text` and `require_choice`, by the message
  unfoldable pub require_text : String → Text → Result Text
  require_text message value =
      let normalized = strip u value in
      if is_empty normalized then err (value_error message) else ok normalized

  -- The validators of a `ReviewRequest`, in the order of its fields.
  unfoldable pub check_request : ReviewRequest → Result ReviewRequest
  check_request r = do
    reason ← require_text "review text must not be empty" r.reason
    question ← require_text "review text must not be empty" r.question
    if is_empty r.allowed_choices || has_repeated r.allowed_choices
        then err (value_error "allowed choices must be non-empty and unique")
        else ok (record r { reason = reason; question = question })

  -- The validators of a `ReviewDecision`.
  unfoldable pub check_decision : ReviewDecision → Result ReviewDecision
  check_decision d = do
    choice ← require_text "review choice must not be empty" d.choice
    if ltb d.expected_version 1
        then err (value_error "expected_version must be at least 1")
        else ok (record d { choice = choice })

  module _ (library : TimeLibrary) where
    unfoldable pub parse_formats : Text → List Text → Result library.Moment
    parse_formats text [] = err (value_error "datetime override must be YYYY-MM-DD HH:MM")
    parse_formats text (fmt ∷ rest) =
        let later = parse_formats text rest in
        elim (library.strptime text fmt) [ some moment ↦ ok moment | none ↦ later ]

    unfoldable pub parse_review_datetime : Text → Result library.Moment
    parse_review_datetime value =
        let text = strip u value in
        if is_empty text
        then err (value_error "datetime override must not be empty")
        else elim (library.fromisoformat text) [
          | some moment ↦ ok moment
          | none ↦ parse_formats text review_formats
        ]

    -- The `try` around `ZoneInfo`, and what the branch returns.
    unfoldable pub require_zone : Text → ReviewDecision → Result ReviewDecision
    require_zone key d = elim (library.zone_info key) [
      | found ↦ ok d
      | not_found ↦ err (value_error "timezone override must be a valid IANA timezone")
      | raises e ↦ err e
    ]

    -- The end of both branches: a zone for the choice `other`, and no override for the rest.
    unfoldable pub check_zone : ReviewDecision → Result ReviewDecision
    check_zone d =
        if text_eq d.choice (codes "other")
        then elim d.override_value [
          | none ↦ err (value_error "other review choice requires an override value")
          | some key ↦ require_zone key d
        ]
        else if is_some d.override_value
        then err (value_error "override value is only allowed for the other choice")
        else ok d

    -- A question after a time and its zone at once.
    unfoldable pub check_combined : ReviewDecision → Result ReviewDecision
    check_combined d =
        if text_eq d.choice (codes "ignore")
        then if is_some d.override_value || is_some d.clock_override
          then err (value_error "ignore cannot include overrides")
          else ok d
        else elim d.clock_override [
          | none ↦ err (value_error "start or deadline clock is required")
          | some clock ↦ do moment ← parse_review_datetime clock; check_zone d
        ]

    abbrev pub is_conflict : ReviewType → Bool
    is_conflict ReviewType.datetime_conflict = true
    is_conflict _ = false

    -- Any other question.
    unfoldable pub check_simple : ReviewRequest → ReviewDecision → Result ReviewDecision
    check_simple r d =
        if is_some d.clock_override
        then err (value_error "clock override is only allowed for combined time review")
        else if is_conflict r.review_type && text_eq d.choice (codes "use_override")
        then elim d.override_value [
          | none ↦ err (value_error "datetime override is required")
          | some value ↦ do moment ← parse_review_datetime value; ok d
        ]
        else check_zone d

    unfoldable pub validate_review_decision : ReviewRequest → ReviewDecision → Result ReviewDecision
    validate_review_decision r raw_decision = do
      d ← check_decision raw_decision
      if not (exists (text_eq d.choice) r.allowed_choices)
          then err (value_error "review choice is not allowed")
          else if is_combined r.reason
          then check_combined d
          else check_simple r d
