-- ===== src/Prelude/Codes.antt =====
-- application/errors.py: the attribute `code` of an exception, if it has one.
use mathlib.Core.Option.{Option, none, some}
use agenda_agent.Prelude.Errors.{
  Error, application_error, brief_send_uncertain, calendar_event_not_found, delta_state_invalid,
  operation_conflict, operation_disabled, operation_not_found,
}
use agenda_agent.Prelude.Text.{Text, codes}

abbrev pub code_of : Error → Option Text
code_of (operation_conflict s) = some (codes "OPERATION_CONFLICT")
code_of (operation_disabled s) = some (codes "OPERATION_DISABLED")
code_of (operation_not_found s) = some (codes "OPERATION_NOT_FOUND")
code_of (delta_state_invalid s) = some (codes "DELTA_STATE_INVALID")
code_of (calendar_event_not_found s) = some (codes "CALENDAR_UPDATE_FAILED")
code_of (brief_send_uncertain s) = some (codes "BRIEF_SEND_FAILED")
code_of (application_error code) = some (codes code)
code_of _ = none
