-- ===== src/Domain/Status.antt =====
-- domain/processing.py: how the status of an application moves.
pub mod Laws
pub mod History
use agenda_agent.Prelude.{
  ℕ, Bool, true, false, Option, none, some, List, [], ◌∷◌, leb, if◌then◌else◌,
}
use agenda_agent.Prelude.{◌||◌}
use agenda_agent.Domain.Enums.{
  ApplicationStatus, unknown, applied, assessment_pending, assessment_completed, interview_pending,
  interview_scheduled, interview_completed, offer, rejected, withdrawn, same_status,
}

abbrev pub is_unknown : ApplicationStatus → Bool
is_unknown unknown = true
is_unknown _ = false

abbrev pub is_withdrawn : ApplicationStatus → Bool
is_withdrawn withdrawn = true
is_withdrawn _ = false

-- `in {ApplicationStatus.OFFER, ApplicationStatus.REJECTED}`
abbrev pub is_decided : ApplicationStatus → Bool
is_decided offer = true
is_decided rejected = true
is_decided _ = false

-- The dictionary `ranks`.
abbrev pub ranks : ApplicationStatus → Option ℕ
ranks unknown = some 0
ranks applied = some 1
ranks assessment_pending = some 2
ranks assessment_completed = some 3
ranks interview_pending = some 4
ranks interview_scheduled = some 5
ranks interview_completed = some 6
ranks _ = none

-- `ranks.get(a, -1) >= ranks.get(b, -1)`: a missing key is below every rank.
abbrev pub rank_ge : Option ℕ → Option ℕ → Bool
rank_ge _ none = true
rank_ge none (some b) = false
rank_ge (some a) (some b) = leb b a

unfoldable pub next_application_status : ApplicationStatus → ApplicationStatus → ApplicationStatus
next_application_status current desired =
    if is_unknown desired || same_status current desired
    then current
    else if is_withdrawn current
    then current
    else if is_decided current
    then current
    else if is_decided desired
    then desired
    else if rank_ge (ranks desired) (ranks current)
    then desired
    else current

-- The statuses that a sequence of events asks for, applied in turn.
unfoldable pub status_after : ApplicationStatus → List ApplicationStatus → ApplicationStatus
status_after s [] = s
status_after s (d ∷ ds) = status_after (next_application_status s d) ds
