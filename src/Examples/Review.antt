-- ===== src/Examples/Review.antt =====
-- A question after an unclear time zone, answered, answered again, and answered wrongly.
use agenda_agent.Domain.Digest.{}
use agenda_agent.Review.Decision.{
  ReviewDecision, TimeLibrary, check_decision, check_request, check_simple, check_zone, found,
  has_repeated, is_combined, not_found, require_text, require_zone, review_type_of,
  validate_review_decision,
}
use agenda_agent.Review.Answer.{
  ReviewAnswer, ReviewDetail, decision_for, has_resolution, is_final, or_conflict, own_detail,
  request_for, same_decision,
}
use agenda_agent.Review.Service.{
  ReviewPorts, ReviewWorld, decide_review, get_detail, reading, recover_duplicate, resolve_review,
  resume, resume_and_read,
}
use agenda_agent.Review.Safe.{IsSafe, resolve_review-IsSafe}
use agenda_agent.Review.Tasks.{
  IsReachable, ResumeTasks, coalesce_resume, initial, is_unfinished, later, no_tasks, request,
  set_item, start_task,
}
use agenda_agent.Review.Tasks.Shared.{active, length-active}
use agenda_agent.Prelude.Steps.{pass}
use agenda_agent.Prelude.Text.{Text, ascii, codes, lstrip, strip, text_eq}
use agenda_agent.Prelude.{
  [], application_error, err, find, if◌then◌else◌, length, none, ok, refl, some, ℕ, ◌≤◌, ◌&&◌, ◌==◌,
  ◌∷◌, ◌≡◌, Option, List,
}

abbrev zones : TimeLibrary
zones = record {
  Moment = ℕ;
  fromisoformat = λ t. none;
  strptime = λ t fmt. some 0;
  zone_info = λ key. if text_eq key (codes "Europe/Berlin") then found else not_found;
}

abbrev question : ReviewDetail
question = record {
  id = 4;
  account_id = 5;
  processing_run_id = 6;
  source_email_id = 7;
  review_type = codes "TIMEZONE_AMBIGUITY";
  status = codes "open";
  reason = codes "timezone";
  question = codes "Which time zone?";
  allowed_choices = codes "UTC" ∷ codes "other" ∷ [];
  version = 1;
  resolution = none;
  run_status = codes "needs_review";
}

-- A workflow that answers a question and then stops before it is done.
abbrev ports : ReviewPorts
ports = record {
  Database = List ReviewDetail;
  list_open = λ account_id database. ok [];
  find_detail = λ account_id review_id database.
      ok (find (λ d. d.id == review_id && d.account_id == account_id) database);
  resumer = λ run email decision database.
      (record question { status = codes "resolved"; resolution = some decision } ∷ [], ok tt);
}

abbrev before : ReviewWorld ports
before = record { database = question ∷ []; resumed = [] }

abbrev answering : Text → Option Text → ReviewAnswer
answering choice override = record {
  choice = choice;
  override_value = override;
  clock_override = none;
  expected_version = 1;
}

abbrev berlin : ReviewAnswer
berlin = answering (codes "other") (some (codes "Europe/Berlin"))

abbrev after : ReviewAnswer → ReviewWorld ports → ReviewWorld ports
after answer w = (resolve_review ports ascii zones 5 4 answer w).0

abbrev Refused : ReviewAnswer → ReviewWorld ports → Type 0
Refused answer w =
    resolve_review ports ascii zones 5 4 answer w ≡ (w, err (application_error "REVIEW_CONFLICT"))

-- The same answer resumes the workflow again, as the run is not over; another one does not, and
-- neither does an unknown zone.
answers :
    (length (after berlin (after berlin before)).resumed ≡ 2)
    × Refused (answering (codes "UTC") none) (after berlin before)
    × Refused (answering (codes "other") (some (codes "Nowhere"))) before
unfolding resolve_review get_detail reading own_detail request_for decision_for decide_review resume
    recover_duplicate pass check_decision check_request check_simple check_zone has_repeated
    is_combined require_text require_zone review_type_of validate_review_decision has_resolution
    is_final or_conflict same_decision resume_and_read strip lstrip
answers = (refl, refl, refl)

resolve_review-IsSafe_example :
    IsSafe ports 5 4 berlin ascii zones before (resolve_review ports ascii zones 5 4 berlin before)
resolve_review-IsSafe_example = resolve_review-IsSafe ports 5 4 berlin ascii zones before

abbrev once : ReviewDecision
once = record { choice = []; override_value = none; clock_override = none; expected_version = 1 }

-- Two requests for one run, and then one for another.
abbrev three_requests : ResumeTasks
three_requests =
    (coalesce_resume 8 7 once (coalesce_resume 6 7 once (coalesce_resume 6 7 once no_tasks).0).0).0

three_requests-IsReachable : IsReachable three_requests
three_requests-IsReachable =
    later (later (later initial (request 6 7 once)) (request 6 7 once)) (request 8 7 once)

two_tasks : length three_requests.tasks ≡ 2
unfolding coalesce_resume start_task set_item is_unfinished
two_tasks = refl

length-active_example : length (active 6 three_requests) ≤ 1
length-active_example = length-active three_requests-IsReachable 6
