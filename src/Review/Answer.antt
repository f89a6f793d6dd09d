-- ===== src/Review/Answer.antt =====
-- reviews/models.py, and what `ReviewService.resolve` of application/reviews.py makes of an answer.
use agenda_agent.Domain.Digest.{Uuid}
use agenda_agent.Review.Decision.{
  ReviewDecision, ReviewRequest, TimeLibrary, check_decision, check_request, review_type_of,
  validate_review_decision,
}
use agenda_agent.Prelude.Text.{Text, Unicode, codes, same_optional_text, text_eq}
use agenda_agent.Prelude.{
  Bool, Error, List, Option, Result, application_error, err, false, if◌then◌else◌, none, not, ok,
  some, value_error, ℕ, ◌&&◌, ◌==◌, ◌||◌, ◌>>=◌,
}

pub record ReviewQueueItem : Type 0 where
  pub id : Uuid
  pub source_email_id : Uuid
  pub orphaned : Bool

-- `resolution` is the decision whose dump the dictionary is, if there is one.
pub record ReviewDetail : Type 0 where
  pub id : Uuid
  pub account_id : Uuid
  pub processing_run_id : Uuid
  pub source_email_id : Uuid
  pub review_type : Text
  pub status : Text
  pub reason : Text
  pub question : Text
  pub allowed_choices : List Text
  pub version : ℕ
  pub resolution : Option ReviewDecision
  pub run_status : Text

-- What a client submits.
pub record ReviewAnswer : Type 0 where
  pub choice : Text
  pub override_value : Option Text
  pub clock_override : Option Text
  pub expected_version : ℕ

abbrev pub stale : Error
stale = application_error "REVIEW_CONFLICT"

abbrev pub as_conflict : Error → Error
as_conflict (value_error message) = application_error "REVIEW_CONFLICT"
as_conflict e = e

-- The `try` around the validation.
unfoldable pub or_conflict : Result ReviewDecision → Result ReviewDecision
or_conflict (ok decision) = ok decision
or_conflict (err e) = err (as_conflict e)

-- The equality of the dumps.
unfoldable pub same_decision : ReviewDecision → ReviewDecision → Bool
same_decision d e =
    text_eq d.choice e.choice
    && same_optional_text d.override_value e.override_value
    && same_optional_text d.clock_override e.clock_override
    && d.expected_version == e.expected_version

unfoldable pub has_resolution : Option ReviewDecision → ReviewDecision → Bool
has_resolution none decision = false
has_resolution (some resolution) decision = same_decision resolution decision

-- `_FINAL_RUN_STATUSES`
unfoldable pub is_final : Text → Bool
is_final status =
    text_eq status (codes "completed")
    || text_eq status (codes "ignored")
    || text_eq status (codes "failed")

-- A review of the email that is no orphan.
unfoldable pub is_follow_up : Uuid → ReviewQueueItem → Bool
is_follow_up source_email_id item = item.source_email_id == source_email_id && not item.orphaned

unfoldable pub request_for : Unicode → ReviewDetail → Result ReviewRequest
request_for u detail = review_type_of detail.review_type >>= (λ review_type.
    check_request u (record {
      review_type = review_type;
      reason = detail.reason;
      question = detail.question;
      allowed_choices = detail.allowed_choices;
    }))

unfoldable pub decision_for :
    Unicode → TimeLibrary → ReviewRequest → ReviewAnswer → Result ReviewDecision
decision_for u library request answer = or_conflict (
    check_decision u (record {
      choice = answer.choice;
      override_value = answer.override_value;
      clock_override = answer.clock_override;
      expected_version = answer.expected_version;
    })
    >>= validate_review_decision u library request)

unfoldable pub own_detail : Uuid → Option ReviewDetail → Result ReviewDetail
own_detail account_id none = err (application_error "REVIEW_NOT_FOUND")
own_detail account_id (some detail) =
    if detail.account_id == account_id
    then ok detail
    else err (application_error "REVIEW_ACCESS_DENIED")
