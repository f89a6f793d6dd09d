-- ===== src/Operations/Email.antt =====
-- persistence/operations.py: the emails that the operations work on, how they are claimed, and the
-- ones whose review got lost. A row has the columns that these statements use.
pub mod Claim
pub mod Orphan
use agenda_agent.Prelude.{
  List, Bool, Option, [], false, if◌then◌else◌, is_empty, length, ltb, none, same_optional, select,
  some, take, true, ℕ, ◌&&◌, ◌++◌, ◌==◌, ◌||◌, ◌∷◌, exists, map, not, update_where,
}
use agenda_agent.Domain.Digest.{Uuid, Datetime}
use agenda_agent.Operations.Run.{OperationRow, same_type, process_email, is_queued, is_running}
use agenda_agent.Prelude.Text.{Text, text_eq, codes}
use agenda_agent.Prelude.Sort.{sort_by}
use agenda_agent.Mail.Vocabulary.{
  SourceEmailProcessingStatus, failed, pending, processing, needs_review,
}

abbrev pub is_pending : SourceEmailProcessingStatus → Bool
is_pending pending = true
is_pending _ = false

abbrev pub is_needs_review : SourceEmailProcessingStatus → Bool
is_needs_review needs_review = true
is_needs_review _ = false

-- Under way, or failed.
abbrev pub is_stuck : SourceEmailProcessingStatus → Bool
is_stuck processing = true
is_stuck failed = true
is_stuck _ = false

pub record EmailRow : Type 0 where
  pub id : Uuid
  pub account_id : Uuid
  pub processing_status : SourceEmailProcessingStatus
  pub received_at : Datetime

pub record ProcessingRow : Type 0 where
  pub id : Uuid
  pub source_email_id : Uuid
  pub status : Text
  pub started_at : Datetime
  pub finished_at : Option Datetime
  pub error_code : Option Text

pub record ReviewRow : Type 0 where
  pub processing_run_id : Uuid
  pub status : Text

abbrev pub with_status : SourceEmailProcessingStatus → EmailRow → EmailRow
with_status s m = record m { processing_status = s }

-- `allowed_statuses`
abbrev pub is_allowed : Bool → SourceEmailProcessingStatus → Bool
is_allowed recover_existing s = is_pending s || recover_existing && is_stuck s

-- The condition of the update.
abbrev pub is_free : Uuid → Uuid → Bool → EmailRow → Bool
is_free account i recover_existing m =
    (m.id == i) && (m.account_id == account) && is_allowed recover_existing m.processing_status

-- `claim_source_email`; `rowcount == 1`
unfoldable pub claim_source_email : Uuid → Uuid → Bool → List EmailRow → List EmailRow × Bool
claim_source_email account i recover_existing rows = (
  update_where (is_free account i recover_existing) (with_status processing) rows,
  length (select (is_free account i recover_existing) rows) == 1,
)

unfoldable pub mark_source_email_failed : Uuid → List EmailRow → List EmailRow
mark_source_email_failed i rows =
    update_where (λ (m : EmailRow). m.id == i) (with_status failed) rows

unfoldable pub reset_source_email_pending : Uuid → List EmailRow → List EmailRow
reset_source_email_pending i rows =
    update_where (λ (m : EmailRow). (m.id == i) && is_stuck m.processing_status)
      (with_status pending) rows

-- `_busy_process_email`, for one email
abbrev pub is_busy : Uuid → OperationRow → Bool
is_busy i m =
    same_optional m.source_email_id (some i)
    && same_type m.operation_type process_email
    && (is_queued m.status || is_running m.status)

abbrev pub is_waiting : Uuid → List OperationRow → EmailRow → Bool
is_waiting account runs m =
    (m.account_id == account) && is_pending m.processing_status && not (exists (is_busy m.id) runs)

-- `list_pending_source_email_ids`; no limit is below 0
unfoldable pub list_pending_source_email_ids :
    Uuid → ℕ → List OperationRow → List EmailRow → List Uuid
list_pending_source_email_ids account limit runs rows = take limit (
    map (λ (m : EmailRow). m.id)
      (sort_by (λ (m : EmailRow). m.received_at) (select (is_waiting account runs) rows)))

-- `open_review`
abbrev pub has_open_review : List ReviewRow → ProcessingRow → Bool
has_open_review reviews r =
    exists (λ (v : ReviewRow). (v.processing_run_id == r.id) && text_eq v.status (codes "open"))
      reviews

-- A processing run that waits for a review that is not there.
abbrev pub is_orphaned : List ReviewRow → ProcessingRow → Bool
is_orphaned reviews r = text_eq r.status (codes "needs_review") && not (has_open_review reviews r)

abbrev pub is_orphaned_email : Uuid → EmailRow → Bool
is_orphaned_email account m = (m.account_id == account) && is_needs_review m.processing_status

-- The rows of the join for one email: its identifier once for each such run of it.
abbrev pub orphaned_ids : List ReviewRow → List ProcessingRow → EmailRow → List Uuid
orphaned_ids reviews runs m =
    map (λ (r : ProcessingRow). m.id)
      (select (λ (r : ProcessingRow). (r.source_email_id == m.id) && is_orphaned reviews r) runs)

abbrev pub join_ids : (EmailRow → List Uuid) → List EmailRow → List Uuid
join_ids f [] = []
join_ids f (m ∷ ms) = f m ++ join_ids f ms

-- `dict.fromkeys`: the first of each
abbrev pub without : Uuid → List Uuid → List Uuid
without i = select (λ j. not (j == i))

unfoldable pub first_of_each : List Uuid → List Uuid
first_of_each [] = []
first_of_each (i ∷ is) = i ∷ without i (first_of_each is)

-- `list_orphaned_needs_review_ids`; the limit counts the rows of the join
unfoldable pub list_orphaned_needs_review_ids :
    Uuid → ℕ → List ReviewRow → List ProcessingRow → List EmailRow → List Uuid
unfolding first_of_each
list_orphaned_needs_review_ids account limit reviews runs rows = first_of_each (
    take limit (
      join_ids (orphaned_ids reviews runs)
        (sort_by (λ (m : EmailRow). m.received_at) (select (is_orphaned_email account) rows))))

-- `has_drainable_source_emails`
unfoldable pub has_drainable_source_emails :
    Uuid → List OperationRow → List ReviewRow → List ProcessingRow → List EmailRow → Bool
unfolding list_orphaned_needs_review_ids list_pending_source_email_ids
has_drainable_source_emails account operations reviews runs rows =
    not (is_empty (list_orphaned_needs_review_ids account 1 reviews runs rows))
    || not (is_empty (list_pending_source_email_ids account 1 operations rows))

-- The one that started last.
abbrev pub latest : List ProcessingRow → Option ProcessingRow
latest [] = none
latest (r ∷ rs) = elim (latest rs) [
  | none ↦ some r
  | some l ↦ if ltb r.started_at l.started_at then some l else some r
]

-- `reclaim_orphaned_needs_review`: the run has failed, and the email is pending again.
unfoldable pub reclaim_orphaned_needs_review :
    Uuid
    → Uuid
    → Datetime
    → List ReviewRow
    → List ProcessingRow
    → List EmailRow
    → (List ProcessingRow × List EmailRow) × Bool
reclaim_orphaned_needs_review account i now reviews runs rows =
    if not (exists (λ (m : EmailRow). (m.id == i) && is_orphaned_email account m) rows)
    then ((runs, rows), false)
    else elim (latest
        (select (λ (r : ProcessingRow). (r.source_email_id == i) && is_orphaned reviews r) runs)) [
          | none ↦ ((runs, rows), false)
          | some run ↦ (
            (
              update_where (λ (r : ProcessingRow). r.id == run.id)
                  (λ r. record r {
                    status = codes "failed";
                    error_code = some (codes "ORPHANED_REVIEW");
                    finished_at = some now;
                  })
                  runs,
              update_where (λ (m : EmailRow). (m.id == i) && is_orphaned_email account m)
                  (with_status pending) rows,
            ),
            true,
          )
        ]
