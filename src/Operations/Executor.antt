-- ===== src/Operations/Executor.antt =====
-- application/operations.py: `OperationExecutor.execute` and `_execute_claimed`.
pub mod Keeps
pub mod Settle
use agenda_agent.Prelude.{
  List, Result, ok, err, ℕ, Bool, Error, [], application_error, false, if◌then◌else◌, is_empty, leb,
  ltb, none, operation_conflict, operation_disabled, operation_not_found, same_optional, select,
  some, suc, true, zero, ◌&&◌, ◌++◌, ◌+◌, ◌∷◌, Option, not, runtime_error, update_where, ◌==◌, ◌||◌,
  length, or_else,
}
use agenda_agent.Operations.Run.{OperationType, is_queued}
use agenda_agent.Operations.World.{World, Step}
use agenda_agent.Prelude.Steps.{pass, ◌>>=◌, done, raise}
use agenda_agent.Domain.Digest.{Uuid, Datetime}
use agenda_agent.Operations.Run.{
  OperationCreate, OperationRow, SafeOperationResult, check_create, claim_operation,
  complete_operation, number_value, process_email, process_pending, bool_value, create_operation,
  fail_operation, text_value, release_operation_for_retry,
}
use agenda_agent.Operations.Control.{
  RuntimeCapabilities, RuntimeControlDefaults, RuntimeControl, ensure_control,
}
use agenda_agent.Prelude.Text.{Text, Unicode, codes, text_eq}
use agenda_agent.Operations.Email.{
  EmailRow, claim_source_email, has_drainable_source_emails, list_orphaned_needs_review_ids,
  reclaim_orphaned_needs_review, list_pending_source_email_ids, reset_source_email_pending,
  mark_source_email_failed,
}
use Prim.Native.Nat.{max}
use agenda_agent.Operations.Drain.{Environment, fan_out_pending}
use agenda_agent.Mail.Vocabulary.{MailSyncStatus, SyncStateRow}
use agenda_agent.Prelude.Codes.{code_of}

-- `_LEASE`, 25 minutes
abbrev pub lease : ℕ
lease = 1500000000

-- `getattr(exc, "code", "OPERATION_FAILED")`
abbrev pub error_code : Error → Text
error_code e = or_else (code_of e) (codes "OPERATION_FAILED")

-- `except (OperationDisabledError, OperationConflictError)`
abbrev pub is_refusal : Error → Bool
is_refusal (operation_conflict s) = true
is_refusal (operation_disabled s) = true
is_refusal _ = false

module _ (u : Unicode) (x : Environment) where
  -- `ensure_control`, with the rows that it leaves.
  unfoldable pub ensure : Step RuntimeControl
  ensure w = elim (ensure_control u x.account_id x.defaults x.now w.controls) [
    | err e ↦ (w, err e)
    | ok (controls, c) ↦ (record w { controls = controls }, ok c)
  ]

  abbrev pub of_folder : SyncStateRow → Bool
  of_folder m = (m.account_id == x.account_id) && text_eq m.folder_id x.folder_id

  -- `reset_mail_cursor`
  unfoldable pub reset_cursor : Step Bool
  reset_cursor w = (
    record w {
      sync_states =
          update_where of_folder
            (λ m. record m { delta_link = none; status = MailSyncStatus.idle; error_code = none })
            w.sync_states;
    },
    ok (length (select of_folder w.sync_states) == 1),
  )

  -- `_process_email`
  unfoldable pub process_one : OperationRow → RuntimeControl → Uuid → Step SafeOperationResult
  process_one m c source w =
      let (emails, claimed) =
        claim_source_email x.account_id source (ltb 1 m.attempt_count) w.emails in
      let w' = record w { emails = emails } in
      if not claimed
      then (
        w',
        ok (
            ("skipped", bool_value true)
            ∷ ("reason", text_value (codes "source_not_pending"))
            ∷ []),
      )
      else pass
          (x.process_email source (x.processing_run_id m.id)
            (c.calendar_write_enabled && x.capabilities.calendar_write_available) w')
          (λ outcome. done (
            ("workflow_status", text_value outcome.0) ∷ ("interrupted", bool_value outcome.1) ∷ []))

  abbrev pub workflow_refusal : RuntimeControl → Option Error
  workflow_refusal c =
      if not c.workflow_enabled
      then some (operation_disabled "workflow processing is paused")
      else if not x.capabilities.workflow_processing_available
      then some (operation_disabled "workflow processing is not configured")
      else none

  abbrev pub refuse_or : Option Error → Step SafeOperationResult → Step SafeOperationResult
  refuse_or (some e) s = raise e
  refuse_or none s = s

  abbrev pub send_to : Option Text → Step SafeOperationResult
  send_to none = raise (operation_disabled "Daily Brief recipient is not configured")
  send_to (some recipient) = do
    sent ← x.send_daily_brief recipient
    done (("sent", bool_value sent) ∷ ("already_sent", bool_value (not sent)) ∷ [])

  abbrev pub fan_out_up_to : OperationRow → Option ℕ → Step SafeOperationResult
  fan_out_up_to m none = raise (runtime_error "assert")
  fan_out_up_to m (some limit) = fan_out_pending u x m limit

  abbrev pub process_source : OperationRow → RuntimeControl → Option Uuid → Step SafeOperationResult
  process_source m c none = raise (runtime_error "assert")
  process_source m c (some source) = process_one m c source

  -- The branches of `_execute_claimed`. The two assertions hold of every row, by
  -- `operation_parameters_match_type`.
  unfoldable pub execute_typed :
      OperationType → OperationRow → RuntimeControl → Step SafeOperationResult
  unfolding fan_out_pending process_one reset_cursor
  execute_typed OperationType.mail_sync m c =
      if not c.mail_sync_enabled
      then raise (operation_disabled "mail synchronization is paused")
      else (do
        counts ← x.synchronize_mail
        done (
            ("observed", number_value counts.0)
            ∷ ("inserted", number_value counts.1)
            ∷ ("updated", number_value counts.2)
            ∷ []))
  execute_typed OperationType.reset_mail_cursor m c =
      if c.mail_sync_enabled || c.workflow_enabled
      then raise
          (operation_conflict "pause mail synchronization and workflow before resetting the cursor")
      else (do reset ← reset_cursor; done (("cursor_reset", bool_value reset) ∷ []))
  execute_typed OperationType.send_daily_brief m c =
      if not c.daily_brief_enabled
      then raise (operation_disabled "Daily Brief delivery is paused")
      else if not x.capabilities.daily_brief_available
      then raise (operation_disabled "Daily Brief delivery is not configured")
      else send_to c.daily_brief_recipient
  execute_typed OperationType.process_pending m c =
      refuse_or (workflow_refusal c) (fan_out_up_to m m.batch_limit)
  execute_typed OperationType.process_email m c =
      refuse_or (workflow_refusal c) (process_source m c m.source_email_id)

  -- `_execute_claimed`
  abbrev pub execute_claimed : OperationRow → RuntimeControl → Step SafeOperationResult
  execute_claimed m c = execute_typed m.operation_type m c

  -- The `try` block.
  unfoldable pub attempt : OperationRow → Step SafeOperationResult
  unfolding ensure execute_typed
  attempt m = do c ← ensure; execute_claimed m c

  abbrev pub on_source : (Uuid → List EmailRow → List EmailRow) → Option Uuid → World → World
  on_source f none w = w
  on_source f (some i) w = record w { emails = f i w.emails }

  -- What follows the `try` block.
  unfoldable pub settle :
      OperationRow → ℕ → World × Result SafeOperationResult → World × Result (Unit {0})
  settle m tries (w, ok result) =
      (record w { runs = complete_operation m.id result x.later w.runs }, ok tt)
  settle m tries (w, err e) =
      if is_refusal e
      then (record w { runs = fail_operation m.id (error_code e) x.later w.runs }, ok tt)
      else if ltb tries 5
      then (
        record (on_source reset_source_email_pending m.source_email_id w) {
          runs = release_operation_for_retry m.id w.runs;
        },
        err e,
      )
      else (
        record (on_source mark_source_email_failed m.source_email_id w) {
          runs = fail_operation m.id (error_code e) x.later w.runs;
        },
        ok tt,
      )

  -- `execute`
  unfoldable pub execute : Uuid → ℕ → Step (Unit {0})
  unfolding attempt settle
  execute i delivery_attempt w = elim (claim_operation i x.now (x.now + lease) w.runs) [
    | err e ↦ (w, err e)
    | ok (runs, (m, claimed)) ↦
        let w' = record w { runs = runs } in
        if not claimed
        then (w', ok tt)
        else if not (m.account_id == x.account_id)
        then (
          record w' {
            runs = fail_operation m.id (codes "OPERATION_ACCOUNT_MISMATCH") x.later runs;
          },
          ok tt,
        )
        else settle m (max delivery_attempt m.attempt_count) (attempt m w')
  ]
