-- ===== src/Examples/Submit.antt =====
-- Two timers in one slot of ten minutes.
use agenda_agent.Examples.Operations.{defaults, capabilities}
use agenda_agent.Examples.Emails.{emails}
use agenda_agent.Examples.Samples.{fill}
use agenda_agent.Operations.World.{World, enqueue}
use agenda_agent.Operations.Run.{
  OperationRow, OperationType, check_create, claim_operation, claimed_row, complete_operation,
  create_operation, queued_row,
}
use agenda_agent.Operations.Submit.{
  ControlService, submit_scheduled_pending_drain, request_of, get_control, drain_with, submit,
  request_run, queue_if_queued, hash_idempotency_key,
}
use agenda_agent.Operations.Control.{check_control, ensure_control}
use agenda_agent.Prelude.{List, ◌∷◌, [], none, ok, refl, some, true, ℕ, ◌+◌, ◌≡◌}
use agenda_agent.Prelude.Text.{ascii, codes, strip, lstrip}
use agenda_agent.Operations.Run.Later.{here, then_claims, then_completes}
use agenda_agent.Operations.Submit.Once.{submit_scheduled_pending_drain-once}
use agenda_agent.Prelude.Steps.{pass}
use agenda_agent.Operations.Email.{
  has_drainable_source_emails, list_pending_source_email_ids, list_orphaned_needs_review_ids,
}
use agenda_agent.Prelude.Sort.{sort_with}

abbrev timer : ℕ → ControlService
timer now = record {
  account_id = 5;
  defaults = record defaults { workflow_enabled = true };
  capabilities = capabilities;
  draw = λ n. 100 + n;
  key_digest = λ t. fill 64;
  queue = λ sent i. ok tt;
  slot_text = λ n. codes "202611260000";
  control_at = now;
  slot_at = now;
  requested_at = now;
}

abbrev waiting_world : World
waiting_world = record {
  runs = [];
  controls = [];
  emails = emails;
  processing = [];
  reviews = [];
  sync_states = [];
  queue = [];
  drawn = 0;
}

abbrev drain_row : OperationRow
drain_row =
    queued_row 100 1000
      (request_of ascii (timer 1000) OperationType.process_pending (fill 64) none (some 20))

drains :
    submit_scheduled_pending_drain ascii (timer 1000) waiting_world
    ≡ ((submit_scheduled_pending_drain ascii (timer 1000) waiting_world).0, ok (some drain_row))
unfolding submit_scheduled_pending_drain get_control drain_with submit request_run queue_if_queued
    pass hash_idempotency_key ensure_control check_control check_create create_operation
    has_drainable_source_emails list_pending_source_email_ids list_orphaned_needs_review_ids
    sort_with strip lstrip enqueue
drains = refl

abbrev after_drain : World
after_drain = (submit_scheduled_pending_drain ascii (timer 1000) waiting_world).0

-- The executor has claimed the drain and completed it.
abbrev drained : List OperationRow
drained = complete_operation 100 [] 3000 (claimed_row 2000 9000 drain_row ∷ [])

claims_drain :
    claim_operation 100 2000 9000 after_drain.runs
    ≡ ok (claimed_row 2000 9000 drain_row ∷ [], (claimed_row 2000 9000 drain_row, true))
unfolding claim_operation submit_scheduled_pending_drain get_control drain_with submit request_run
    queue_if_queued pass hash_idempotency_key ensure_control check_control check_create
    create_operation has_drainable_source_emails list_pending_source_email_ids
    list_orphaned_needs_review_ids sort_with strip lstrip enqueue
claims_drain = refl

submit_scheduled_pending_drain-once_example :
    (submit_scheduled_pending_drain ascii
      (timer 500000000)
      (record after_drain { runs = drained })).0.runs
    ≡ drained
submit_scheduled_pending_drain-once_example =
    submit_scheduled_pending_drain-once ascii (timer 1000) (timer 500000000) waiting_world
      after_drain (record after_drain { runs = drained }) drain_row
      (record { account = refl; digest = refl }) refl refl drains
      (then_completes 100 [] 3000 (then_claims 100 2000 9000 here claims_drain))
