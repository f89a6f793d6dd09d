-- ===== src/Operations/Submit.antt =====
-- application/operations.py: the commands of `OperationsControlService` that create runs and queue them.
pub mod Again
pub mod Once
use agenda_agent.Prelude.Steps.{◌>>=◌, done}
use agenda_agent.Domain.Digest.{Datetime, Uuid}
use agenda_agent.Operations.Run.{
  OperationCreate, OperationRow, OperationType, check_create, create_operation, get_operation,
  is_queued, list_dispatchable_operation_ids,
}
use agenda_agent.Prelude.{
  List, Option, Result, [], err, if◌then◌else◌, leb, length, none, not, ok, operation_not_found,
  some, value_error, ℕ, ◌&&◌, ◌++◌, ◌+◌, ◌/◌, ◌||◌, ◌∷◌, exists,
}
use agenda_agent.Operations.World.{OperationQueue, Step, enqueue}
use agenda_agent.Operations.Control.{
  RuntimeCapabilities, RuntimeControl, RuntimeControlDefaults, ensure_control,
}
use agenda_agent.Prelude.Text.{Text, Unicode, codes, strip}
use agenda_agent.Operations.Email.{has_drainable_source_emails}

-- What the service is built with: the account, the settings, the draws of `uuid4`, SHA-256 of a key,
-- the text of a slot, the queue, and three readings of the clock: for the control, the slot and a request.
pub record ControlService : Type 0 where
  pub account_id : Uuid
  pub defaults : RuntimeControlDefaults
  pub capabilities : RuntimeCapabilities
  pub draw : ℕ → Uuid
  pub key_digest : Text → Text
  pub slot_text : ℕ → Text
  pub queue : OperationQueue
  pub control_at : Datetime
  pub slot_at : Datetime
  pub requested_at : Datetime

-- `SCHEDULED_PENDING_BATCH_LIMIT`
abbrev pub scheduled_batch_limit : ℕ
scheduled_batch_limit = 20

-- `scheduled_pending_drain_slot`: the number of the ten minutes, of which the slot is the text
abbrev pub scheduled_pending_drain_slot : Datetime → ℕ
scheduled_pending_drain_slot now = now / 600000000

module _ (u : Unicode) (x : ControlService) where
  -- `hash_idempotency_key`
  unfoldable pub hash_idempotency_key : Text → Result Text
  hash_idempotency_key value =
      let normalized = strip u value in
      if not (leb 8 (length normalized) && leb (length normalized) 128)
        || exists (λ (c : ℕ). leb 128 c) normalized
      then err (value_error "Idempotency-Key must be 8-128 ASCII characters")
      else ok (x.key_digest normalized)

  -- `OperationCreate(…)`, and `create_operation` with it
  unfoldable pub request_run : OperationCreate → Step OperationRow
  request_run r w = elim (check_create r) [
    | err e ↦ (w, err e)
    | ok r' ↦ elim (create_operation (x.draw w.drawn) x.requested_at r' w.runs) [
      | err e ↦ (record w { drawn = w.drawn + 1 }, err e)
      | ok (runs, (m, created)) ↦ (record w { runs = runs; drawn = w.drawn + 1 }, ok m)
    ]
  ]

  -- `if operation.status is OperationStatus.QUEUED`
  unfoldable pub queue_if_queued : OperationRow → Step OperationRow
  queue_if_queued m w =
      if is_queued m.status then (enqueue x.queue m.id >>= (λ taken. done m)) w else (w, ok m)

  abbrev pub request_of : OperationType → Text → Option Uuid → Option ℕ → OperationCreate
  request_of type key source limit = record {
    account_id = x.account_id;
    operation_type = type;
    idempotency_key_hash = key;
    source_email_id = source;
    batch_limit = limit;
    parent_operation_id = none;
  }

  unfoldable pub submit : OperationType → Text → Option Uuid → Option ℕ → Step OperationRow
  submit type key source limit w = elim (hash_idempotency_key key) [
    | err e ↦ (w, err e)
    | ok hash ↦ (request_run (request_of type hash source limit) >>= queue_if_queued) w
  ]

  -- `get_operation`
  unfoldable pub read_operation : Uuid → Step OperationRow
  read_operation i w = elim (get_operation x.account_id i w.runs) [
    | none ↦ (w, err (operation_not_found "operation does not exist"))
    | some m ↦ (w, ok m)
  ]

  -- The loop of `redispatch_queued`.
  unfoldable pub enqueue_each : List Uuid → Step (Unit {0})
  enqueue_each [] = done tt
  enqueue_each (i ∷ is) = enqueue x.queue i >>= (λ taken. enqueue_each is)

  unfoldable pub redispatch_queued : ℕ → Step (List Uuid)
  redispatch_queued limit w =
      let ids = list_dispatchable_operation_ids x.requested_at limit w.runs in
      (enqueue_each ids >>= (λ sent. done ids)) w

  -- `get_control`
  unfoldable pub get_control : Step RuntimeControl
  get_control w = elim (ensure_control u x.account_id x.defaults x.control_at w.controls) [
    | err e ↦ (w, err e)
    | ok (controls, c) ↦ (record w { controls = controls }, ok c)
  ]

  abbrev pub drain_key : Text
  drain_key = codes "auto-drain-" ++ x.slot_text (scheduled_pending_drain_slot x.slot_at)

  -- What follows the reading of the control.
  unfoldable pub drain_with : RuntimeControl → Step (Option OperationRow)
  drain_with c w =
      if not c.workflow_enabled
      then (w, ok none)
      else if not (has_drainable_source_emails x.account_id w.runs w.reviews w.processing w.emails)
      then (w, ok none)
      else (submit OperationType.process_pending drain_key none (some scheduled_batch_limit)
            >>= (λ m. done (some m)))
          w

  unfoldable pub submit_scheduled_pending_drain : Step (Option OperationRow)
  submit_scheduled_pending_drain w =
      if not x.capabilities.workflow_processing_available
      then (w, ok none)
      else (get_control >>= drain_with) w
