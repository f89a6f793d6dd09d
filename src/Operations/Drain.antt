-- ===== src/Operations/Drain.antt =====
-- application/operations.py: what `OperationExecutor` is built with, and its fan-out of the pending
-- emails.
use agenda_agent.Prelude.{
  List, ok, err, ℕ, Bool, [], false, if◌then◌else◌, is_empty, leb, ltb, none, same_optional, select,
  some, suc, zero, ◌&&◌, ◌+◌, ◌∷◌, ◌||◌, length,
}
use agenda_agent.Operations.Run.{is_queued}
use agenda_agent.Operations.World.{World, Step, OperationQueue, enqueue}
use agenda_agent.Prelude.Steps.{pass, ◌>>=◌, done}
use agenda_agent.Domain.Digest.{Uuid, Datetime}
use agenda_agent.Operations.Run.{
  OperationCreate, OperationRow, SafeOperationResult, check_create, number_value, process_email,
  process_pending, bool_value, create_operation,
}
use agenda_agent.Operations.Control.{RuntimeCapabilities, RuntimeControlDefaults}
use agenda_agent.Prelude.Text.{Text, Unicode}
use agenda_agent.Operations.Email.{
  has_drainable_source_emails, list_orphaned_needs_review_ids, reclaim_orphaned_needs_review,
  list_pending_source_email_ids,
}

-- What the executor is built with: the account, the folder, the settings, the handlers, the draws of
-- `uuid4`, the queue, the hashes of its keys, and two readings of the clock: the first one, and one for
-- all that comes later.
pub record Environment : Type 0 where
  pub account_id : Uuid
  pub folder_id : Text
  pub defaults : RuntimeControlDefaults
  pub capabilities : RuntimeCapabilities
  pub synchronize_mail : Step (ℕ × ℕ × ℕ)
  pub send_daily_brief : Text → Step Bool
  pub process_email : Uuid → Uuid → Bool → Step (Text × Bool)
  pub draw : ℕ → Uuid
  pub child_key : Uuid → Uuid → Text
  pub continuation_key : Uuid → Text
  pub processing_run_id : Uuid → Uuid
  pub queue : OperationQueue
  pub now : Datetime
  pub later : Datetime

-- `PENDING_DRAIN_MAX_BATCHES`
abbrev pub max_batches : ℕ
max_batches = 50

module _ (u : Unicode) (x : Environment) where
  -- `OperationCreate(…)`, and `create_operation` with it
  unfoldable pub create : OperationCreate → Step (OperationRow × Bool)
  create r w = elim (check_create r) [
    | err e ↦ (w, err e)
    | ok r' ↦ elim (create_operation (x.draw w.drawn) x.later r' w.runs) [
      | err e ↦ (record w { drawn = w.drawn + 1 }, err e)
      | ok (runs, out) ↦ (record w { runs = runs; drawn = w.drawn + 1 }, ok out)
    ]
  ]

  -- The loop of `_next_pending_batch` over the orphans.
  unfoldable pub reclaim_each : List Uuid → World → World
  reclaim_each [] w = w
  reclaim_each (i ∷ is) w =
      let ((runs, emails), found) =
        reclaim_orphaned_needs_review x.account_id i x.later w.reviews w.processing w.emails in
      reclaim_each is (record w { processing = runs; emails = emails })

  -- `_next_pending_batch`
  unfoldable pub next_pending_batch : ℕ → Step (List Uuid)
  unfolding reclaim_each
  next_pending_batch limit w =
      let w' =
        reclaim_each
          (list_orphaned_needs_review_ids x.account_id limit w.reviews w.processing w.emails) w in
      (w', ok (list_pending_source_email_ids x.account_id limit w'.runs w'.emails))

  -- The child that `_enqueue_process_email_children` creates for an email.
  abbrev pub child_of : OperationRow → Uuid → OperationCreate
  child_of m source = record {
    account_id = x.account_id;
    operation_type = process_email;
    idempotency_key_hash = x.child_key m.id source;
    source_email_id = some source;
    batch_limit = none;
    parent_operation_id = some m.id;
  }

  -- `enqueue` if the run is queued, and how many were
  unfoldable pub enqueue_queued : OperationRow → Step ℕ
  enqueue_queued m w =
      if is_queued m.status then (enqueue x.queue m.id >>= (λ taken. done 1)) w else (w, ok 0)

  -- `_enqueue_process_email_children`
  unfoldable pub enqueue_children : OperationRow → List Uuid → Step ℕ
  unfolding create enqueue_queued
  enqueue_children m [] = done 0
  enqueue_children m (i ∷ is) = do
    (child, created) ← create (child_of m i)
    added ← enqueue_queued child
    n ← enqueue_children m is
    done (added + n)

  -- The loop of `_fan_out_pending`, on the batches that are left: how many emails were queued, in how
  -- many batches.
  unfoldable pub drain : OperationRow → ℕ → ℕ → Step (ℕ × ℕ)
  unfolding next_pending_batch enqueue_children
  drain m limit zero = done (0, 0)
  drain m limit (suc n) = do
    let rest = drain m limit n
    ids ← next_pending_batch limit
    added ← enqueue_children m ids
    (later, batches) ← (if is_empty ids || ltb (length ids) limit then done (0, 0) else rest)
    done (added + later, (if is_empty ids then 0 else 1) + batches)

  -- `_enqueue_pending_continuation`
  unfoldable pub enqueue_pending_continuation : OperationRow → ℕ → Step Bool
  unfolding create enqueue_queued
  enqueue_pending_continuation m limit = do
    (next, created) ← create (record {
      account_id = x.account_id;
      operation_type = process_pending;
      idempotency_key_hash = x.continuation_key m.id;
      source_email_id = none;
      batch_limit = some limit;
      parent_operation_id = none;
    })
    added ← enqueue_queued next
    done (created || is_queued next.status)

  abbrev pub count_child_operations : Uuid → List OperationRow → ℕ
  count_child_operations i rows =
      length (select (λ (m : OperationRow). same_optional m.parent_operation_id (some i)) rows)

  abbrev pub drainable : World → Bool
  drainable w = has_drainable_source_emails x.account_id w.runs w.reviews w.processing w.emails

  -- `_fan_out_pending`
  unfoldable pub fan_out_pending : OperationRow → ℕ → Step SafeOperationResult
  unfolding drain enqueue_pending_continuation
  fan_out_pending m limit w =
      let existing = count_child_operations m.id w.runs in
      pass (drain m limit max_batches w) (λ counts w'.
        pass
          (if leb max_batches counts.1 && drainable w'
            then enqueue_pending_continuation m limit w'
            else (w', ok false))
          (λ continued. done (
            ("queued", number_value counts.0)
            ∷ ("already_queued", number_value existing)
            ∷ ("continued", bool_value continued)
            ∷ [])))
