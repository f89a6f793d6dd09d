-- ===== src/Examples/Executor.antt =====
-- Runs of the executor: a drain of the pending emails, with handlers that fail.
use agenda_agent.Examples.Operations.{defaults, capabilities}
use agenda_agent.Examples.Emails.{emails}
use agenda_agent.Prelude.Text.{ascii, codes}
use agenda_agent.Prelude.{[], ok, refl, runtime_error, true, ◌+◌, ◌∷◌, ◌≡◌}
use agenda_agent.Operations.World.{enqueue, World}
use agenda_agent.Prelude.Steps.{pass, raise}
use agenda_agent.Operations.Executor.{execute}
use agenda_agent.Operations.Executor.Settle.{Settled, execute-Settled}
use agenda_agent.Examples.Runs.{queued_run}
use agenda_agent.Operations.Control.{ensure_control, check_control}
use agenda_agent.Operations.Run.{
  claim_operation, check_create, create_operation, complete_operation,
}
use agenda_agent.Operations.Email.{
  list_pending_source_email_ids, list_orphaned_needs_review_ids, has_drainable_source_emails,
  reclaim_orphaned_needs_review,
}
use agenda_agent.Prelude.Sort.{sort_with}
use agenda_agent.Examples.Samples.{fill}
use agenda_agent.Operations.Drain.{Environment}

abbrev environment : Environment
environment = record {
  account_id = 5;
  folder_id = codes "inbox";
  defaults = record defaults { workflow_enabled = true };
  capabilities = capabilities;
  synchronize_mail = raise (runtime_error "no connection");
  send_daily_brief = λ recipient. raise (runtime_error "no connection");
  process_email = λ source run calendar. raise (runtime_error "no connection");
  draw = λ n. 100 + n;
  child_key = λ i j. fill 64;
  continuation_key = λ i. fill 64;
  queue = λ sent i. ok tt;
  processing_run_id = λ i. i;
  now = 200;
  later = 210;
}

abbrev world : World
world = record {
  runs = queued_run ∷ [];
  controls = [];
  emails = emails;
  processing = [];
  reviews = [];
  sync_states = [];
  queue = 1 ∷ [];
  drawn = 0;
}

-- The drain creates a run for the email that waits, and queues it.
drain_run :
    ((execute ascii environment 1 1 world).1 ≡ ok tt)
    × ((execute ascii environment 1 1 world).0.queue ≡ 1 ∷ 100 ∷ [])
unfolding execute pass ensure_control check_control claim_operation check_create create_operation
    list_pending_source_email_ids list_orphaned_needs_review_ids has_drainable_source_emails
    sort_with complete_operation reclaim_orphaned_needs_review enqueue
drain_run = (refl, refl)

execute-Settled_example : Settled 1 1 (execute ascii environment 1 1 world).0
execute-Settled_example =
    execute-Settled ascii environment 1 1 world queued_run
      (record { mail = λ w i m h. h; brief = λ r w i m h. h; email = λ s r c w i m h. h }) refl refl
