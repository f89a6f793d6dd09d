-- ===== src/Examples/Runs.antt =====
-- Runs of the operations on the table of runs.
use agenda_agent.Examples.Samples.{fill}
use agenda_agent.Prelude.{
  List, In, [], err, false, inl, none, ok, operation_conflict, refl, some, true, ◌+◌, ◌∷◌, ◌≡◌,
}
use agenda_agent.Operations.Run.{
  complete_operation, OperationCreate, OperationRow, claim_operation, claimed_row, create_operation,
  failed, list_dispatchable_operation_ids, operation_by_id, process_pending, queued_row, running,
  succeeded, finish_operation, on_operation, release_operation_for_retry,
}
use agenda_agent.Operations.Run.Reachable.{
  IsInvariant, Reachable-IsInvariant, claims, creates, empty,
}
use agenda_agent.Operations.Run.Create.{create_operation_again}
use agenda_agent.Operations.Run.Later.{create_operation_repeated, here, then_claims, then_completes}
use agenda_agent.Operations.Run.Later.Over.{finish_operation-claim, is_over}
use agenda_agent.Prelude.Sort.{sort_with}
use agenda_agent.Operations.Run.Lease.{
  claim_operation_lease, list_dispatchable_operation_ids-claim, release_operation_for_retry-claim,
}

abbrev pub request : OperationCreate
request = record {
  account_id = 5;
  operation_type = process_pending;
  idempotency_key_hash = fill 64;
  source_email_id = none;
  batch_limit = some 20;
  parent_operation_id = none;
}

abbrev smaller : OperationCreate
smaller = record request { batch_limit = some 10 }

abbrev pub queued_run : OperationRow
queued_run = queued_row 1 100 request

abbrev running_run : OperationRow
running_run = claimed_row 200 300 queued_run

create_run : create_operation 1 100 request [] ≡ ok (queued_run ∷ [], (queued_run, true))
unfolding create_operation
create_run = refl

create_operation_again_example :
    create_operation 2 150 smaller (queued_run ∷ [])
    ≡ err (operation_conflict "Idempotency-Key was already used with different parameters")
create_operation_again_example =
    create_operation_again 1 2 100 150 request smaller [] (queued_run ∷ []) queued_run true
      create_run (record { account = refl; type = refl; hash = refl })

claim_run : claim_operation 1 200 300 (queued_run ∷ []) ≡ ok (running_run ∷ [], (running_run, true))
unfolding claim_operation
claim_run = refl

claim_operation_lease_example :
    claim_operation 1 250 400 (running_run ∷ []) ≡ ok (running_run ∷ [], (running_run, false))
claim_operation_lease_example =
    claim_operation_lease 1 200 300 250 400 (queued_run ∷ []) (running_run ∷ []) running_run
      claim_run

abbrev done_run : OperationRow
done_run = record running_run { status = succeeded; lease_expires_at = none }

release_operation_for_retry-claim_example :
    (m' : OperationRow) × (m'.status ≡ running)
    × (m'.attempt_count ≡ done_run.attempt_count + 1)
    × (claim_operation 1 500 600 (release_operation_for_retry 1 (done_run ∷ []))
        ≡ ok (
          on_operation 1 (claimed_row 500 600) (release_operation_for_retry 1 (done_run ∷ [])),
          (m', true),
        ))
release_operation_for_retry-claim_example =
    release_operation_for_retry-claim 1 500 600 (done_run ∷ []) done_run refl

-- The run has failed, and another worker completes it.
abbrev failed_table : List OperationRow
failed_table = finish_operation 1 failed none none 400 (running_run ∷ [])

finish_operation-claim_example :
    (m' : OperationRow) × (is_over m'.status ≡ true)
    × (claim_operation 1 500 600 (complete_operation 1 [] 450 failed_table)
        ≡ ok (complete_operation 1 [] 450 failed_table, (m', false)))
finish_operation-claim_example =
    finish_operation-claim 1 failed none none 400 500 600 (running_run ∷ [])
      (complete_operation 1 [] 450 failed_table) running_run refl refl
      (then_completes 1 [] 450 here)

create_operation_repeated_example :
    (n : OperationRow) × (n.id ≡ 1)
    × (create_operation 2 250 smaller (running_run ∷ [])
        ≡ err (operation_conflict "Idempotency-Key was already used with different parameters"))
create_operation_repeated_example =
    create_operation_repeated {MayRelease = λ i. Unit} 1 2 100 250 request smaller []
      (queued_run ∷ []) (running_run ∷ []) queued_run true create_run
      (then_claims 1 200 300 here claim_run) (record { account = refl; type = refl; hash = refl })

listed_run : In 1 (list_dispatchable_operation_ids 40000000 5 (queued_run ∷ []))
unfolding list_dispatchable_operation_ids sort_with
listed_run = inl refl

list_dispatchable_operation_ids-claim_example :
    (m : OperationRow) × (operation_by_id 1 (queued_run ∷ []) ≡ some m)
    × (claim_operation 1 40000000 50000000 (queued_run ∷ [])
        ≡ ok (
          on_operation 1 (claimed_row 40000000 50000000) (queued_run ∷ []),
          (claimed_row 40000000 50000000 m, true),
        ))
list_dispatchable_operation_ids-claim_example =
    list_dispatchable_operation_ids-claim 1 40000000 50000000 5 (queued_run ∷ []) (refl, tt)
      listed_run

Reachable-IsInvariant_example : IsInvariant (running_run ∷ [])
Reachable-IsInvariant_example =
    Reachable-IsInvariant (claims 1 200 300 (creates 1 100 request empty create_run) claim_run)
