-- ===== src/Operations/Submit/Again.antt =====
-- A submission that is repeated finds the run of the first one.
use agenda_agent.Prelude.Steps.{done, pass}
use agenda_agent.Domain.Digest.{Datetime, Uuid}
use agenda_agent.Operations.Run.{
  OperationCreate, OperationRow, OperationType, check_create, create_operation, is_queued,
  queued_row, same_parameters,
}
use agenda_agent.Operations.Run.Create.{create_operation-cases, create_operation-find}
use agenda_agent.Operations.Run.Later.{HasRun, Later, Later-HasRun, same_parameters-SameRun}
use agenda_agent.Operations.World.{World, enqueue, pass-enqueue-runs}
use agenda_agent.Prelude.{
  Bool, Bool-cases, List, Result, Result-cases, arith, false, inl, inr, ok, ok-injective, refl,
  same_optional_refl, true, ◌∙◌, ◌≡◌, ap, Option, err, ℕ, sym, subst,
}
use agenda_agent.Operations.Submit.{
  ControlService, request_run, queue_if_queued, hash_idempotency_key, submit, request_of,
}
use agenda_agent.Prelude.Text.{Unicode, Text}

-- A created run has the parameters of its request.
create_operation-same :
    (i : Uuid) (at : Datetime) (r : OperationCreate) (rows rows' : List OperationRow)
    (m : OperationRow) (created : Bool)
    → create_operation i at r rows ≡ ok (rows', (m, created))
    → same_parameters r m ≡ true
unfolding create_operation
create_operation-same i at r rows rows' m created h =
    elim (create_operation-cases i at r rows (rows', (m, created)) h) [
      | inr (fresh, free, e) ↦
          let is_it : m ≡ queued_row i at r =
            ap (λ (o : List OperationRow × (OperationRow × Bool)). o.1.0) e in
          rw is_it
            (ground (arith, same_optional_refl r.source_email_id, same_optional_refl r.batch_limit))
      | inl (old, found, e) ↦
          let is_it : m ≡ old = ap (λ (o : List OperationRow × (OperationRow × Bool)). o.1.0) e in
          elim (Bool-cases (same_parameters r old)) [
            | inl same ↦ rw is_it same
            | inr other ↦ cc (rw (found, other, create_operation) at h)
          ]
    ]

-- What a step leaves: the runs, and its value.
abbrev pub Leaves : {A : Type 0} → List OperationRow → A → World × Result A → Type 0
Leaves runs a out = (out.0.runs ≡ runs) × (out.1 ≡ ok a)

abbrev pub out_of : {A : Type 0} → World × Result A → Result A
out_of out = out.1

abbrev pub runs_of : {A : Type 0} → World × Result A → List OperationRow
runs_of out = out.0.runs

-- The two services are of one account, with the same hash of a key.
pub record SameService (x y : ControlService) : Type 0 where
  pub account : y.account_id ≡ x.account_id
  pub digest : y.key_digest ≡ x.key_digest

module _ (u : Unicode) where
  -- A request that succeeded finds its run in every later table, which it leaves as it is.
  request_run-again :
      (x y : ControlService) (r : OperationCreate) (w w' v : World) (m : OperationRow)
      → request_run u x r w ≡ (w', ok m)
      → Later (λ i. Unit) w'.runs v.runs
      → (n : OperationRow) × Leaves v.runs n (request_run u y r v)
  unfolding request_run create_operation
  request_run-again x y r w w' v m h later = elim (Result-cases (check_create r)) [
    | inr (e, refused) ↦ cc (ap out_of (rw (refused, request_run) at h))
    | inl (r', checked) ↦
        elim (Result-cases (create_operation (x.draw w.drawn) x.requested_at r' w.runs)) [
          | inr (e, failed) ↦ cc (ap out_of (rw (checked, failed, request_run) at h))
          | inl ((rows, (n, created)), made) ↦
              let first = rw (checked, made, request_run) at h in
              let table : rows ≡ w'.runs =
                ap (λ (o : World × Result OperationRow). o.0.runs) first in
              let has : HasRun r' n w'.runs = subst (HasRun r' n) table (
                n,
                create_operation-find (x.draw w.drawn) x.requested_at r' w.runs rows n created made,
                record { id = refl; source = refl; limit = refl },
              ) in
              let (m', found, kept) = Later-HasRun r' n later has in
              let same =
                same_parameters-SameRun r' n m' kept
                ∙ create_operation-same (x.draw w.drawn) x.requested_at r' w.runs rows n created
                    made in
              let second : create_operation (y.draw v.drawn) y.requested_at r' v.runs
                  ≡ ok (v.runs, (m', false)) =
                rw (found, same, create_operation) refl in
              (m', rw (checked, second, request_run) (refl, refl))
        ]
  ]

  hash-same :
      (x y : ControlService) (key : Text)
      → SameService x y
      → hash_idempotency_key u y key ≡ hash_idempotency_key u x key
  unfolding hash_idempotency_key
  hash-same x y key same = rw same.digest refl

  -- Whatever the queue answers, the runs stay as they are.
  queue_if_queued-runs :
      (y : ControlService) (out : World × Result OperationRow) (runs : List OperationRow)
      → out.0.runs ≡ runs
      → (pass out (queue_if_queued u y)).0.runs ≡ runs
  unfolding pass queue_if_queued
  queue_if_queued-runs y (w, err e) runs h = h
  queue_if_queued-runs y (w, ok n) runs h = elim (Bool-cases (is_queued n.status)) [
    | inl waits ↦ rw waits (pass-enqueue-runs y.queue n.id (λ taken. done n) w (λ v. refl) ∙ h)
    | inr other ↦ rw other h
  ]

  queue_if_queued-value :
      (x : ControlService) (n : OperationRow) (w w' : World) (m : OperationRow)
      → queue_if_queued u x n w ≡ (w', ok m)
      → n ≡ m
  unfolding pass queue_if_queued enqueue
  queue_if_queued-value x n w w' m h = elim (Bool-cases (is_queued n.status)) [
    | inr other ↦ ok-injective (ap out_of (rw (other, queue_if_queued) at h))
    | inl waits ↦ elim (Result-cases (x.queue w.queue n.id)) [
      | inl (taken, answer) ↦
          ok-injective (ap out_of (rw (waits, answer, queue_if_queued, enqueue) at h))
      | inr (e, answer) ↦ cc (ap out_of (rw (waits, answer, queue_if_queued, enqueue) at h))
    ]
  ]

  -- The run of a submission that succeeded is the one that was created.
  queue_if_queued-back :
      (x : ControlService) (out : World × Result OperationRow) (w' : World) (m : OperationRow)
      → pass out (queue_if_queued u x) ≡ (w', ok m)
      → (w1 : World) × (out ≡ (w1, ok m)) × (w1.runs ≡ w'.runs)
  unfolding pass queue_if_queued
  queue_if_queued-back x (w, err e) w' m h = cc (ap out_of h)
  queue_if_queued-back x (w, ok n) w' m h =
      let table =
        sym (queue_if_queued-runs x (w, ok n) w.runs refl)
        ∙ ap (λ (o : World × Result OperationRow). o.0.runs) h in
      let is_it : n ≡ m = queue_if_queued-value x n w w' m h in (w, rw is_it refl, table)

  -- A submission with the key and the parameters of one that succeeded leaves the runs as they are.
  pub submit-again :
      (x y : ControlService) (type : OperationType) (key : Text) (source : Option Uuid)
      (limit : Option ℕ) (w w' v : World) (m : OperationRow)
      → SameService x y
      → submit u x type key source limit w ≡ (w', ok m)
      → Later (λ i. Unit) w'.runs v.runs
      → (submit u y type key source limit v).0.runs ≡ v.runs
  unfolding submit
  submit-again x y type key source limit w w' v m same h later =
      elim (Result-cases (hash_idempotency_key u x key)) [
        | inr (e, bad) ↦ cc (ap out_of (rw (bad, submit) at h))
        | inl (hash, hashed) ↦
            let (w1, made, runs) = queue_if_queued-back x _ w' m (rw (hashed, submit) at h) in
            let hashed' : hash_idempotency_key u y key ≡ ok hash =
              hash-same x y key same ∙ hashed in
            let r = request_of u x type hash source limit in
            let (n, again) =
              request_run-again x y r w w1 v m made
                (subst (λ rows. Later (λ i. Unit) rows v.runs) (sym runs) later) in
            let e = ap (λ (a : Uuid). record r { account_id = a }) same.account in
            rw (hashed', submit)
              (subst
                (λ (q : OperationCreate).
                  (pass (request_run u y q v) (queue_if_queued u y)).0.runs ≡ v.runs)
                (sym e) (queue_if_queued-runs y (request_run u y r v) v.runs again.0))
      ]
