-- ===== src/Operations/Executor/Settle.antt =====
-- How an execution ends.
use agenda_agent.Prelude.{
  List, ◌≡◌, ok, err, ==→≡, Bool-cases, Result, arith, false, find-eq-some, inl, inr, ltb, refl,
  some, sym, true, ℕ, ◌+◌, ◌<◌, ◌==◌,
}
use agenda_agent.Operations.World.{World}
use agenda_agent.Domain.Digest.{Uuid}
use agenda_agent.Operations.Run.{
  OperationRow, SafeOperationResult, fail_operation, is_running, operation_by_id,
  complete_operation, finish_operation, is_claimable, is_queued, release_operation_for_retry,
  claimed_row, on_operation,
}
use agenda_agent.Operations.Executor.{execute, settle, max, is_refusal, error_code, lease, attempt}
use agenda_agent.Operations.Executor.Keeps.{HandlersKeep, attempt-Keeps}
use agenda_agent.Prelude.Text.{Text, Unicode, codes}
use agenda_agent.Operations.Run.Lease.{on_operation-find, claim-claimable}
use agenda_agent.Operations.Drain.{Environment}

-- How a run is left: not running, and queued only if fewer than five attempts were made.
pub record IsSettled (tries : ℕ) (m : OperationRow) : Type 0 where
  pub over : is_running m.status ≡ false
  pub retried : is_queued m.status ≡ true → tries < 5

-- The run of an identifier in a table is settled.
abbrev pub Settled : ℕ → Uuid → World → Type 0
Settled tries i w = (m : OperationRow) × (operation_by_id i w.runs ≡ some m) × IsSettled tries m

module _ (u : Unicode) (x : Environment) where
  failed-Settled :
      (tries : ℕ) (i : Uuid) (code : Text) (rows : List OperationRow) (m : OperationRow)
      → operation_by_id i rows ≡ some m
      → (m' : OperationRow) × (operation_by_id i (fail_operation i code x.later rows) ≡ some m')
        × IsSettled tries m'
  unfolding fail_operation finish_operation
  failed-Settled tries i code rows m h = (
    _,
    on_operation-find i _ rows m (λ y. refl) h,
    record { over = refl; retried = λ q. ground (arith, q) },
  )

  settle-Settled :
      (m : OperationRow) (tries : ℕ) (r : World × Result SafeOperationResult)
      → operation_by_id m.id r.0.runs ≡ some m
      → Settled tries m.id (settle u x m tries r).0
  unfolding settle complete_operation finish_operation release_operation_for_retry
  settle-Settled m tries (w, ok result) h = (
    _,
    on_operation-find m.id _ w.runs m (λ y. refl) h,
    record { over = refl; retried = λ q. ground (arith, q) },
  )
  settle-Settled m tries (w, err e) h = elim (Bool-cases (is_refusal e)) [
    | inl refused ↦ rw refused (failed-Settled tries m.id (error_code e) w.runs m h)
    | inr other ↦ elim (Bool-cases (ltb tries 5)) [
      | inl early ↦
          rw (other, early)
            (
              _,
              on_operation-find m.id _ w.runs m (λ y. refl) h,
              record { over = refl; retried = λ q. ground (arith, early) },
            )
      | inr late ↦ rw (other, late) (failed-Settled tries m.id (error_code e) w.runs m h)
    ]
  ]

  execute_own-Settled :
      (delivery_attempt : ℕ) (w : World) (m : OperationRow)
      → HandlersKeep x
      → operation_by_id m.id w.runs ≡ some m
      → is_claimable x.now m ≡ true
      → Settled
          (max delivery_attempt (m.attempt_count + 1))
          m.id
          (execute u x m.id delivery_attempt w).0
  unfolding execute
  execute_own-Settled delivery_attempt w m handlers found free =
      let c = claimed_row x.now (x.now + lease) m in
      let rows = on_operation m.id (claimed_row x.now (x.now + lease)) w.runs in
      let w' : World = record w { runs = rows } in
      let tries = max delivery_attempt (m.attempt_count + 1) in
      let claim = claim-claimable m.id x.now (x.now + lease) w.runs m found free in
      let there : operation_by_id m.id rows ≡ some c =
        on_operation-find m.id (claimed_row x.now (x.now + lease)) w.runs m (λ y. refl) found in
      elim (Bool-cases (m.account_id == x.account_id)) [
        | inr foreign ↦
            rw (claim, foreign, execute)
              (failed-Settled tries m.id (codes "OPERATION_ACCOUNT_MISMATCH") rows c there)
        | inl own ↦
            rw (claim, own, execute)
              (settle-Settled c tries (attempt u x c w')
                (attempt-Keeps u x handlers c w' m.id c there))
      ]

  -- An execution of a run that could be claimed never leaves it running, whatever the handlers return
  -- or raise: it is over, or queued again after fewer than five attempts. The handlers do not touch
  -- the table of runs.
  pub execute-Settled :
      (i : Uuid) (delivery_attempt : ℕ) (w : World) (m : OperationRow)
      → HandlersKeep x
      → operation_by_id i w.runs ≡ some m
      → is_claimable x.now m ≡ true
      → Settled (max delivery_attempt (m.attempt_count + 1)) i (execute u x i delivery_attempt w).0
  execute-Settled i delivery_attempt w m handlers found free =
      let same : m.id ≡ i =
        ==→≡ _ _ (find-eq-some (λ (y : OperationRow). y.id == i) w.runs found).1 in
      rw (sym same) (execute_own-Settled delivery_attempt w m handlers (simp same found) free)
