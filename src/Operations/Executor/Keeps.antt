-- ===== src/Operations/Executor/Keeps.antt =====
-- What the executor does for a run leaves the rows of the runs as they are; it only adds new ones.
use agenda_agent.Prelude.{
  List, ◌≡◌, ok, err, Bool, Bool-cases, Result, Result-cases, [], if◌then◌else◌, inl, inr, is_empty,
  length, ltb, refl, some, suc, zero, ℕ, ◌==◌, ◌||◌, ◌∷◌, false, true, leb, ◌&&◌, Error, Option,
  none, not,
}
use agenda_agent.Operations.World.{pass-enqueue-runs, World, Step}
use agenda_agent.Prelude.Steps.{pass, done, ◌>>=◌}
use agenda_agent.Domain.Digest.{Uuid}
use agenda_agent.Operations.Run.{
  OperationCreate, OperationRow, operation_by_id, check_create, is_queued, create_operation,
  OperationType, SafeOperationResult,
}
use agenda_agent.Operations.Executor.{
  process_one, attempt, ensure, execute_typed, fan_out_up_to, process_source, refuse_or,
  reset_cursor, send_to, workflow_refusal,
}
use agenda_agent.Prelude.Text.{Text, Unicode}
use agenda_agent.Operations.Run.Create.{create_operation-cases}
use agenda_agent.Prelude.Rows.{find-append_hit}
use agenda_agent.Operations.Control.{RuntimeControl, ensure_control}
use agenda_agent.Operations.Email.{claim_source_email}
use agenda_agent.Operations.Drain.{
  Environment, create, drain, enqueue_children, enqueue_pending_continuation, enqueue_queued,
  fan_out_pending, next_pending_batch, reclaim_each, child_of, max_batches, drainable,
}

-- A run that is in the table is in it afterwards, unchanged.
abbrev pub Keeps : {A : Type 0} → Step A → Type 0
Keeps s =
    (w : World) (i : Uuid) (m : OperationRow)
    → operation_by_id i w.runs ≡ some m
    → operation_by_id i (s w).0.runs ≡ some m

pass-Keeps :
    {A B : Type 0} (r : World × Result A) (f : A → Step B) (i : Uuid) (m : OperationRow)
    → ((a : A) → Keeps (f a))
    → operation_by_id i r.0.runs ≡ some m
    → operation_by_id i (pass r f).0.runs ≡ some m
unfolding pass
pass-Keeps (w, ok a) f i m keep h = keep a w i m h
pass-Keeps (w, err e) f i m keep h = h

bind-Keeps :
    {A B : Type 0} (s : Step A) (f : A → Step B)
    → Keeps s
    → ((a : A) → Keeps (f a))
    → Keeps (s >>= f)
bind-Keeps s f first rest w i m h = pass-Keeps (s w) f i m rest (first w i m h)

-- What the handlers do does not touch the table of runs.
pub record HandlersKeep (x : Environment) : Type 0 where
  pub mail : Keeps x.synchronize_mail
  pub brief : (recipient : Text) → Keeps (x.send_daily_brief recipient)
  pub email : (source run : Uuid) (calendar : Bool) → Keeps (x.process_email source run calendar)

module _ (u : Unicode) (x : Environment) where
  create-Keeps : (r : OperationCreate) → Keeps (create u x r)
  unfolding create
  create-Keeps r w i m h = elim (Result-cases (check_create r)) [
    | inr (e, refused) ↦ rw (refused, create) h
    | inl (r', checked) ↦
        elim (Result-cases (create_operation (x.draw w.drawn) x.later r' w.runs)) [
          | inr (e, failed) ↦ rw (checked, failed, create) h
          | inl (out, made) ↦
              elim (create_operation-cases (x.draw w.drawn) x.later r' w.runs out made) [
                | inl (old, found, same) ↦ rw (checked, made, same, create) h
                | inr (fresh, free, new) ↦
                    rw (checked, made, new, create)
                      (find-append_hit (λ (y : OperationRow). y.id == i) w.runs _ h)
              ]
        ]
  ]

  queued-Keeps : (m : OperationRow) → Keeps (enqueue_queued u x m)
  unfolding enqueue_queued
  queued-Keeps m w i n h = elim (Bool-cases (is_queued m.status)) [
    | inl waits ↦
        rw (waits, pass-enqueue-runs {A = ℕ} x.queue m.id (λ taken. done 1) w (λ v. refl)) h
    | inr other ↦ rw other h
  ]

  reclaim_each-runs : (is : List Uuid) (w : World) → (reclaim_each u x is w).runs ≡ w.runs
  unfolding reclaim_each
  reclaim_each-runs [] w = refl
  reclaim_each-runs (i ∷ is) w = reclaim_each-runs is _

  batch-Keeps : (limit : ℕ) → Keeps (next_pending_batch u x limit)
  unfolding next_pending_batch
  batch-Keeps limit w i m h = rw (reclaim_each-runs _ w) h

  children-Keeps : (m : OperationRow) (is : List Uuid) → Keeps (enqueue_children u x m is)
  unfolding enqueue_children
  children-Keeps m [] w i n h = h
  children-Keeps m (j ∷ js) w i n h =
      pass-Keeps (create u x (child_of u x m j) w) _ i n
        (λ c w' i' n' h'.
          pass-Keeps (enqueue_queued u x c.0 w') _ i' n'
            (λ added w'' i'' n'' h''.
              pass-Keeps (enqueue_children u x m js w'') _ i'' n'' (λ k v l p q. q)
                (children-Keeps m js w'' i'' n'' h''))
            (queued-Keeps c.0 w' i' n' h'))
        (create-Keeps (child_of u x m j) w i n h)

  rest-Keeps : (b : Bool) (s : Step (ℕ × ℕ)) → Keeps s → Keeps (if b then done (0, 0) else s)
  rest-Keeps true s keep w i n h = h
  rest-Keeps false s keep w i n h = keep w i n h

  drain-Keeps : (m : OperationRow) (limit n : ℕ) → Keeps (drain u x m limit n)
  unfolding drain
  drain-Keeps m limit zero w i k h = h
  drain-Keeps m limit (suc n) w i k h =
      pass-Keeps (next_pending_batch u x limit w) _ i k
        (λ ids w' i' k' h'.
          pass-Keeps (enqueue_children u x m ids w') _ i' k'
            (λ added w'' i'' k'' h''.
              pass-Keeps _ _ i'' k'' (λ c v l p q. q)
                (rest-Keeps (is_empty ids || ltb (length ids) limit) (drain u x m limit n)
                  (drain-Keeps m limit n) w'' i'' k'' h''))
            (children-Keeps m ids w' i' k' h'))
        (batch-Keeps limit w i k h)

  continuation-Keeps :
      (m : OperationRow) (limit : ℕ) → Keeps (enqueue_pending_continuation u x m limit)
  unfolding enqueue_pending_continuation
  continuation-Keeps m limit w i k h =
      pass-Keeps (create u x _ w) _ i k
        (λ c w' i' k' h'.
          pass-Keeps (enqueue_queued u x c.0 w') _ i' k' (λ n v l p q. q)
            (queued-Keeps c.0 w' i' k' h'))
        (create-Keeps _ w i k h)

  fan_out-Keeps : (m : OperationRow) (limit : ℕ) → Keeps (fan_out_pending u x m limit)
  unfolding fan_out_pending
  fan_out-Keeps m limit w i k h =
      pass-Keeps (drain u x m limit max_batches w) _ i k
        (λ counts w' i' k' h'.
          pass-Keeps _ _ i' k' (λ c v l p q. q)
            (continued-Keeps (leb max_batches counts.1 && drainable u x w') w' i' k' h'))
        (drain-Keeps m limit max_batches w i k h)
    where
      continued-Keeps :
          (b : Bool) (w' : World) (i' : Uuid) (k' : OperationRow)
          → operation_by_id i' w'.runs ≡ some k'
          → operation_by_id i'
              (if b then enqueue_pending_continuation u x m limit w' else (w', ok false)).0.runs
            ≡ some k'
      continued-Keeps true w' i' k' h' = continuation-Keeps m limit w' i' k' h'
      continued-Keeps false w' i' k' h' = h'

  reset-Keeps : Keeps (reset_cursor u x)
  unfolding reset_cursor
  reset-Keeps w i k h = h

  module _ (handlers : HandlersKeep x) where
    process_one-Keeps :
        (m : OperationRow) (c : RuntimeControl) (source : Uuid) → Keeps (process_one u x m c source)
    unfolding process_one
    process_one-Keeps m c source w i k h =
        elim (Bool-cases
          (claim_source_email x.account_id source (ltb 1 m.attempt_count) w.emails).1) [
            | inr lost ↦ rw lost h
            | inl won ↦
                rw won (pass-Keeps _ _ i k (λ o v l p q. q) (handlers.email source _ _ _ i k h))
          ]

    if-Keeps :
        (b : Bool) (s t : Step SafeOperationResult) → Keeps s → Keeps t → Keeps (if b then s else t)
    if-Keeps true s t ks kt w i k h = ks w i k h
    if-Keeps false s t ks kt w i k h = kt w i k h

    refuse-Keeps :
        (o : Option Error) (s : Step SafeOperationResult) → Keeps s → Keeps (refuse_or u x o s)
    refuse-Keeps (some e) s ks w i k h = h
    refuse-Keeps none s ks w i k h = ks w i k h

    send-Keeps : (o : Option Text) → Keeps (send_to u x o)
    send-Keeps none w i k h = h
    send-Keeps (some r) w i k h = pass-Keeps _ _ i k (λ o v l p q. q) (handlers.brief r w i k h)

    fan_out_up_to-Keeps : (m : OperationRow) (o : Option ℕ) → Keeps (fan_out_up_to u x m o)
    fan_out_up_to-Keeps m none w i k h = h
    fan_out_up_to-Keeps m (some limit) w i k h = fan_out-Keeps m limit w i k h

    source-Keeps :
        (m : OperationRow) (c : RuntimeControl) (o : Option Uuid) → Keeps (process_source u x m c o)
    source-Keeps m c none w i k h = h
    source-Keeps m c (some source) w i k h = process_one-Keeps m c source w i k h

    execute_typed-Keeps :
        (t : OperationType) (m : OperationRow) (c : RuntimeControl)
        → Keeps (execute_typed u x t m c)
    unfolding execute_typed
    execute_typed-Keeps OperationType.mail_sync m c w i k h =
        if-Keeps (not c.mail_sync_enabled) _ _ (λ v l p q. q)
          (λ v l p q. pass-Keeps _ _ l p (λ o v' l' p' q'. q') (handlers.mail v l p q)) w i k h
    execute_typed-Keeps OperationType.reset_mail_cursor m c w i k h =
        if-Keeps (c.mail_sync_enabled || c.workflow_enabled) _ _ (λ v l p q. q)
          (λ v l p q.
            pass-Keeps (reset_cursor u x v) _ l p (λ o v' l' p' q'. q') (reset-Keeps v l p q))
          w i k h
    execute_typed-Keeps OperationType.send_daily_brief m c w i k h =
        if-Keeps (not c.daily_brief_enabled) _ _ (λ v l p q. q)
          (if-Keeps (not x.capabilities.daily_brief_available) _ _ (λ v l p q. q)
            (send-Keeps c.daily_brief_recipient))
          w i k h
    execute_typed-Keeps OperationType.process_pending m c w i k h =
        refuse-Keeps (workflow_refusal u x c) _ (fan_out_up_to-Keeps m m.batch_limit) w i k h
    execute_typed-Keeps OperationType.process_email m c w i k h =
        refuse-Keeps (workflow_refusal u x c) _ (source-Keeps m c m.source_email_id) w i k h

    ensure-Keeps : Keeps (ensure u x)
    unfolding ensure
    ensure-Keeps w i k h =
        elim (Result-cases (ensure_control u x.account_id x.defaults x.now w.controls)) [
          | inl (r, e) ↦ rw (e, ensure) h
          | inr (r, e) ↦ rw (e, ensure) h
        ]

    pub attempt-Keeps : (m : OperationRow) → Keeps (attempt u x m)
    unfolding attempt
    attempt-Keeps m w i k h =
        pass-Keeps (ensure u x w) _ i k
          (λ c v l p q. execute_typed-Keeps m.operation_type m c v l p q) (ensure-Keeps w i k h)
