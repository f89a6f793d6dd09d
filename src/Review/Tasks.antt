-- ===== src/Review/Tasks.antt =====
-- application/reviews.py: `_coalesce_resume`, by which overlapping requests share one resume.
pub mod Shared
use agenda_agent.Domain.Digest.{Uuid}
use agenda_agent.Review.Decision.{ReviewDecision}
use agenda_agent.Prelude.{
  Bool, List, Option, [], exists, false, if◌then◌else◌, length, none, not, some, true, update_where,
  ℕ, ◌&&◌, ◌==◌, ◌∷◌,
}

-- An `asyncio.Task`: its identity as an object, what it was made of, and `done()`.
pub record ResumeTask : Type 0 where
  pub identity : ℕ
  pub processing_run_id : Uuid
  pub source_email_id : Uuid
  pub decision : ReviewDecision
  pub is_done : Bool

-- The tasks made so far, the last one first, and the dictionary `_resume_tasks`.
pub record ResumeTasks : Type 0 where
  pub tasks : List ResumeTask
  pub resume_tasks : Uuid → Option ℕ

-- `not existing.done()`
unfoldable pub is_unfinished : ℕ → ResumeTask → Bool
is_unfinished identity task = task.identity == identity && not task.is_done

unfoldable pub set_item : Uuid → ℕ → (Uuid → Option ℕ) → Uuid → Option ℕ
set_item key value dict other = if other == key then some value else dict other

-- A new task, in the dictionary too.
unfoldable pub start_task : Uuid → Uuid → ReviewDecision → ResumeTasks → ResumeTasks × ℕ
start_task processing_run_id source_email_id decision s = (
  record {
    tasks =
        record {
          identity = length s.tasks;
          processing_run_id = processing_run_id;
          source_email_id = source_email_id;
          decision = decision;
          is_done = false;
        }
        ∷ s.tasks;
    resume_tasks = set_item processing_run_id (length s.tasks) s.resume_tasks;
  },
  length s.tasks,
)

-- What a request does under the lock, and the task that it awaits.
unfoldable pub coalesce_resume : Uuid → Uuid → ReviewDecision → ResumeTasks → ResumeTasks × ℕ
coalesce_resume processing_run_id source_email_id decision s =
    let started = start_task processing_run_id source_email_id decision s in
    elim (s.resume_tasks processing_run_id) [
      | none ↦ started
      | some existing ↦ if exists (is_unfinished existing) s.tasks then (s, existing) else started
    ]

-- A task comes to its end.
unfoldable pub finish_task : ℕ → ResumeTasks → ResumeTasks
finish_task identity s = record s {
  tasks =
      update_where (λ task. task.identity == identity) (λ task. record task { is_done = true })
        s.tasks;
}

abbrev pub no_tasks : ResumeTasks
no_tasks = record { tasks = []; resume_tasks = λ run. none }

-- What may happen: a request asks for a resume, or a task ends.
pub data TaskStep : ResumeTasks → ResumeTasks → Type 0 where
  request :
      {s : ResumeTasks} (processing_run_id source_email_id : Uuid) (decision : ReviewDecision)
      → TaskStep s (coalesce_resume processing_run_id source_email_id decision s).0
  finish : {s : ResumeTasks} (identity : ℕ) → TaskStep s (finish_task identity s)

pub data IsReachable : ResumeTasks → Type 0 where
  initial : IsReachable no_tasks
  later : {s t : ResumeTasks} → IsReachable s → TaskStep s t → IsReachable t
