-- ===== src/Operations/World.antt =====
-- What the executor works on: the tables, the queue, and the identifiers that `uuid4` has drawn.
use agenda_agent.Prelude.{
  List, Result, [], err, ok, refl, ℕ, Result-cases, inl, inr, ◌++◌, ◌∷◌, ◌≡◌,
}
use agenda_agent.Domain.Digest.{Uuid}
use agenda_agent.Operations.Run.{OperationRow}
use agenda_agent.Operations.Email.{EmailRow, ProcessingRow, ReviewRow}
use agenda_agent.Operations.Control.{RuntimeControl}
use agenda_agent.Prelude.Steps.{StepOn, pass}
use agenda_agent.Mail.Vocabulary.{SyncStateRow}

pub record World : Type 0 where
  pub runs : List OperationRow
  pub controls : List RuntimeControl
  pub emails : List EmailRow
  pub processing : List ProcessingRow
  pub reviews : List ReviewRow
  pub sync_states : List SyncStateRow
  pub queue : List Uuid
  pub drawn : ℕ

abbrev pub Step : Type 0 → Type 0
Step = StepOn World

-- What the queue answers to a message, by the ones that it has taken.
abbrev pub OperationQueue : Type 0
OperationQueue = List Uuid → Uuid → Result (Unit {0})

-- `enqueue`
unfoldable pub enqueue : OperationQueue → Uuid → Step (Unit {0})
enqueue answer i w = elim (answer w.queue i) [
  | err e ↦ (w, err e)
  | ok taken ↦ (record w { queue = w.queue ++ i ∷ [] }, ok tt)
]

-- A message and what follows it leave the runs as they are, if what follows it does.
pub pass-enqueue-runs :
    {A : Type 0} (answer : OperationQueue) (i : Uuid) (f : Unit {0} → Step A) (w : World)
    → ((v : World) → (f tt v).0.runs ≡ v.runs)
    → (pass (enqueue answer i w) f).0.runs ≡ w.runs
unfolding enqueue pass
pass-enqueue-runs answer i f w keep = elim (Result-cases (answer w.queue i)) [
  | inl (taken, h) ↦ rw (h, enqueue) (keep (record w { queue = w.queue ++ i ∷ [] }))
  | inr (e, h) ↦ rw (h, enqueue) refl
]
