-- ===== src/Operations/Run/Create.antt =====
-- The creation of a run: what it refuses, and that a repeated request finds the first run.
use agenda_agent.Prelude.{
  ◌≡◌, arith, ok, true, ==_refl, Bool, Bool-cases, List, Option-cases, err, exists, false, find,
  if◌then◌else◌, inr, ok-injective, operation_conflict, refl, some, ◌==◌, ◌∙◌, inl, [], sym, ◌++◌,
  ◌∷◌, ◌⊎◌, none,
}
use agenda_agent.Domain.Digest.{Uuid, Datetime}
use agenda_agent.Operations.Run.{
  OperationCreate, check_create, keeps_checks, queued_row, OperationRow, create_operation,
  has_request_key, same_parameters, type_code,
}
use agenda_agent.Prelude.Text.{text_eq_refl}
use agenda_agent.Prelude.Rows.{find-append_new}

-- A request that was checked breaks no check constraint of the table.
check_create-keeps :
    (r r' : OperationCreate) (i : Uuid) (at : Datetime)
    → check_create r ≡ ok r'
    → (r' ≡ r) × (keeps_checks (queued_row i at r) ≡ true)
unfolding check_create
check_create-keeps r r' i at h = ground arith

-- Two requests with one idempotency key.
pub record SameKey (q r : OperationCreate) : Type 0 where
  pub account : q.account_id ≡ r.account_id
  pub type : q.operation_type ≡ r.operation_type
  pub hash : q.idempotency_key_hash ≡ r.idempotency_key_hash

pub SameKey-find :
    (q r : OperationCreate) (rows : List OperationRow)
    → SameKey q r
    → find (has_request_key q) rows ≡ find (has_request_key r) rows
SameKey-find q r rows s = rw (s.account, s.type, s.hash) refl

queued_row-key :
    (i : Uuid) (at : Datetime) (r : OperationCreate) → has_request_key r (queued_row i at r) ≡ true
queued_row-key i at r = ground (
  arith,
  ==_refl r.account_id,
  ==_refl (type_code r.operation_type),
  text_eq_refl r.idempotency_key_hash,
)

-- A successful creation found a run of the key and of the parameters, or appended a queued one.
pub create_operation-cases :
    (i : Uuid) (at : Datetime) (r : OperationCreate) (rows : List OperationRow)
    (out : List OperationRow × (OperationRow × Bool))
    → create_operation i at r rows ≡ ok out
    → ((old : OperationRow) × (find (has_request_key r) rows ≡ some old)
        × (out ≡ (rows, (old, false))))
      ⊎ ((find (has_request_key r) rows ≡ none)
          × (exists (λ (m : OperationRow). m.id == i) rows ≡ false)
          × (out ≡ (rows ++ queued_row i at r ∷ [], (queued_row i at r, true))))
unfolding create_operation
create_operation-cases i at r rows out h = elim (Option-cases (find (has_request_key r) rows)) [
  | inr (old, found) ↦ elim (Bool-cases (same_parameters r old)) [
    | inr other ↦ cc (rw (found, other, create_operation) at h)
    | inl same ↦ inl (old, found, sym (ok-injective (rw (found, same, create_operation) at h)))
  ]
  | inl fresh ↦ elim (Bool-cases (exists (λ (x : OperationRow). x.id == i) rows)) [
    | inl taken ↦ cc (rw (fresh, taken, create_operation) at h)
    | inr free ↦ elim (Bool-cases (keeps_checks (queued_row i at r))) [
      | inr broken ↦ cc (rw (fresh, free, broken, create_operation) at h)
      | inl kept ↦
          inr (fresh, free, sym (ok-injective (rw (fresh, free, kept, create_operation) at h)))
    ]
  ]
]

-- What a request finds behind a creation with its key.
pub create_operation-find :
    (i : Uuid) (at : Datetime) (r : OperationCreate) (rows rows' : List OperationRow)
    (m : OperationRow) (created : Bool)
    → create_operation i at r rows ≡ ok (rows', (m, created))
    → find (has_request_key r) rows' ≡ some m
create_operation-find i at r rows rows' m created h =
    elim (create_operation-cases i at r rows (rows', (m, created)) h) [
      | inl (old, found, e) ↦ cc (found, e)
      | inr (fresh, free, e) ↦
          let found =
            find-append_new (has_request_key r) rows (queued_row i at r) fresh
              (queued_row-key i at r) in
          cc (found, e)
    ]

-- After a request has succeeded, any request with its key, whenever it comes, leaves the table of the
-- first one as it is: it gets the same run if it has the parameters of that run, and a conflict if it has others.
pub create_operation_again :
    (i j : Uuid) (at at' : Datetime) (r q : OperationCreate) (rows rows' : List OperationRow)
    (m : OperationRow) (created : Bool)
    → create_operation i at r rows ≡ ok (rows', (m, created))
    → SameKey q r
    → create_operation j at' q rows' ≡ (
        if same_parameters q m
        then ok (rows', (m, false))
        else err (operation_conflict "Idempotency-Key was already used with different parameters"))
unfolding create_operation
create_operation_again i j at at' r q rows rows' m created h s =
    let found = SameKey-find q r rows' s ∙ create_operation-find i at r rows rows' m created h in
    elim (Bool-cases (same_parameters q m)) [
      | inl same ↦ rw (found, same, create_operation)
      | inr other ↦ rw (found, other, create_operation)
    ]
