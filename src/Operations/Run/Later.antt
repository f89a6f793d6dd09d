-- ===== src/Operations/Run/Later.antt =====
-- The tables of runs that the operations of the store lead to from a given one, and what stays of it.
pub mod Over
use agenda_agent.Prelude.{
  err, operation_conflict, Bool, Bool-cases, List, Option, Option-cases, [], ap, arith, false, find,
  find-eq-some, if◌then◌else◌, inl, inr, ok, ok-injective, refl, some, subst, sym, true, ◌++◌, ◌==◌,
  ◌∙◌, ◌∷◌, ◌≡◌, ◌⊎◌, ==→≡,
}
use agenda_agent.Domain.Digest.{Datetime, Uuid}
use agenda_agent.Prelude.Rows.{find-append_hit, find-update_where}
use agenda_agent.Prelude.Text.{Text}
use agenda_agent.Operations.Run.{
  OperationCreate, OperationRow, OperationStatus, SafeOperationResult, claim_operation, claimed_row,
  complete_operation, create_operation, fail_operation, failed, finish_operation, has_request_key,
  is_claimable, on_operation, operation_by_id, release_operation_for_retry, same_parameters,
  succeeded, queued_row,
}
use agenda_agent.Operations.Run.Create.{
  SameKey, SameKey-find, create_operation-cases, create_operation-find,
}
use agenda_agent.Operations.Run.Lease.{claim-held, claim_operation-cases, on_operation-find}

-- Any creations, claims, ends and releases in any order; released are the runs that may be.
pub data Later (MayRelease : Uuid → Type 0) (rows : List OperationRow)
    : List OperationRow → Type 0 where
  here : Later MayRelease rows rows
  then_creates :
      (i : Uuid) (at : Datetime) (r : OperationCreate) {old new : List OperationRow}
      {m : OperationRow} {created : Bool}
      → Later MayRelease rows old
      → create_operation i at r old ≡ ok (new, (m, created))
      → Later MayRelease rows new
  then_claims :
      (i : Uuid) (now lease_until : Datetime) {old new : List OperationRow} {m : OperationRow}
      {held : Bool}
      → Later MayRelease rows old
      → claim_operation i now lease_until old ≡ ok (new, (m, held))
      → Later MayRelease rows new
  then_completes :
      (i : Uuid) (result : SafeOperationResult) (at : Datetime) {old : List OperationRow}
      → Later MayRelease rows old
      → Later MayRelease rows (complete_operation i result at old)
  then_fails :
      (i : Uuid) (error_code : Text) (at : Datetime) {old : List OperationRow}
      → Later MayRelease rows old
      → Later MayRelease rows (fail_operation i error_code at old)
  then_releases :
      (i : Uuid) {old : List OperationRow}
      → Later MayRelease rows old
      → MayRelease i
      → Later MayRelease rows (release_operation_for_retry i old)

-- A run with the identifier and the parameters of another one.
pub record SameRun (m n : OperationRow) : Type 0 where
  pub id : n.id ≡ m.id
  pub source : n.source_email_id ≡ m.source_email_id
  pub limit : n.batch_limit ≡ m.batch_limit

pub same_parameters-SameRun :
    (q : OperationCreate) (m n : OperationRow)
    → SameRun m n
    → same_parameters q n ≡ same_parameters q m
same_parameters-SameRun q m n s = rw (s.source, s.limit) refl

-- The search for the key of the request finds the run, whatever became of its status.
abbrev pub HasRun : OperationCreate → OperationRow → List OperationRow → Type 0
HasRun r m rows = (n : OperationRow) × (find (has_request_key r) rows ≡ some n) × SameRun m n

pub if-keeps :
    {A B : Type 0} (test : A → B) (b : Bool) (f : A → A) (y : A)
    → test (f y) ≡ test y
    → test (if b then f y else y) ≡ test y
if-keeps test true f y keep = keep
if-keeps test false f y keep = refl

on_operation-HasRun :
    (r : OperationCreate) (m : OperationRow) (i : Uuid) (f : OperationRow → OperationRow)
    (rows : List OperationRow)
    → ((y : OperationRow) → has_request_key r (f y) ≡ has_request_key r y)
    → ((y : OperationRow) → SameRun y (f y))
    → HasRun r m rows
    → HasRun r m (on_operation i f rows)
on_operation-HasRun r m i f rows keys keeps (n, found, same) = (
  if n.id == i then f n else n,
  find-update_where (has_request_key r) (λ (x : OperationRow). x.id == i) f rows
      (λ y. if-keeps (has_request_key r) (y.id == i) f y (keys y)) found,
  elim (Bool-cases (n.id == i)) [
    | inr other ↦ rw other same
    | inl own ↦
        let kept = keeps n in
        rw own (record {
          id = kept.id ∙ same.id;
          source = kept.source ∙ same.source;
          limit = kept.limit ∙ same.limit;
        })
  ],
)

-- A run stays, with the key and the parameters of its request.
pub Later-HasRun :
    {MayRelease : Uuid → Type 0} {rows new : List OperationRow} (r : OperationCreate)
    (m : OperationRow)
    → Later MayRelease rows new
    → HasRun r m rows
    → HasRun r m new
unfolding complete_operation fail_operation release_operation_for_retry finish_operation
Later-HasRun r run here has = has
Later-HasRun r run (then_creates i at q {old} {new} {m} {created} before h) has =
    let (n, found, same) = Later-HasRun r run before has in
    elim (create_operation-cases i at q old (new, (m, created)) h) [
      | inl (known, is_known, e) ↦ subst (HasRun r run) (sym (ap (λ o. o.0) e)) (n, found, same)
      | inr (fresh, free, e) ↦
          subst (HasRun r run) (sym (ap (λ o. o.0) e))
            (n, find-append_hit (has_request_key r) old (queued_row i at q ∷ []) found, same)
    ]
Later-HasRun r run (then_claims i now lease_until {old} {new} {m} {held} before h) has =
    let there = Later-HasRun r run before has in
    elim (claim_operation-cases i now lease_until old (new, (m, held)) h) [
      | inl e ↦ subst (HasRun r run) (sym e) there
      | inr (known, is_known, free, e) ↦ subst (HasRun r run) (sym e) (
          on_operation-HasRun r run i (claimed_row now lease_until) old (λ y. refl)
            (λ y. record { id = refl; source = refl; limit = refl }) there)
    ]
Later-HasRun r run (then_completes i result at {old} before) has =
    on_operation-HasRun r run i _ old (λ y. refl)
      (λ y. record { id = refl; source = refl; limit = refl }) (Later-HasRun r run before has)
Later-HasRun r run (then_fails i error_code at {old} before) has =
    on_operation-HasRun r run i _ old (λ y. refl)
      (λ y. record { id = refl; source = refl; limit = refl }) (Later-HasRun r run before has)
Later-HasRun r run (then_releases i {old} before may) has =
    on_operation-HasRun r run i _ old (λ y. refl)
      (λ y. record { id = refl; source = refl; limit = refl }) (Later-HasRun r run before has)

-- After a request has succeeded, and after any further creations, claims, ends and releases of runs, in
-- any order: any request with its key leaves the table as it is, and it gets the run of the first request,
-- by its identifier, if it has the parameters of that run, and a conflict if it has others.
pub create_operation_repeated :
    {MayRelease : Uuid → Type 0} (i j : Uuid) (at at' : Datetime) (r q : OperationCreate)
    (rows rows' later : List OperationRow) (m : OperationRow) (created : Bool)
    → create_operation i at r rows ≡ ok (rows', (m, created))
    → Later MayRelease rows' later
    → SameKey q r
    → (n : OperationRow) × (n.id ≡ m.id)
      × (create_operation j at' q later ≡ (
          if same_parameters q m
          then ok (later, (n, false))
          else err
              (operation_conflict "Idempotency-Key was already used with different parameters")))
unfolding create_operation
create_operation_repeated i j at at' r q rows rows' later m created h after s =
    let first = create_operation-find i at r rows rows' m created h in
    let (n, known, same) =
      Later-HasRun r m after (m, first, record { id = refl; source = refl; limit = refl }) in
    let found = SameKey-find q r later s ∙ known in
    let parameters = same_parameters-SameRun q m n same in
    (
      n,
      same.id,
      elim (Bool-cases (same_parameters q m)) [
        | inl equal ↦ rw (equal, found, parameters ∙ equal, create_operation) refl
        | inr other ↦ rw (other, found, parameters ∙ other, create_operation) refl
      ],
    )
