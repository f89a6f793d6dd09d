-- ===== src/Operations/Run/Lease.antt =====
-- Claims and leases.
use agenda_agent.Prelude.{
  List, ◌≡◌, Bool-cases, In, In-select, Option-cases, arith, false, find-eq-some, if◌then◌else◌,
  inl, inr, ltb, none, ok, ok-injective, refl, true, ℕ, ◌+◌, ◌==◌, ◌∙◌, ◌⊎◌, some, ap, Bool, sym,
}
use agenda_agent.Domain.Digest.{Uuid, Datetime}
use agenda_agent.Operations.Run.{
  OperationRow, claim_operation, list_dispatchable_operation_ids, operation_by_id,
  release_operation_for_retry, on_operation, claimed_row, is_claimable, running, queued,
  is_dispatchable,
}
use agenda_agent.Prelude.Text.{}
use agenda_agent.Prelude.Rows.{
  HasKey, find-update_where, select-holds, find_by_key, In-take, In-map,
}
use agenda_agent.Prelude.Sort.{In-sort_by}

-- An update of a run by its identifier is found under it.
pub on_operation-find :
    (i : Uuid) (f : OperationRow → OperationRow) (rows : List OperationRow) (m : OperationRow)
    → ((y : OperationRow) → (f y).id ≡ y.id)
    → operation_by_id i rows ≡ some m
    → operation_by_id i (on_operation i f rows) ≡ some (f m)
on_operation-find i f rows m keep found =
    find-update_where (λ (x : OperationRow). x.id == i) (λ (x : OperationRow). x.id == i) f rows
      (λ y. ground (arith, keep y)) found
    ∙ ap some (rw (find-eq-some (λ (x : OperationRow). x.id == i) rows found).1)

abbrev table_of : List OperationRow × (OperationRow × Bool) → List OperationRow
table_of out = out.0

pub claim-claimable :
    (i : Uuid) (now lease_until : Datetime) (rows : List OperationRow) (m : OperationRow)
    → operation_by_id i rows ≡ some m
    → is_claimable now m ≡ true
    → claim_operation i now lease_until rows
      ≡ ok
          (on_operation i (claimed_row now lease_until) rows, (claimed_row now lease_until m, true))
unfolding claim_operation
claim-claimable i now lease_until rows m found free = rw (found, free, claim_operation)

pub claim-held :
    (i : Uuid) (now lease_until : Datetime) (rows : List OperationRow) (m : OperationRow)
    → operation_by_id i rows ≡ some m
    → is_claimable now m ≡ false
    → claim_operation i now lease_until rows ≡ ok (rows, (m, false))
unfolding claim_operation
claim-held i now lease_until rows m found held = rw (found, held, claim_operation)

-- A claim leaves the table as it is, or it takes a run that may be claimed.
pub claim_operation-cases :
    (i : Uuid) (now lease_until : Datetime) (rows : List OperationRow)
    (out : List OperationRow × (OperationRow × Bool))
    → claim_operation i now lease_until rows ≡ ok out
    → (out.0 ≡ rows)
      ⊎ ((old : OperationRow) × (operation_by_id i rows ≡ some old)
          × (is_claimable now old ≡ true)
          × (out.0 ≡ on_operation i (claimed_row now lease_until) rows))
unfolding claim_operation
claim_operation-cases i now lease_until rows out h = elim (Option-cases (operation_by_id i rows)) [
  | inl missing ↦ cc (rw (missing, claim_operation) at h)
  | inr (old, found) ↦ elim (Bool-cases (is_claimable now old)) [
    | inr held ↦
        let e = ok-injective (rw (found, held, claim_operation) at h) in inl (ap table_of (sym e))
    | inl free ↦
        let e = ok-injective (rw (found, free, claim_operation) at h) in
        inr (old, found, free, ap table_of (sym e))
  ]
]

-- What a successful claim left.
claimed :
    (i : Uuid) (now lease_until : Datetime) (rows rows' : List OperationRow) (m : OperationRow)
    → claim_operation i now lease_until rows ≡ ok (rows', (m, true))
    → (operation_by_id i rows' ≡ some m)
      × (m.status ≡ running)
      × (m.lease_expires_at ≡ some lease_until)
unfolding claim_operation
claimed i now lease_until rows rows' m h = elim (Option-cases (operation_by_id i rows)) [
  | inl missing ↦ cc (rw (missing, claim_operation) at h)
  | inr (old, found) ↦ elim (Bool-cases (is_claimable now old)) [
    | inr held ↦ cc (rw (found, held, claim_operation) at h)
    | inl free ↦
        let e = ok-injective (rw (found, free, claim_operation) at h) in
        let there = on_operation-find i (claimed_row now lease_until) rows old (λ y. refl) found in
        (cc (there, e), ground (arith, e), ground (arith, e))
  ]
]

-- A claim holds the run until its lease ends: a later claim gets it exactly if it is made behind the
-- end of the lease, with one attempt more, and otherwise changes nothing and is told so.
pub claim_operation_lease :
    (i : Uuid) (now lease_until now' lease_until' : Datetime) (rows rows' : List OperationRow)
    (m : OperationRow)
    → claim_operation i now lease_until rows ≡ ok (rows', (m, true))
    → claim_operation i now' lease_until' rows' ≡ (
        if ltb lease_until now'
        then ok (
          on_operation i (claimed_row now' lease_until') rows',
          (claimed_row now' lease_until' m, true),
        )
        else ok (rows', (m, false)))
claim_operation_lease i now lease_until now' lease_until' rows rows' m h =
    let (found, runs, leased) = claimed i now lease_until rows rows' m h in
    let e : is_claimable now' m ≡ ltb lease_until now' = ground (arith, runs, leased) in
    elim (Bool-cases (ltb lease_until now')) [
      | inl over ↦ rw over (claim-claimable i now' lease_until' rows' m found (e ∙ over))
      | inr held ↦ rw held (claim-held i now' lease_until' rows' m found (e ∙ held))
    ]

-- A release makes a run claimable at any time, whatever its status was: a finished one too.
pub release_operation_for_retry-claim :
    (i : Uuid) (now lease_until : Datetime) (rows : List OperationRow) (m : OperationRow)
    → operation_by_id i rows ≡ some m
    → (m' : OperationRow) × (m'.status ≡ running)
      × (m'.attempt_count ≡ m.attempt_count + 1)
      × (claim_operation i now lease_until (release_operation_for_retry i rows)
          ≡ ok (
            on_operation i (claimed_row now lease_until) (release_operation_for_retry i rows),
            (m', true),
          ))
unfolding release_operation_for_retry
release_operation_for_retry-claim i now lease_until rows m found =
    let f = λ (x : OperationRow). record x {
      status = queued;
      lease_expires_at = none;
      error_code = none;
    } in
    (
      claimed_row now lease_until (f m),
      refl,
      refl,
      claim-claimable i now lease_until (on_operation i f rows) (f m)
          (on_operation-find i f rows m (λ y. refl) found) refl,
    )

-- Every run that is listed for dispatch can be claimed by the worker that gets it, if the
-- identifiers of the runs are distinct.
pub list_dispatchable_operation_ids-claim :
    (i : Uuid) (now lease_until : Datetime) (limit : ℕ) (rows : List OperationRow)
    → HasKey (λ (m : OperationRow). m.id) rows
    → In i (list_dispatchable_operation_ids now limit rows)
    → (m : OperationRow) × (operation_by_id i rows ≡ some m)
      × (claim_operation i now lease_until rows
          ≡ ok (
            on_operation i (claimed_row now lease_until) rows,
            (claimed_row now lease_until m, true),
          ))
unfolding list_dispatchable_operation_ids
list_dispatchable_operation_ids-claim i now lease_until limit rows keys listed =
    let (m, sorted, e) = In-map (λ (x : OperationRow). x.id) _ i (In-take limit _ i listed) in
    let picked = In-sort_by (λ (x : OperationRow). x.requested_at) _ m sorted in
    let inside = In-select (is_dispatchable now) rows m picked in
    let due : is_dispatchable now m ≡ true = select-holds (is_dispatchable now) rows m picked in
    let found : operation_by_id i rows ≡ some m =
      rw e (find_by_key (λ (x : OperationRow). x.id) rows m keys inside) in
    (m, found, claim-claimable i now lease_until rows m found (ground arith))
