-- ===== src/Operations/Run/Reachable.antt =====
-- The tables of runs that the operations of the store lead to, from an empty one, in any order of
-- creations, claims, ends and releases.
use agenda_agent.Prelude.{
  List, ◌≡◌, All, Bool, Bool-cases, [], arith, inl, inr, is_some, ok, refl, true, ◌++◌, ◌==◌, ◌∷◌,
  ◌≤◌,
}
use agenda_agent.Domain.Digest.{Uuid, Datetime}
use agenda_agent.Operations.Run.{
  OperationCreate, OperationRow, SafeOperationResult, claim_operation, complete_operation,
  create_operation, is_running, on_operation, fail_operation, release_operation_for_retry,
  claimed_row, finish_operation, queued_row,
}
use agenda_agent.Operations.Run.Keys.{
  KeepsKey, IsKeyed, create_operation-IsKeyed, on_operation-IsKeyed,
}
use agenda_agent.Prelude.Text.{Text}
use agenda_agent.Operations.Run.Lease.{claim_operation-cases}
use agenda_agent.Operations.Run.Create.{create_operation-cases}

pub data Reachable : List OperationRow → Type 0 where
  empty : Reachable []
  creates :
      (i : Uuid) (at : Datetime) (r : OperationCreate) {rows rows' : List OperationRow}
      {m : OperationRow} {created : Bool}
      → Reachable rows
      → create_operation i at r rows ≡ ok (rows', (m, created))
      → Reachable rows'
  claims :
      (i : Uuid) (now lease_until : Datetime) {rows rows' : List OperationRow} {m : OperationRow}
      {held : Bool}
      → Reachable rows
      → claim_operation i now lease_until rows ≡ ok (rows', (m, held))
      → Reachable rows'
  completes :
      (i : Uuid) (result : SafeOperationResult) (at : Datetime) {rows : List OperationRow}
      → Reachable rows
      → Reachable (complete_operation i result at rows)
  fails :
      (i : Uuid) (error_code : Text) (at : Datetime) {rows : List OperationRow}
      → Reachable rows
      → Reachable (fail_operation i error_code at rows)
  releases :
      (i : Uuid) {rows : List OperationRow}
      → Reachable rows
      → Reachable (release_operation_for_retry i rows)

-- A running run has a lease, a start and an attempt; no other run has a lease.
pub record IsSound (m : OperationRow) : Type 0 where
  pub lease : is_some m.lease_expires_at ≡ is_running m.status
  pub start : is_running m.status ≡ true → is_some m.started_at ≡ true
  pub attempt : is_running m.status ≡ true → 1 ≤ m.attempt_count

All-on_operation :
    (i : Uuid) (f : OperationRow → OperationRow) (rows : List OperationRow)
    → ((m : OperationRow) → IsSound m → IsSound (f m))
    → All IsSound rows
    → All IsSound (on_operation i f rows)
All-on_operation i f [] keep h = tt
All-on_operation i f (x ∷ xs) keep h = elim (Bool-cases (x.id == i)) [
  | inl hit ↦ rw hit (keep x h.0, All-on_operation i f xs keep h.1)
  | inr skip ↦ rw skip (h.0, All-on_operation i f xs keep h.1)
]

All-append :
    (rows : List OperationRow) (m : OperationRow)
    → All IsSound rows
    → IsSound m
    → All IsSound (rows ++ m ∷ [])
All-append [] m h k = (k, tt)
All-append (x ∷ xs) m h k = (h.0, All-append xs m h.1 k)

-- What holds of every reachable table.
pub record IsInvariant (rows : List OperationRow) : Type 0 where
  pub keyed : IsKeyed rows
  pub sound : All IsSound rows

updated-IsInvariant :
    (i : Uuid) (f : OperationRow → OperationRow) (rows : List OperationRow)
    → KeepsKey f
    → ((m : OperationRow) → IsSound m → IsSound (f m))
    → IsInvariant rows
    → IsInvariant (on_operation i f rows)
updated-IsInvariant i f rows keep sound v = record {
  keyed = on_operation-IsKeyed i f rows keep v.keyed;
  sound = All-on_operation i f rows sound v.sound;
}

create_operation-IsInvariant :
    (i : Uuid) (at : Datetime) (r : OperationCreate) (rows : List OperationRow)
    (out : List OperationRow × (OperationRow × Bool))
    → IsInvariant rows
    → create_operation i at r rows ≡ ok out
    → IsInvariant out.0
create_operation-IsInvariant i at r rows out v h = record {
  keyed = create_operation-IsKeyed i at r rows out v.keyed h;
  sound = elim (create_operation-cases i at r rows out h) [
    | inl (old, found, e) ↦ rw e v.sound
    | inr (fresh, free, e) ↦ rw e (All-append rows (queued_row i at r) v.sound (ground arith))
  ];
}

claim_operation-IsInvariant :
    (i : Uuid) (now lease_until : Datetime) (rows : List OperationRow)
    (out : List OperationRow × (OperationRow × Bool))
    → IsInvariant rows
    → claim_operation i now lease_until rows ≡ ok out
    → IsInvariant out.0
claim_operation-IsInvariant i now lease_until rows out v h =
    elim (claim_operation-cases i now lease_until rows out h) [
      | inl e ↦ rw e v
      | inr (old, found, free, e) ↦ rw e (
          updated-IsInvariant i (claimed_row now lease_until) rows
            (λ y. refl, λ x y. refl, λ x y. refl) (λ m k. ground arith) v)
    ]

-- In every reachable table the identifiers and the idempotency keys are distinct, a running run has
-- a lease, a start and an attempt, and no other run has a lease.
pub Reachable-IsInvariant : {rows : List OperationRow} → Reachable rows → IsInvariant rows
unfolding complete_operation fail_operation release_operation_for_retry finish_operation
Reachable-IsInvariant empty = record { keyed = record { ids = tt; keys = tt }; sound = tt }
Reachable-IsInvariant (creates i at r {rows} {rows'} {m} {created} before h) =
    create_operation-IsInvariant i at r rows (rows', (m, created)) (Reachable-IsInvariant before) h
Reachable-IsInvariant (claims i now lease_until {rows} {rows'} {m} {held} before h) =
    claim_operation-IsInvariant i now lease_until rows (rows', (m, held))
      (Reachable-IsInvariant before) h
Reachable-IsInvariant (completes i result at {rows} before) =
    updated-IsInvariant i _ rows (λ y. refl, λ x y. refl, λ x y. refl) (λ m k. ground arith)
      (Reachable-IsInvariant before)
Reachable-IsInvariant (fails i error_code at {rows} before) =
    updated-IsInvariant i _ rows (λ y. refl, λ x y. refl, λ x y. refl) (λ m k. ground arith)
      (Reachable-IsInvariant before)
Reachable-IsInvariant (releases i {rows} before) =
    updated-IsInvariant i _ rows (λ y. refl, λ x y. refl, λ x y. refl) (λ m k. ground arith)
      (Reachable-IsInvariant before)
