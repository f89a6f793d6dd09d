-- ===== src/Operations/Run/Keys.antt =====
-- The primary key of the runs and the unique constraint on their idempotency keys.
use agenda_agent.Prelude.{
  List, ◌≡◌, Bool, Bool-cases, [], exists, false, find, inr, none, ok, refl, ◌&&◌, ◌==◌, ◌∙◌, ◌∷◌,
  inl, arith,
}
use agenda_agent.Domain.Digest.{Uuid, Datetime}
use agenda_agent.Database.Invariant.Rows.{HasPair, HasPair-append}
use agenda_agent.Operations.Run.{
  OperationCreate, OperationRow, create_operation, on_operation, same_type, has_request_key,
  queued_row,
}
use agenda_agent.Prelude.Rows.{HasKey, HasKey-update_where, HasKey-append}
use agenda_agent.Prelude.Text.{text_eq}
use agenda_agent.Operations.Run.Create.{create_operation-cases}

-- Two rows with one account, type and idempotency key.
abbrev pub same_run_key : OperationRow → OperationRow → Bool
same_run_key a b =
    a.account_id == b.account_id
    && same_type a.operation_type b.operation_type
    && text_eq a.idempotency_key_hash b.idempotency_key_hash

pub record IsKeyed (rows : List OperationRow) : Type 0 where
  pub ids : HasKey (λ (m : OperationRow). m.id) rows
  pub keys : HasPair same_run_key rows

exists-on_operation :
    (i : Uuid) (f : OperationRow → OperationRow) (x : OperationRow) (rows : List OperationRow)
    → ((y : OperationRow) → same_run_key x (f y) ≡ same_run_key x y)
    → exists (same_run_key x) (on_operation i f rows) ≡ exists (same_run_key x) rows
exists-on_operation i f x [] keep = refl
exists-on_operation i f x (y ∷ ys) keep = elim (Bool-cases (y.id == i)) [
  | inl hit ↦ rw hit (rw (keep y, exists-on_operation i f x ys keep) refl)
  | inr skip ↦ rw skip (rw (exists-on_operation i f x ys keep) refl)
]

-- An update that keeps the key.
abbrev pub KeepsKey : (OperationRow → OperationRow) → Type 0
KeepsKey f =
    ((y : OperationRow) → (f y).id ≡ y.id)
    × ((x y : OperationRow) → same_run_key x (f y) ≡ same_run_key x y)
    × ((x y : OperationRow) → same_run_key (f x) y ≡ same_run_key x y)

HasPair-on_operation :
    (i : Uuid) (f : OperationRow → OperationRow) (rows : List OperationRow)
    → KeepsKey f
    → HasPair same_run_key rows
    → HasPair same_run_key (on_operation i f rows)
HasPair-on_operation i f [] keep h = tt
HasPair-on_operation i f (x ∷ xs) keep h = elim (Bool-cases (x.id == i)) [
  | inl hit ↦ rw hit (exists-updated (f x) (λ y. keep.2 x y), HasPair-on_operation i f xs keep h.1)
  | inr skip ↦ rw skip (exists-updated x (λ y. refl), HasPair-on_operation i f xs keep h.1)
]
  where
    exists_same :
        (z : OperationRow) (ys : List OperationRow)
        → ((y : OperationRow) → same_run_key z y ≡ same_run_key x y)
        → exists (same_run_key z) ys ≡ exists (same_run_key x) ys
    exists_same z [] e = refl
    exists_same z (y ∷ ys) e = rw (e y, exists_same z ys e) refl

    exists-updated :
        (z : OperationRow)
        → ((y : OperationRow) → same_run_key z y ≡ same_run_key x y)
        → exists (same_run_key z) (on_operation i f xs) ≡ false
    exists-updated z e = exists-on_operation i f z xs (λ y. keep.1 z y) ∙ exists_same z xs e ∙ h.0

pub on_operation-IsKeyed :
    (i : Uuid) (f : OperationRow → OperationRow) (rows : List OperationRow)
    → KeepsKey f
    → IsKeyed rows
    → IsKeyed (on_operation i f rows)
on_operation-IsKeyed i f rows keep k = record {
  ids =
      HasKey-update_where (λ (m : OperationRow). m.id) (λ (m : OperationRow). m.id == i) f rows
        keep.0 k.ids;
  keys = HasPair-on_operation i f rows keep k.keys;
}

no_key :
    (i : Uuid) (at : Datetime) (r : OperationCreate) (rows : List OperationRow)
    → find (has_request_key r) rows ≡ none
    → exists (λ x. same_run_key x (queued_row i at r)) rows ≡ false
no_key i at r [] e = refl
no_key i at r (x ∷ xs) e = ground (arith, no_key i at r xs)

pub create_operation-IsKeyed :
    (i : Uuid) (at : Datetime) (r : OperationCreate) (rows : List OperationRow)
    (out : List OperationRow × (OperationRow × Bool))
    → IsKeyed rows
    → create_operation i at r rows ≡ ok out
    → IsKeyed out.0
create_operation-IsKeyed i at r rows out k h = elim (create_operation-cases i at r rows out h) [
  | inl (old, found, e) ↦ rw e k
  | inr (fresh, free, e) ↦ rw e (record {
    ids = HasKey-append (λ (m : OperationRow). m.id) rows (queued_row i at r) k.ids free;
    keys = HasPair-append same_run_key rows (queued_row i at r) k.keys (no_key i at r rows fresh);
  })
]
