-- ===== src/Operations/Run/Later/Over.antt =====
-- Runs that are over: they stay so until they are released.
use agenda_agent.Prelude.{
  Bool, Bool-cases, List, Option, [], ap, arith, false, find-eq-some, if◌then◌else◌, inl, inr, ok,
  refl, some, subst, sym, true, ◌==◌, ◌∙◌, ◌∷◌, ◌≡◌, ==→≡,
}
use agenda_agent.Domain.Digest.{Datetime, Uuid}
use agenda_agent.Prelude.Rows.{find-append_hit, find-update_where}
use agenda_agent.Prelude.Text.{Text}
use agenda_agent.Operations.Run.{
  OperationRow, OperationStatus, SafeOperationResult, claim_operation, claimed_row,
  complete_operation, fail_operation, failed, finish_operation, is_claimable, on_operation,
  operation_by_id, release_operation_for_retry, succeeded, queued_row,
}
use agenda_agent.Operations.Run.Later.{
  Later, here, if-keeps, then_claims, then_completes, then_creates, then_fails, then_releases,
}
use agenda_agent.Operations.Run.Create.{create_operation-cases}
use agenda_agent.Operations.Run.Lease.{claim-held, claim_operation-cases, on_operation-find}

abbrev pub is_over : OperationStatus → Bool
is_over succeeded = true
is_over failed = true
is_over _ = false

-- The run was completed, or it failed.
abbrev pub IsOver : Uuid → List OperationRow → Type 0
IsOver i rows = (m : OperationRow) × (operation_by_id i rows ≡ some m) × (is_over m.status ≡ true)

on_operation-found :
    (i j : Uuid) (f : OperationRow → OperationRow) (rows : List OperationRow) (m : OperationRow)
    → ((y : OperationRow) → (f y).id ≡ y.id)
    → operation_by_id i rows ≡ some m
    → operation_by_id i (on_operation j f rows) ≡ some (if i == j then f m else m)
on_operation-found i j f rows m keep found =
    find-update_where (λ (x : OperationRow). x.id == i) (λ (x : OperationRow). x.id == j) f rows
      (λ y. if-keeps (λ (x : OperationRow). x.id == i) (y.id == j) f y (ap (λ k. k == i) (keep y)))
      found
    ∙ ap (λ k. some (if k == j then f m else m))
        (==→≡ m.id i (find-eq-some (λ (x : OperationRow). x.id == i) rows found).1)

-- An update of another run does not change that a run is over.
other-IsOver :
    (i j : Uuid) (f : OperationRow → OperationRow) (rows : List OperationRow)
    → ((y : OperationRow) → (f y).id ≡ y.id)
    → (j == i) ≡ false
    → IsOver i rows
    → IsOver i (on_operation j f rows)
other-IsOver i j f rows keep apart (m, found, over) =
    let turned : (i == j) ≡ false = ground (arith, apart) in
    (m, on_operation-found i j f rows m keep found ∙ rw turned refl, over)

-- An update that ends a run does not either.
ending-IsOver :
    (i j : Uuid) (f : OperationRow → OperationRow) (rows : List OperationRow)
    → ((y : OperationRow) → (f y).id ≡ y.id)
    → ((y : OperationRow) → is_over (f y).status ≡ true)
    → IsOver i rows
    → IsOver i (on_operation j f rows)
ending-IsOver i j f rows keep ends (m, found, over) = elim (Bool-cases (i == j)) [
  | inl own ↦ (f m, on_operation-found i j f rows m keep found ∙ rw own refl, ends m)
  | inr apart ↦ (m, on_operation-found i j f rows m keep found ∙ rw apart refl, over)
]

over-is_claimable :
    (now : Datetime) (m : OperationRow) → is_over m.status ≡ true → is_claimable now m ≡ false
over-is_claimable now m over = ground arith

claim-IsOver :
    (i j : Uuid) (now lease_until : Datetime) (old : List OperationRow)
    (out : List OperationRow × (OperationRow × Bool))
    → IsOver i old
    → claim_operation j now lease_until old ≡ ok out
    → IsOver i out.0
claim-IsOver i j now lease_until old out (m, found, over) h =
    elim (claim_operation-cases j now lease_until old out h) [
      | inl e ↦ subst (IsOver i) (sym e) (m, found, over)
      | inr (known, is_known, free, e) ↦ elim (Bool-cases (j == i)) [
        | inr apart ↦
            subst (IsOver i) (sym e) (
              other-IsOver i j (claimed_row now lease_until) old (λ y. refl) apart (m, found, over))
        | inl own ↦
            let same : operation_by_id j old ≡ some m =
              subst (λ k. operation_by_id k old ≡ some m) (sym (==→≡ j i own)) found in
            let taken : is_claimable now m ≡ true =
              subst (λ o. is_claimable now o ≡ true) (some-injective (sym is_known ∙ same)) free in
            cc (taken, over-is_claimable now m over)
      ]
    ]
  where
    some-injective : {a b : OperationRow} → some a ≡ some b → a ≡ b
    some-injective h = cc

-- A run that is over stays so until it is released.
Later-IsOver :
    (i : Uuid) {rows new : List OperationRow}
    → Later (λ j. (j == i) ≡ false) rows new
    → IsOver i rows
    → IsOver i new
unfolding complete_operation fail_operation release_operation_for_retry finish_operation
Later-IsOver i here over = over
Later-IsOver i (then_creates j at q {old} {new} {m} {created} before h) over =
    let (n, found, done) = Later-IsOver i before over in
    elim (create_operation-cases j at q old (new, (m, created)) h) [
      | inl (known, is_known, e) ↦ subst (IsOver i) (sym (ap (λ o. o.0) e)) (n, found, done)
      | inr (fresh, free, e) ↦ subst (IsOver i) (sym (ap (λ o. o.0) e)) (
        n,
        find-append_hit (λ (x : OperationRow). x.id == i) old (queued_row j at q ∷ []) found,
        done,
      )
    ]
Later-IsOver i (then_claims j now lease_until {old} {new} {m} {held} before h) over =
    claim-IsOver i j now lease_until old (new, (m, held)) (Later-IsOver i before over) h
Later-IsOver i (then_completes j result at {old} before) over =
    ending-IsOver i j _ old (λ y. refl) (λ y. refl) (Later-IsOver i before over)
Later-IsOver i (then_fails j error_code at {old} before) over =
    ending-IsOver i j _ old (λ y. refl) (λ y. refl) (Later-IsOver i before over)
Later-IsOver i (then_releases j {old} before other) over =
    other-IsOver i j _ old (λ y. refl) other (Later-IsOver i before over)

finish_operation-IsOver :
    (i : Uuid) (status : OperationStatus) (result : Option SafeOperationResult)
    (error_code : Option Text) (finished_at : Datetime) (rows : List OperationRow)
    (m : OperationRow)
    → operation_by_id i rows ≡ some m
    → is_over status ≡ true
    → IsOver i (finish_operation i status result error_code finished_at rows)
unfolding finish_operation
finish_operation-IsOver i status result error_code finished_at rows m found over =
    (_, on_operation-find i _ rows m (λ y. refl) found, over)

-- After a run was completed or has failed, and whatever other operations follow, in any order and at any
-- time, but for a release of that very run: a claim of it is told that the run is over, and leaves the
-- table as it is.
pub finish_operation-claim :
    (i : Uuid) (status : OperationStatus) (result : Option SafeOperationResult)
    (error_code : Option Text) (finished_at now lease_until : Datetime)
    (rows later : List OperationRow) (m : OperationRow)
    → operation_by_id i rows ≡ some m
    → is_over status ≡ true
    → Later
        (λ j. (j == i) ≡ false)
        (finish_operation i status result error_code finished_at rows)
        later
    → (m' : OperationRow) × (is_over m'.status ≡ true)
      × (claim_operation i now lease_until later ≡ ok (later, (m', false)))
finish_operation-claim i status result error_code finished_at now lease_until rows later m found
      over after =
    let ended = finish_operation-IsOver i status result error_code finished_at rows m found over in
    let (m', there, done) = Later-IsOver i after ended in
    (m', done, claim-held i now lease_until later m' there (over-is_claimable now m' done))
