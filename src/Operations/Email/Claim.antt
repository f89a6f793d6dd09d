-- ===== src/Operations/Email/Claim.antt =====
-- Claims of emails.
use agenda_agent.Prelude.{
  List, ◌≡◌, Bool, In, In-select, Option, arith, exists, false, find, find-eq-some, if◌then◌else◌,
  refl, some, true, ℕ, ◌&&◌, ◌==◌, ◌∙◌, sym, ◌↔◌, ◌⊎◌,
}
use agenda_agent.Domain.Digest.{Uuid}
use agenda_agent.Operations.Run.{OperationRow}
use agenda_agent.Operations.Email.{
  EmailRow, claim_source_email, list_pending_source_email_ids, is_allowed, is_busy, with_status,
  is_free, is_waiting,
}
use agenda_agent.Mail.Vocabulary.{failed, pending, processing}
use agenda_agent.Prelude.Rows.{
  In-take, HasKey, In-map, select-holds, select-single, find-update_where, find_by_key,
  HasKey-update_where,
}
use agenda_agent.Prelude.Sort.{In-sort_by}

abbrev pub source_by_id : Uuid → List EmailRow → Option EmailRow
source_by_id i rows = find (λ (m : EmailRow). m.id == i) rows

-- What a claim tells and leaves, by the test of its update.
pub claim_source_email_lem :
    (account i : Uuid) (recover_existing : Bool) (rows : List EmailRow) (m : EmailRow)
    → HasKey (λ (x : EmailRow). x.id) rows
    → source_by_id i rows ≡ some m
    → let free = (m.account_id == account) && is_allowed recover_existing m.processing_status in
      ((claim_source_email account i recover_existing rows).1 ≡ free)
      × (source_by_id i (claim_source_email account i recover_existing rows).0
          ≡ some (if free then with_status processing m else m))
unfolding claim_source_email
claim_source_email_lem account i recover_existing rows m keys found =
    let hit : (m.id == i) ≡ true = (find-eq-some (λ (x : EmailRow). x.id == i) rows found).1 in
    let p = is_free account i recover_existing in
    let one = select-single (λ (x : EmailRow). x.id) p i (λ y h. ground arith) rows m keys found in
    let kept =
      find-update_where (λ (x : EmailRow). x.id == i) p (with_status processing) rows
        (λ y. ground arith) found in
    (rw (one, hit) (ground arith), kept ∙ rw hit refl)

-- Who may claim an email.
abbrev pub MayClaim : Uuid → Bool → EmailRow → Type 0
MayClaim account recover_existing m =
    (m.account_id ≡ account)
    × ((m.processing_status ≡ pending)
        ⊎ ((recover_existing ≡ true)
            × ((m.processing_status ≡ processing) ⊎ (m.processing_status ≡ failed))))

is_allowed-MayClaim :
    (account : Uuid) (recover_existing : Bool) (m : EmailRow)
    → (((m.account_id == account) && is_allowed recover_existing m.processing_status) ≡ true)
      ↔ MayClaim account recover_existing m
is_allowed-MayClaim account recover_existing m = (λ h. ground arith, λ h. ground arith)

-- A claim succeeds exactly if the email is of the account and pending or, where that is asked for,
-- under way or failed; it then sets the email under way, and otherwise it leaves the email as it is,
-- so one that waits for a review, was processed or is ignored is never taken. The identifiers of the
-- emails are distinct.
pub claim_source_email_iff :
    (account i : Uuid) (recover_existing : Bool) (rows : List EmailRow) (m : EmailRow)
    → HasKey (λ (x : EmailRow). x.id) rows
    → source_by_id i rows ≡ some m
    → (((claim_source_email account i recover_existing rows).1 ≡ true)
        ↔ MayClaim account recover_existing m)
      × (source_by_id i (claim_source_email account i recover_existing rows).0
          ≡ some (
              if (claim_source_email account i recover_existing rows).1
              then with_status processing m
              else m))
claim_source_email_iff account i recover_existing rows m keys found =
    let (won, after) = claim_source_email_lem account i recover_existing rows m keys found in
    (rw won (is_allowed-MayClaim account recover_existing m), rw won after)

claim-HasKey :
    (account i : Uuid) (recover_existing : Bool) (rows : List EmailRow)
    → HasKey (λ (x : EmailRow). x.id) rows
    → HasKey (λ (x : EmailRow). x.id) (claim_source_email account i recover_existing rows).0
unfolding claim_source_email
claim-HasKey account i recover_existing rows keys =
    HasKey-update_where (λ (x : EmailRow). x.id) (is_free account i recover_existing)
      (with_status processing) rows (λ y. refl) keys

-- After a successful claim of an email, a second claim of it fails unless it recovers emails that are
-- under way. The identifiers of the emails are distinct.
pub claim_source_email_twice :
    (account account' i : Uuid) (recover_existing : Bool) (rows : List EmailRow) (m : EmailRow)
    → HasKey (λ (x : EmailRow). x.id) rows
    → source_by_id i rows ≡ some m
    → (claim_source_email account i recover_existing rows).1 ≡ true
    → (claim_source_email account' i false (claim_source_email account i recover_existing rows).0).1
      ≡ false
claim_source_email_twice account account' i recover_existing rows m keys found won =
    let (w, after) = claim_source_email_lem account i recover_existing rows m keys found in
    let free = sym w ∙ won in
    let rows' = (claim_source_email account i recover_existing rows).0 in
    let taken : source_by_id i rows' ≡ some (with_status processing m) = rw free at after in
    let again =
      claim_source_email_lem account' i false rows' (with_status processing m)
        (claim-HasKey account i recover_existing rows keys) taken in
    again.0 ∙ ground arith

-- A listed email can be claimed without recovery, and no run for it is queued or under way, if the
-- identifiers of the emails are distinct.
pub list_pending_source_email_ids-claim :
    (account i : Uuid) (limit : ℕ) (runs : List OperationRow) (rows : List EmailRow)
    → HasKey (λ (x : EmailRow). x.id) rows
    → In i (list_pending_source_email_ids account limit runs rows)
    → ((claim_source_email account i false rows).1 ≡ true) × (exists (is_busy i) runs ≡ false)
unfolding list_pending_source_email_ids
list_pending_source_email_ids-claim account i limit runs rows keys listed =
    let (m, sorted, e) = In-map (λ (x : EmailRow). x.id) _ i (In-take limit _ i listed) in
    let picked = In-sort_by (λ (x : EmailRow). x.received_at) _ m sorted in
    let inside = In-select (is_waiting account runs) rows m picked in
    let due : is_waiting account runs m ≡ true =
      select-holds (is_waiting account runs) rows m picked in
    let found : source_by_id m.id rows ≡ some m =
      find_by_key (λ (x : EmailRow). x.id) rows m keys inside in
    let (won, after) = claim_source_email_lem account m.id false rows m keys found in
    rw e (won ∙ ground (arith, due), ground (arith, due))
