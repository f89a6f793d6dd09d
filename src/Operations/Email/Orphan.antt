-- ===== src/Operations/Email/Orphan.antt =====
-- Emails whose review got lost.
use agenda_agent.Prelude.{
  List, ◌≡◌, false, some, true, Bool-cases, Option-cases, arith, exists, inl, inr, refl, select,
  ◌&&◌, ◌==◌, ◌∙◌, update_where,
}
use agenda_agent.Domain.Digest.{Uuid, Datetime}
use agenda_agent.Operations.Email.{
  EmailRow, ProcessingRow, ReviewRow, reclaim_orphaned_needs_review, is_orphaned_email,
  claim_source_email, with_status, latest, is_orphaned,
}
use agenda_agent.Mail.Vocabulary.{needs_review, pending}
use agenda_agent.Prelude.Rows.{HasKey, exists-single, find-update_where, HasKey-update_where}
use agenda_agent.Operations.Email.Claim.{source_by_id, claim_source_email_lem}

reclaimed :
    (account i : Uuid) (now : Datetime) (reviews : List ReviewRow) (runs : List ProcessingRow)
    (rows : List EmailRow)
    → (reclaim_orphaned_needs_review account i now reviews runs rows).1 ≡ true
    → (exists (λ (x : EmailRow). (x.id == i) && is_orphaned_email account x) rows ≡ true)
      × ((reclaim_orphaned_needs_review account i now reviews runs rows).0.1
          ≡ update_where
              (λ (x : EmailRow). (x.id == i) && is_orphaned_email account x)
              (with_status pending)
              rows)
unfolding reclaim_orphaned_needs_review
reclaimed account i now reviews runs rows won =
    elim (Bool-cases (exists (λ (x : EmailRow). (x.id == i) && is_orphaned_email account x) rows)) [
      | inr absent ↦ cc (rw (absent, reclaim_orphaned_needs_review) at won)
      | inl there ↦
          elim (Option-cases (
            latest (
              select (λ (r : ProcessingRow). (r.source_email_id == i) && is_orphaned reviews r)
                runs))) [
                  | inl no_run ↦ cc (rw (there, no_run, reclaim_orphaned_needs_review) at won)
                  | inr (run, found) ↦
                      (there, rw (there, found, reclaim_orphaned_needs_review) refl)
                ]
    ]

-- An email that was reclaimed had waited for a review, and it can then be claimed without recovery.
-- The identifiers of the emails are distinct.
pub reclaim_orphaned_needs_review-claim :
    (account i : Uuid) (now : Datetime) (reviews : List ReviewRow) (runs : List ProcessingRow)
    (rows : List EmailRow) (m : EmailRow)
    → HasKey (λ (x : EmailRow). x.id) rows
    → source_by_id i rows ≡ some m
    → (reclaim_orphaned_needs_review account i now reviews runs rows).1 ≡ true
    → (m.processing_status ≡ needs_review)
      × ((claim_source_email account i false
            (reclaim_orphaned_needs_review account i now reviews runs rows).0.1).1
          ≡ true)
reclaim_orphaned_needs_review-claim account i now reviews runs rows m keys found won =
    let p = λ (x : EmailRow). (x.id == i) && is_orphaned_email account x in
    let (some_row, e) = reclaimed account i now reviews runs rows won in
    let waits : p m ≡ true =
      exists-single (λ (x : EmailRow). x.id) p i (λ y h. ground arith) rows m keys found some_row in
    let there : source_by_id i (update_where p (with_status pending) rows)
        ≡ some (with_status pending m) =
      find-update_where (λ (x : EmailRow). x.id == i) p (with_status pending) rows
        (λ y. ground arith) found
      ∙ rw waits refl in
    let keys' =
      HasKey-update_where (λ (x : EmailRow). x.id) p (with_status pending) rows (λ y. refl) keys in
    let (w, after) = claim_source_email_lem account i false _ (with_status pending m) keys' there in
    (ground (arith, waits), rw e (w ∙ ground (arith, waits)))
