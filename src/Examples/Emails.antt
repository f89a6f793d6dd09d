-- ===== src/Examples/Emails.antt =====
-- Runs of the operations on the table of emails.
use agenda_agent.Prelude.Text.{codes}
use agenda_agent.Prelude.{
  In, List, [], exists, false, inl, none, refl, some, true, ◌∷◌, ◌≡◌, if◌then◌else◌, ◌↔◌,
}
use agenda_agent.Operations.Email.{
  EmailRow, ProcessingRow, claim_source_email, list_pending_source_email_ids,
  reclaim_orphaned_needs_review, is_busy, with_status,
}
use agenda_agent.Operations.Email.Claim.{
  claim_source_email_twice, source_by_id, list_pending_source_email_ids-claim, MayClaim,
  claim_source_email_iff,
}
use agenda_agent.Mail.Vocabulary.{needs_review, pending, processing}
use agenda_agent.Prelude.Sort.{sort_with}
use agenda_agent.Operations.Email.Orphan.{reclaim_orphaned_needs_review-claim}

abbrev waiting_email : EmailRow
waiting_email = record { id = 7; account_id = 5; processing_status = pending; received_at = 90 }

abbrev lost_email : EmailRow
lost_email = record { id = 8; account_id = 5; processing_status = needs_review; received_at = 80 }

abbrev pub emails : List EmailRow
emails = waiting_email ∷ lost_email ∷ []

abbrev lost_run : ProcessingRow
lost_run = record {
  id = 60;
  source_email_id = 8;
  status = codes "needs_review";
  started_at = 85;
  finished_at = none;
  error_code = none;
}

claim_source_email_iff_example :
    (((claim_source_email 5 8 true emails).1 ≡ true) ↔ MayClaim 5 true lost_email)
    × (source_by_id 8 (claim_source_email 5 8 true emails).0
        ≡ some (
            if (claim_source_email 5 8 true emails).1
            then with_status processing lost_email
            else lost_email))
claim_source_email_iff_example =
    claim_source_email_iff 5 8 true emails lost_email (refl, (refl, tt)) refl

first_claim : (claim_source_email 5 7 false emails).1 ≡ true
unfolding claim_source_email
first_claim = refl

claim_source_email_twice_example :
    (claim_source_email 5 7 false (claim_source_email 5 7 false emails).0).1 ≡ false
claim_source_email_twice_example =
    claim_source_email_twice 5 5 7 false emails waiting_email (refl, (refl, tt)) refl first_claim

listed_email : In 7 (list_pending_source_email_ids 5 20 [] emails)
unfolding list_pending_source_email_ids sort_with
listed_email = inl refl

list_pending_source_email_ids-claim_example :
    ((claim_source_email 5 7 false emails).1 ≡ true) × (exists (is_busy 7) [] ≡ false)
list_pending_source_email_ids-claim_example =
    list_pending_source_email_ids-claim 5 7 20 [] emails (refl, (refl, tt)) listed_email

reclaim_run : (reclaim_orphaned_needs_review 5 8 100 [] (lost_run ∷ []) emails).1 ≡ true
unfolding reclaim_orphaned_needs_review
reclaim_run = refl

reclaim_orphaned_needs_review-claim_example :
    (lost_email.processing_status ≡ needs_review)
    × ((claim_source_email 5 8 false
          (reclaim_orphaned_needs_review 5 8 100 [] (lost_run ∷ []) emails).0.1).1
        ≡ true)
reclaim_orphaned_needs_review-claim_example =
    reclaim_orphaned_needs_review-claim 5 8 100 [] (lost_run ∷ []) emails lost_email
      (refl, (refl, tt)) refl reclaim_run
