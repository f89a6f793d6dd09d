-- ===== src/Mail/Frame.antt =====
-- What a synchronisation leaves alone: the other folders, and what is known of the emails.
pub mod Folders
pub mod Emails
use agenda_agent.Prelude.Steps.{pass, StepOn}
use agenda_agent.Mail.Vocabulary.{SyncStateRow, SourceEmailCandidate}
use agenda_agent.Prelude.{
  Bool-cases, List, Option-cases, Result, Result-cases, String, err, inl, inr, ok, or_else, refl,
  suc, zero, ℕ, ◌-◌, ◌≡◌,
}
use agenda_agent.Prelude.Text.{Text, Unicode, codes}
use agenda_agent.Mail.Sync.{
  MailDeltaPage, MailSyncResult, Progress, SyncContext, finish_round, pages, settle_sync,
  synchronize, continue_round, is_delta_invalid, fetched, is_visited,
}
use agenda_agent.Mail.Store.{
  MailTables, begin_sync, completed, ingest_with, fail_sync, invalidate_cursor, continued,
}
use agenda_agent.Prelude.Codes.{code_of}

-- Every statement of a synchronisation keeps a predicate on the tables.
pub record KeptByStore (u : Unicode) (x : SyncContext) (P : MailTables → Type 0) : Type 0 where
  pub begin : (w : MailTables) → P w → P (begin_sync x.account_id x.folder_id u x.started_at w).0
  pub ingest :
      (missing : String) (messages : List SourceEmailCandidate)
      (write : SyncStateRow → SyncStateRow) (w : MailTables)
      → ((m : SyncStateRow)
          → ((write m).account_id ≡ m.account_id) × ((write m).folder_id ≡ m.folder_id))
      → P w
      → P (ingest_with x.account_id x.folder_id missing messages write w).0
  pub fail :
      (code : Text) (w : MailTables)
      → P w
      → P (fail_sync x.account_id x.folder_id code x.failed_at w)
  pub invalidate :
      (code : Text) (w : MailTables)
      → P w
      → P (invalidate_cursor x.account_id x.folder_id code x.failed_at w)

module _ (u : Unicode) (x : SyncContext) (P : MailTables → Type 0) (kept : KeptByStore u x P) where
  pass-keeps :
      {A B : Type 0} (out : MailTables × Result A) (f : A → StepOn MailTables B)
      → ((a : A) (w : MailTables) → P w → P (f a w).0)
      → P out.0
      → P (pass out f).0
  unfolding pass
  pass-keeps (w, ok a) f rest h = rest a w h
  pass-keeps (w, err e) f rest h = h

  finish_round-keeps :
      (p : Progress) (page : MailDeltaPage) (w : MailTables) → P w → P (finish_round x p page w).0
  unfolding finish_round
  finish_round-keeps p page w h = elim (Option-cases page.delta_link) [
    | inl missing ↦ rw missing h
    | inr (link, there) ↦ rw there (
        pass-keeps _ _ (λ r v k. k)
          (kept.ingest "mail sync state disappeared during completion" page.messages
            (completed link x.finished_at) w (λ m. (refl, refl)) h))
  ]

  pages-keeps : (left : ℕ) (p : Progress) (w : MailTables) → P w → P (pages x left p w).0
  unfolding pages continue_round
  pages-keeps zero p w h = h
  pages-keeps (suc left) p w h =
      elim (Result-cases (x.fetch_delta_page (x.max_pages - suc left) p.cursor)) [
        | inr (e, failed) ↦ rw (failed, pages) h
        | inl (page, got) ↦ elim (Option-cases page.next_link) [
          | inl last ↦ rw (got, last, pages) (finish_round-keeps (fetched x p page) page w h)
          | inr (link, more) ↦ elim (Bool-cases (is_visited link p.visited_links)) [
            | inl cycle ↦ rw (got, more, cycle, pages, continue_round) h
            | inr new ↦
                rw (got, more, new, pages, continue_round)
                  (pass-keeps _ _ (λ r v k. pages-keeps left _ v k)
                    (kept.ingest "mail sync state disappeared during pagination" page.messages
                      (continued link) w (λ m. (refl, refl)) h))
          ]
        ]
      ]

  settle_sync-keeps : (out : MailTables × Result MailSyncResult) → P out.0 → P (settle_sync x out).0
  unfolding settle_sync
  settle_sync-keeps (w, ok r) h = h
  settle_sync-keeps (w, err e) h = elim (Bool-cases (is_delta_invalid e)) [
    | inl invalid ↦ rw invalid (kept.invalidate (or_else (code_of e) (codes "SYNC_UNEXPECTED")) w h)
    | inr valid ↦ rw valid (kept.fail (or_else (code_of e) (codes "SYNC_UNEXPECTED")) w h)
  ]

  pub synchronize-keeps : (w : MailTables) → P w → P (synchronize x u w).0
  unfolding synchronize
  synchronize-keeps w h =
      pass-keeps (begin_sync x.account_id x.folder_id u x.started_at w) _
        (λ s v k. settle_sync-keeps _ (pages-keeps x.max_pages _ v k)) (kept.begin w h)
