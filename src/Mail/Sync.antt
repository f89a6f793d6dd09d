-- ===== src/Mail/Sync.antt =====
-- application/mail_sync.py: `MailSyncService.synchronize`.
use agenda_agent.Prelude.Steps.{◌>>=◌}
use agenda_agent.Domain.Digest.{Datetime, Uuid}
use agenda_agent.Prelude.{
  Bool, Error, List, Option, Result, [], application_error, delta_state_invalid, err, exists, false,
  if◌then◌else◌, length, ltb, none, ok, or_else, some, suc, true, value_error, zero, ℕ, ◌+◌, ◌-◌,
  ◌∷◌,
}
use agenda_agent.Prelude.Text.{Text, Unicode, text_eq, codes}
use agenda_agent.Prelude.Steps.{StepOn, raise, done}
use agenda_agent.Mail.Upsert.{MailIngestionResult}
use agenda_agent.Mail.Vocabulary.{SourceEmailCandidate, SyncStateRow}
use agenda_agent.Mail.Store.{
  MailTables, begin_sync, complete_sync, ingest_page, invalidate_cursor, fail_sync,
}
use agenda_agent.Prelude.Codes.{code_of}

pub record MailDeltaPage : Type 0 where
  pub messages : List SourceEmailCandidate
  pub next_link : Option Text
  pub delta_link : Option Text

pub record MailSyncResult : Type 0 where
  pub observed : ℕ
  pub inserted : ℕ
  pub updated : ℕ
  pub delta_link : Text

-- What a service is built with, and what it is called with: `fetch_delta_page` by the number of its
-- call, and three readings of the clock: at the start, on completion, and on a failure.
pub record SyncContext : Type 0 where
  pub fetch_delta_page : ℕ → Option Text → Result MailDeltaPage
  pub max_pages : ℕ
  pub account_id : Uuid
  pub folder_id : Text
  pub started_at : Datetime
  pub finished_at : Datetime
  pub failed_at : Datetime

-- What the loop carries from page to page.
pub record Progress : Type 0 where
  pub cursor : Option Text
  pub observed : ℕ
  pub inserted : ℕ
  pub updated : ℕ
  pub visited_links : List Text

abbrev pub is_visited : Text → List Text → Bool
is_visited link links = exists (λ seen. text_eq seen link) links

abbrev pub is_delta_invalid : Error → Bool
is_delta_invalid (delta_state_invalid _) = true
is_delta_invalid _ = false

-- `MailSyncService.__init__`
unfoldable pub check_max_pages : ℕ → Result ℕ
check_max_pages max_pages =
    if ltb max_pages 1 then err (value_error "max_pages must be positive") else ok max_pages

module _ (x : SyncContext) where
  abbrev pub fetched : Progress → MailDeltaPage → Progress
  fetched p page = record p { observed = p.observed + length page.messages }

  abbrev pub ingested_page : Progress → Text → MailIngestionResult → Progress
  ingested_page p next_link r = record p {
    cursor = some next_link;
    inserted = p.inserted + r.inserted;
    updated = p.updated + r.updated;
    visited_links = next_link ∷ p.visited_links;
  }

  -- The last page of a round.
  unfoldable pub finish_round : Progress → MailDeltaPage → StepOn MailTables MailSyncResult
  finish_round p page = elim page.delta_link [
    | none ↦ raise (delta_state_invalid "delta response did not include a terminal link")
    | some link ↦ complete_sync x.account_id x.folder_id page.messages link x.finished_at >>= (λ r.
        done (record {
          observed = p.observed;
          inserted = p.inserted + r.inserted;
          updated = p.updated + r.updated;
          delta_link = link;
        }))
  ]

  -- A page that has a next one.
  unfoldable pub continue_round :
      (Progress → StepOn MailTables MailSyncResult)
      → Progress
      → MailDeltaPage
      → Text
      → StepOn MailTables MailSyncResult
  continue_round rest p page next_link =
      if is_visited next_link p.visited_links
      then raise (delta_state_invalid "delta pagination cycle detected")
      else ingest_page x.account_id x.folder_id page.messages next_link
        >>= (λ r. rest (ingested_page p next_link r))

  -- The body of the loop, by the pages left.
  unfoldable pub pages : ℕ → Progress → StepOn MailTables MailSyncResult
  pages zero p = raise (application_error "SYNC_PAGE_LIMIT")
  pages (suc left) p = λ w. elim (x.fetch_delta_page (x.max_pages - suc left) p.cursor) [
    | err e ↦ (w, err e)
    | ok page ↦ elim page.next_link [
      | none ↦ finish_round (fetched p page) page w
      | some next_link ↦ continue_round (pages left) (fetched p page) page next_link w
    ]
  ]

  -- The `except` clauses.
  unfoldable pub settle_sync :
      MailTables × Result MailSyncResult → MailTables × Result MailSyncResult
  settle_sync (w, ok r) = (w, ok r)
  settle_sync (w, err e) =
      let code = or_else (code_of e) (codes "SYNC_UNEXPECTED") in
      (
        if is_delta_invalid e
            then invalidate_cursor x.account_id x.folder_id code x.failed_at w
            else fail_sync x.account_id x.folder_id code x.failed_at w,
        err e,
      )

  abbrev pub first_progress : SyncStateRow → Progress
  first_progress s = record {
    cursor = s.delta_link;
    observed = 0;
    inserted = 0;
    updated = 0;
    visited_links = [];
  }

  unfoldable pub synchronize : Unicode → StepOn MailTables MailSyncResult
  synchronize u =
      begin_sync x.account_id x.folder_id u x.started_at
      >>= (λ s w. settle_sync (pages x.max_pages (first_progress s) w))
