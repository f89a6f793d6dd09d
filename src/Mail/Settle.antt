-- ===== src/Mail/Settle.antt =====
-- How a synchronisation leaves the row of its folder.
use agenda_agent.Prelude.Steps.{pass}
use agenda_agent.Domain.Digest.{Uuid}
use agenda_agent.Mail.Vocabulary.{MailSyncStatus, SyncStateRow, SourceEmailCandidate}
use agenda_agent.Prelude.{
  Bool-cases, Error, List, Option, Option-cases, Result, String, err, find, find-eq-some, inl, inr,
  length, none, ok, or_else, refl, runtime_error, select, some, true, update_where, ◌==◌, ◌∙◌, ◌≡◌,
  ◌⊎◌, Result-cases, ok-injective, suc, zero, ℕ, ◌-◌, ap,
}
use agenda_agent.Prelude.Text.{Text, codes}
use agenda_agent.Mail.Sync.{
  MailDeltaPage, MailSyncResult, Progress, SyncContext, finish_round, is_delta_invalid, pages,
  settle_sync, continue_round, fetched, is_visited,
}
use agenda_agent.Mail.Store.{
  MailTables, ingest_with, is_folder, completed, invalidated, failed_with, continued,
}
use agenda_agent.Mail.Upsert.{upsert_messages}
use agenda_agent.Prelude.Rows.{find-update_where}
use agenda_agent.Prelude.Codes.{code_of}

abbrev pub state_of : Uuid → Text → List SyncStateRow → Option SyncStateRow
state_of account folder states = find (is_folder account folder) states

-- What an ended synchronisation has written, by what it returns or raises.
abbrev pub Settled : SyncContext → Result MailSyncResult → SyncStateRow → Type 0
Settled x (ok r) s =
    (s.status ≡ MailSyncStatus.succeeded)
    × (s.delta_link ≡ some r.delta_link)
    × (s.last_sync_finished_at ≡ some x.finished_at)
    × (s.error_code ≡ none)
Settled x (err e) s =
    (s.status ≡ MailSyncStatus.failed)
    × (is_delta_invalid e ≡ true → s.delta_link ≡ none)
    × (s.last_sync_finished_at ≡ some x.failed_at)
    × (s.error_code ≡ some (or_else (code_of e) (codes "SYNC_UNEXPECTED")))

module _ (account : Uuid) (folder : Text) where
  -- A write that keeps the folder is seen by its lookup.
  pub state_of-update :
      (write : SyncStateRow → SyncStateRow) (states : List SyncStateRow) {s : SyncStateRow}
      → ((m : SyncStateRow) → is_folder account folder (write m) ≡ is_folder account folder m)
      → state_of account folder states ≡ some s
      → state_of account folder (update_where (is_folder account folder) write states)
        ≡ some (write s)
  state_of-update write states {s} keep h =
      let (_, hit) = find-eq-some (is_folder account folder) states h in
      find-update_where (is_folder account folder) (is_folder account folder) write states
        (λ m. elim (Bool-cases (is_folder account folder m)) [
          | inl q ↦ rw q (keep m ∙ q)
          | inr q ↦ rw q q
        ])
        h
      ∙ rw hit refl

  pub ingest_with-cases :
      (missing : String) (messages : List SourceEmailCandidate)
      (write : SyncStateRow → SyncStateRow) (w : MailTables)
      → ingest_with account folder missing messages write w ≡ (
        record {
          sync_states = update_where (is_folder account folder) write w.sync_states;
          source_emails = (upsert_messages account messages w.source_emails).0;
        },
        ok (upsert_messages account messages w.source_emails).1,
      )
        ⊎ (ingest_with account folder missing messages write w ≡ (w, err (runtime_error missing)))
  unfolding ingest_with
  ingest_with-cases missing messages write w =
      elim (Bool-cases (length (select (is_folder account folder) w.sync_states) == 1)) [
        | inl one ↦ rw one (inl refl)
        | inr other ↦ rw other (inr refl)
      ]

module _ (x : SyncContext) where
  -- The row is there, and a return has completed it.
  abbrev pub Ends : MailTables × Result MailSyncResult → Type 0
  Ends out =
      (s : SyncStateRow) × (state_of x.account_id x.folder_id out.0.sync_states ≡ some s)
      × ((r : MailSyncResult) → out.1 ≡ ok r → Settled x (ok r) s)

  err-Ends :
      (w : MailTables) (e : Error) {s : SyncStateRow}
      → state_of x.account_id x.folder_id w.sync_states ≡ some s
      → Ends (w, err e)
  err-Ends w e {s} h = (s, h, λ r no_return. cc)

  finish_round-Ends :
      (p : Progress) (page : MailDeltaPage) (w : MailTables) {s : SyncStateRow}
      → state_of x.account_id x.folder_id w.sync_states ≡ some s
      → Ends (finish_round x p page w)
  unfolding finish_round pass
  finish_round-Ends p page w h = elim (Option-cases page.delta_link) [
    | inl missing ↦ rw missing (err-Ends w _ h)
    | inr (link, there) ↦
        rw there
          (elim (ingest_with-cases x.account_id x.folder_id
            "mail sync state disappeared during completion" page.messages
            (completed link x.finished_at) w) [
              | inl e ↦ rw e (
                _,
                state_of-update x.account_id x.folder_id (completed link x.finished_at)
                    w.sync_states (λ m. refl) h,
                λ r same. (
                  refl,
                  ap (λ (q : MailSyncResult). some q.delta_link) (ok-injective same),
                  refl,
                  refl,
                ),
              )
              | inr e ↦ rw e (err-Ends w _ h)
            ])
  ]

  pub pages-Ends :
      (left : ℕ) (p : Progress) (w : MailTables) {s : SyncStateRow}
      → state_of x.account_id x.folder_id w.sync_states ≡ some s
      → Ends (pages x left p w)
  unfolding pages continue_round pass
  pages-Ends zero p w h = err-Ends w _ h
  pages-Ends (suc left) p w h =
      elim (Result-cases (x.fetch_delta_page (x.max_pages - suc left) p.cursor)) [
        | inr (e, failed) ↦ rw (failed, pages) (err-Ends w _ h)
        | inl (page, got) ↦ (elim (Option-cases page.next_link) [
          | inl last ↦ rw (got, last, pages) (finish_round-Ends (fetched x p page) page w h)
          | inr (link, more) ↦ (elim (Bool-cases (is_visited link p.visited_links)) [
            | inl cycle ↦ rw (got, more, cycle, pages, continue_round) (err-Ends w _ h)
            | inr new ↦
                (elim (ingest_with-cases x.account_id x.folder_id
                  "mail sync state disappeared during pagination" page.messages (continued link)
                  w) [
                    | inl e ↦
                        rw (got, more, new, e, pages, continue_round)
                          (pages-Ends left _ _ (
                            state_of-update x.account_id x.folder_id (continued link) w.sync_states
                              (λ m. refl) h))
                    | inr e ↦ rw (got, more, new, e, pages, continue_round) (err-Ends w _ h)
                  ])
          ])
        ])
      ]

  -- The exception handlers settle what did not return.
  pub settle_sync-Settled :
      (out : MailTables × Result MailSyncResult)
      → Ends out
      → (s : SyncStateRow) × (state_of x.account_id x.folder_id (settle_sync x out).0.sync_states
          ≡ some s)
        × Settled x (settle_sync x out).1 s
  unfolding settle_sync
  settle_sync-Settled (w, ok r) (s, there, ends) = (s, there, ends r refl)
  settle_sync-Settled (w, err e) (s, there, ends) =
      let code = or_else (code_of e) (codes "SYNC_UNEXPECTED") in
      elim (Bool-cases (is_delta_invalid e)) [
        | inl invalid ↦ rw invalid (
          invalidated code x.failed_at s,
          state_of-update x.account_id x.folder_id (invalidated code x.failed_at) w.sync_states
              (λ m. refl) there,
          (refl, λ h. refl, refl, refl),
        )
        | inr valid ↦ rw valid (
          failed_with code x.failed_at s,
          state_of-update x.account_id x.folder_id (failed_with code x.failed_at) w.sync_states
              (λ m. refl) there,
          (refl, λ h. cc, refl, refl),
        )
      ]
