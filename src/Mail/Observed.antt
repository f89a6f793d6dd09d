-- ===== src/Mail/Observed.antt =====
-- What a synchronisation counts, over all of its pages.
use agenda_agent.Prelude.Steps.{pass}
use agenda_agent.Mail.Sync.{
  synchronize, pages, finish_round, settle_sync, continue_round, MailDeltaPage, MailSyncResult,
  Progress, SyncContext, fetched, is_visited, first_progress, ingested_page,
}
use agenda_agent.Prelude.{
  Option-cases, Result, inl, inr, length, ok, ◌+◌, ◌≡◌, ◌≤◌, Bool-cases, Result-cases, arith,
  ok-injective, suc, zero, ℕ, ◌-◌, ap, refl, sym, err, false, some, ◌∙◌,
}
use agenda_agent.Mail.Store.{MailTables, completed, complete_sync, continued, ingest_page, begun}
use agenda_agent.Mail.Settle.{ingest_with-cases}
use agenda_agent.Mail.Upsert.Count.{upsert_messages_counts}
use agenda_agent.Prelude.Text.{Text, Unicode}
use agenda_agent.Mail.Upsert.{MailIngestionResult}
use agenda_agent.Mail.Lease.{begin_sync-cases}

module _ (x : SyncContext) where
  -- The counts of a return, against those that the loop started with.
  abbrev Counts : Progress → MailTables → MailTables × Result MailSyncResult → Type 0
  Counts p w out =
      (r : MailSyncResult)
      → out.1 ≡ ok r
      → (length out.0.source_emails + p.inserted ≡ length w.source_emails + r.inserted)
        × (r.inserted + r.updated ≤ r.observed)

  -- The counts of a known return.
  lands :
      (p : Progress) (w w' : MailTables) (out : MailTables × Result MailSyncResult)
      (r : MailSyncResult)
      → out ≡ (w', ok r)
      → length w'.source_emails + p.inserted ≡ length w.source_emails + r.inserted
      → r.inserted + r.updated ≤ r.observed
      → Counts p w out
  lands p w w' out r e growth few r' same =
      let is_it : r ≡ r' = ok-injective (rw e at same) in rw (e, sym is_it) (growth, few)

  finish_round-returns :
      (p : Progress) (page : MailDeltaPage) (link : Text) (w w' : MailTables)
      (c : MailIngestionResult)
      → page.delta_link ≡ some link
      → complete_sync x.account_id x.folder_id page.messages link x.finished_at w ≡ (w', ok c)
      → finish_round x p page w ≡ (
        w',
        ok (record {
          observed = p.observed;
          inserted = p.inserted + c.inserted;
          updated = p.updated + c.updated;
          delta_link = link;
        }),
      )
  unfolding finish_round pass
  finish_round-returns p page link w w' c there e = rw (there, e, finish_round, pass) (rw e refl)

  pages-continues :
      (left : ℕ) (p : Progress) (page : MailDeltaPage) (link : Text) (w w' : MailTables)
      (c : MailIngestionResult)
      → x.fetch_delta_page (x.max_pages - suc left) p.cursor ≡ ok page
      → page.next_link ≡ some link
      → is_visited link p.visited_links ≡ false
      → ingest_page x.account_id x.folder_id page.messages link w ≡ (w', ok c)
      → pages x (suc left) p w ≡ pages x left (ingested_page x (fetched x p page) link c) w'
  unfolding pages continue_round pass
  pages-continues left p page link w w' c got more new e =
      rw (got, more, new, e, pages, continue_round, pass) (rw e refl)

  finish_round-Counts :
      (p : Progress) (page : MailDeltaPage) (w : MailTables)
      → p.inserted + p.updated + length page.messages ≤ p.observed
      → Counts p w (finish_round x p page w)
  unfolding finish_round pass
  finish_round-Counts p page w bound r same = elim (Option-cases page.delta_link) [
    | inl missing ↦ cc (rw (missing, finish_round) at same)
    | inr (link, there) ↦
        elim (ingest_with-cases x.account_id x.folder_id
          "mail sync state disappeared during completion" page.messages
          (completed link x.finished_at) w) [
            | inr e ↦ cc (rw (there, e, finish_round, pass) at same)
            | inl e ↦
                let (growth, few) =
                  upsert_messages_counts x.account_id page.messages w.source_emails in
                lands p w _ (finish_round x p page w) _
                  (finish_round-returns p page link w _ _ there e) (omega (arith, growth))
                  (omega (arith, few, bound)) r same
          ]
  ]

  pages-Counts :
      (left : ℕ) (p : Progress) (w : MailTables)
      → p.inserted + p.updated ≤ p.observed
      → Counts p w (pages x left p w)
  unfolding pages continue_round pass
  pages-Counts zero p w bound r same = cc
  pages-Counts (suc left) p w bound r same =
      elim (Result-cases (x.fetch_delta_page (x.max_pages - suc left) p.cursor)) [
        | inr (e, failed) ↦ cc (rw (failed, pages) at same)
        | inl (page, got) ↦ elim (Option-cases page.next_link) [
          | inl last ↦
              rw (got, last, pages)
                (finish_round-Counts (fetched x p page) page w (omega (arith, bound)) r
                  (rw (got, last, pages) at same))
          | inr (link, more) ↦ elim (Bool-cases (is_visited link p.visited_links)) [
            | inl cycle ↦ cc (rw (got, more, cycle, pages, continue_round) at same)
            | inr new ↦
                elim (ingest_with-cases x.account_id x.folder_id
                  "mail sync state disappeared during pagination" page.messages (continued link)
                  w) [
                    | inr e ↦ cc (rw (got, more, new, e, pages, continue_round, pass) at same)
                    | inl e ↦
                        let (growth, few) =
                          upsert_messages_counts x.account_id page.messages w.source_emails in
                        let step = pages-continues left p page link w _ _ got more new e in
                        let (later, rest) = pages-Counts left _ _ (omega (arith, few, bound)) r (
                          sym (ap (λ (o : MailTables × Result MailSyncResult). o.1) step) ∙ same) in
                        rw step (omega (arith, later, growth), rest)
                  ]
          ]
        ]
      ]

  settled_counts :
      (w : MailTables) (out : MailTables × Result MailSyncResult)
      → ((r : MailSyncResult)
          → out.1 ≡ ok r
          → (length out.0.source_emails + 0 ≡ length w.source_emails + r.inserted)
            × (r.inserted + r.updated ≤ r.observed))
      → (r : MailSyncResult) → (settle_sync x out).1 ≡ ok r
      → (length (settle_sync x out).0.source_emails ≡ length w.source_emails + r.inserted)
        × (r.inserted + r.updated ≤ r.observed)
  unfolding settle_sync
  settled_counts w (v, ok r') counts r same =
      let (growth, few) = counts r same in (omega (arith, growth), few)
  settled_counts w (v, err e) counts r same = cc

  -- A completed synchronisation has added as many emails to the table as it says, and it has
  -- inserted and updated at most as many as it has seen.
  pub synchronize_counts :
      (u : Unicode) (w : MailTables) (r : MailSyncResult)
      → (synchronize x u w).1 ≡ ok r
      → (length (synchronize x u w).0.source_emails ≡ length w.source_emails + r.inserted)
        × (r.inserted + r.updated ≤ r.observed)
  unfolding synchronize pass
  synchronize_counts u w r same =
      elim (begin_sync-cases u x.account_id x.folder_id x.started_at w) [
        | inl (e, refused) ↦ cc (rw (refused, synchronize) at same)
        | inr (m, found, fine, made) ↦
            rw (made, synchronize)
              (settled_counts w (pages x x.max_pages (first_progress x (begun x.started_at m)) _)
                (pages-Counts x.max_pages (first_progress x (begun x.started_at m)) _ (omega arith))
                r (rw (made, synchronize) at same))
      ]
