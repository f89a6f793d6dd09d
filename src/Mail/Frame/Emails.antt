-- ===== src/Mail/Frame/Emails.antt =====
-- Synchronisations and the processing of emails.
use agenda_agent.Mail.Upsert.{IngestedEmailRow, refreshed}
use agenda_agent.Domain.Digest.{Uuid}
use agenda_agent.Mail.Vocabulary.{SourceEmailCandidate}
use agenda_agent.Prelude.{Option, inl, inr, none, refl, some, ◌≡◌}
use agenda_agent.Prelude.Text.{Unicode}
use agenda_agent.Mail.Sync.{SyncContext, synchronize}
use agenda_agent.Mail.Frame.{KeptByStore, synchronize-keeps}
use agenda_agent.Mail.Store.{MailTables}
use agenda_agent.Mail.Upsert.Lookup.{
  email_by_message, ingested, email_by_message-upsert_messages, last_message,
}
use agenda_agent.Mail.Lease.{begin_sync-cases}
use agenda_agent.Mail.Settle.{ingest_with-cases}

-- The email is there, of the same account and in the same state of its processing.
abbrev pub Retains : IngestedEmailRow → MailTables → Type 0
Retains r w =
    (r' : IngestedEmailRow) × (email_by_message r.graph_message_id w.source_emails ≡ some r')
    × (r'.account_id ≡ r.account_id)
    × (r'.processing_status ≡ r.processing_status)

ingested-retains :
    (account : Uuid) (r : IngestedEmailRow) (c : Option SourceEmailCandidate)
    (o : Option IngestedEmailRow)
    → ((r' : IngestedEmailRow) × (o ≡ some r')
        × (r'.account_id ≡ r.account_id)
        × (r'.processing_status ≡ r.processing_status))
    → (r' : IngestedEmailRow) × (ingested account c o ≡ some r')
      × (r'.account_id ≡ r.account_id)
      × (r'.processing_status ≡ r.processing_status)
ingested-retains account r none o h = h
ingested-retains account r (some m) o (r', there, same, as_was) =
    (refreshed m r', rw there refl, same, as_was)

Retains-synchronize :
    (u : Unicode) (x : SyncContext) (r : IngestedEmailRow) → KeptByStore u x (Retains r)
Retains-synchronize u x r = record {
  begin = λ w h. elim (begin_sync-cases u x.account_id x.folder_id x.started_at w) [
    | inl (e, refused) ↦ rw refused h
    | inr (m, found, fine, made) ↦ rw made h
  ];
  ingest = λ missing messages write w same h.
      elim (ingest_with-cases x.account_id x.folder_id missing messages write w) [
        | inl e ↦ rw e (
            rw
              (email_by_message-upsert_messages x.account_id r.graph_message_id messages
                w.source_emails)
              (ingested-retains x.account_id r (last_message r.graph_message_id messages)
                (email_by_message r.graph_message_id w.source_emails) h))
        | inr e ↦ rw e h
      ];
  fail = λ code w h. h;
  invalidate = λ code w h. h;
}

-- A synchronisation keeps every email that is in the table, its account and the state of its
-- processing, however it ends.
pub synchronize-Retains :
    (u : Unicode) (x : SyncContext) (w : MailTables) (r : IngestedEmailRow)
    → email_by_message r.graph_message_id w.source_emails ≡ some r
    → Retains r (synchronize x u w).0
synchronize-Retains u x w r there =
    synchronize-keeps u x (Retains r) (Retains-synchronize u x r) w (r, there, refl, refl)
