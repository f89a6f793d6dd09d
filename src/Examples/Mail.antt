-- ===== src/Examples/Mail.antt =====
-- A mail synchronisation of two pages, one that is cut off, and the next start.
use agenda_agent.Mail.Vocabulary.{SourceEmailCandidate, SyncStateRow, pending, check_state}
use agenda_agent.Mail.Upsert.{
  IngestedEmailRow, upsert_messages, upsert_each, upsert_message, dict_from, with_message,
  new_email,
}
use agenda_agent.Mail.Sync.{
  MailDeltaPage, MailSyncResult, SyncContext, synchronize, pages, finish_round, continue_round,
  settle_sync,
}
use agenda_agent.Prelude.{
  zero, Option, Result, String, [], application_error, err, false, none, ok, refl, some, ℕ, ◌∷◌,
  ◌≡◌, length, ◌≤◌,
}
use agenda_agent.Prelude.Text.{Text, codes, ascii}
use agenda_agent.Mail.Store.{MailTables, ingest_with, begin_sync, begun, idle_state}
use agenda_agent.Prelude.Steps.{pass}
use agenda_agent.Mail.Outcome.{Outcome, synchronize-Settled}
use agenda_agent.Mail.Frame.Emails.{Retains, synchronize-Retains}
use agenda_agent.Mail.Lease.{begin_sync_lease}
use agenda_agent.Mail.Observed.{synchronize_counts}
use agenda_agent.Mail.Upsert.Lookup.{email_by_message, email_by_message-upsert_messages}

abbrev message : String → String → SourceEmailCandidate
message i subject = record {
  graph_message_id = codes i;
  internet_message_id = none;
  subject = codes subject;
  sender_domain = none;
  received_at = 90;
  outlook_web_link = none;
  has_attachments = false;
  body_hash = none;
}

abbrev first_page : MailDeltaPage
first_page = record {
  messages = message "a" "Offer" ∷ message "b" "Test" ∷ message "a" "An offer" ∷ [];
  next_link = some (codes "n1");
  delta_link = none;
}

abbrev last_page : MailDeltaPage
last_page = record {
  messages = message "b" "Your test" ∷ [];
  next_link = none;
  delta_link = some (codes "d1");
}

abbrev two_pages : ℕ → Option Text → Result MailDeltaPage
two_pages zero cursor = ok first_page
two_pages _ cursor = ok last_page

abbrev context : ℕ → SyncContext
context budget = record {
  fetch_delta_page = two_pages;
  max_pages = budget;
  account_id = 5;
  folder_id = codes "inbox";
  started_at = 1000;
  finished_at = 2000;
  failed_at = 3000;
}

abbrev known_email : IngestedEmailRow
known_email = record {
  account_id = 5;
  graph_message_id = codes "b";
  internet_message_id = none;
  subject = codes "Old";
  sender_domain = none;
  received_at = 80;
  outlook_web_link = none;
  body_hash = some (codes "00");
  has_attachments = false;
  processing_status = pending;
}

abbrev mailbox : MailTables
mailbox = record { sync_states = []; source_emails = known_email ∷ [] }

abbrev done_result : MailSyncResult
done_result = record { observed = 4; inserted = 1; updated = 2; delta_link = codes "d1" }

completes : (synchronize (context 10) ascii mailbox).1 ≡ ok done_result
unfolding synchronize pages finish_round continue_round ingest_with begin_sync check_state
    upsert_messages upsert_each upsert_message dict_from with_message settle_sync pass
completes = refl

cut_off : (synchronize (context 1) ascii mailbox).1 ≡ err (application_error "SYNC_PAGE_LIMIT")
unfolding synchronize pages finish_round continue_round ingest_with begin_sync check_state
    upsert_messages upsert_each upsert_message dict_from with_message settle_sync pass
cut_off = refl

synchronize-Settled_example : Outcome ascii (context 1) mailbox
synchronize-Settled_example = synchronize-Settled ascii (context 1) mailbox

synchronize_counts_example :
    (length (synchronize (context 10) ascii mailbox).0.source_emails ≡ 2) × (3 ≤ 4)
unfolding synchronize pages finish_round continue_round ingest_with begin_sync check_state
    upsert_messages upsert_each upsert_message dict_from with_message settle_sync pass
synchronize_counts_example = synchronize_counts (context 10) ascii mailbox done_result completes

abbrev started : SyncStateRow
started = begun 1000 (idle_state 5 (codes "inbox"))

abbrev running : MailTables
running = record mailbox { sync_states = started ∷ [] }

starts : begin_sync 5 (codes "inbox") ascii 1000 mailbox ≡ (running, ok started)
unfolding begin_sync check_state
starts = refl

begin_sync_lease_example :
    begin_sync 5 (codes "inbox") ascii 600000999 running
    ≡ (running, err (application_error "SYNC_IN_PROGRESS"))
begin_sync_lease_example =
    begin_sync_lease ascii 5 (codes "inbox") 1000 600000999 mailbox running started starts

email_by_message-upsert_messages_example :
    email_by_message (codes "a") (upsert_messages 5 first_page.messages (known_email ∷ [])).0
    ≡ some (new_email 5 (message "a" "An offer"))
email_by_message-upsert_messages_example =
    email_by_message-upsert_messages 5 (codes "a") first_page.messages (known_email ∷ [])

synchronize-Retains_example : Retains known_email (synchronize (context 1) ascii mailbox).0
synchronize-Retains_example = synchronize-Retains ascii (context 1) mailbox known_email refl
