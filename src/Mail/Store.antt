-- ===== src/Mail/Store.antt =====
-- persistence/mail.py: `SqlAlchemyMailSyncStore`, on the tables of the emails and of the folders.
use agenda_agent.Domain.Digest.{Datetime, Uuid}
use agenda_agent.Mail.Vocabulary.{MailSyncStatus, SyncStateRow, check_state, SourceEmailCandidate}
use agenda_agent.Prelude.{
  Bool, List, String, [], application_error, err, exists, false, find, if◌then◌else◌, length, ltb,
  none, ok, runtime_error, select, some, true, update_where, ℕ, ◌&&◌, ◌++◌, ◌+◌, ◌==◌, ◌∷◌,
}
use agenda_agent.Prelude.Text.{Text, Unicode, text_eq}
use agenda_agent.Prelude.Steps.{StepOn}
use agenda_agent.Mail.Upsert.{MailIngestionResult, IngestedEmailRow, upsert_messages}

-- `SYNC_LEASE`, 10 minutes
abbrev pub sync_lease : ℕ
sync_lease = 600000000

pub record MailTables : Type 0 where
  pub sync_states : List SyncStateRow
  pub source_emails : List IngestedEmailRow

abbrev is_syncing : MailSyncStatus → Bool
is_syncing MailSyncStatus.syncing = true
is_syncing _ = false

-- The condition under which `begin_sync` refuses.
abbrev pub is_held : Datetime → SyncStateRow → Bool
is_held started_at m =
    is_syncing m.status
    && elim m.last_sync_started_at [ none ↦ false | some last ↦ ltb started_at (last + sync_lease) ]

-- The row that `begin_sync` inserts, with the defaults of the columns.
abbrev pub idle_state : Uuid → Text → SyncStateRow
idle_state account folder = record {
  account_id = account;
  folder_id = folder;
  delta_link = none;
  last_sync_started_at = none;
  last_sync_finished_at = none;
  status = MailSyncStatus.idle;
  error_code = none;
}

abbrev pub begun : Datetime → SyncStateRow → SyncStateRow
begun started_at m = record m {
  last_sync_started_at = some started_at;
  status = MailSyncStatus.syncing;
  error_code = none;
}

abbrev pub continued : Text → SyncStateRow → SyncStateRow
continued cursor m = record m { delta_link = some cursor }

abbrev pub completed : Text → Datetime → SyncStateRow → SyncStateRow
completed delta_link finished_at m = record m {
  delta_link = some delta_link;
  last_sync_finished_at = some finished_at;
  status = MailSyncStatus.succeeded;
  error_code = none;
}

abbrev pub failed_with : Text → Datetime → SyncStateRow → SyncStateRow
failed_with error_code finished_at m = record m {
  last_sync_finished_at = some finished_at;
  status = MailSyncStatus.failed;
  error_code = some error_code;
}

abbrev pub invalidated : Text → Datetime → SyncStateRow → SyncStateRow
invalidated error_code finished_at m = record (failed_with error_code finished_at m) {
  delta_link = none;
}

module _ (account : Uuid) (folder : Text) where
  abbrev pub is_folder : SyncStateRow → Bool
  is_folder m = (m.account_id == account) && text_eq m.folder_id folder

  -- The insert that does nothing on a conflict.
  abbrev pub with_state : List SyncStateRow → List SyncStateRow
  with_state states =
      if exists is_folder states then states else states ++ idle_state account folder ∷ []

  unfoldable pub begin_sync : Unicode → Datetime → StepOn MailTables SyncStateRow
  begin_sync u started_at w =
      let states = with_state w.sync_states in
      elim (find is_folder states) [
        | none ↦ (w, err (runtime_error "mail sync state could not be initialized"))
        | some m ↦
            if is_held started_at m
            then (w, err (application_error "SYNC_IN_PROGRESS"))
            else elim (check_state u (begun started_at m)) [
              | err e ↦ (w, err e)
              | ok s ↦ (
                record w { sync_states = update_where is_folder (begun started_at) states },
                ok s,
              )
            ]
      ]

  -- Ingest messages and write to the row of the folder, or neither.
  unfoldable pub ingest_with :
      String
      → List SourceEmailCandidate
      → (SyncStateRow → SyncStateRow)
      → StepOn MailTables MailIngestionResult
  ingest_with missing messages write w =
      let (emails, result) = upsert_messages account messages w.source_emails in
      if length (select is_folder w.sync_states) == 1
      then (
        record { sync_states = update_where is_folder write w.sync_states; source_emails = emails },
        ok result,
      )
      else (w, err (runtime_error missing))

  abbrev pub ingest_page : List SourceEmailCandidate → Text → StepOn MailTables MailIngestionResult
  ingest_page messages cursor =
      ingest_with "mail sync state disappeared during pagination" messages (continued cursor)

  abbrev pub complete_sync :
      List SourceEmailCandidate → Text → Datetime → StepOn MailTables MailIngestionResult
  complete_sync messages delta_link finished_at =
      ingest_with "mail sync state disappeared during completion" messages
        (completed delta_link finished_at)

  abbrev pub fail_sync : Text → Datetime → MailTables → MailTables
  fail_sync error_code finished_at w = record w {
    sync_states = update_where is_folder (failed_with error_code finished_at) w.sync_states;
  }

  abbrev pub invalidate_cursor : Text → Datetime → MailTables → MailTables
  invalidate_cursor error_code finished_at w = record w {
    sync_states = update_where is_folder (invalidated error_code finished_at) w.sync_states;
  }
