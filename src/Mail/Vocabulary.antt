-- ===== src/Mail/Vocabulary.antt =====
-- domain/mail.py: the states of an email and of a synchronisation, and the metadata of a message.
use agenda_agent.Prelude.{Option, Bool, Result, ok, err, domain_validation_error, if◌then◌else◌}
use agenda_agent.Domain.Digest.{Datetime, Uuid}
use agenda_agent.Prelude.Text.{Text, Unicode, is_blank}

pub data MailSyncStatus : Type 0 where
  idle syncing succeeded failed : MailSyncStatus

pub data SourceEmailProcessingStatus : Type 0 where
  pending processing needs_review processed ignored failed : SourceEmailProcessingStatus

pub record SourceEmailCandidate : Type 0 where
  pub graph_message_id : Text
  pub internet_message_id : Option Text
  pub subject : Text
  pub sender_domain : Option Text
  pub received_at : Datetime
  pub outlook_web_link : Option Text
  pub has_attachments : Bool
  pub body_hash : Option Text

-- `SourceEmailCandidate.__post_init__`
unfoldable pub check_candidate : Unicode → SourceEmailCandidate → Result SourceEmailCandidate
check_candidate u m =
    if is_blank u m.graph_message_id
    then err (domain_validation_error "graph_message_id must not be empty")
    else ok m

-- `MailSyncStateModel`, and `MailSyncState` with the same fields
pub record SyncStateRow : Type 0 where
  pub account_id : Uuid
  pub folder_id : Text
  pub delta_link : Option Text
  pub last_sync_started_at : Option Datetime
  pub last_sync_finished_at : Option Datetime
  pub status : MailSyncStatus
  pub error_code : Option Text

-- `MailSyncState.__post_init__`
unfoldable pub check_state : Unicode → SyncStateRow → Result SyncStateRow
check_state u m =
    if is_blank u m.folder_id
    then err (domain_validation_error "folder_id must not be empty")
    else ok m
