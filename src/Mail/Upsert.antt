-- ===== src/Mail/Upsert.antt =====
-- persistence/mail.py: `_upsert_messages`, on the columns of `SourceEmailModel` that it writes.
pub mod Lookup
pub mod Count
use agenda_agent.Domain.Digest.{Datetime, Uuid}
use agenda_agent.Mail.Vocabulary.{pending, SourceEmailCandidate, SourceEmailProcessingStatus}
use agenda_agent.Prelude.{
  Bool, List, Option, [], exists, if◌then◌else◌, length, none, select, some, update_where, ℕ, ◌++◌,
  ◌-◌, ◌∷◌,
}
use agenda_agent.Prelude.Text.{Text, text_eq}

pub record IngestedEmailRow : Type 0 where
  pub account_id : Uuid
  pub graph_message_id : Text
  pub internet_message_id : Option Text
  pub subject : Text
  pub sender_domain : Option Text
  pub received_at : Datetime
  pub outlook_web_link : Option Text
  pub body_hash : Option Text
  pub has_attachments : Bool
  pub processing_status : SourceEmailProcessingStatus

pub record MailIngestionResult : Type 0 where
  pub inserted : ℕ
  pub updated : ℕ

-- A `dict` keeps the place of a key and takes its last value.
unfoldable pub with_message :
    SourceEmailCandidate → List SourceEmailCandidate → List SourceEmailCandidate
with_message m [] = m ∷ []
with_message m (x ∷ xs) =
    let rest = with_message m xs in
    if text_eq x.graph_message_id m.graph_message_id then m ∷ xs else x ∷ rest

unfoldable pub dict_from :
    List SourceEmailCandidate → List SourceEmailCandidate → List SourceEmailCandidate
dict_from d [] = d
dict_from d (m ∷ ms) = dict_from (with_message m d) ms

-- `unique_messages`
abbrev pub unique_messages : List SourceEmailCandidate → List SourceEmailCandidate
unique_messages ms = dict_from [] ms

abbrev pub is_message : Text → IngestedEmailRow → Bool
is_message i r = text_eq r.graph_message_id i

-- The identifiers in `existing`, by a test.
abbrev pub is_stored : List IngestedEmailRow → SourceEmailCandidate → Bool
is_stored rows m = exists (is_message m.graph_message_id) rows

-- `insert(SourceEmailModel).values(...)`
abbrev pub new_email : Uuid → SourceEmailCandidate → IngestedEmailRow
new_email account m = record {
  account_id = account;
  graph_message_id = m.graph_message_id;
  internet_message_id = m.internet_message_id;
  subject = m.subject;
  sender_domain = m.sender_domain;
  received_at = m.received_at;
  outlook_web_link = m.outlook_web_link;
  body_hash = m.body_hash;
  has_attachments = m.has_attachments;
  processing_status = pending;
}

abbrev pub coalesce : Option Text → Option Text → Option Text
coalesce none old = old
coalesce (some new) old = some new

-- `on_conflict_do_update(set_=...)`
abbrev pub refreshed : SourceEmailCandidate → IngestedEmailRow → IngestedEmailRow
refreshed m r = record r {
  internet_message_id = m.internet_message_id;
  subject = m.subject;
  sender_domain = m.sender_domain;
  received_at = m.received_at;
  outlook_web_link = m.outlook_web_link;
  body_hash = coalesce m.body_hash r.body_hash;
  has_attachments = m.has_attachments;
}

unfoldable pub upsert_message :
    Uuid → SourceEmailCandidate → List IngestedEmailRow → List IngestedEmailRow
upsert_message account m rows =
    if is_stored rows m
    then update_where (is_message m.graph_message_id) (refreshed m) rows
    else rows ++ new_email account m ∷ []

unfoldable pub upsert_each :
    Uuid → List SourceEmailCandidate → List IngestedEmailRow → List IngestedEmailRow
upsert_each account [] rows = rows
upsert_each account (m ∷ ms) rows = upsert_each account ms (upsert_message account m rows)

unfoldable pub upsert_messages :
    Uuid
    → List SourceEmailCandidate
    → List IngestedEmailRow
    → List IngestedEmailRow × MailIngestionResult
upsert_messages account messages rows =
    let unique = unique_messages messages in
    let existing = length (select (is_stored rows) unique) in
    (
      upsert_each account unique rows,
      record { inserted = length unique - existing; updated = existing },
    )
