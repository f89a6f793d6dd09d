-- ===== src/Domain/Digest.antt =====
-- The hashes that make identities (domain/processing.py): `uuid5`, and SHA-256 over `json.dumps`.
-- An aware `datetime` enters the code only through its instant, which is what it compares, what it
-- normalises to UTC and what the database keeps; so it is a number. A UUID is a number too.
use agenda_agent.Prelude.{ℕ, Option, List}
use agenda_agent.Prelude.Text.{Text}
use agenda_agent.Domain.Enums.{RecruitmentEventType, ActionType}

abbrev pub Uuid : Type 0
Uuid = ℕ

abbrev pub Datetime : Type 0
Datetime = ℕ

-- The namespaces that the code passes to `uuid5`.
pub data Namespace : Type 0 where
  application_namespace event_namespace action_namespace : Namespace
  application_history_namespace event_history_namespace processing_run_namespace : Namespace

-- A part of a name; the parts are joined by ":".
pub data Part : Type 0 where
  uuid_part : Uuid → Part
  text_part : Text → Part
  status_part : ℕ → Part

-- The document of `semantic_fingerprint`.
pub record FingerprintPayload : Type 0 where
  pub company_id : Option Uuid
  pub role : Option Text
  pub event_type : RecruitmentEventType
  pub round : Option Text
  pub event_datetime : Option Datetime
  pub deadline : Option Datetime

-- The document of `action_idempotency_key`.
pub record ActionPayload : Type 0 where
  pub event : Text
  pub action_type : ActionType
  pub title : Text
  pub due_at : Option Datetime

pub record Digests : Type 0 where
  pub uuid5 : Namespace → List Part → Uuid
  pub fingerprint_digest : FingerprintPayload → Text
  pub action_digest : ActionPayload → Text
