-- ===== src/Examples/Samples.antt =====
-- The data of the runs.
use agenda_agent.Prelude.{List, [], ◌∷◌, Option, none, some, true, false, ℕ, ◌+◌, ◌*◌, suc, zero}
use agenda_agent.Prelude.Text.{Text, codes}
use agenda_agent.Domain.Digest.{Digests, Part, uuid_part, text_part, status_part, Datetime}
use agenda_agent.Domain.Enums.{ApplicationStatus, RecruitmentEventType, EventStatus, ActionType}
use agenda_agent.Domain.Evidence.{RecruitmentEvidence}
use agenda_agent.Domain.Processing.{
  ApplicationSnapshot, EventSnapshot, ApplicationResolution, ApplicationResolutionKind,
  EventResolution, EventResolutionKind, DomainTransitionPlan, EventMutationKind, source_email_link,
  new_event, DomainMutationResult,
}
use agenda_agent.Service.Store.{DomainStore}
use agenda_agent.Database.Tables.{Database, ApplicationRow}

abbrev pub fill : ℕ → Text
fill zero = []
fill (suc n) = 97 ∷ fill n

abbrev weight : List Part → ℕ
weight [] = 1
weight (uuid_part i ∷ ps) = i + 3 * weight ps
weight (text_part t ∷ ps) = 2 + 3 * weight ps
weight (status_part s ∷ ps) = s + 3 * weight ps

abbrev time_code : Option Datetime → Text
time_code none = []
time_code (some t) = t ∷ []

-- A small stand-in for the hashes: the fingerprint is the time of the event.
abbrev pub digests : Digests
digests = record {
  uuid5 = λ n ps. weight ps;
  fingerprint_digest = λ p. time_code p.event_datetime;
  action_digest = λ p. fill 64;
}

-- An email that asks to join an interview of a round at a time.
abbrev pub interview_email : Text → Datetime → RecruitmentEvidence
interview_email round time = record {
  source_email_id = 7;
  company_id = some 3;
  raw_company_name = some (codes "Acme");
  role_name = some (codes "Dev");
  role_normalized = some (codes "dev");
  event_type = RecruitmentEventType.interview;
  interview_round = some round;
  action_required = true;
  action_text = some (codes "Join  in");
  action_link_ref = none;
  event_datetime = some time;
  deadline = none;
  timezone = some (codes "UTC");
  source_datetime_text = some (codes "Friday");
  source_deadline_text = none;
}

abbrev pub evidence : RecruitmentEvidence
evidence = interview_email (codes "Round 1") 500

abbrev pub open_application : ApplicationSnapshot
open_application = record {
  id = 11;
  company_id = some 3;
  role_normalized = some (codes "dev");
  status = ApplicationStatus.applied;
  version = 2;
}

abbrev pub first_interview : EventSnapshot
first_interview = record {
  id = 21;
  application_id = 11;
  type = RecruitmentEventType.interview;
  status = EventStatus.active;
  round = some (codes "round 1");
  starts_at = some 400;
  deadline_at = none;
  timezone = some (codes "UTC");
  source_datetime_text = none;
  semantic_fingerprint = some (400 ∷ []);
}

-- One open application with one active interview; no email is linked.
abbrev pub store : DomainStore
store = record {
  application_for_source_email = λ i. none;
  find_open_applications = λ company role. open_application ∷ [];
  find_event_by_fingerprint = λ application fingerprint. none;
  list_active_interviews = λ application. first_interview ∷ [];
}

abbrev pub existing : ApplicationResolution
existing = record {
  kind = ApplicationResolutionKind.existing;
  application_id = some 11;
  current_status = some ApplicationStatus.applied;
  candidate_application_ids = [];
  reason = source_email_link;
}

abbrev pub created : EventResolution
created = record {
  kind = EventResolutionKind.create;
  event_id = some 22;
  semantic_fingerprint = some (500 ∷ []);
  candidate_event_ids = [];
  reason = new_event;
}

abbrev pub plan : DomainTransitionPlan
plan = record {
  source_email_id = 7;
  application_id = 11;
  create_application = false;
  reviewed_create_new_application = false;
  company_id = some 3;
  raw_company_name = some (codes "Acme");
  role_name = some (codes "Dev");
  role_normalized = some (codes "dev");
  application_status_before = ApplicationStatus.applied;
  application_status_after = ApplicationStatus.interview_scheduled;
  event = record {
    kind = EventMutationKind.create;
    event_id = some 22;
    type = some RecruitmentEventType.interview;
    round = some (codes "Round 1");
    starts_at = some 500;
    deadline_at = none;
    timezone = some (codes "UTC");
    source_datetime_text = some (codes "Friday");
    semantic_fingerprint = some (500 ∷ []);
  };
  action_item = some (record {
    id = 31;
    type = ActionType.interview;
    title = codes "Join in";
    due_at = none;
    secure_link_ref = none;
    idempotency_key = fill 64;
  });
  mutations_allowed = true;
  no_mutation_reason = none;
}

abbrev pub application_row : ApplicationStatus → ℕ → ApplicationRow
application_row status version = record {
  id = 11;
  company_id = some 3;
  raw_company_name = some (codes "Acme");
  role_name = some (codes "Dev");
  role_normalized = some (codes "dev");
  status = status;
  version = version;
}

abbrev pub database : Database
database = record {
  emails = record { id = 7; application_id = none } ∷ [];
  applications = application_row ApplicationStatus.applied 2 ∷ [];
  status_history = [];
  events = [];
  event_history = [];
  actions = [];
  links = [];
}

-- The tables after the plan.
abbrev pub database_after : Database
database_after = record {
  emails = record { id = 7; application_id = some 11 } ∷ [];
  applications = application_row ApplicationStatus.interview_scheduled 3 ∷ [];
  status_history =
      record {
        id = 265;
        application_id = 11;
        from_status = ApplicationStatus.applied;
        to_status = ApplicationStatus.interview_scheduled;
        source_email_id = 7;
      }
      ∷ [];
  events =
      record {
        id = 22;
        application_id = 11;
        type = RecruitmentEventType.interview;
        round = some (codes "Round 1");
        starts_at = some 500;
        deadline_at = none;
        timezone = some (codes "UTC");
        source_datetime_text = some (codes "Friday");
        status = EventStatus.active;
        semantic_fingerprint = some (500 ∷ []);
      }
      ∷ [];
  event_history = [];
  actions =
      record {
        id = 31;
        application_id = 11;
        source_email_id = 7;
        type = ActionType.interview;
        title = codes "Join in";
        due_at = none;
        secure_link_id = none;
        idempotency_key = fill 64;
      }
      ∷ [];
  links = [];
}

abbrev pub written : DomainMutationResult
written = record {
  application_id = some 11;
  event_id = some 22;
  action_item_ids = 31 ∷ [];
  changed = true;
  no_mutation_reason = none;
}
