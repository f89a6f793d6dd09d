-- ===== src/Service/Store.antt =====
-- `RecruitmentDomainStore`: what the service asks of the persistence.
use agenda_agent.Prelude.{Option, List}
use agenda_agent.Prelude.Text.{Text}
use agenda_agent.Domain.Digest.{Uuid}
use agenda_agent.Domain.Processing.{ApplicationSnapshot, EventSnapshot}

pub record DomainStore : Type 0 where
  pub application_for_source_email : Uuid → Option ApplicationSnapshot
  pub find_open_applications : Uuid → Option Text → List ApplicationSnapshot
  pub find_event_by_fingerprint : Uuid → Text → Option EventSnapshot
  pub list_active_interviews : Uuid → List EventSnapshot
