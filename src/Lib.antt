-- ===== src/Lib.antt =====
-- The deterministic core of the Recruitment Inbox Agent: what an email about an application changes,
-- who may change the switches of the agent, and how its commands run. Python sources are under
-- src/recruitment_agent.
--
-- An email becomes evidence (domain/processing.py). The service (application/domain_processing.py)
-- asks a store for what is known, resolves the application and the event that the email is about,
-- and plans a transition; the store (persistence/domain_processing.py) applies the plan to the
-- tables of persistence/models.py in one transaction. The switches (application/operations.py,
-- persistence/operations.py) say which parts of the agent are on; commands are rows of a table that
-- workers claim for a time, execute, and end or release.
--
-- Prelude: numbers, lists, texts as lists of code points, exceptions as values (`Result`), rows of
--   a table (`Prelude.Rows`) and a stable sort (`Prelude.Sort`).
-- Domain.Enums: domain/enums.py.
-- Domain.Status, Domain.Evidence, Domain.Processing, Domain.Digest: domain/processing.py, the
--   transitions of a status (`next_application_status`), the evidence with its guard and identities
--   (`evidence_allows_mutation`, `semantic_fingerprint`), the resolutions and plans with their
--   validators, and the hashes.
-- Domain.Role, Domain.Recipient: domain/role.py and domain/recipient.py.
-- Service.Store: the protocol `RecruitmentDomainStore`, its four queries.
-- Service.Application, Service.Event, Service.Plan: `resolve_application`, `resolve_event` and
--   `plan_transition` of `RecruitmentDomainService`.
-- Database.Tables: the rows and queries of persistence/models.py and persistence/domain_processing.py.
-- Database.Link, Database.Progress, Database.EventStep, Database.ActionStep, Database.Transition:
--   `_resolve_application_for_write`, `_apply_application_status`, `_apply_event`, `_apply_action`
--   and `apply_transition`. A step takes the tables that it reads and returns them as it leaves them.
-- Operations.Control: `RuntimeControl`, `RuntimeControlPatch`, `_ensure_control_once`,
--   `SqlAlchemyOperationsStore.update_control` and `OperationsControlService.update_control`.
-- Operations.Run: `OperationCreate` and the runs of commands in `SqlAlchemyOperationsStore`: creation
--   with an idempotency key, claims with leases, ends, releases and the list for dispatch.
-- Operations.Email: the emails that the operations work on in `SqlAlchemyOperationsStore`: claims, ends,
--   the list of pending ones, and the ones whose review got lost.
-- Operations.World, Operations.Drain, Operations.Executor: `OperationExecutor`, with the fan-out of the
--   pending emails (`_fan_out_pending`) in Operations.Drain. A step takes the tables and the queue and
--   returns them with its value or its exception.
-- Operations.Submit: `submit`, `redispatch_queued` and `submit_scheduled_pending_drain` of
--   `OperationsControlService`.
-- Mail.Vocabulary, Mail.Upsert, Mail.Store, Mail.Sync: domain/mail.py, `_upsert_messages` and the other
--   operations of `SqlAlchemyMailSyncStore` (persistence/mail.py), and `MailSyncService.synchronize`
--   (application/mail_sync.py), whose loop counts down from `max_pages`.
-- Calendar.Models, Calendar.Planner, Calendar.Sync, Calendar.Store: calendar/models.py, `CalendarPlanner`
--   and `CalendarSyncService` (application/calendar_sync.py), `SqlAlchemyCalendarSyncStore`
--   (persistence/calendar.py). The calls of the calendar are logged in order.
-- Brief.Dispatch, Brief.Send: the audit of a day's Daily Brief (`resolve_dispatch_claim`, `claim_dispatch`,
--   `_set_status`) and `DailyBriefService.send_today`, of application/daily_brief.py and
--   persistence/daily_brief.py.
-- Company.Names, Company.Match, Company.Resolver: names, hostnames, matches and results of
--   domain/company.py, and `CompanyResolver` of domain/company_resolution.py. A confidence is a number of
--   the smallest float, of which every float from 0 to 1 is a multiple.
-- Review.Decision, Review.Answer, Review.Service: questions, decisions and `validate_review_decision` of
--   graph/contracts.py, reviews/models.py, and `ReviewService` (application/reviews.py) with the store
--   and the workflow as an interface. An awaited resume of the workflow runs to its end; how
--   overlapping requests share one (`_coalesce_resume`) is in Review.Tasks.
-- Examples: runs on small inputs.
--
-- Exceptions are `err`. A transaction that raises leaves the tables as they were, so a failed function
-- on tables returns none; a step of the executor is made of several transactions, and keeps what the
-- earlier ones wrote. The primary keys, the unique constraints and the check constraints that a
-- statement may run into are written out as `integrity_error`. An aware datetime is its instant (in
-- Operations, in microseconds), a UUID is a number. Nothing here has a machine-width integer. Every
-- function is structurally recursive; the drain of the pending emails counts down from its 50
-- batches, the bound that the source has. Only the decimal digits of a number (Calendar.Planner)
-- take fuel, the number itself; that this is enough is in Calendar.Planner.Digits.
--
-- Parameters: `Unicode` stands for Python's tables (case folding, compatibility forms, categories),
-- of which only is used that U+0020 is white space; `Digests` stands for `uuid5` and SHA-256 over a
-- JSON document. `Environment` holds what the executor is built with: its handlers, the draws of
-- `uuid4`, the hashes of its keys, and two readings of the clock, the first one and one for all
-- later ones. `ControlService` holds the hash of a key and three readings of the clock. Both hold
-- the answers of the queue, which may refuse a message.
-- `SyncContext` holds the answers of the mail gateway, by the number of the call, and the readings
-- of the clock; `CalendarContext` and `CalendarSyncService` hold the search for links in a text,
-- `urlsplit` with the exception that it raises for a malformed link, the last instant of a
-- `datetime`, the hash of the content of an event and the answers of the calendar; `BriefContext`
-- holds the day, what rendering and the mail gateway answer, and the clock of the store; the
-- company resolver takes its repository and the `idna` codec; `TimeLibrary` holds the dates that
-- Python reads and the zones that it knows. Of the handlers it is assumed that they do not touch
-- the table of runs. Two theorems assume of the digests what they say: that two given documents do
-- not collide, and that a digest has 64 characters. One assumes that the letters R and C are not
-- white space.
--
-- Not modelled: transactions that overlap (row locks and the advisory lock keep them apart, so one
-- runs at a time), the lengths of columns and foreign keys, the columns that record when a row was
-- written, and the retries of `ensure_control` on a broken connection.
-- The workflow graph, the queries behind the reviews, the cancelling of a request, the content of
-- the Daily Brief, the clients of external services and the web pages are not part of this library.
pub mod Prelude
pub mod Review
pub mod Domain
pub mod Service
pub mod Database
pub mod Mail
pub mod Calendar
pub mod Brief
pub mod Company
pub mod Operations
mod Examples
