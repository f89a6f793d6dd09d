-- ===== src/Calendar/Sync.antt =====
-- application/calendar_sync.py: `CalendarSyncService.sync`, with a log of the calls of the gateway.
pub mod Again
pub mod Repeat
use agenda_agent.Prelude.Steps.{◌>>=◌, StepOn, done, pass}
use agenda_agent.Domain.Digest.{Datetime, Uuid}
use agenda_agent.Calendar.Models.{
  CalendarEventDraft, CalendarLink, CalendarSyncOperation, CalendarSyncRequest, CalendarSyncResult,
  check_event_id, CalendarCandidate,
}
use agenda_agent.Prelude.{
  Bool, Error, List, Option, Result, String, [], calendar_event_not_found, err, false,
  if◌then◌else◌, is_some, none, not, ok, some, true, ◌++◌, ◌==◌, ◌||◌, ◌∷◌,
}
use agenda_agent.Calendar.Planner.{CalendarContext, CalendarPlan, CalendarPlanner, plan}
use agenda_agent.Calendar.Store.{CalendarTables, load_candidate, save_link, get_link}
use agenda_agent.Prelude.Text.{Text, codes, text_eq, Unicode}

-- A write to the calendar of the provider.
pub data GatewayCall : Type 0 where
  create_call : Uuid → CalendarEventDraft → GatewayCall
  update_call : Uuid → Text → CalendarEventDraft → GatewayCall

-- What a synchronisation writes: the links, and the calendar, by the calls in order.
pub record CalendarWorld : Type 0 where
  pub links : List CalendarLink
  pub calls : List GatewayCall

-- What a service is built with. The gateway answers with the identifier of the event, by the calls
-- that were made before.
pub record CalendarSyncService : Type 0 where
  pub context : CalendarContext
  pub planner : CalendarPlanner
  pub create_event : List GatewayCall → Uuid → CalendarEventDraft → Result Text
  pub update_event : List GatewayCall → Uuid → Text → CalendarEventDraft → Result Text
  pub now : Datetime
  pub enabled : Bool

abbrev pub result : CalendarSyncOperation → String → CalendarSyncResult
result operation reason = record { operation = operation; reason = reason }

abbrev pub microsoft_graph : Text
microsoft_graph = codes "microsoft_graph"

abbrev pub is_event_missing : Error → Bool
is_event_missing (calendar_event_not_found _) = true
is_event_missing _ = false

abbrev pub link_to : CalendarCandidate → Text → CalendarEventDraft → Datetime → CalendarLink
link_to c event_id draft now = record {
  recruitment_event_id = c.recruitment_event_id;
  account_id = c.account_id;
  provider = microsoft_graph;
  calendar_event_id = event_id;
  content_fingerprint = draft.content_fingerprint;
  last_synced_at = now;
}

-- The gateway makes a `CalendarProviderEvent` of what the provider answers.
unfoldable pub checked_id : Unicode → Result Text → Result Text
checked_id u (err e) = err e
checked_id u (ok event_id) = check_event_id u event_id

module _ (s : CalendarSyncService) where
  -- A call of the gateway is logged, also one that fails.
  unfoldable pub call_create : Uuid → CalendarEventDraft → StepOn CalendarWorld Text
  call_create account draft w = (
    record w { calls = w.calls ++ create_call account draft ∷ [] },
    checked_id s.context.unicode (s.create_event w.calls account draft),
  )

  unfoldable pub call_update : Uuid → Text → CalendarEventDraft → StepOn CalendarWorld Text
  call_update account event_id draft w = (
    record w { calls = w.calls ++ update_call account event_id draft ∷ [] },
    checked_id s.context.unicode (s.update_event w.calls account event_id draft),
  )

  -- `_save_link`
  unfoldable pub save : CalendarCandidate → Text → CalendarEventDraft → StepOn CalendarWorld Unit
  save c event_id draft w = elim (save_link (link_to c event_id draft s.now) w.links) [
    | err e ↦ (w, err e)
    | ok links ↦ (record w { links = links }, ok tt)
  ]

  unfoldable pub create_new :
      CalendarSyncRequest
      → CalendarCandidate
      → CalendarEventDraft
      → StepOn CalendarWorld CalendarSyncResult
  create_new r c draft =
      call_create r.account_id draft >>= (λ event_id. save c event_id draft) >>= (λ saved. done (
        result CalendarSyncOperation.created (
          if r.replace_missing_event
          then "missing_calendar_event_replaced"
          else "calendar_event_created")))

  -- The `try` around the update.
  unfoldable pub or_missing :
      CalendarCandidate
      → CalendarEventDraft
      → CalendarWorld × Result Text
      → CalendarWorld × Result CalendarSyncResult
  or_missing c draft (w, err e) =
      if is_event_missing e
      then (w, ok (result CalendarSyncOperation.review_required "linked_calendar_event_missing"))
      else (w, err e)
  or_missing c draft (w, ok event_id) =
      pass (save c event_id draft w)
        (λ saved. done (result CalendarSyncOperation.updated "calendar_event_updated"))

  unfoldable pub update_linked :
      CalendarSyncRequest
      → CalendarCandidate
      → CalendarEventDraft
      → CalendarLink
      → StepOn CalendarWorld CalendarSyncResult
  update_linked r c draft link w =
      if not (link.account_id == r.account_id) || not (text_eq link.provider microsoft_graph)
      then (w, ok (result CalendarSyncOperation.review_required "calendar_link_identity_conflict"))
      else if text_eq link.content_fingerprint draft.content_fingerprint
      then (w, ok (result CalendarSyncOperation.unchanged "calendar_event_already_current"))
      else or_missing c draft (call_update r.account_id link.calendar_event_id draft w)

  -- What follows the draft.
  unfoldable pub write_draft :
      CalendarSyncRequest
      → CalendarCandidate
      → Option CalendarLink
      → CalendarEventDraft
      → StepOn CalendarWorld CalendarSyncResult
  write_draft r c none draft = create_new r c draft
  write_draft r c (some link) draft =
      if r.replace_missing_event then create_new r c draft else update_linked r c draft link

  unfoldable pub follow_plan :
      CalendarSyncRequest
      → CalendarCandidate
      → Option CalendarLink
      → CalendarPlan
      → StepOn CalendarWorld CalendarSyncResult
  follow_plan r c link p =
      if p.needs_review
      then done (result CalendarSyncOperation.review_required p.reason)
      else elim p.draft [
        | none ↦ done (result CalendarSyncOperation.skipped p.reason)
        | some draft ↦ write_draft r c link draft
      ]

  -- What follows the reading of a candidate and of its link.
  unfoldable pub sync_candidate :
      CalendarSyncRequest
      → CalendarCandidate
      → Option CalendarLink
      → StepOn CalendarWorld CalendarSyncResult
  sync_candidate r c link w = elim (plan s.context s.planner c (is_some link)) [
    | err e ↦ (w, err e)
    | ok p ↦ follow_plan r c link p w
  ]

  unfoldable pub sync_event :
      CalendarTables → CalendarSyncRequest → Uuid → StepOn CalendarWorld CalendarSyncResult
  sync_event db r event w = elim (load_candidate db r.account_id r.source_email_id event) [
    | err e ↦ (w, err e)
    | ok c ↦ sync_candidate r c (get_link event w.links) w
  ]

  -- `sync`; its log line is left out.
  unfoldable pub sync :
      CalendarTables → CalendarSyncRequest → StepOn CalendarWorld CalendarSyncResult
  sync db r =
      if not s.enabled
      then done (result CalendarSyncOperation.disabled "calendar_sync_disabled")
      else if r.skip_update
      then done (result CalendarSyncOperation.skipped "calendar_update_skipped_by_review")
      else elim r.recruitment_event_id [
        | none ↦ done (result CalendarSyncOperation.skipped "no_recruitment_event")
        | some event ↦ sync_event db r event
      ]
