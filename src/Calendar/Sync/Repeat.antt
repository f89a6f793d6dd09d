-- ===== src/Calendar/Sync/Repeat.antt =====
-- A synchronisation that follows one that has written.
use agenda_agent.Domain.Digest.{Uuid}
use agenda_agent.Domain.Enums.{is_active}
use agenda_agent.Database.Tables.{ApplicationRow, EventRow}
use agenda_agent.Calendar.Models.{
  CalendarCandidate, CalendarEventDraft, CalendarLink, CalendarSyncOperation, CalendarSyncRequest,
  CalendarSyncResult,
}
use agenda_agent.Calendar.Planner.{CalendarContext, CalendarPlan, CalendarPlanner, plan}
use agenda_agent.Calendar.Sync.{
  CalendarSyncService, CalendarWorld, follow_plan, link_to, result, sync, sync_event, update_linked,
  write_draft, sync_candidate,
}
use agenda_agent.Prelude.{
  ==_refl, ==→≡, Bool, Bool-cases, Option-cases, Result-cases, false, find, inl, inr, is_some, ok,
  ok-injective, refl, some, true, ◌==◌, ◌∙◌, ◌≡◌, ap, find-eq-some, sym, Result,
}
use agenda_agent.Calendar.Store.{CalendarTables, load_candidate, get_link, is_source}
use agenda_agent.Prelude.Text.{Text, text_eq_refl}
use agenda_agent.Calendar.Sync.Again.{is_written, follow_plan-Saves, no-write}

-- A plan with a draft does not depend on whether there is a link.
plan-draft :
    (x : CalendarContext) (p : CalendarPlanner) (c : CalendarCandidate) (before after : Bool)
    (made : CalendarPlan) (draft : CalendarEventDraft)
    → plan x p c before ≡ ok made
    → made.draft ≡ some draft
    → plan x p c after ≡ ok made
unfolding plan
plan-draft x p c before after made draft h there = elim (Bool-cases (is_active c.event_status)) [
  | inl active ↦ rw (active, plan) (rw (active, plan) at h)
  | inr idle ↦
      let none_made = ap (λ (q : CalendarPlan). q.draft) (ok-injective (rw (idle, plan) at h)) in
      cc (none_made, there)
]

-- A candidate is of the account and the event that were asked for.
load_candidate-same :
    (db : CalendarTables) (account source event : Uuid) (c : CalendarCandidate)
    → load_candidate db account source event ≡ ok c
    → (c.account_id ≡ account) × (c.recruitment_event_id ≡ event)
unfolding load_candidate
load_candidate-same db account source event c h =
    elim (Option-cases (find (λ (m : EventRow). m.id == event) db.events)) [
      | inl missing ↦ cc (rw (missing, load_candidate) at h)
      | inr (m, found) ↦
          elim (Option-cases
            (find (λ (a : ApplicationRow). a.id == m.application_id) db.applications)) [
              | inl missing ↦ cc (rw (found, missing, load_candidate) at h)
              | inr (a, its) ↦
                  elim (Option-cases (find (is_source account source a.id) db.emails)) [
                    | inl missing ↦ cc (rw (found, its, missing, load_candidate) at h)
                    | inr (e, here) ↦
                        let is_it = ok-injective (rw (found, its, here, load_candidate) at h) in
                        let (_, id) =
                          find-eq-some (λ (m : EventRow). m.id == event) db.events found in
                        (
                          sym (ap (λ (q : CalendarCandidate). q.account_id) is_it),
                          sym (ap (λ (q : CalendarCandidate). q.recruitment_event_id) is_it)
                              ∙ ==→≡ m.id event id,
                        )
                  ]
            ]
    ]

sync-sync_event :
    (s : CalendarSyncService) (db : CalendarTables) (r : CalendarSyncRequest) (event : Uuid)
    (w : CalendarWorld)
    → s.enabled ≡ true
    → r.skip_update ≡ false
    → r.recruitment_event_id ≡ some event
    → sync s db r w ≡ sync_event s db r event w
unfolding sync
sync-sync_event s db r event w on go there = simp (on, go, there)

-- A request that does not ask for a replacement.
abbrev pub without_replacement : CalendarSyncRequest → CalendarSyncRequest
without_replacement r = record r { replace_missing_event = false }

module _ (s : CalendarSyncService) (db : CalendarTables) (r : CalendarSyncRequest) where
  -- A link that is current stays.
  update_linked-current :
      (c : CalendarCandidate) (event_id : Text) (draft : CalendarEventDraft) (w : CalendarWorld)
      → c.account_id ≡ r.account_id
      → update_linked s (without_replacement r) c draft (link_to c event_id draft s.now) w
        ≡ (w, ok (result CalendarSyncOperation.unchanged "calendar_event_already_current"))
  unfolding update_linked
  update_linked-current c event_id draft w same =
      let own : (c.account_id == r.account_id) ≡ true = rw same (==_refl r.account_id) in
      rw (own, text_eq_refl draft.content_fingerprint, update_linked) refl

  follow_plan-current :
      (c : CalendarCandidate) (event_id : Text) (draft : CalendarEventDraft) (p : CalendarPlan)
      (w : CalendarWorld)
      → c.account_id ≡ r.account_id
      → p.draft ≡ some draft
      → p.needs_review ≡ false
      → follow_plan s (without_replacement r) c (some (link_to c event_id draft s.now)) p w
        ≡ (w, ok (result CalendarSyncOperation.unchanged "calendar_event_already_current"))
  unfolding follow_plan write_draft
  follow_plan-current c event_id draft p w own there sure =
      rw (sure, there, follow_plan) (update_linked-current c event_id draft w own)

  sync_event-linked :
      (event : Uuid) (w : CalendarWorld) (c : CalendarCandidate) (link : CalendarLink)
      (p : CalendarPlan)
      → load_candidate db r.account_id r.source_email_id event ≡ ok c
      → get_link event w.links ≡ some link
      → plan s.context s.planner c true ≡ ok p
      → sync_event s db (without_replacement r) event w
        ≡ follow_plan s (without_replacement r) c (some link) p w
  unfolding sync_event sync_candidate
  sync_event-linked event w c link p loaded found planned =
      rw (loaded, found, sync_event) (rw (planned, sync_candidate) refl)

  sync_event-again :
      (event : Uuid) (w v : CalendarWorld) (res : CalendarSyncResult)
      → v ≡ (sync_event s db r event w).0
      → (sync_event s db r event w).1 ≡ ok res
      → is_written res.operation ≡ true
      → sync_event s db (without_replacement r) event v
        ≡ (v, ok (result CalendarSyncOperation.unchanged "calendar_event_already_current"))
  unfolding sync_event sync_candidate
  sync_event-again event w v res is_v h written =
      elim (Result-cases (load_candidate db r.account_id r.source_email_id event)) [
        | inr (e, failed) ↦ cc (rw (failed, sync_event) at h)
        | inl (c, loaded) ↦
            let known = get_link event w.links in
            elim (Result-cases (plan s.context s.planner c (is_some known))) [
              | inr (e, failed) ↦ cc (rw (loaded, failed, sync_event, sync_candidate) at h)
              | inl (p, planned) ↦
                  let (draft, there, sure, (event_id, linked)) =
                    follow_plan-Saves s r c known p w res
                      (rw (loaded, planned, sync_event, sync_candidate) at h) written in
                  let (own, its) =
                    load_candidate-same db r.account_id r.source_email_id event c loaded in
                  let now : v ≡ (follow_plan s r c known p w).0 =
                    rw (loaded, planned, sync_event, sync_candidate) at is_v in
                  let found : get_link event v.links ≡ some (link_to c event_id draft s.now) =
                    rw (sym its, now) linked in
                  let again =
                    plan-draft s.context s.planner c (is_some known) true p draft planned there in
                  sync_event-linked event v c (link_to c event_id draft s.now) p loaded found again
                  ∙ follow_plan-current c event_id draft p v own there sure
            ]
      ]

  -- A synchronisation that has created or updated an event is followed by one without effect: the
  -- same request, unless it asks for a replacement again, finds the event current and changes and
  -- calls nothing.
  pub sync_again :
      (w : CalendarWorld) (res : CalendarSyncResult)
      → (sync s db r w).1 ≡ ok res
      → is_written res.operation ≡ true
      → let v = (sync s db r w).0 in
        sync s db (without_replacement r) v
        ≡ (v, ok (result CalendarSyncOperation.unchanged "calendar_event_already_current"))
  unfolding sync
  sync_again w res h written = elim (Bool-cases s.enabled) [
    | inr off ↦ no-write s CalendarSyncOperation.disabled _ refl (simp off at h) written
    | inl on ↦ elim (Bool-cases r.skip_update) [
      | inl skip ↦ no-write s CalendarSyncOperation.skipped _ refl (simp (on, skip) at h) written
      | inr go ↦ elim (Option-cases r.recruitment_event_id) [
        | inl nothing ↦
            no-write s CalendarSyncOperation.skipped _ refl (simp (on, go, nothing) at h) written
        | inr (event, there) ↦
            let first = sync-sync_event s db r event w on go there in
            sync-sync_event s db (without_replacement r) event (sync s db r w).0 on go there
            ∙ sync_event-again event w (sync s db r w).0 res
                (ap (λ (o : CalendarWorld × Result CalendarSyncResult). o.0) first)
                (sym (ap (λ (o : CalendarWorld × Result CalendarSyncResult). o.1) first) ∙ h)
                written
      ]
    ]
  ]
