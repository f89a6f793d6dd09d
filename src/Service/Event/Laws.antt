-- ===== src/Service/Event/Laws.antt =====
-- Which event an email is about.
use agenda_agent.Prelude.{
  In, List, Option, none, ok, some, ◌≡◌, Bool, Bool-cases, Option-cases, arith, inl, inr, not, refl,
  ◌&&◌, [], false, find, find-eq-some, is_empty, is_some, select, true, ◌==◌, ◌∷◌, In-select,
}
use agenda_agent.Service.Store.{DomainStore}
use agenda_agent.Domain.Digest.{Digests, Uuid, Datetime}
use agenda_agent.Domain.Processing.{
  EventReason, EventResolution, EventResolutionKind, EventSnapshot, validate_event,
  ApplicationResolution, event_type_not_tracked,
}
use agenda_agent.Domain.Evidence.{
  RecruitmentEvidence, new_event_id, semantic_fingerprint, tracked_event_type,
}
use agenda_agent.Prelude.Text.{Text, Unicode}
use agenda_agent.Service.Event.{
  event_resolution, create_event, resolve_changed, narrow_round, resolve_reschedule,
  resolve_tracked, same_round_time_change, single_changed, same_round, find_duplicate,
  resolve_event,
}
use agenda_agent.Domain.Enums.{RecruitmentEventType, is_interview, is_interview_reschedule}
use agenda_agent.Prelude.Sort.{In-sort_by}

event_resolution-eq :
    (kind : EventResolutionKind) (i : Option Uuid) (fingerprint : Option Text)
    (candidates : List Uuid) (reason : EventReason) (r : EventResolution)
    → event_resolution kind i fingerprint candidates reason ≡ ok r
    → r ≡ (record {
      kind = kind;
      event_id = i;
      semantic_fingerprint = fingerprint;
      candidate_event_ids = candidates;
      reason = reason;
    })
unfolding event_resolution validate_event
event_resolution-eq kind i fingerprint candidates reason r h = ground arith

single_changed-In :
    (time : Datetime) (cs : List EventSnapshot) (c : EventSnapshot)
    → single_changed time cs ≡ some c
    → In c cs
unfolding single_changed
single_changed-In time [] c h = cc
single_changed-In time (x ∷ []) c h = ground arith
single_changed-In time (x ∷ y ∷ ys) c h = cc

module _ (u : Unicode) (d : Digests) (store : DomainStore) (e : RecruitmentEvidence)
    (application : Uuid) where
  -- What the kind of a resolution says of the event that it names: a rescheduled event is an active
  -- interview of the application, a duplicate has the fingerprint of the email, a created event has
  -- the identity that the email and its fingerprint determine.
  abbrev pub IsTarget : EventResolutionKind → Option Uuid → Type 0
  IsTarget EventResolutionKind.no_event i = i ≡ none
  IsTarget EventResolutionKind.create i =
      i ≡ some (new_event_id d e.source_email_id (semantic_fingerprint u d e))
  IsTarget EventResolutionKind.duplicate i =
      (c : EventSnapshot) × (store.find_event_by_fingerprint application
          (semantic_fingerprint u d e)
        ≡ some c)
      × (i ≡ some c.id)
  IsTarget EventResolutionKind.reschedule i =
      (c : EventSnapshot) × In c (store.list_active_interviews application) × (i ≡ some c.id)
  IsTarget EventResolutionKind.review i = i ≡ none

  abbrev pub IsResolved : EventResolution → Type 0
  IsResolved r = IsTarget r.kind r.event_id

  resolution-IsTarget :
      (kind : EventResolutionKind) (i : Option Uuid) (fingerprint : Option Text)
      (candidates : List Uuid) (reason : EventReason) (r : EventResolution)
      → event_resolution kind i fingerprint candidates reason ≡ ok r
      → IsTarget kind i
      → IsResolved r
  resolution-IsTarget kind i fingerprint candidates reason r h t =
      rw (event_resolution-eq kind i fingerprint candidates reason r h) t

  create-IsResolved : (r : EventResolution) → create_event u d e ≡ ok r → IsResolved r
  unfolding create_event
  create-IsResolved r h = resolution-IsTarget EventResolutionKind.create _ _ _ _ r h refl

  time_change-In :
      (time : Datetime) (interviews : List EventSnapshot) (c : EventSnapshot)
      → same_round_time_change u d e time interviews ≡ some c
      → In c interviews
  unfolding same_round_time_change
  time_change-In time interviews c h =
      In-select (λ (x : EventSnapshot). same_round u d x.round e.interview_round) interviews c
        (single_changed-In time _ c h)

  changed-IsResolved :
      (type : RecruitmentEventType) (treat_as_new : Bool) (r : EventResolution)
      → resolve_changed u d store e application type treat_as_new ≡ ok r
      → IsResolved r
  unfolding resolve_changed
  changed-IsResolved type treat_as_new r h =
      elim (Bool-cases (is_interview type && not treat_as_new)) [
        | inr plain ↦ create-IsResolved r (rw (plain, resolve_changed) at h)
        | inl applies ↦ elim (Option-cases e.event_datetime) [
          | inl undated ↦ create-IsResolved r (rw (applies, undated, resolve_changed) at h)
          | inr (time, dated) ↦
              let interviews = store.list_active_interviews application in
              elim (Option-cases (same_round_time_change u d e time interviews)) [
                | inl same ↦ create-IsResolved r (rw (applies, dated, same, resolve_changed) at h)
                | inr (c, moved) ↦
                    resolution-IsTarget EventResolutionKind.reschedule (some c.id) _ _ _ r
                      (rw (applies, dated, moved, resolve_changed) at h)
                      (c, time_change-In time interviews c moved, refl)
              ]
        ]
      ]

  narrow_round-In :
      (candidates : List EventSnapshot) (c : EventSnapshot)
      → In c (narrow_round u d e.interview_round candidates)
      → In c candidates
  unfolding narrow_round
  narrow_round-In candidates c m =
      let test = λ (x : EventSnapshot). same_round u d x.round e.interview_round in
      elim (Bool-cases (is_some e.interview_round && not (is_empty (select test candidates)))) [
        | inl some_match ↦ In-select test candidates c (rw some_match at m)
        | inr no_match ↦ rw no_match at m
      ]

  reschedule-IsResolved :
      (cs : List EventSnapshot) (selected : Option Uuid) (treat_as_new : Bool) (r : EventResolution)
      → ((c : EventSnapshot) → In c cs → In c (store.list_active_interviews application))
      → resolve_reschedule u d e cs selected treat_as_new ≡ ok r
      → IsResolved r
  unfolding resolve_reschedule
  reschedule-IsResolved cs (some s) new r active h =
      elim (Option-cases (find (λ (c : EventSnapshot). c.id == s) cs)) [
        | inl missing ↦ cc (rw (missing, resolve_reschedule) at h)
        | inr (c, found) ↦
            resolution-IsTarget EventResolutionKind.reschedule (some c.id) _ _ _ r
              (rw (found, resolve_reschedule) at h) (c, active c (find-eq-some _ cs found).0, refl)
      ]
  reschedule-IsResolved cs none true r active h =
      resolution-IsTarget EventResolutionKind.create _ _ _ _ r h refl
  reschedule-IsResolved (c ∷ []) none false r active h =
      resolution-IsTarget EventResolutionKind.reschedule (some c.id) _ _ _ r h
        (c, active c (inl refl), refl)
  reschedule-IsResolved [] none false r active h =
      resolution-IsTarget EventResolutionKind.review none _ _ _ r h refl
  reschedule-IsResolved (c ∷ c' ∷ cs) none false r active h =
      resolution-IsTarget EventResolutionKind.review none _ _ _ r h refl

  tracked-IsResolved :
      (type : RecruitmentEventType) (selected : Option Uuid) (treat_as_new : Bool)
      (r : EventResolution)
      → resolve_tracked u d store e application type selected treat_as_new ≡ ok r
      → IsResolved r
  unfolding resolve_tracked
  tracked-IsResolved type selected new r h =
      let interviews = store.list_active_interviews application in
      elim (Bool-cases (is_interview_reschedule e.event_type)) [
        | inl moved ↦
            reschedule-IsResolved _ selected new r
              (λ c m. In-sort_by (λ (x : EventSnapshot). x.id) interviews c (narrow_round-In _ c m))
              (rw (moved, resolve_tracked) at h)
        | inr other ↦ elim (Option-cases (find_duplicate u d store e application)) [
          | inl fresh ↦ changed-IsResolved type new r (rw (other, fresh, resolve_tracked) at h)
          | inr (c, twin) ↦
              resolution-IsTarget EventResolutionKind.duplicate (some c.id) _ _ _ r
                (rw (other, twin, resolve_tracked) at h) (c, ground arith, refl)
        ]
      ]

  -- For a resolved application, a successful resolution of the event fits its kind: a rescheduled
  -- event is an active interview of the application, a duplicate is the event of the fingerprint, a
  -- created event has the identity of the email and its fingerprint, the other kinds name no event.
  pub resolve_event-IsResolved :
      (a : ApplicationResolution) (selected : Option Uuid) (treat_as_new : Bool)
      (r : EventResolution)
      → a.application_id ≡ some application
      → resolve_event u d store e a selected treat_as_new ≡ ok r
      → IsResolved r
  unfolding resolve_event
  resolve_event-IsResolved a selected new r ha h =
      elim (Option-cases (tracked_event_type e.event_type)) [
        | inl untracked ↦
            resolution-IsTarget EventResolutionKind.no_event none none [] event_type_not_tracked r
              (rw (ha, untracked, resolve_event) at h) refl
        | inr (type, tracked) ↦
            tracked-IsResolved type selected new r (rw (ha, tracked, resolve_event) at h)
      ]
