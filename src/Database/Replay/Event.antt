-- ===== src/Database/Replay/Event.antt =====
-- The event step, a second time.
use agenda_agent.Prelude.{
  List, Option-cases, [], arith, false, find, if◌then◌else◌, inl, inr, none, ok, ok-injective,
  same_optional_refl, some, sym, true, ◌++◌, ◌==◌, ◌∙◌, ◌∷◌, ◌≡◌, update_where, ==_refl, Bool-cases,
  Result, ap,
}
use agenda_agent.Database.Tables.{EventHistoryRow, EventRow, has_fingerprint}
use agenda_agent.Database.EventStep.{
  EventWrite, create_event_row, is_target, unchanged, update_event_row, event_row, rescheduled,
  apply_event, complete, apply_event_kind,
}
use agenda_agent.Domain.Digest.{Digests, Uuid}
use agenda_agent.Domain.Enums.{RecruitmentEventType}
use agenda_agent.Domain.Processing.{PlannedEventMutation, EventMutationKind}
use agenda_agent.Prelude.Text.{Text, same_optional_text_refl, text_eq_refl}
use agenda_agent.Prelude.Rows.{find-append_new, find-update_where}

abbrev pub repeated_event : EventWrite → EventWrite
repeated_event w = record w { changed = false }

has_fingerprint-event_row :
    (application i : Uuid) (type : RecruitmentEventType) (fingerprint : Text)
    (v : PlannedEventMutation)
    → has_fingerprint application fingerprint (event_row application i type fingerprint v) ≡ true
has_fingerprint-event_row application i type fingerprint v =
    ground (arith, text_eq_refl fingerprint)

module _ (application i : Uuid) (type : RecruitmentEventType) (fingerprint : Text)
    (v : PlannedEventMutation) (history : List EventHistoryRow) where
  create-found :
      (events : List EventRow) {m : EventRow}
      → find (has_fingerprint application fingerprint) events ≡ some m
      → create_event_row application i type fingerprint v events history
        ≡ ok (record { events = events; history = history; event_id = some m.id; changed = false })
  unfolding create_event_row
  create-found events found = rw (found, create_event_row)

  create-fresh :
      (events : List EventRow) {w : EventWrite}
      → find (has_fingerprint application fingerprint) events ≡ none
      → create_event_row application i type fingerprint v events history ≡ ok w
      → w ≡ (record {
        events = events ++ event_row application i type fingerprint v ∷ [];
        history = history;
        event_id = some i;
        changed = true;
      })
  unfolding create_event_row
  create-fresh events fresh h = ground arith

  create_again :
      (events : List EventRow) (w : EventWrite)
      → create_event_row application i type fingerprint v events history ≡ ok w
      → create_event_row application i type fingerprint v w.events w.history ≡ ok (repeated_event w)
  create_again events w h =
      let key = has_fingerprint application fingerprint in
      let row = event_row application i type fingerprint v in
      elim (Option-cases (find key events)) [
        | inr (m, found) ↦
            rw (ok-injective (sym h ∙ create-found events found)) (create-found events found)
        | inl fresh ↦ rw (create-fresh events fresh h) (
            create-found (events ++ row ∷ []) (
              find-append_new key events row fresh
                (has_fingerprint-event_row application i type fingerprint v)))
      ]

module _ (d : Digests) (source application i : Uuid) (fingerprint : Text)
    (v : PlannedEventMutation) where
  unchanged-rescheduled :
      (m : EventRow) → unchanged fingerprint v (rescheduled fingerprint v m) ≡ true
  unchanged-rescheduled m = ground (
    arith,
    same_optional_text_refl v.round,
    same_optional_refl v.starts_at,
    same_optional_refl v.deadline_at,
    same_optional_text_refl v.timezone,
    same_optional_text_refl v.source_datetime_text,
    text_eq_refl fingerprint,
  )

  update-same :
      (events : List EventRow) (history : List EventHistoryRow) {m : EventRow}
      → find (is_target application i) events ≡ some m
      → unchanged fingerprint v m ≡ true
      → update_event_row d source application i fingerprint v events history
        ≡ ok (record { events = events; history = history; event_id = some m.id; changed = false })
  unfolding update_event_row
  update-same events history found same = rw (found, same, update_event_row)

  abbrev moved_events : EventRow → List EventRow → List EventRow
  moved_events m = update_where (λ (x : EventRow). x.id == m.id) (rescheduled fingerprint v)

  update-moved :
      (events : List EventRow) (history : List EventHistoryRow) {m : EventRow} {w : EventWrite}
      → find (is_target application i) events ≡ some m
      → unchanged fingerprint v m ≡ false
      → update_event_row d source application i fingerprint v events history ≡ ok w
      → (w.events ≡ moved_events m events) × (w.event_id ≡ some m.id)
  unfolding update_event_row
  update-moved events history found other h = ground (arith, found)

  target_kept :
      (m y : EventRow)
      → is_target application i (if y.id == m.id then rescheduled fingerprint v y else y)
        ≡ is_target application i y
  target_kept m y = ground arith

  moved_again :
      (m : EventRow) (w : EventWrite)
      → find (is_target application i) w.events ≡ some (rescheduled fingerprint v m)
      → w.event_id ≡ some m.id
      → update_event_row d source application i fingerprint v w.events w.history
        ≡ ok (repeated_event w)
  moved_again m w found named =
      update-same w.events w.history found (unchanged-rescheduled m) ∙ ground arith

  update_again :
      (events : List EventRow) (history : List EventHistoryRow) (w : EventWrite)
      → update_event_row d source application i fingerprint v events history ≡ ok w
      → update_event_row d source application i fingerprint v w.events w.history
        ≡ ok (repeated_event w)
  unfolding update_event_row
  update_again events history w h =
      let target = is_target application i in
      elim (Option-cases (find target events)) [
        | inl missing ↦ cc (rw (missing, update_event_row) at h)
        | inr (m, found) ↦ elim (Bool-cases (unchanged fingerprint v m)) [
          | inl same ↦
              rw (ok-injective (sym h ∙ update-same events history found same))
                (update-same events history found same)
          | inr other ↦
              let (rows, named) = update-moved events history found other h in
              moved_again m w
                (rw rows (
                  find-update_where target (λ (x : EventRow). x.id == m.id)
                    (rescheduled fingerprint v) events (target_kept m) found
                  ∙ ap some (rw (==_refl m.id))))
                named
        ]
      ]

complete_again :
    (v : PlannedEventMutation) (k k' : Uuid → RecruitmentEventType → Text → Result EventWrite)
    (w w' : EventWrite)
    → ((i : Uuid) (type : RecruitmentEventType) (fingerprint : Text)
        → k i type fingerprint ≡ ok w
        → k' i type fingerprint ≡ ok w')
    → complete v k ≡ ok w
    → complete v k' ≡ ok w'
complete_again v k k' w w' step h = elim (Option-cases v.event_id) [
  | inl no_id ↦ cc (rw no_id at h)
  | inr (i, ei) ↦ elim (Option-cases v.type) [
    | inl no_type ↦ cc (rw (ei, no_type) at h)
    | inr (type, et) ↦ elim (Option-cases v.semantic_fingerprint) [
      | inl no_print ↦ cc (rw (ei, et, no_print) at h)
      | inr (fingerprint, ef) ↦ rw (ei, et, ef) (step i type fingerprint (rw (ei, et, ef) at h))
    ]
  ]
]

kind_again :
    (d : Digests) (source application : Uuid) (kind : EventMutationKind) (v : PlannedEventMutation)
    (events : List EventRow) (history : List EventHistoryRow) (w : EventWrite)
    → apply_event_kind d source application kind v events history ≡ ok w
    → apply_event_kind d source application kind v w.events w.history ≡ ok (repeated_event w)
unfolding apply_event_kind
kind_again d source application EventMutationKind.no_mutation v events history w h = ground arith
kind_again d source application EventMutationKind.create v events history w h =
    complete_again v _ _ w (repeated_event w)
      (λ i type fingerprint made.
        create_again application i type fingerprint v history events w made)
      h
kind_again d source application EventMutationKind.update v events history w h =
    complete_again v _ _ w (repeated_event w)
      (λ i type fingerprint made.
        update_again d source application i fingerprint v events history w made)
      h

pub apply_event_again :
    (d : Digests) (source application : Uuid) (v : PlannedEventMutation) (events : List EventRow)
    (history : List EventHistoryRow) (w : EventWrite)
    → apply_event d source application v events history ≡ ok w
    → apply_event d source application v w.events w.history ≡ ok (repeated_event w)
unfolding apply_event
apply_event_again d source application v events history w h =
    kind_again d source application v.kind v events history w h
