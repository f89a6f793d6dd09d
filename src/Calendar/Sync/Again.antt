-- ===== src/Calendar/Sync/Again.antt =====
-- What a write of the calendar leaves, and the synchronisation that follows it.
use agenda_agent.Prelude.Steps.{pass, done, StepOn}
use agenda_agent.Calendar.Models.{
  CalendarCandidate, CalendarEventDraft, CalendarLink, CalendarSyncOperation, CalendarSyncRequest,
  CalendarSyncResult,
}
use agenda_agent.Calendar.Sync.{
  CalendarSyncService, CalendarWorld, call_create, create_new, link_to, or_missing, result, save,
  is_event_missing, follow_plan, update_linked, write_draft, microsoft_graph, call_update,
}
use agenda_agent.Prelude.{
  Bool, Bool-cases, List, exists, false, inl, inr, ok, some, true, ◌≡◌, ==_refl, Result,
  Result-cases, arith, err, find-eq-some, if◌then◌else◌, ok-injective, passed, refl, sym, ◌∙◌,
  String, integrity_error, is_empty, length, not, ◌==◌, Option, Option-cases, none, ◌||◌,
}
use agenda_agent.Calendar.Store.{save_link, get_link, is_link_of, upserted, is_taken_by}
use agenda_agent.Prelude.Text.{Text, text_eq}
use agenda_agent.Prelude.Rows.{
  find_of_exists, find-update_where, find-append_new, find-none_of_exists,
}
use agenda_agent.Calendar.Planner.{CalendarPlan}

abbrev pub is_written : CalendarSyncOperation → Bool
is_written CalendarSyncOperation.created = true
is_written CalendarSyncOperation.updated = true
is_written _ = false

keeps :
    (link m : CalendarLink)
    → let its = is_link_of link.recruitment_event_id in its (if its m then link else m) ≡ its m
keeps link m = ground arith

-- A saved link is the one that is found.
save_link-get_link :
    (link : CalendarLink) (links saved : List CalendarLink)
    → save_link link links ≡ ok saved
    → get_link link.recruitment_event_id saved ≡ some link
unfolding save_link
save_link-get_link link links saved h =
    let its = is_link_of link.recruitment_event_id in
    let h1 = (passed (is_empty link.provider) (integrity_error "provider_not_empty") _ h).1 in
    let h2 =
      (passed (is_empty link.calendar_event_id) (integrity_error "calendar_event_id_not_empty") _
        h1).1 in
    let h3 =
      (passed (not (length link.content_fingerprint == 64))
        (integrity_error "content_fingerprint_sha256") _ h2).1 in
    let is_it : upserted link links ≡ saved =
      ok-injective
        (passed (exists (is_taken_by link) links)
          (integrity_error "uq_calendar_links_provider_event") _ h3).1 in
    rw (sym is_it) (elim (Bool-cases (exists its links)) [
      | inl there ↦
          let (m, found) = find_of_exists its links there in
          let (_, hit) = find-eq-some its links found in
          rw there
            (find-update_where its its (λ m. link) links (λ y. keeps link y) found ∙ rw hit refl)
      | inr absent ↦ rw absent (
          find-append_new its links link (find-none_of_exists its links absent)
            (==_refl link.recruitment_event_id))
    ])

module _ (s : CalendarSyncService) where
  -- The link of the event is the one that a write of the draft saves.
  abbrev pub Current : CalendarCandidate → CalendarEventDraft → CalendarWorld → Type 0
  Current c draft w =
      (event_id : Text) × (get_link c.recruitment_event_id w.links
        ≡ some (link_to c event_id draft s.now))

  -- A write of the draft that returns has saved it.
  abbrev pub Saves :
      {A : Type 0} → CalendarCandidate → CalendarEventDraft → CalendarWorld × Result A → Type 0
  Saves {A} c draft out = (a : A) → out.1 ≡ ok a → Current c draft out.0

  save-Saves :
      (c : CalendarCandidate) (event_id : Text) (draft : CalendarEventDraft) (w : CalendarWorld)
      → Saves c draft (save s c event_id draft w)
  unfolding save
  save-Saves c event_id draft w a h =
      elim (Result-cases (save_link (link_to c event_id draft s.now) w.links)) [
        | inl (links, saved) ↦ rw (saved, save) (event_id, save_link-get_link _ w.links links saved)
        | inr (e, failed) ↦ cc (rw (failed, save) at h)
      ]

  done-Saves :
      {A B : Type 0} (c : CalendarCandidate) (draft : CalendarEventDraft) (b : B)
      (out : CalendarWorld × Result A)
      → Saves c draft out
      → Saves c draft (pass out (λ a. done b))
  unfolding pass
  done-Saves c draft b (w, ok a) saves a' h = saves a refl
  done-Saves c draft b (w, err e) saves a' h = cc

  pass-Saves :
      {A B : Type 0} (c : CalendarCandidate) (draft : CalendarEventDraft)
      (out : CalendarWorld × Result A) (f : A → StepOn CalendarWorld B)
      → ((a : A) (w : CalendarWorld) → Saves c draft (f a w))
      → Saves c draft (pass out f)
  unfolding pass
  pass-Saves c draft (w, ok a) f saves b h = saves a w b h
  pass-Saves c draft (w, err e) f saves b h = cc

  create_new-Saves :
      (r : CalendarSyncRequest) (c : CalendarCandidate) (draft : CalendarEventDraft)
      (w : CalendarWorld)
      → Saves c draft (create_new s r c draft w)
  unfolding create_new
  create_new-Saves r c draft w =
      done-Saves c draft _ (pass (call_create s r.account_id draft w) (λ i. save s c i draft)) (
        pass-Saves c draft (call_create s r.account_id draft w) (λ i. save s c i draft)
          (λ i v. save-Saves c i draft v))

  -- A result of an operation that writes nothing is not that of a write.
  pub no-write :
      {A : Type 0} (operation : CalendarSyncOperation) (reason : String) {res : CalendarSyncResult}
      → is_written operation ≡ false
      → ok (result operation reason) ≡ ok res
      → is_written res.operation ≡ true
      → A
  no-write operation reason {res} silent h written =
      let is_it : result operation reason ≡ res = ok-injective h in cc

  or_missing-Saves :
      (c : CalendarCandidate) (draft : CalendarEventDraft) (out : CalendarWorld × Result Text)
      (res : CalendarSyncResult)
      → (or_missing s c draft out).1 ≡ ok res
      → is_written res.operation ≡ true
      → Current c draft (or_missing s c draft out).0
  unfolding or_missing
  or_missing-Saves c draft (w, ok i) res h written =
      done-Saves c draft _ (save s c i draft w) (save-Saves c i draft w) res h
  or_missing-Saves c draft (w, err e) res h written = elim (Bool-cases (is_event_missing e)) [
    | inl missing ↦ no-write CalendarSyncOperation.review_required _ refl (rw missing at h) written
    | inr other ↦ cc (rw other at h)
  ]

  update_linked-Saves :
      (r : CalendarSyncRequest) (c : CalendarCandidate) (draft : CalendarEventDraft)
      (link : CalendarLink) (w : CalendarWorld) (res : CalendarSyncResult)
      → (update_linked s r c draft link w).1 ≡ ok res
      → is_written res.operation ≡ true
      → Current c draft (update_linked s r c draft link w).0
  unfolding update_linked
  update_linked-Saves r c draft link w res h written =
      let strange =
        not (link.account_id == r.account_id) || not (text_eq link.provider microsoft_graph) in
      elim (Bool-cases strange) [
        | inl other ↦
            no-write CalendarSyncOperation.review_required _ refl (rw (other, update_linked) at h)
              written
        | inr its ↦ elim (Bool-cases (text_eq link.content_fingerprint draft.content_fingerprint)) [
          | inl same ↦
              no-write CalendarSyncOperation.unchanged _ refl (rw (its, same, update_linked) at h)
                written
          | inr new ↦
              rw (its, new, update_linked)
                (or_missing-Saves c draft
                  (call_update s r.account_id link.calendar_event_id draft w) res
                  (rw (its, new, update_linked) at h) written)
        ]
      ]

  write_draft-Saves :
      (r : CalendarSyncRequest) (c : CalendarCandidate) (known : Option CalendarLink)
      (draft : CalendarEventDraft) (w : CalendarWorld) (res : CalendarSyncResult)
      → (write_draft s r c known draft w).1 ≡ ok res
      → is_written res.operation ≡ true
      → Current c draft (write_draft s r c known draft w).0
  unfolding write_draft
  write_draft-Saves r c none draft w res h written = create_new-Saves r c draft w res h
  write_draft-Saves r c (some link) draft w res h written =
      elim (Bool-cases r.replace_missing_event) [
        | inl replace ↦ simp replace (create_new-Saves r c draft w res (simp replace at h))
        | inr keep ↦ simp keep (update_linked-Saves r c draft link w res (simp keep at h) written)
      ]

  -- Only a plan with a draft writes, and it saves the link of the draft.
  pub follow_plan-Saves :
      (r : CalendarSyncRequest) (c : CalendarCandidate) (known : Option CalendarLink)
      (p : CalendarPlan) (w : CalendarWorld) (res : CalendarSyncResult)
      → (follow_plan s r c known p w).1 ≡ ok res
      → is_written res.operation ≡ true
      → (draft : CalendarEventDraft) × (p.draft ≡ some draft)
        × (p.needs_review ≡ false)
        × Current c draft (follow_plan s r c known p w).0
  unfolding follow_plan
  follow_plan-Saves r c known p w res h written = elim (Bool-cases p.needs_review) [
    | inl review ↦
        no-write CalendarSyncOperation.review_required _ refl (rw (review, follow_plan) at h)
          written
    | inr sure ↦ elim (Option-cases p.draft) [
      | inl nothing ↦
          no-write CalendarSyncOperation.skipped _ refl (rw (sure, nothing, follow_plan) at h)
            written
      | inr (draft, there) ↦ (
        draft,
        there,
        sure,
        rw (sure, there, follow_plan)
            (write_draft-Saves r c known draft w res (rw (sure, there, follow_plan) at h) written),
      )
    ]
  ]
