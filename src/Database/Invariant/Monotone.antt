-- ===== src/Database/Invariant/Monotone.antt =====
-- No application is lost or set back by a transition.
use agenda_agent.Prelude.{
  ==→≡, Bool-cases, List, Option-cases, Result-cases, [], arith, exists, find-eq-some, inl, inr, ok,
  ok-injective, some, sym, true, ◌==◌, ◌∙◌, ◌∷◌, ◌≡◌, ◌≤◌, ap,
}
use agenda_agent.Database.Link.{
  ApplicationWrite, choose_for_write, insert_application, resolve_application_for_write,
  take_candidate, blank_company, candidates_for_write, link_changed, planned_application,
}
use agenda_agent.Database.Tables.{
  ApplicationRow, Database, SourceEmailRow, StatusHistoryRow, application_by_id,
}
use agenda_agent.Domain.Digest.{Digests, Uuid}
use agenda_agent.Domain.Enums.{ApplicationStatus, same_status}
use agenda_agent.Domain.Processing.{DomainMutationResult, DomainTransitionPlan}
use agenda_agent.Prelude.Rows.{HasKey, find-append_hit, find-update_where}
use agenda_agent.Domain.Status.Laws.{progress, is_terminal, next-progress}
use agenda_agent.Database.Progress.{apply_application_status, moved}
use agenda_agent.Database.Transition.{assembled, status_step, apply_transition}
use agenda_agent.Domain.Status.{next_application_status}
use agenda_agent.Database.Replay.Whole.{apply_transition-cases}
use agenda_agent.Database.Replay.Link.{resolve-IsLinked}

-- What a later row of an application keeps.
pub record IsForward (m m' : ApplicationRow) : Type 0 where
  pub id : m'.id ≡ m.id
  pub company : m'.company_id ≡ m.company_id
  pub role : m'.role_normalized ≡ m.role_normalized
  pub status : progress m.status ≤ progress m'.status
  pub terminal : is_terminal m.status ≡ true → m'.status ≡ m.status
  pub version : m.version ≤ m'.version

IsForward-refl : (m : ApplicationRow) → IsForward m m
IsForward-refl m = ground arith

moved-IsForward :
    (after : ApplicationStatus) (m : ApplicationRow)
    → IsForward m (moved (next_application_status m.status after) m)
moved-IsForward after m = let (further, last, either) = next-progress m.status after in ground arith

module _ (p : DomainTransitionPlan) (rows : List ApplicationRow) (i : Uuid) (m : ApplicationRow)
    (here : application_by_id rows i ≡ some m) where
  insert_kept :
      (c : List ApplicationRow × ApplicationRow)
      → insert_application p rows ≡ ok c
      → application_by_id c.0 i ≡ some m
  unfolding insert_application
  insert_kept c h =
      elim (Bool-cases (exists (λ (m : ApplicationRow). m.id == p.application_id) rows)) [
        | inl taken ↦ cc (rw (taken, insert_application) at h)
        | inr free ↦ elim (Bool-cases (blank_company p.raw_company_name)) [
          | inl blank ↦ cc (rw (free, blank, insert_application) at h)
          | inr named ↦
              rw (sym (ok-injective (rw (free, named, insert_application) at h)))
                (find-append_hit _ rows (planned_application p ∷ []) here)
        ]
      ]

  take_kept :
      (cs : List ApplicationRow) (c : List ApplicationRow × ApplicationRow)
      → take_candidate p rows cs ≡ ok c
      → application_by_id c.0 i ≡ some m
  unfolding take_candidate
  take_kept [] c h = insert_kept c h
  take_kept (x ∷ []) c h = rw (sym (ok-injective h)) here
  take_kept (x ∷ y ∷ xs) c h = cc

  choose_kept :
      (c : List ApplicationRow × ApplicationRow)
      → choose_for_write p rows ≡ ok c
      → application_by_id c.0 i ≡ some m
  unfolding choose_for_write
  choose_kept c h = elim (Bool-cases p.create_application) [
    | inl creates ↦ take_kept (candidates_for_write p rows) c (simp creates at h)
    | inr joins ↦ elim (Option-cases (application_by_id rows p.application_id)) [
      | inl missing ↦ cc (simp (joins, missing) at h)
      | inr (x, found) ↦ rw (sym (ok-injective (simp (joins, found) at h))) here
    ]
  ]

  resolve_kept :
      (source : SourceEmailRow) (emails : List SourceEmailRow) (a : ApplicationWrite)
      → resolve_application_for_write p source emails rows ≡ ok a
      → application_by_id a.applications i ≡ some m
  unfolding resolve_application_for_write
  resolve_kept source emails a h = elim (Option-cases source.application_id) [
    | inr (k, linked) ↦ elim (Option-cases (application_by_id rows k)) [
      | inl missing ↦ cc (rw (linked, missing, resolve_application_for_write) at h)
      | inr (x, there) ↦ elim (Bool-cases (link_changed p x)) [
        | inl changed' ↦ cc (rw (linked, there, changed', resolve_application_for_write) at h)
        | inr fine ↦
            rw (sym (ok-injective (rw (linked, there, fine, resolve_application_for_write) at h)))
              here
      ]
    ]
    | inl unlinked ↦ elim (Result-cases (choose_for_write p rows)) [
      | inr (x, failed) ↦ cc (rw (unlinked, failed, resolve_application_for_write) at h)
      | inl (c, chosen) ↦
          rw (sym (ok-injective (rw (unlinked, chosen, resolve_application_for_write) at h)))
            (choose_kept c chosen)
    ]
  ]

-- The row of an identifier after the status step.
status-IsForward :
    (d : Digests) (source : Uuid) (after : ApplicationStatus) (a : ApplicationRow)
    (rows : List ApplicationRow) (history : List StatusHistoryRow) (i : Uuid) (m : ApplicationRow)
    → application_by_id rows a.id ≡ some a
    → application_by_id rows i ≡ some m
    → (m' : ApplicationRow) × (application_by_id
          (apply_application_status d source after a rows history).applications
          i
        ≡ some m')
      × IsForward m m'
unfolding apply_application_status
status-IsForward d source after a rows history i m found here =
    let target = next_application_status a.status after in
    elim (Bool-cases (same_status target a.status)) [
      | inl same ↦ (m, rw same here, IsForward-refl m)
      | inr other ↦ elim (Bool-cases (m.id == a.id)) [
        | inr apart ↦ (
          m,
          rw other (
              find-update_where (λ (x : ApplicationRow). x.id == i)
                (λ (x : ApplicationRow). x.id == a.id) (moved target) rows (λ y. ground arith) here
              ∙ ap some (rw apart)),
          IsForward-refl m,
        )
        | inl same_row ↦
            let e : m ≡ a = some_eq (
              sym here
              ∙ ap (λ (k : Uuid). application_by_id rows k)
                  (sym (==→≡ _ _ (find-eq-some _ rows here).1) ∙ ==→≡ m.id a.id same_row)
              ∙ found) in
            (
              moved target m,
              rw other (
                  find-update_where (λ (x : ApplicationRow). x.id == i)
                    (λ (x : ApplicationRow). x.id == a.id) (moved target) rows (λ y. ground arith)
                    here
                  ∙ ap some (rw same_row)),
              rw e (moved-IsForward after a),
            )
      ]
    ]
  where
    some_eq : {x y : ApplicationRow} → some x ≡ some y → x ≡ y
    some_eq h = cc

-- Every application is still there after a successful transition, with its company and role, with a
-- status that is no earlier, and unchanged if that was terminal; its version never falls. The
-- identifiers of the applications are distinct before.
pub apply_transition-IsForward :
    (d : Digests) (db : Database) (p : DomainTransitionPlan) (r : Database × DomainMutationResult)
    (i : Uuid) (m : ApplicationRow)
    → HasKey (λ (x : ApplicationRow). x.id) db.applications
    → apply_transition d db p ≡ ok r
    → application_by_id db.applications i ≡ some m
    → (m' : ApplicationRow) × (application_by_id r.0.applications i ≡ some m') × IsForward m m'
unfolding assembled status_step
apply_transition-IsForward d db p r i m keys h here = elim (apply_transition-cases d db p r h) [
  | inl same ↦ (m, rw same here, IsForward-refl m)
  | inr (source, (found, s, e)) ↦
      let a = s.a in
      let linked = resolve-IsLinked p db.applications keys source db.emails a found s.linked in
      let (m', there, forward) =
        status-IsForward d p.source_email_id p.application_status_after a.application a.applications
          db.status_history i m linked.found
          (resolve_kept p db.applications i m here source db.emails a s.linked) in
      (m', rw e there, forward)
]
