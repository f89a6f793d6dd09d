-- ===== src/Database/Replay/Link.antt =====
-- The first step, and what it leaves for a second time.
use agenda_agent.Prelude.{
  ==_refl, Bool-cases, List, arith, exists, false, inl, inr, ok, ok-injective, refl, some, sym,
  ◌==◌, ◌≡◌, ==→≡, In, In-select, Option, Option-cases, Result-cases, [], ap, find-eq-some, select,
  true, ◌∙◌, ◌∷◌,
}
use agenda_agent.Database.Link.{
  ApplicationWrite, insert_application, link_changed, blank_company, planned_application,
  candidates_for_write, choose_for_write, resolve_application_for_write, take_candidate, link_email,
}
use agenda_agent.Database.Tables.{
  ApplicationRow, SourceEmailRow, application_by_id, email_by_id, is_open, open_applications,
}
use agenda_agent.Domain.Processing.{DomainTransitionPlan}
use agenda_agent.Prelude.Rows.{
  HasKey, find-append_new, find-none_of_exists, find_by_key, select-holds, find-update_where,
}
use agenda_agent.Domain.Digest.{Uuid}
use agenda_agent.Prelude.Text.{Text}
use agenda_agent.Prelude.Sort.{In-sort_by}

-- What the first step leaves.
pub record IsLinked (p : DomainTransitionPlan) (a : ApplicationWrite) : Type 0 where
  -- the email, with its application
  pub source : SourceEmailRow
  pub found_source : email_by_id a.emails p.source_email_id ≡ some source
  pub linked : source.application_id ≡ some a.application.id
  -- the application, under its identifier
  pub found : application_by_id a.applications a.application.id ≡ some a.application
  -- the link is one that the plan accepts
  pub accepted : link_changed p a.application ≡ false

-- What a query of open applications returns.
open_applications-In :
    (rows : List ApplicationRow) (company : Uuid) (role : Option Text) (m : ApplicationRow)
    → In m (open_applications rows company role)
    → In m rows × (is_open company role m ≡ true)
unfolding open_applications
open_applications-In rows company role m here =
    let kept =
      In-sort_by (λ (x : ApplicationRow). x.id) (select (is_open company role) rows) m here in
    (In-select (is_open company role) rows m kept, select-holds (is_open company role) rows m kept)

module _ (p : DomainTransitionPlan) (rows : List ApplicationRow)
    (keys : HasKey (λ (m : ApplicationRow). m.id) rows) where
  -- A choice that may be linked.
  abbrev IsChosen : List ApplicationRow × ApplicationRow → Type 0
  IsChosen c = (application_by_id c.0 c.1.id ≡ some c.1) × (link_changed p c.1 ≡ false)

  own_link : (m : ApplicationRow) → m.id ≡ p.application_id → link_changed p m ≡ false
  own_link m e = ground arith

  insert-IsChosen :
      (c : List ApplicationRow × ApplicationRow) → insert_application p rows ≡ ok c → IsChosen c
  unfolding insert_application
  insert-IsChosen c h =
      elim (Bool-cases (exists (λ (m : ApplicationRow). m.id == p.application_id) rows)) [
        | inl taken ↦ cc (rw (taken, insert_application) at h)
        | inr free ↦ elim (Bool-cases (blank_company p.raw_company_name)) [
          | inl blank ↦ cc (rw (free, blank, insert_application) at h)
          | inr named ↦ rw (sym (ok-injective (rw (free, named, insert_application) at h))) (
            find-append_new (λ (m : ApplicationRow). m.id == p.application_id) rows
                (planned_application p) (find-none_of_exists _ rows free)
                (==_refl p.application_id),
            own_link (planned_application p) refl,
          )
        ]
      ]

  open_accepted :
      (m : ApplicationRow) (company : Uuid)
      → p.create_application ≡ true
      → p.company_id ≡ some company
      → is_open company p.role_normalized m ≡ true
      → link_changed p m ≡ false
  open_accepted m company creates known open' = ground arith

  candidate-IsChosen :
      (m : ApplicationRow)
      → p.create_application ≡ true
      → In m (candidates_for_write p rows)
      → IsChosen (rows, m)
  candidate-IsChosen m creates here = elim (Option-cases p.company_id) [
    | inl no_company ↦ absurd (rw no_company at here)
    | inr (company, known) ↦ elim (Bool-cases p.reviewed_create_new_application) [
      | inl reviewed ↦ absurd (rw (known, reviewed) at here)
      | inr automatic ↦
          let (kept, open') =
            open_applications-In rows company p.role_normalized m (rw (known, automatic) at here) in
          (
            find_by_key (λ (x : ApplicationRow). x.id) rows m keys kept,
            open_accepted m company creates known open',
          )
    ]
  ]

  take-IsChosen :
      (cs : List ApplicationRow) (c : List ApplicationRow × ApplicationRow)
      → p.create_application ≡ true
      → ((m : ApplicationRow) → In m cs → In m (candidates_for_write p rows))
      → take_candidate p rows cs ≡ ok c
      → IsChosen c
  unfolding take_candidate
  take-IsChosen [] c creates sub h = insert-IsChosen c h
  take-IsChosen (m ∷ []) c creates sub h =
      rw (sym (ok-injective h)) (candidate-IsChosen m creates (sub m (inl refl)))
  take-IsChosen (m ∷ m' ∷ ms) c creates sub h = cc

  choose-IsChosen :
      (c : List ApplicationRow × ApplicationRow) → choose_for_write p rows ≡ ok c → IsChosen c
  unfolding choose_for_write
  choose-IsChosen c h = elim (Bool-cases p.create_application) [
    | inl creates ↦
        take-IsChosen (candidates_for_write p rows) c creates (λ m k. k) (rw creates at h)
    | inr joins ↦ elim (Option-cases (application_by_id rows p.application_id)) [
      | inl missing ↦ cc (rw (joins, missing) at h)
      | inr (m, found) ↦
          let same : m.id ≡ p.application_id = ==→≡ _ _ (find-eq-some _ rows found).1 in
          rw (sym (ok-injective (rw (joins, found) at h)))
            (ap (λ (i : Uuid). application_by_id rows i) same ∙ found, own_link m same)
    ]
  ]

  old_link :
      (source : SourceEmailRow) (emails : List SourceEmailRow) (m : ApplicationRow) (i : Uuid)
      → email_by_id emails p.source_email_id ≡ some source
      → source.application_id ≡ some i
      → application_by_id rows i ≡ some m
      → link_changed p m ≡ false
      → IsLinked p
          (record { emails = emails; applications = rows; application = m; changed = false })
  old_link source emails m i found linked there fine =
      let same : m.id ≡ i = ==→≡ _ _ (find-eq-some _ rows there).1 in
      record {
        source = source;
        found_source = found;
        linked = linked ∙ ap some (sym same);
        found = ap (λ (k : Uuid). application_by_id rows k) same ∙ there;
        accepted = fine;
      }

  new_link :
      (source : SourceEmailRow) (emails : List SourceEmailRow)
      (c : List ApplicationRow × ApplicationRow)
      → email_by_id emails p.source_email_id ≡ some source
      → IsChosen c
      → IsLinked p (record {
        emails = link_email source.id c.1.id emails;
        applications = c.0;
        application = c.1;
        changed = true;
      })
  new_link source emails c found chosen = record {
    source = record source { application_id = some c.1.id };
    found_source =
        find-update_where (λ (x : SourceEmailRow). x.id == p.source_email_id)
          (λ (x : SourceEmailRow). x.id == source.id)
          (λ x. record x { application_id = some c.1.id }) emails (λ y. ground arith) found
        ∙ ap some (rw (==_refl source.id));
    linked = refl;
    found = chosen.0;
    accepted = chosen.1;
  }

  -- The first step leaves the email linked to an application that the plan accepts.
  pub resolve-IsLinked :
      (source : SourceEmailRow) (emails : List SourceEmailRow) (a : ApplicationWrite)
      → email_by_id emails p.source_email_id ≡ some source
      → resolve_application_for_write p source emails rows ≡ ok a
      → IsLinked p a
  unfolding resolve_application_for_write
  resolve-IsLinked source emails a found h = elim (Option-cases source.application_id) [
    | inr (i, linked) ↦ elim (Option-cases (application_by_id rows i)) [
      | inl missing ↦ cc (rw (linked, missing, resolve_application_for_write) at h)
      | inr (m, there) ↦ elim (Bool-cases (link_changed p m)) [
        | inl changed' ↦ cc (rw (linked, there, changed', resolve_application_for_write) at h)
        | inr fine ↦
            rw (sym (ok-injective (rw (linked, there, fine, resolve_application_for_write) at h)))
              (old_link source emails m i found linked there fine)
      ]
    ]
    | inl unlinked ↦ elim (Result-cases (choose_for_write p rows)) [
      | inr (x, failed) ↦ cc (rw (unlinked, failed, resolve_application_for_write) at h)
      | inl (c, chosen) ↦
          rw (sym (ok-injective (rw (unlinked, chosen, resolve_application_for_write) at h)))
            (new_link source emails c found (choose-IsChosen c chosen))
    ]
  ]

-- A linked email and an accepted application are taken as they are.
pub resolve_again :
    (p : DomainTransitionPlan) (source : SourceEmailRow) (emails : List SourceEmailRow)
    (rows : List ApplicationRow) (m : ApplicationRow) (i : Uuid)
    → source.application_id ≡ some i
    → application_by_id rows i ≡ some m
    → link_changed p m ≡ false
    → resolve_application_for_write p source emails rows
      ≡ ok (record { emails = emails; applications = rows; application = m; changed = false })
unfolding resolve_application_for_write
resolve_again p source emails rows m i linked there fine =
    rw (linked, there, fine, resolve_application_for_write)
