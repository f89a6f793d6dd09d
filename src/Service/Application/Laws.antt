-- ===== src/Service/Application/Laws.antt =====
-- Which application an email is attached to.
use agenda_agent.Prelude.{
  ==→≡, Bool, Bool-cases, In, List, Option, Option-cases, [], ap, arith, false, find, find-eq-some,
  inl, inr, is_none, is_some, length, none, ok, refl, some, sym, true, ◌&&◌, ◌==◌, ◌∷◌, ◌≡◌, ◌⊎◌,
  ◌∙◌,
}
use agenda_agent.Service.Store.{DomainStore}
use agenda_agent.Domain.Digest.{Digests, Uuid}
use agenda_agent.Domain.Processing.{
  ApplicationReason, ApplicationResolution, ApplicationResolutionKind, ApplicationSnapshot,
  reviewed_application, validate_application, reviewed_create_new, no_existing_application,
  unnormalized_role_ambiguous, exact_company_role, multiple_open_applications, source_email_link,
  reviewed_unresolved_company, canonical_company_unresolved,
}
use agenda_agent.Domain.Evidence.{RecruitmentEvidence}
use agenda_agent.Service.Application.{
  choose_application, existing_application, new_application, review_application,
  resolve_application, conflicts,
}
use agenda_agent.Prelude.Sort.{In-sort_by, sort_by, length-sort_by}

abbrev pub is_existing : ApplicationResolutionKind → Bool
is_existing ApplicationResolutionKind.existing = true
is_existing _ = false

-- The open applications that the store returns for the company and the role of the evidence.
abbrev pub open_candidates : DomainStore → RecruitmentEvidence → List ApplicationSnapshot
open_candidates store e = elim e.company_id [
  | none ↦ []
  | some company ↦ store.find_open_applications company e.role_normalized
]

-- The resolution names this application, with its status.
abbrev pub Names : ApplicationResolution → ApplicationSnapshot → Type 0
Names r a = (r.application_id ≡ some a.id) × (r.current_status ≡ some a.status)

existing-Names :
    (a : ApplicationSnapshot) (reason : ApplicationReason) (r : ApplicationResolution)
    → existing_application a reason ≡ ok r
    → Names r a
unfolding existing_application validate_application
existing-Names a reason r h = ground arith

new-ne-existing :
    (d : Digests) (e : RecruitmentEvidence) (reason : ApplicationReason) (r : ApplicationResolution)
    → new_application d e reason ≡ ok r
    → is_existing r.kind ≡ false
unfolding new_application validate_application
new-ne-existing d e reason r h = ground arith

review-ne-existing :
    (ids : List Uuid) (reason : ApplicationReason) (r : ApplicationResolution)
    → review_application ids reason ≡ ok r
    → is_existing r.kind ≡ false
unfolding review_application validate_application
review-ne-existing ids reason r h = ground arith

-- A choice among candidates: selected by a person, or the only one.
abbrev pub Chosen :
    List ApplicationSnapshot → Option Uuid → ApplicationResolution → ApplicationSnapshot → Type 0
Chosen cs selected r a = Names r a × In a cs × ((selected ≡ some a.id) ⊎ (length cs ≡ 1))

module _ (d : Digests) (e : RecruitmentEvidence) (r : ApplicationResolution) where
  choose-Chosen :
      (cs : List ApplicationSnapshot) (selected : Option Uuid) (force_create : Bool)
      → choose_application d e cs selected force_create ≡ ok r
      → is_existing r.kind ≡ true
      → (a : ApplicationSnapshot) × Chosen cs selected r a
  unfolding choose_application
  choose-Chosen cs (some s) force h k =
      elim (Option-cases (find (λ (c : ApplicationSnapshot). c.id == s) cs)) [
        | inl missing ↦ cc (rw (missing, choose_application) at h)
        | inr (a, found) ↦
            let (m, same) = find-eq-some _ cs found in
            (
              a,
              (
                existing-Names a reviewed_application r (rw (found, choose_application) at h),
                m,
                inl (ap some (sym (==→≡ a.id s same))),
              ),
            )
      ]
  choose-Chosen cs none true h k = cc (new-ne-existing d e reviewed_create_new r h)
  choose-Chosen [] none false h k = cc (new-ne-existing d e no_existing_application r h)
  choose-Chosen (c ∷ []) none false h k =
      elim (Bool-cases (is_some e.role_name && is_none e.role_normalized)) [
        | inl vague ↦ cc (
            review-ne-existing (c.id ∷ []) unnormalized_role_ambiguous r
              (rw (vague, choose_application) at h))
        | inr clear ↦ (
          c,
          (
            existing-Names c exact_company_role r (rw (clear, choose_application) at h),
            inl refl,
            inr refl,
          ),
        )
      ]
  choose-Chosen (c ∷ c' ∷ cs) none false h k =
      cc (review-ne-existing _ multiple_open_applications r h)

-- Why an existing application may be taken: the email is linked to it, or it is one of the open
-- applications of the company and the role, selected by a person or the only one.
abbrev pub MayTake : DomainStore → RecruitmentEvidence → Option Uuid → ApplicationSnapshot → Type 0
MayTake store e selected a =
    (store.application_for_source_email e.source_email_id ≡ some a)
    ⊎ (In a (open_candidates store e)
        × ((selected ≡ some a.id) ⊎ (length (open_candidates store e) ≡ 1)))

module _ (d : Digests) (store : DomainStore) (e : RecruitmentEvidence) (selected : Option Uuid)
    (force_create : Bool) (r : ApplicationResolution) where
  Chosen-MayTake :
      (company : Uuid)
      → e.company_id ≡ some company
      → (a : ApplicationSnapshot)
      → Chosen
          (sort_by
            (λ (c : ApplicationSnapshot). c.id)
            (store.find_open_applications company e.role_normalized))
          selected
          r
          a
      → MayTake store e selected a
  Chosen-MayTake company known a c =
      let open' = store.find_open_applications company e.role_normalized in
      rw known (
        inr (
          In-sort_by (λ (x : ApplicationSnapshot). x.id) open' a c.1,
          elim c.2 [
            | inl s ↦ inl s
            | inr one ↦ inr (sym (length-sort_by (λ (x : ApplicationSnapshot). x.id) open') ∙ one)
          ],
        ))

  -- An email is attached to an existing application only if it is linked to it, or if it is an open
  -- one of the company and the role that a person selected or that is the only one; the resolution
  -- names it with its status.
  pub resolve_application-MayTake :
      resolve_application d store e selected force_create ≡ ok r
      → is_existing r.kind ≡ true
      → (a : ApplicationSnapshot) × Names r a × MayTake store e selected a
  unfolding resolve_application
  resolve_application-MayTake h k =
      elim (Option-cases (store.application_for_source_email e.source_email_id)) [
        | inr (a, linked) ↦ elim (Bool-cases (conflicts selected a.id)) [
          | inl clash ↦ cc (rw (linked, clash, resolve_application) at h)
          | inr fine ↦ (
            a,
            existing-Names a source_email_link r (rw (linked, fine, resolve_application) at h),
            inl linked,
          )
        ]
        | inl unlinked ↦ elim (Option-cases e.company_id) [
          | inl unresolved ↦ elim (Bool-cases force_create) [
            | inl forced ↦ cc (
                new-ne-existing d e reviewed_unresolved_company r
                  (rw (unlinked, unresolved, forced, resolve_application) at h))
            | inr waits ↦ cc (
                review-ne-existing [] canonical_company_unresolved r
                  (rw (unlinked, unresolved, waits, resolve_application) at h))
          ]
          | inr (company, known) ↦
              let (a, c) =
                choose-Chosen d e r _ selected force_create
                  (rw (unlinked, known, resolve_application) at h) k in
              (a, c.0, Chosen-MayTake company known a c)
        ]
      ]
