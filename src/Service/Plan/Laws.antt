-- ===== src/Service/Plan/Laws.antt =====
-- What a planned transition may change.
use agenda_agent.Prelude.{
  All, List, [], arith, if◌then◌else◌, is_some, length, length-take, none, not, ok, refl, some, ◌∷◌,
  ◌≡◌, ◌≢◌, ◌≤◌, Option, false, ◌&&◌, >>=-eq-ok, Bool-cases, Option-cases, inl, inr,
}
use agenda_agent.Domain.Digest.{ActionPayload, Digests, Uuid}
use agenda_agent.Domain.Processing.{
  EventResolution, PlannedActionItem, validate_action_item, ApplicationResolution, validate_plan,
  is_event_review, DomainTransitionPlan, EventMutationKind,
}
use agenda_agent.Domain.Evidence.{
  RecruitmentEvidence, evidence_allows_mutation, action_idempotency_key, desired_application_status,
}
use agenda_agent.Prelude.Text.{Text, Unicode, join, collapse, split}
use agenda_agent.Prelude.Text.Words.{IsWord, split-words}
use agenda_agent.Service.Plan.{
  action_title, planned_action, action_text, action_of, action_key, plan_transition, build_plan,
  plan_resolved,
}
use agenda_agent.Domain.Enums.{ApplicationStatus}
use agenda_agent.Domain.Status.{next_application_status}
use agenda_agent.Domain.Status.Laws.{next_self, next-next}

evidence-reason :
    (e : RecruitmentEvidence)
    → is_some (evidence_allows_mutation e).1 ≡ not (evidence_allows_mutation e).0
unfolding evidence_allows_mutation
evidence-reason e = ground arith

validate_action_item-ok :
    (a : PlannedActionItem)
    → 1 ≤ length a.title
    → length a.title ≤ 255
    → length a.idempotency_key ≡ 64
    → validate_action_item a ≡ ok a
unfolding validate_action_item
validate_action_item-ok a l h k = ground arith

module _ (u : Unicode) where
  join_nonempty : (ws : List Text) → All (IsWord u) ws → ws ≢ [] → 1 ≤ length (join ws)
  join_nonempty [] h n = absurd (n refl)
  join_nonempty ([] ∷ ws) h n = absurd h.0
  join_nonempty ((c ∷ w) ∷ []) h n = omega arith
  join_nonempty ((c ∷ w) ∷ v ∷ ws) h n = omega arith

  -- The words of an action's text, if it has any, make a title within the bounds of the column.
  action_title_bounds :
      (e : RecruitmentEvidence)
      → split u (action_text e) ≢ []
      → (1 ≤ length (action_title u e)) × (length (action_title u e) ≤ 255)
  unfolding action_title collapse
  action_title_bounds e h =
      let words = split u (action_text e) in
      omega (arith, length-take 255 (join words), join_nonempty words (split-words u _) h)

  -- The item of the plan.
  abbrev pub expected_item :
      Digests → RecruitmentEvidence → EventResolution → Option PlannedActionItem
  expected_item d e r =
      if (evidence_allows_mutation e).0 && e.action_required then some (action_of u d e r) else none

  module _ (d : Digests) (digest : (p : ActionPayload) → length (d.action_digest p) ≡ 64) where
    action_of-valid :
        (e : RecruitmentEvidence) (r : EventResolution)
        → split u (action_text e) ≢ []
        → validate_action_item (action_of u d e r) ≡ ok (action_of u d e r)
    unfolding action_of action_key action_idempotency_key
    action_of-valid e r h =
        let (low, high) = action_title_bounds e h in
        validate_action_item-ok (action_of u d e r) low high (digest _)

    planned_action_ok :
        (e : RecruitmentEvidence) (r : EventResolution)
        → split u (action_text e) ≢ []
        → planned_action u d e r ≡ ok (if e.action_required then some (action_of u d e r) else none)
    unfolding planned_action
    planned_action_ok e r h = ground (arith, action_of-valid e r h)

    validate_plan-ok :
        (e : RecruitmentEvidence) (a : ApplicationResolution) (r : EventResolution)
        (application : Uuid) (current : ApplicationStatus) (item : Option PlannedActionItem)
        → validate_plan (build_plan e a r application current item)
          ≡ ok (build_plan e a r application current item)
    unfolding validate_plan build_plan
    validate_plan-ok e a r application current item = ground (arith, evidence-reason e)

    -- Planning never fails for a resolved application and an event that needs no review, if the
    -- text of the action has a word and a digest has 64 characters: no validator of the plan or of
    -- its item refuses it.
    pub plan_transition-ok :
        (e : RecruitmentEvidence) (a : ApplicationResolution) (r : EventResolution)
        {application : Uuid} {current : ApplicationStatus}
        → a.application_id ≡ some application
        → a.current_status ≡ some current
        → is_event_review r.kind ≡ false
        → split u (action_text e) ≢ []
        → plan_transition u d e a r
          ≡ ok (build_plan e a r application current (expected_item d e r))
    unfolding plan_transition plan_resolved
    plan_transition-ok e a r {application} {current} ha hs hk h = ground (
      arith,
      planned_action_ok e r h,
      validate_plan-ok e a r application current (expected_item d e r),
    )

validate_plan-eq : (q p : DomainTransitionPlan) → validate_plan q ≡ ok p → p ≡ q
unfolding validate_plan
validate_plan-eq q p h = ground arith

-- A plan that was made, with the item that it carries.
abbrev IsBuilt :
    RecruitmentEvidence → ApplicationResolution → EventResolution → DomainTransitionPlan → Type 0
IsBuilt e a r p =
    (application : Uuid) × (current : ApplicationStatus) × (item : Option PlannedActionItem) × (p
      ≡ build_plan e a r application current item)
    × ((evidence_allows_mutation e).0 ≡ false → item ≡ none)
    × (is_event_review r.kind ≡ false)

-- Cautious plans.
pub record IsCautious (e : RecruitmentEvidence) (p : DomainTransitionPlan) : Type 0 where
  pub guard : p.mutations_allowed ≡ (evidence_allows_mutation e).0
  pub reason : is_some p.no_mutation_reason ≡ not p.mutations_allowed
  pub event_kept : p.mutations_allowed ≡ false → p.event.kind ≡ EventMutationKind.no_mutation
  pub no_item : p.mutations_allowed ≡ false → p.action_item ≡ none
  pub status_kept :
      p.mutations_allowed ≡ false → p.application_status_after ≡ p.application_status_before
  pub status_reached :
      next_application_status p.application_status_before p.application_status_after
      ≡ p.application_status_after

module _ (u : Unicode) (d : Digests) (e : RecruitmentEvidence) (a : ApplicationResolution)
    (r : EventResolution) (p : DomainTransitionPlan) where
  plan_resolved-IsBuilt :
      (application : Uuid) (current : ApplicationStatus)
      → is_event_review r.kind ≡ false
      → plan_resolved u d e a r application current ≡ ok p
      → IsBuilt e a r p
  unfolding plan_resolved
  plan_resolved-IsBuilt application current k h =
      let (item, made, checked) =
        >>=-eq-ok (if (evidence_allows_mutation e).0 then planned_action u d e r else ok none)
          (λ x. validate_plan (build_plan e a r application current x)) h in
      (application, current, item, validate_plan-eq _ p checked, λ refused. ground arith, k)

  build_plan-IsCautious :
      (application : Uuid) (current : ApplicationStatus) (item : Option PlannedActionItem)
      → ((evidence_allows_mutation e).0 ≡ false → item ≡ none)
      → IsCautious e (build_plan e a r application current item)
  unfolding build_plan
  build_plan-IsCautious application current item empty = ground (
    arith,
    evidence-reason e,
    next_self current,
    next-next current (desired_application_status e),
  )

  plan_transition-IsBuilt : plan_transition u d e a r ≡ ok p → IsBuilt e a r p
  unfolding plan_transition
  plan_transition-IsBuilt h = elim (Option-cases a.application_id) [
    | inl no_id ↦ cc (rw (no_id, plan_transition) at h)
    | inr (application, ha) ↦ elim (Option-cases a.current_status) [
      | inl no_status ↦ cc (rw (ha, no_status, plan_transition) at h)
      | inr (current, hs) ↦ elim (Bool-cases (is_event_review r.kind)) [
        | inl review ↦ cc (rw (ha, hs, review, plan_transition) at h)
        | inr settled ↦
            plan_resolved-IsBuilt application current settled
              (rw (ha, hs, settled, plan_transition) at h)
      ]
    ]
  ]

  -- A plan has the mutation guard of its evidence, and a reason exactly when that is off; with the
  -- guard off it keeps the event and the status and makes no action item. The transition function
  -- keeps the status that it plans.
  pub plan_transition-IsCautious : plan_transition u d e a r ≡ ok p → IsCautious e p
  plan_transition-IsCautious h =
      let (application, current, item, built, empty, k) = plan_transition-IsBuilt h in
      rw built (build_plan-IsCautious application current item empty)
