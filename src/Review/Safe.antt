-- ===== src/Review/Safe.antt =====
-- application/reviews.py: when `ReviewService.resolve` resumes the workflow.
use agenda_agent.Domain.Digest.{Uuid}
use agenda_agent.Review.Decision.{
  ReviewDecision, ReviewRequest, TimeLibrary, validate_review_decision,
}
use agenda_agent.Review.Answer.{
  ReviewAnswer, ReviewDetail, ReviewQueueItem, decision_for, has_resolution, is_final, is_follow_up,
  or_conflict, own_detail, request_for,
}
use agenda_agent.Review.Service.{
  ReviewPorts, ReviewWorld, decide_review, get_detail, reading, recover_duplicate, resolve_review,
  resume, resume_and_read,
}
use agenda_agent.Review.Sound.{Answers, both, validate_review_decision-Answers}
use agenda_agent.Prelude.Steps.{StepOn, pass}
use agenda_agent.Prelude.Text.{Unicode, codes, text_eq}
use agenda_agent.Prelude.{
  Bool-cases, Error, List, Option, Result, Result-cases, [], err, exists, false, inl, inr, none, ok,
  refl, some, true, ◌++◌, ◌==◌, ◌&&◌, ◌∷◌, ok-injective, subst, sym, ◌≡◌, ◌⊎◌, ==→≡, >>=-eq-ok,
}

-- A property of a step that starts with a read holds if it holds when the read fails and when not.
pass-read :
    {W A B : Type 0} (P : W × Result B → Type 0) (w : W) (r : Result A) (f : A → StepOn W B)
    → ((e : Error) → P (w, err e))
    → ((a : A) → r ≡ ok a → P (f a w))
    → P (pass (w, r) f)
unfolding pass
pass-read P w (err e) f failed rest = failed e
pass-read P w (ok a) f failed rest = rest a refl

or_conflict-ok :
    {decision : ReviewDecision} (r : Result ReviewDecision)
    → or_conflict r ≡ ok decision
    → r ≡ ok decision
unfolding or_conflict
or_conflict-ok (ok d) h = h
or_conflict-ok (err e) h = cc

module _ (ports : ReviewPorts) (account_id review_id : Uuid) (answer : ReviewAnswer) where
  -- An open review, as the client saw it.
  abbrev IsCurrent : ReviewDetail → Type 0
  IsCurrent detail =
      (text_eq detail.status (codes "open") ≡ true) × (detail.version ≡ answer.expected_version)

  -- A review that was resolved with the same decision, whose workflow was left behind.
  abbrev IsStranded : ports.Database → ReviewDetail → ReviewDecision → Type 0
  IsStranded database detail decision =
      (text_eq detail.status (codes "resolved") ≡ true)
      × (has_resolution detail.resolution decision ≡ true)
      × ((items : List ReviewQueueItem) × (ports.list_open account_id database ≡ ok items)
          × (exists (is_follow_up detail.source_email_id) items ≡ false))
      × (is_final detail.run_status ≡ false)

  -- The world behind one resume.
  abbrev resumed_world : ReviewWorld ports → ReviewDetail → ReviewDecision → ReviewWorld ports
  resumed_world w detail decision = record {
    database =
        (ports.resumer detail.processing_run_id detail.source_email_id decision w.database).0;
    resumed =
        w.resumed
        ++ record {
          processing_run_id = detail.processing_run_id;
          source_email_id = detail.source_email_id;
          decision = decision;
        }
          ∷ [];
  }

  abbrev MayResume : ReviewWorld ports → ReviewDetail → ReviewDecision → Type 0
  MayResume w detail decision = IsCurrent detail ⊎ IsStranded w.database detail decision

  -- Nothing happened, or one resume that was allowed.
  abbrev Decides :
      ReviewWorld ports
      → ReviewDetail
      → ReviewDecision
      → ReviewWorld ports × Result ReviewDetail
      → Type 0
  Decides w detail decision out =
      (out.0 ≡ w) ⊎ (MayResume w detail decision × (out.0 ≡ resumed_world w detail decision))

  Keeps : {A : Type 0} → ReviewWorld ports → ReviewWorld ports × Result A → Type 0
  Keeps v out = out.0 ≡ v

  get_detail-keeps : (id : Uuid) (v : ReviewWorld ports) → (get_detail ports account_id id v).0 ≡ v
  unfolding get_detail reading Keeps pass
  get_detail-keeps id v =
      pass-read (Keeps v) v (ports.find_detail account_id id v.database)
        (λ found. reading ports (λ database. own_detail account_id found)) (λ e. refl) (λ a h. refl)

  resume_and_read-world :
      (id : Uuid) (detail : ReviewDetail) (decision : ReviewDecision) (w : ReviewWorld ports)
      → (resume_and_read ports account_id id detail decision w).0 ≡ resumed_world w detail decision
  unfolding resume_and_read resume Keeps
  resume_and_read-world id detail decision w =
      pass-read (Keeps (resumed_world w detail decision)) (resumed_world w detail decision)
        (ports.resumer detail.processing_run_id detail.source_email_id decision w.database).1
        (λ resumed. get_detail ports account_id id) (λ e. refl)
        (λ a h. get_detail-keeps id (resumed_world w detail decision))

  recover_duplicate-Decides :
      (detail : ReviewDetail) (decision : ReviewDecision) (w : ReviewWorld ports)
      → Decides w detail decision (recover_duplicate ports account_id detail decision w)
  unfolding recover_duplicate reading
  recover_duplicate-Decides detail decision w =
      let repeated =
        text_eq detail.status (codes "resolved") && has_resolution detail.resolution decision in
      elim (Bool-cases repeated) [
        | inr other ↦ rw (other, recover_duplicate) (inl refl)
        | inl again ↦
            rw (again, recover_duplicate)
              (pass-read (Decides w detail decision) w (ports.list_open account_id w.database) _
                (λ e. inl refl)
                (λ items opened.
                  elim (Bool-cases (exists (is_follow_up detail.source_email_id) items)) [
                    | inl follow ↦ rw follow (inl refl)
                    | inr alone ↦ elim (Bool-cases (is_final detail.run_status)) [
                      | inl final ↦ rw (alone, final) (inl refl)
                      | inr behind ↦
                          let (resolved, same) = both _ _ again in
                          rw (alone, behind)
                            (inr (
                              inr (resolved, same, (items, opened, alone), refl),
                              resume_and_read-world detail.id detail decision w,
                            ))
                    ]
                  ]))
      ]

  decide_review-Decides :
      (detail : ReviewDetail) (decision : ReviewDecision) (w : ReviewWorld ports)
      → Decides w detail decision
          (decide_review ports account_id review_id detail answer decision w)
  unfolding decide_review
  decide_review-Decides detail decision w =
      elim (Bool-cases (text_eq detail.status (codes "open"))) [
        | inr over ↦
            let same : decide_review ports account_id review_id detail answer decision w
                ≡ recover_duplicate ports account_id detail decision w =
              rw (over, decide_review) refl in
            subst (Decides w detail decision) (sym same)
              (recover_duplicate-Decides detail decision w)
        | inl opened ↦ elim (Bool-cases (detail.version == answer.expected_version)) [
          | inr old ↦ rw (opened, old, decide_review) (inl refl)
          | inl same ↦
              rw (opened, same, decide_review)
                (inr (inl (refl, ==→≡ _ _ same), resume_and_read-world review_id detail decision w))
        ]
      ]

  -- The account's own review.
  abbrev IsOwn : ReviewWorld ports → ReviewDetail → Type 0
  IsOwn w detail =
      (ports.find_detail account_id review_id w.database ≡ ok (some detail))
      × (detail.account_id ≡ account_id)

  own_detail-IsOwn :
      (w : ReviewWorld ports) (looked_up : Option ReviewDetail) (detail : ReviewDetail)
      → ports.find_detail account_id review_id w.database ≡ ok looked_up
      → own_detail account_id looked_up ≡ ok detail
      → IsOwn w detail
  unfolding own_detail
  own_detail-IsOwn w none detail h own = cc
  own_detail-IsOwn w (some known) detail h own =
      elim (Bool-cases (known.account_id == account_id)) [
        | inr other ↦ cc (rw other at own)
        | inl mine ↦
            let same : known ≡ detail = ok-injective (rw mine at own) in
            subst (IsOwn w) same (h, ==→≡ _ _ mine)
      ]

  -- A read of the review gives an exception, or the account's own review.
  get_detail-cases :
      (w : ReviewWorld ports)
      → ((e : Error) × (get_detail ports account_id review_id w ≡ (w, err e)))
        ⊎ ((detail : ReviewDetail) × (get_detail ports account_id review_id w ≡ (w, ok detail))
            × IsOwn w detail)
  unfolding get_detail reading pass
  get_detail-cases w = elim (Result-cases (ports.find_detail account_id review_id w.database)) [
    | inr (e, failed) ↦ inl (e, rw (failed, get_detail) refl)
    | inl (looked_up, h) ↦ elim (Result-cases (own_detail account_id looked_up)) [
      | inr (e, failed) ↦ inl (e, rw (h, failed, get_detail) refl)
      | inl (detail, own) ↦
          inr (detail, rw (h, own, get_detail) refl, own_detail-IsOwn w looked_up detail h own)
    ]
  ]

  module _ (u : Unicode) (library : TimeLibrary) where
    -- A resume that is due to the account's own review and a decision that answers its question.
    abbrev pub IsJustified : ReviewWorld ports → ReviewWorld ports → Type 0
    IsJustified w v =
        (detail : ReviewDetail) × (request : ReviewRequest) × (decision : ReviewDecision) × IsOwn w
          detail
        × (request_for u detail ≡ ok request)
        × (decision_for u library request answer ≡ ok decision)
        × Answers u library request decision
        × MayResume w detail decision
        × (v ≡ resumed_world w detail decision)

    -- No change, or such a resume.
    abbrev pub IsSafe : ReviewWorld ports → ReviewWorld ports × Result ReviewDetail → Type 0
    IsSafe w out = (out.0 ≡ w) ⊎ IsJustified w out.0

    decision_for-Answers :
        (request : ReviewRequest) (decision : ReviewDecision)
        → decision_for u library request answer ≡ ok decision
        → Answers u library request decision
    unfolding decision_for
    decision_for-Answers request decision h =
        let (checked, is_checked, valid) =
          >>=-eq-ok _ (validate_review_decision u library request) (or_conflict-ok _ h) in
        validate_review_decision-Answers u library request checked decision valid

    pub resolve_review-IsSafe :
        (w : ReviewWorld ports)
        → IsSafe w (resolve_review ports u library account_id review_id answer w)
    unfolding resolve_review pass reading
    resolve_review-IsSafe w = elim (get_detail-cases w) [
      | inl (e, failed) ↦ rw (failed, resolve_review) (inl refl)
      | inr (detail, read, own) ↦
          rw (read, resolve_review)
            (pass-read (IsSafe w) w (request_for u detail) _ (λ e. inl refl)
              (λ request asked.
                pass-read (IsSafe w) w (decision_for u library request answer) _ (λ e. inl refl)
                  (λ decision valid. elim (decide_review-Decides detail decision w) [
                    | inl same ↦ inl same
                    | inr (allowed, world) ↦ inr (
                      detail,
                      request,
                      decision,
                      own,
                      asked,
                      valid,
                      decision_for-Answers request decision valid,
                      allowed,
                      world,
                    )
                  ])))
    ]
