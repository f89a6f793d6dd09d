-- ===== src/Review/Service.antt =====
-- application/reviews.py: `ReviewService`. An awaited resume of the workflow runs to its end.
use agenda_agent.Domain.Digest.{Uuid}
use agenda_agent.Review.Decision.{ReviewDecision, TimeLibrary}
use agenda_agent.Review.Answer.{
  ReviewAnswer, ReviewDetail, ReviewQueueItem, decision_for, has_resolution, is_final, is_follow_up,
  own_detail, request_for, stale,
}
use agenda_agent.Prelude.Steps.{StepOn, ◌>>=◌, done, raise}
use agenda_agent.Prelude.Text.{Unicode, codes, text_eq}
use agenda_agent.Prelude.{
  List, Option, Result, [], exists, find, if◌then◌else◌, none, not, some, ◌&&◌, ◌++◌, ◌==◌, ◌∷◌,
}

-- The store of the reviews and the workflow, as the service uses them.
pub record ReviewPorts : Type 1 where
  pub Database : Type 0
  pub list_open : Uuid → Database → Result (List ReviewQueueItem)
  pub find_detail : Uuid → Uuid → Database → Result (Option ReviewDetail)
  pub resumer : Uuid → Uuid → ReviewDecision → StepOn Database (Unit {0})

-- A call of the workflow.
pub record Resume : Type 0 where
  pub processing_run_id : Uuid
  pub source_email_id : Uuid
  pub decision : ReviewDecision

module _ (ports : ReviewPorts) where
  -- The store and the workflow, with the calls of the workflow so far.
  pub record ReviewWorld : Type 0 where
    pub database : ports.Database
    pub resumed : List Resume

  -- A call of the store.
  unfoldable pub reading : {A : Type 0} → (ports.Database → Result A) → StepOn ReviewWorld A
  reading read w = (w, read w.database)

  unfoldable pub get_detail : Uuid → Uuid → StepOn ReviewWorld ReviewDetail
  get_detail account_id review_id =
      reading (ports.find_detail account_id review_id)
      >>= (λ detail. reading (λ database. own_detail account_id detail))

  unfoldable pub next_open_for_source : Uuid → Uuid → Uuid → StepOn ReviewWorld (Option Uuid)
  next_open_for_source account_id source_email_id excluding_review_id =
      reading (ports.list_open account_id) >>= (λ items.
        done
          (elim (find
            (λ item.
              item.source_email_id == source_email_id && not (item.id == excluding_review_id))
            items) [ some item ↦ some item.id | none ↦ none ]))

  -- The awaited resume of the workflow.
  unfoldable pub resume : ReviewDetail → ReviewDecision → StepOn ReviewWorld (Unit {0})
  resume detail decision w =
      let out = ports.resumer detail.processing_run_id detail.source_email_id decision w.database in
      (
        record {
          database = out.0;
          resumed =
              w.resumed
              ++ record {
                processing_run_id = detail.processing_run_id;
                source_email_id = detail.source_email_id;
                decision = decision;
              }
                ∷ [];
        },
        out.1,
      )

  unfoldable pub resume_and_read :
      Uuid → Uuid → ReviewDetail → ReviewDecision → StepOn ReviewWorld ReviewDetail
  resume_and_read account_id review_id detail decision =
      resume detail decision >>= (λ resumed. get_detail account_id review_id)

  unfoldable pub recover_duplicate :
      Uuid → ReviewDetail → ReviewDecision → StepOn ReviewWorld ReviewDetail
  recover_duplicate account_id detail decision =
      if not (text_eq detail.status (codes "resolved") && has_resolution detail.resolution decision)
      then raise stale
      else reading (ports.list_open account_id) >>= (λ items.
        if exists (is_follow_up detail.source_email_id) items
        then done detail
        else if is_final detail.run_status
        then done detail
        else resume_and_read account_id detail.id detail decision)

  -- What `resolve` does with a decision that it accepts.
  unfoldable pub decide_review :
      Uuid → Uuid → ReviewDetail → ReviewAnswer → ReviewDecision → StepOn ReviewWorld ReviewDetail
  decide_review account_id review_id detail answer decision =
      if not (text_eq detail.status (codes "open"))
      then recover_duplicate account_id detail decision
      else if not (detail.version == answer.expected_version)
      then raise stale
      else resume_and_read account_id review_id detail decision

  module _ (u : Unicode) (library : TimeLibrary) where
    unfoldable pub resolve_review : Uuid → Uuid → ReviewAnswer → StepOn ReviewWorld ReviewDetail
    resolve_review account_id review_id answer = get_detail account_id review_id >>= (λ detail.
        reading (λ database. request_for u detail) >>= (λ request.
          reading (λ database. decision_for u library request answer)
          >>= (λ decision. decide_review account_id review_id detail answer decision)))
