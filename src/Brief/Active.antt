-- ===== src/Brief/Active.antt =====
-- The row of the day under claims and ends.
use agenda_agent.Domain.Digest.{Datetime, Uuid}
use agenda_agent.Brief.Dispatch.{
  BriefDispatchStatus, BriefRow, BriefWorld, claim_dispatch, follow_decision, is_brief,
  is_dispatching, resolve_dispatch_claim, set_status, write_brief, Date, abandoned, ended,
  claimed_again, first_attempt,
}
use agenda_agent.Prelude.{
  Bool-cases, Option, find, find-eq-some, inl, inr, none, ok, refl, some, true, ◌<◌, ◌∙◌, ◌≡◌, ◌⊎◌,
  Bool, Option-cases, Result, [], arith, err, exists, false, ℕ, ◌++◌, ◌==◌, ◌∷◌, integrity_error,
}
use agenda_agent.Prelude.Text.{Text}
use agenda_agent.Prelude.Rows.{find-update_where}

abbrev pub brief_of : Uuid → Date → BriefWorld → Option BriefRow
brief_of account day w = find (is_brief account day) w.briefs

-- Only a dispatch of fewer than three attempts is claimed again.
claim-few :
    (status : BriefDispatchStatus) (attempts : ℕ) (started_at now : Datetime)
    → (resolve_dispatch_claim status attempts started_at now).claim ≡ true
    → attempts < 3
unfolding resolve_dispatch_claim
claim-few BriefDispatchStatus.dispatching attempts started_at now h = cc
claim-few BriefDispatchStatus.accepted attempts started_at now h = cc
claim-few BriefDispatchStatus.uncertain attempts started_at now h = cc
claim-few BriefDispatchStatus.failed attempts started_at now h = ground arith

pub first_attempt-is_brief :
    (identity account : Uuid) (day : Date) (timezone : Text) (now : Datetime)
    → is_brief account day (first_attempt identity account day timezone now) ≡ true
first_attempt-is_brief identity account day timezone now = ground arith

module _ (account : Uuid) (day : Date) where
  -- A write is seen by the lookup.
  pub brief_of-write :
      (write : BriefRow → BriefRow) (w : BriefWorld) {m : BriefRow}
      → ((n : BriefRow) → is_brief account day (write n) ≡ is_brief account day n)
      → brief_of account day w ≡ some m
      → brief_of account day (write_brief account day write w) ≡ some (write m)
  brief_of-write write w {m} keep h =
      let its = is_brief account day in
      let (_, hit) = find-eq-some its w.briefs h in
      find-update_where its its write w.briefs
        (λ n. elim (Bool-cases (its n)) [ inl q ↦ rw q (keep n ∙ q) | inr q ↦ rw q q ]) h
      ∙ rw hit refl

  -- A dispatch that is active is ended.
  pub set_status-active :
      (status : BriefDispatchStatus) (code : Option Text) (now : Datetime) (w : BriefWorld)
      {m : BriefRow}
      → brief_of account day w ≡ some m
      → is_dispatching m.status ≡ true
      → set_status account day status code now w
        ≡ (write_brief account day (ended status code now) w, ok tt)
  unfolding set_status
  set_status-active status code now w h active = rw (h, active, set_status) refl

  -- How a claim of the day ends: it is refused, it closes a dispatch that was abandoned, or it takes
  -- the day for the first time or again.
  abbrev pub ClaimCases : BriefWorld → Datetime → BriefRow → BriefWorld × Result Bool → Type 0
  ClaimCases w now fresh out =
      (out ≡ (w, err (integrity_error "daily_briefs_pkey")))
      ⊎ ((out ≡ (w, ok false))
          ⊎ (((old : BriefRow) × (brief_of account day w ≡ some old)
                × (out ≡ (write_brief account day abandoned w, ok false)))
              ⊎ (((brief_of account day w ≡ none)
                    × (out ≡ (record w { briefs = w.briefs ++ fresh ∷ [] }, ok true)))
                  ⊎ ((old : BriefRow) × (brief_of account day w ≡ some old)
                      × (old.attempt_count < 3)
                      × (out ≡ (write_brief account day (claimed_again now) w, ok true))))))

  pub claim_dispatch-cases :
      (identity : Uuid) (timezone : Text) (now : Datetime) (w : BriefWorld)
      → ClaimCases w now
          (first_attempt identity account day timezone now)
          (claim_dispatch account day identity timezone now w)
  unfolding claim_dispatch follow_decision
  claim_dispatch-cases identity timezone now w = elim (Option-cases (brief_of account day w)) [
    | inl fresh ↦ elim (Bool-cases (exists (λ (m : BriefRow). m.id == identity) w.briefs)) [
      | inl clash ↦ inl (rw (fresh, clash, claim_dispatch) refl)
      | inr free ↦ inr (inr (inr (inl (fresh, rw (fresh, free, claim_dispatch) refl))))
    ]
    | inr (old, found) ↦
        let d = resolve_dispatch_claim old.status old.attempt_count old.dispatch_started_at now in
        elim (Bool-cases d.mark_abandoned) [
          | inl lost ↦
              inr (inr (inl (old, found, rw (found, lost, claim_dispatch, follow_decision) refl)))
          | inr alive ↦ elim (Bool-cases d.claim) [
            | inr no_claim ↦
                inr (inl (rw (found, alive, no_claim, claim_dispatch, follow_decision) refl))
            | inl taken ↦ inr (
                inr (
                  inr (
                    inr (
                      old,
                      found,
                      claim-few old.status old.attempt_count old.dispatch_started_at now taken,
                      rw (found, alive, taken, claim_dispatch, follow_decision) refl,
                    ))))
          ]
        ]
  ]
