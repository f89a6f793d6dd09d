-- ===== src/Brief/Send.antt =====
-- application/daily_brief.py: `DailyBriefService.send_today`.
use agenda_agent.Prelude.Steps.{◌>>=◌, pass, StepOn, done, raise}
use agenda_agent.Domain.Digest.{Datetime, Uuid}
use agenda_agent.Brief.Dispatch.{
  BriefDispatchStatus, BriefWorld, claim_dispatch, mark_accepted, mark_failed, Date,
}
use agenda_agent.Prelude.{
  Bool, Error, Result, [], application_error, brief_send_uncertain, err, false, if◌then◌else◌, none,
  ok, or_else, some, true, ◌∷◌,
}
use agenda_agent.Prelude.Text.{Text, codes}
use agenda_agent.Prelude.Codes.{code_of}

-- What a service is built with, what it is called with, and what it meets: the day of its clock in its
-- time zone, the identity of the day's audit, what rendering and the mail gateway answer, and the
-- clock of the store.
pub record BriefContext : Type 0 where
  pub account_id : Uuid
  pub recipient : Text
  pub timezone : Text
  pub today : Date
  pub identity : Uuid
  pub render : Result Text
  pub send_brief : Text → Result (Unit {0})
  pub claimed_at : Datetime
  pub ended_at : Datetime

abbrev pub is_uncertain_send : Error → Bool
is_uncertain_send (brief_send_uncertain _) = true
is_uncertain_send _ = false

module _ (x : BriefContext) where
  -- Close the dispatch as failed, then raise.
  unfoldable pub close_with : BriefDispatchStatus → Text → Error → StepOn BriefWorld Bool
  close_with status code e =
      mark_failed x.account_id x.today status code x.ended_at >>= (λ closed. raise e)

  -- The `except` clauses, by whether the mail was handed over.
  unfoldable pub give_up : Bool → Error → StepOn BriefWorld Bool
  give_up send_started e =
      if is_uncertain_send e
      then close_with BriefDispatchStatus.uncertain (or_else (code_of e) []) e
      else elim (code_of e) [
        | some code ↦ close_with BriefDispatchStatus.failed code e
        | none ↦
            if send_started
            then close_with BriefDispatchStatus.uncertain (codes "BRIEF_SEND_UNEXPECTED")
                (brief_send_uncertain "Daily Brief delivery outcome is uncertain")
            else close_with BriefDispatchStatus.failed (codes "BRIEF_GENERATION_FAILED")
                (application_error "BRIEF_SEND_FAILED")
      ]

  -- The `try` and what follows it.
  unfoldable pub deliver : StepOn BriefWorld Bool
  deliver w = elim x.render [
    | err e ↦ give_up false e w
    | ok brief ↦
        let v = record w { sent = x.recipient ∷ w.sent } in
        elim (x.send_brief brief) [
          | err e ↦ give_up true e v
          | ok done_so ↦
              pass (mark_accepted x.account_id x.today x.ended_at v) (λ marked. done true)
        ]
  ]

  unfoldable pub send_today : StepOn BriefWorld Bool
  send_today =
      claim_dispatch x.account_id x.today x.identity x.timezone x.claimed_at
      >>= (λ claimed. if claimed then deliver else done false)
