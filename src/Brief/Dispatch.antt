-- ===== src/Brief/Dispatch.antt =====
-- The audit of the day: `resolve_dispatch_claim` (application/daily_brief.py) and the claims and ends of
-- a dispatch in `SqlAlchemyDailyBriefStore` (persistence/daily_brief.py).
use agenda_agent.Domain.Digest.{Datetime, Uuid}
use agenda_agent.Prelude.{
  Bool, List, Option, [], err, false, find, if◌then◌else◌, integrity_error, leb, ltb, none, not, ok,
  runtime_error, some, true, update_where, ℕ, ◌&&◌, ◌++◌, ◌+◌, ◌==◌, ◌∷◌, exists,
}
use agenda_agent.Prelude.Text.{Text, codes}
use agenda_agent.Prelude.Steps.{StepOn}

pub data BriefDispatchStatus : Type 0 where
  dispatching accepted failed uncertain : BriefDispatchStatus

-- A day, by its number.
abbrev pub Date : Type 0
Date = ℕ

-- `DISPATCH_LEASE`, 10 minutes in microseconds
abbrev pub dispatch_lease : ℕ
dispatch_lease = 600000000

abbrev pub max_dispatch_attempts : ℕ
max_dispatch_attempts = 3

abbrev pub dispatch_abandoned : Text
dispatch_abandoned = codes "BRIEF_DISPATCH_ABANDONED"

pub record DispatchClaimDecision : Type 0 where
  pub claim : Bool
  pub mark_abandoned : Bool

-- `resolve_dispatch_claim`; `now - dispatch_started_at >= DISPATCH_LEASE`
unfoldable pub resolve_dispatch_claim :
    BriefDispatchStatus → ℕ → Datetime → Datetime → DispatchClaimDecision
resolve_dispatch_claim BriefDispatchStatus.dispatching attempts started_at now = record {
  claim = false;
  mark_abandoned = leb (started_at + dispatch_lease) now;
}
resolve_dispatch_claim BriefDispatchStatus.failed attempts started_at now = record {
  claim = ltb attempts max_dispatch_attempts;
  mark_abandoned = false;
}
resolve_dispatch_claim _ attempts started_at now = record { claim = false; mark_abandoned = false }

-- `DailyBriefModel`
pub record BriefRow : Type 0 where
  pub id : Uuid
  pub account_id : Uuid
  pub brief_date : Date
  pub timezone : Text
  pub status : BriefDispatchStatus
  pub attempt_count : ℕ
  pub dispatch_started_at : Datetime
  pub accepted_at : Option Datetime
  pub error_code : Option Text

-- What a dispatch writes to, and the briefs that were handed to the mail gateway, by recipient.
pub record BriefWorld : Type 0 where
  pub briefs : List BriefRow
  pub sent : List Text

abbrev pub is_dispatching : BriefDispatchStatus → Bool
is_dispatching BriefDispatchStatus.dispatching = true
is_dispatching _ = false

abbrev pub is_accepted : BriefDispatchStatus → Bool
is_accepted BriefDispatchStatus.accepted = true
is_accepted _ = false

-- The row that `claim_dispatch` inserts.
abbrev pub first_attempt : Uuid → Uuid → Date → Text → Datetime → BriefRow
first_attempt identity account day timezone now = record {
  id = identity;
  account_id = account;
  brief_date = day;
  timezone = timezone;
  status = BriefDispatchStatus.dispatching;
  attempt_count = 1;
  dispatch_started_at = now;
  accepted_at = none;
  error_code = none;
}

abbrev pub abandoned : BriefRow → BriefRow
abandoned m = record m {
  status = BriefDispatchStatus.uncertain;
  error_code = some dispatch_abandoned;
}

abbrev pub claimed_again : Datetime → BriefRow → BriefRow
claimed_again now m = record m {
  status = BriefDispatchStatus.dispatching;
  attempt_count = m.attempt_count + 1;
  dispatch_started_at = now;
  error_code = none;
}

abbrev pub ended : BriefDispatchStatus → Option Text → Datetime → BriefRow → BriefRow
ended status error_code now m = record m {
  status = status;
  error_code = error_code;
  accepted_at = if is_accepted status then some now else m.accepted_at;
}

module _ (account : Uuid) (day : Date) where
  abbrev pub is_brief : BriefRow → Bool
  is_brief m = (m.account_id == account) && (m.brief_date == day)

  abbrev pub write_brief : (BriefRow → BriefRow) → BriefWorld → BriefWorld
  write_brief write w = record w { briefs = update_where is_brief write w.briefs }

  -- What a decision does to the row.
  unfoldable pub follow_decision : Datetime → DispatchClaimDecision → StepOn BriefWorld Bool
  follow_decision now d w =
      if d.mark_abandoned
      then (write_brief abandoned w, ok false)
      else if not d.claim
      then (w, ok false)
      else (write_brief (claimed_again now) w, ok true)

  -- `claim_dispatch`: the insert, which does nothing where there is a row of the day, or the claim of
  -- that row.
  unfoldable pub claim_dispatch : Uuid → Text → Datetime → StepOn BriefWorld Bool
  claim_dispatch identity timezone now w = elim (find is_brief w.briefs) [
    | some m ↦
        follow_decision now
          (resolve_dispatch_claim m.status m.attempt_count m.dispatch_started_at now) w
    | none ↦
        if exists (λ (m : BriefRow). m.id == identity) w.briefs
        then (w, err (integrity_error "daily_briefs_pkey"))
        else (
          record w { briefs = w.briefs ++ first_attempt identity account day timezone now ∷ [] },
          ok true,
        )
  ]

  -- `_set_status`
  unfoldable pub set_status : BriefDispatchStatus → Option Text → Datetime → StepOn BriefWorld Unit
  set_status status error_code now w = elim (find is_brief w.briefs) [
    | none ↦ (w, err (runtime_error "Daily Brief dispatch state is not active"))
    | some m ↦
        if not (is_dispatching m.status)
        then (w, err (runtime_error "Daily Brief dispatch state is not active"))
        else (write_brief (ended status error_code now) w, ok tt)
  ]

  abbrev pub mark_accepted : Datetime → StepOn BriefWorld Unit
  mark_accepted now = set_status BriefDispatchStatus.accepted none now

  abbrev pub mark_failed : BriefDispatchStatus → Text → Datetime → StepOn BriefWorld Unit
  mark_failed status error_code now = set_status status (some error_code) now
