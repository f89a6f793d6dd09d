-- ===== src/Examples/Brief.antt =====
-- The Daily Brief of a day, sent, and given up three times.
use agenda_agent.Brief.Dispatch.{
  BriefWorld, claim_dispatch, follow_decision, resolve_dispatch_claim, set_status,
}
use agenda_agent.Brief.Send.{BriefContext, send_today, deliver, give_up, close_with}
use agenda_agent.Prelude.{
  List, Result, [], application_error, err, false, length, ok, refl, true, ◌∷◌, ◌≡◌, ◌≤◌,
}
use agenda_agent.Brief.Attempts.{send_all, send_all-length}
use agenda_agent.Prelude.Text.{codes}
use agenda_agent.Brief.Once.{send_today-once, may_have_sent}
use agenda_agent.Prelude.Steps.{pass}

abbrev day_context : Result (Unit {0}) → BriefContext
day_context answer = record {
  account_id = 5;
  recipient = codes "me@example.org";
  timezone = codes "UTC";
  today = 300;
  identity = 70;
  render = ok (codes "brief");
  send_brief = λ brief. answer;
  claimed_at = 1000;
  ended_at = 2000;
}

abbrev no_brief : BriefWorld
no_brief = record { briefs = []; sent = [] }

sends : may_have_sent (send_today (day_context (ok tt)) no_brief).1 ≡ true
unfolding send_today deliver claim_dispatch follow_decision set_status pass give_up close_with
sends = refl

send_today-once_example :
    send_today (day_context (ok tt)) (send_today (day_context (ok tt)) no_brief).0
    ≡ ((send_today (day_context (ok tt)) no_brief).0, ok false)
send_today-once_example =
    send_today-once (day_context (ok tt)) (day_context (ok tt)) no_brief refl refl sends

abbrev failing : BriefContext
failing = day_context (err (application_error "BRIEF_SEND_FAILED"))

abbrev four_runs : List BriefContext
four_runs = failing ∷ failing ∷ failing ∷ failing ∷ []

thrice : length (send_all four_runs no_brief).sent ≡ 3
unfolding send_all send_today deliver claim_dispatch follow_decision resolve_dispatch_claim
    set_status pass give_up close_with
thrice = refl

send_all-length_example : length (send_all four_runs no_brief).sent ≤ 3
send_all-length_example =
    send_all-length 5 300 four_runs no_brief
      ((refl, refl), ((refl, refl), ((refl, refl), ((refl, refl), tt)))) refl
