-- ===== src/Brief/Once.antt =====
-- A Daily Brief that may have arrived is not sent again.
use agenda_agent.Prelude.Steps.{pass, done}
use agenda_agent.Domain.Digest.{Datetime}
use agenda_agent.Brief.Dispatch.{
  BriefDispatchStatus, BriefRow, BriefWorld, claim_dispatch, follow_decision, is_brief,
  is_dispatching, resolve_dispatch_claim, write_brief, ended, first_attempt, claimed_again,
}
use agenda_agent.Brief.Send.{
  BriefContext, close_with, deliver, give_up, is_uncertain_send, send_today,
}
use agenda_agent.Prelude.{
  Bool, Error, Result, err, false, ok, refl, some, true, ℕ, ◌≡◌, Bool-cases, Option, Option-cases,
  Result-cases, inl, inr, none, ◌∷◌, ap, sym, ◌∙◌, if◌then◌else◌,
}
use agenda_agent.Prelude.Text.{Text}
use agenda_agent.Brief.Active.{
  brief_of, set_status-active, brief_of-write, claim_dispatch-cases, first_attempt-is_brief,
}
use agenda_agent.Prelude.Codes.{code_of}
use agenda_agent.Prelude.Rows.{find-append_new}

-- The mail arrived, or it may have.
abbrev pub is_over : BriefDispatchStatus → Bool
is_over BriefDispatchStatus.accepted = true
is_over BriefDispatchStatus.uncertain = true
is_over _ = false

-- A run that returns that it sent the mail, or raises that it may have.
abbrev pub may_have_sent : Result Bool → Bool
may_have_sent (ok sent) = sent
may_have_sent (err e) = is_uncertain_send e

resolve-over :
    (status : BriefDispatchStatus) (attempts : ℕ) (started_at now : Datetime)
    → is_over status ≡ true
    → resolve_dispatch_claim status attempts started_at now
      ≡ record { claim = false; mark_abandoned = false }
unfolding resolve_dispatch_claim
resolve-over BriefDispatchStatus.accepted attempts started_at now h = refl
resolve-over BriefDispatchStatus.uncertain attempts started_at now h = refl
resolve-over BriefDispatchStatus.dispatching attempts started_at now h = cc
resolve-over BriefDispatchStatus.failed attempts started_at now h = cc

abbrev result_of : BriefWorld × Result Bool → Result Bool
result_of out = out.1

abbrev tables_of : BriefWorld × Result Bool → BriefWorld
tables_of out = out.0

err-injective : {a b : Error} → Path (Result Bool) (err a) (err b) → a ≡ b
err-injective h = cc

module _ (x : BriefContext) where
  -- The day is over.
  abbrev IsOver : BriefWorld → Type 0
  IsOver w = (m : BriefRow) × (brief_of x.account_id x.today w ≡ some m) × (is_over m.status ≡ true)

  send_today-over : (w : BriefWorld) → IsOver w → send_today x w ≡ (w, ok false)
  unfolding send_today claim_dispatch follow_decision pass
  send_today-over w (m, found, over) =
      let refused : claim_dispatch x.account_id x.today x.identity x.timezone x.claimed_at w
          ≡ (w, ok false) =
        rw
          (
            found,
            resolve-over m.status m.attempt_count m.dispatch_started_at x.claimed_at over,
            claim_dispatch,
            follow_decision,
          )
          refl in
      rw (refused, send_today, pass) (rw refused refl)

  -- A dispatch is under way.
  abbrev IsActive : BriefWorld → Type 0
  IsActive w =
      (m : BriefRow) × (brief_of x.account_id x.today w ≡ some m) × (is_dispatching m.status ≡ true)

  close_with-active :
      (status : BriefDispatchStatus) (code : Text) (e : Error) (w : BriefWorld)
      → IsActive w
      → close_with x status code e w
        ≡ (write_brief x.account_id x.today (ended status (some code) x.ended_at) w, err e)
  unfolding close_with pass
  close_with-active status code e w (m, found, active) =
      let out =
        set_status-active x.account_id x.today status (some code) x.ended_at w found active in
      rw (out, close_with, pass) (rw out refl)

  ends-IsOver :
      (status : BriefDispatchStatus) (code : Option Text) (w : BriefWorld)
      → is_over status ≡ true
      → IsActive w
      → IsOver (write_brief x.account_id x.today (ended status code x.ended_at) w)
  ends-IsOver status code w over (m, found, active) = (
    ended status code x.ended_at m,
    brief_of-write x.account_id x.today (ended status code x.ended_at) w (λ n. refl) found,
    over,
  )

  -- A dispatch that ends with a mail that may have arrived ends the day.
  Closes : BriefWorld × Result Bool → Type 0
  Closes out = may_have_sent out.1 ≡ true → IsOver out.0

  close_with-Closes :
      (status : BriefDispatchStatus) (code : Text) (e : Error) (w : BriefWorld)
      → (is_uncertain_send e ≡ true → is_over status ≡ true)
      → IsActive w
      → Closes (close_with x status code e w)
  unfolding Closes
  close_with-Closes status code e w over active h =
      let out = close_with-active status code e w active in
      rw out (ends-IsOver status (some code) w (over (rw out at h)) active)

  give_up-Closes :
      (send_started : Bool) (e : Error) (w : BriefWorld)
      → IsActive w
      → Closes (give_up x send_started e w)
  unfolding give_up
  give_up-Closes send_started e w active = elim (Bool-cases (is_uncertain_send e)) [
    | inl unsure ↦
        rw (unsure, give_up)
          (close_with-Closes BriefDispatchStatus.uncertain _ e w (λ h. refl) active)
    | inr plain ↦ elim (Option-cases (code_of e)) [
      | inr (code, coded) ↦
          rw (plain, coded, give_up)
            (close_with-Closes BriefDispatchStatus.failed code e w (λ h. cc) active)
      | inl other ↦ elim (Bool-cases send_started) [
        | inl started ↦
            rw (plain, other, started, give_up)
              (close_with-Closes BriefDispatchStatus.uncertain _ _ w (λ h. refl) active)
        | inr early ↦
            rw (plain, other, early, give_up)
              (close_with-Closes BriefDispatchStatus.failed _ _ w (λ h. cc) active)
      ]
    ]
  ]

  deliver-Closes : (w : BriefWorld) → IsActive w → Closes (deliver x w)
  unfolding deliver pass Closes
  deliver-Closes w (m, found, active) = elim (Result-cases x.render) [
    | inr (e, failed) ↦ rw (failed, deliver) (give_up-Closes false e w (m, found, active))
    | inl (brief, rendered) ↦
        let v : BriefWorld = record w { sent = x.recipient ∷ w.sent } in
        elim (Result-cases (x.send_brief brief)) [
          | inr (e, failed) ↦
              rw (rendered, failed, deliver) (give_up-Closes true e v (m, found, active))
          | inl (done_so, sent) ↦
              let out =
                set_status-active x.account_id x.today BriefDispatchStatus.accepted none x.ended_at
                  v found active in
              rw (rendered, sent, deliver)
                (rw (out, pass)
                  (λ h.
                    rw out
                      (ends-IsOver BriefDispatchStatus.accepted none v refl (m, found, active))))
        ]
  ]

  claimed-IsActive :
      (w v : BriefWorld)
      → claim_dispatch x.account_id x.today x.identity x.timezone x.claimed_at w ≡ (v, ok true)
      → IsActive v
  claimed-IsActive w v h =
      elim (claim_dispatch-cases x.account_id x.today x.identity x.timezone x.claimed_at w) [
        | inl refused ↦ cc (ap result_of (sym h ∙ refused))
        | inr (inl refused) ↦ cc (ap result_of (sym h ∙ refused))
        | inr (inr (inl (old, found, lost))) ↦ cc (ap result_of (sym h ∙ lost))
        | inr (inr (inr (inl (fresh, taken)))) ↦
            let row = first_attempt x.identity x.account_id x.today x.timezone x.claimed_at in
            rw (sym (ap tables_of (sym taken ∙ h))) (
              row,
              find-append_new (is_brief x.account_id x.today) w.briefs row fresh
                  (first_attempt-is_brief x.identity x.account_id x.today x.timezone x.claimed_at),
              refl,
            )
        | inr (inr (inr (inr (old, found, few, taken)))) ↦ rw (sym (ap tables_of (sym taken ∙ h))) (
          claimed_again x.claimed_at old,
          brief_of-write x.account_id x.today (claimed_again x.claimed_at) w (λ n. refl) found,
          refl,
        )
      ]

  claimed-Closes :
      (out : BriefWorld × Result Bool)
      → ((v : BriefWorld) → out ≡ (v, ok true) → IsActive v)
      → ((e : Error) → out.1 ≡ err e → is_uncertain_send e ≡ false)
      → Closes (pass out (λ claimed. if claimed then deliver x else done false))
  unfolding pass Closes
  claimed-Closes (w, ok true) active refused = deliver-Closes w (active w refl)
  claimed-Closes (w, ok false) active refused = λ h. cc
  claimed-Closes (w, err e) active refused = λ h. cc (refused e refl, h)

  claim-refused :
      (w : BriefWorld) (e : Error)
      → (claim_dispatch x.account_id x.today x.identity x.timezone x.claimed_at w).1 ≡ err e
      → is_uncertain_send e ≡ false
  claim-refused w e h =
      elim (claim_dispatch-cases x.account_id x.today x.identity x.timezone x.claimed_at w) [
        | inl clash ↦ rw (sym (err-injective (sym (ap result_of clash) ∙ h))) refl
        | inr (inl refused) ↦ cc (sym (ap result_of refused) ∙ h)
        | inr (inr (inl (old, found, lost))) ↦ cc (sym (ap result_of lost) ∙ h)
        | inr (inr (inr (inl (fresh, taken)))) ↦ cc (sym (ap result_of taken) ∙ h)
        | inr (inr (inr (inr (old, found, few, taken)))) ↦ cc (sym (ap result_of taken) ∙ h)
      ]

  send_today-Closes : (w : BriefWorld) → Closes (send_today x w)
  unfolding send_today
  send_today-Closes w =
      claimed-Closes (claim_dispatch x.account_id x.today x.identity x.timezone x.claimed_at w)
        (claimed-IsActive w) (claim-refused w)

-- After a run that sent the Daily Brief, or raised that it may have arrived, every later run of the
-- account on that day returns that it sent nothing, hands nothing to the mail gateway, and leaves
-- the audit as it is.
pub send_today-once :
    (x y : BriefContext) (w : BriefWorld)
    → y.account_id ≡ x.account_id
    → y.today ≡ x.today
    → may_have_sent (send_today x w).1 ≡ true
    → send_today y (send_today x w).0 ≡ ((send_today x w).0, ok false)
unfolding Closes
send_today-once x y w account day sent =
    let (m, found, over) = send_today-Closes x w sent in
    send_today-over y (send_today x w).0 (m, rw (account, day) found, over)
