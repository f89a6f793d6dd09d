-- ===== src/Brief/Attempts.antt =====
-- How often a Daily Brief is handed to the mail gateway on a day.
use agenda_agent.Prelude.Steps.{pass, StepOn, done, raise}
use agenda_agent.Domain.Digest.{Datetime, Uuid}
use agenda_agent.Brief.Dispatch.{
  BriefDispatchStatus, BriefRow, BriefWorld, claim_dispatch, is_brief, is_dispatching, set_status,
  Date, ended, abandoned, first_attempt, claimed_again,
}
use agenda_agent.Brief.Send.{
  BriefContext, close_with, deliver, give_up, is_uncertain_send, send_today,
}
use agenda_agent.Prelude.{
  Bool, Bool-cases, List, Option, Result, [], arith, err, inl, inr, length, none, ok, refl, some,
  sym, true, ℕ, ◌+◌, ◌<◌, ◌∷◌, ◌≡◌, ◌≢◌, ◌≤◌, ◌⊎◌, All, Error, Option-cases, Result-cases, false,
  if◌then◌else◌,
}
use agenda_agent.Prelude.Text.{Text}
use agenda_agent.Brief.Active.{
  brief_of, claim_dispatch-cases, brief_of-write, first_attempt-is_brief,
}
use agenda_agent.Prelude.Rows.{find-append_new}
use agenda_agent.Prelude.Codes.{code_of}

-- The runs, one after the other, whatever they return or raise.
unfoldable pub send_all : List BriefContext → BriefWorld → BriefWorld
send_all [] w = w
send_all (x ∷ xs) w = send_all xs (send_today x w).0

module _ (account : Uuid) (day : Date) (n : ℕ) where
  -- There is a row of at most three attempts, and `spare` mails fewer than its attempts allow.
  abbrev Counted : ℕ → BriefWorld → Type 0
  Counted spare w =
      (m : BriefRow) × (brief_of account day w ≡ some m)
      × (m.attempt_count ≤ 3)
      × (spare + length w.sent ≤ n + m.attempt_count)

  abbrev Bounded : BriefWorld → Type 0
  Bounded w = ((brief_of account day w ≡ none) × (length w.sent ≤ n)) ⊎ Counted 0 w

  set_status-Counted :
      (status : BriefDispatchStatus) (code : Option Text) (now : Datetime) (w : BriefWorld)
      → Counted 0 w
      → Counted 0 (set_status account day status code now w).0
  unfolding set_status
  set_status-Counted status code now w (m, found, few, room) =
      elim (Bool-cases (is_dispatching m.status)) [
        | inr idle ↦ rw (found, idle, set_status) (m, found, few, room)
        | inl active ↦
            rw (found, active, set_status)
              (
                ended status code now m,
                brief_of-write account day (ended status code now) w (λ x. refl) found,
                few,
                room,
              )
      ]

  pass-Counted :
      {A : Type 0} (out : BriefWorld × Result A) (f : A → StepOn BriefWorld Bool)
      → ((a : A) (w : BriefWorld) → (f a w).0 ≡ w)
      → Counted 0 out.0
      → Counted 0 (pass out f).0
  unfolding pass
  pass-Counted (w, ok a) f still h = rw (still a w) h
  pass-Counted (w, err e) f still h = h

  -- The row that a claim takes has room for one more mail.
  claim_dispatch-Counted :
      (identity : Uuid) (timezone : Text) (now : Datetime) (w : BriefWorld)
      → Bounded w
      → let out = claim_dispatch account day identity timezone now w in
        ((out.1 ≢ ok true) × Bounded out.0) ⊎ ((out.1 ≡ ok true) × Counted 1 out.0)
  claim_dispatch-Counted identity timezone now w h =
      elim (claim_dispatch-cases account day identity timezone now w) [
        | inl clash ↦ rw clash (inl (λ e. cc, h))
        | inr (inl refused) ↦ rw refused (inl (λ e. cc, h))
        | inr (inr (inl (old, found, lost))) ↦ elim h [
          | inl (fresh, few) ↦ cc (fresh, found)
          | inr (m, its, few, room) ↦ rw lost (
              inl (
                λ e. cc,
                inr (
                  abandoned m,
                  brief_of-write account day abandoned w (λ x. refl) its,
                  few,
                  room,
                ),
              ))
        ]
        | inr (inr (inr (inl (fresh, taken)))) ↦ elim h [
          | inr (m, its, few, room) ↦ cc (fresh, its)
          | inl (new, few) ↦
              let row = first_attempt identity account day timezone now in
              rw taken (
                inr (
                  refl,
                  (
                    row,
                    find-append_new (is_brief account day) w.briefs row fresh
                        (first_attempt-is_brief identity account day timezone now),
                    omega arith,
                    omega (arith, few),
                  ),
                ))
        ]
        | inr (inr (inr (inr (old, found, left, taken)))) ↦ elim h [
          | inl (fresh, few) ↦ cc (fresh, found)
          | inr (m, its, few, room) ↦
              let same : old ≡ m = cc (found, its) in
              let left_too : m.attempt_count < 3 = rw (sym same) left in
              rw taken (
                inr (
                  refl,
                  (
                    claimed_again now m,
                    brief_of-write account day (claimed_again now) w (λ x. refl) its,
                    omega (arith, left_too),
                    omega (arith, room),
                  ),
                ))
        ]
      ]

module _ (x : BriefContext) (n : ℕ) where
  close_with-Counted :
      (status : BriefDispatchStatus) (code : Text) (e : Error) (w : BriefWorld)
      → Counted x.account_id x.today n 0 w
      → Counted x.account_id x.today n 0 (close_with x status code e w).0
  unfolding close_with
  close_with-Counted status code e w h =
      pass-Counted x.account_id x.today n _ (λ closed. raise e) (λ closed v. refl)
        (set_status-Counted x.account_id x.today n status (some code) x.ended_at w h)

  give_up-Counted :
      (send_started : Bool) (e : Error) (w : BriefWorld)
      → Counted x.account_id x.today n 0 w
      → Counted x.account_id x.today n 0 (give_up x send_started e w).0
  unfolding give_up
  give_up-Counted send_started e w h = elim (Bool-cases (is_uncertain_send e)) [
    | inl unsure ↦ rw (unsure, give_up) (close_with-Counted _ _ e w h)
    | inr plain ↦ elim (Option-cases (code_of e)) [
      | inr (code, coded) ↦ rw (plain, coded, give_up) (close_with-Counted _ code e w h)
      | inl other ↦ elim (Bool-cases send_started) [
        | inl started ↦ rw (plain, other, started, give_up) (close_with-Counted _ _ _ w h)
        | inr early ↦ rw (plain, other, early, give_up) (close_with-Counted _ _ _ w h)
      ]
    ]
  ]

  deliver-Counted :
      (w : BriefWorld)
      → Counted x.account_id x.today n 1 w
      → Counted x.account_id x.today n 0 (deliver x w).0
  unfolding deliver
  deliver-Counted w (m, found, few, room) = elim (Result-cases x.render) [
    | inr (e, failed) ↦
        rw (failed, deliver) (give_up-Counted false e w (m, found, few, omega (arith, room)))
    | inl (brief, rendered) ↦
        let v : BriefWorld = record w { sent = x.recipient ∷ w.sent } in
        elim (Result-cases (x.send_brief brief)) [
          | inr (e, failed) ↦
              rw (rendered, failed, deliver)
                (give_up-Counted true e v (m, found, few, omega (arith, room)))
          | inl (done_so, sent) ↦
              rw (rendered, sent, deliver)
                (pass-Counted x.account_id x.today n _ (λ marked. done true) (λ marked v'. refl)
                  (set_status-Counted x.account_id x.today n BriefDispatchStatus.accepted none
                    x.ended_at v (m, found, few, omega (arith, room))))
        ]
  ]

  claimed-Bounded :
      (out : BriefWorld × Result Bool)
      → ((out.1 ≢ ok true) × Bounded x.account_id x.today n out.0)
        ⊎ ((out.1 ≡ ok true) × Counted x.account_id x.today n 1 out.0)
      → Bounded x.account_id x.today n
          (pass out (λ claimed. if claimed then deliver x else done false)).0
  unfolding pass
  claimed-Bounded (w, err e) (inl h) = h.1
  claimed-Bounded (w, err e) (inr h) = cc (h.0)
  claimed-Bounded (w, ok false) (inl h) = h.1
  claimed-Bounded (w, ok false) (inr h) = cc (h.0)
  claimed-Bounded (w, ok true) (inl h) = absurd (h.0 refl)
  claimed-Bounded (w, ok true) (inr h) = inr (deliver-Counted w h.1)

  send_today-Bounded :
      (w : BriefWorld)
      → Bounded x.account_id x.today n w
      → Bounded x.account_id x.today n (send_today x w).0
  unfolding send_today
  send_today-Bounded w h =
      claimed-Bounded (claim_dispatch x.account_id x.today x.identity x.timezone x.claimed_at w)
        (claim_dispatch-Counted x.account_id x.today n x.identity x.timezone x.claimed_at w h)

-- Runs of one account on one day.
abbrev pub AreOf : Uuid → Date → List BriefContext → Type 0
AreOf account day xs = All (λ x. (x.account_id ≡ account) × (x.today ≡ day)) xs

send_all-Bounded :
    (account : Uuid) (day : Date) (n : ℕ) (xs : List BriefContext) (w : BriefWorld)
    → AreOf account day xs
    → Bounded account day n w
    → Bounded account day n (send_all xs w)
unfolding send_all
send_all-Bounded account day n [] w its h = h
send_all-Bounded account day n (x ∷ xs) w ((same, today), its) h =
    send_all-Bounded account day n xs (send_today x w).0 its
      (rw (sym same, sym today) (send_today-Bounded x n w (rw (same, today) h)))

-- On a day without an audit yet, any number of runs of an account, whatever rendering and the mail
-- gateway answer and whenever they are made, hand the Daily Brief to the mail gateway at most three
-- times.
pub send_all-length :
    (account : Uuid) (day : Date) (xs : List BriefContext) (w : BriefWorld)
    → AreOf account day xs
    → brief_of account day w ≡ none
    → length (send_all xs w).sent ≤ length w.sent + 3
send_all-length account day xs w its fresh =
    elim (send_all-Bounded account day (length w.sent) xs w its (inl (fresh, omega arith))) [
      | inl (_, few) ↦ omega (arith, few)
      | inr (m, found, few, room) ↦ omega (arith, few, room)
    ]
