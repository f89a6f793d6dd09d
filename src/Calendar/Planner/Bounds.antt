-- ===== src/Calendar/Planner/Bounds.antt =====
-- The events that are planned: they pass their checks, and they fit.
use agenda_agent.Calendar.Planner.{
  CalendarContext, safe_text, CalendarPlanner, Slot, minute, slot_for, draft_of, interview_slot,
  assessment_slot, CalendarPlan, check_planner, plan, plan_slot, plan_event, safe_outlook_link,
  outlook_link,
}
use agenda_agent.Prelude.{
  All, Bool-cases, List, [], arith, false, inl, inr, is_empty, length, length-take, refl, suc, take,
  ℕ, ◌||◌, ◌∷◌, ◌≡◌, ◌≤◌, leb, ok, some, sym, ◌*◌, ◌+◌, Bool, Option, Option-cases, ltb, none,
  passed, Error, Result, Result-cases, err, overflow_error, ◌<◌, ◌⊎◌,
}
use agenda_agent.Prelude.Text.{Text, collapse, is_blank, join, split, truthy}
use agenda_agent.Prelude.Text.Words.{IsWord, split-words}
use agenda_agent.Calendar.Models.{CalendarCandidate, check_draft, CalendarEventDraft}
use agenda_agent.Domain.Digest.{Datetime}
use agenda_agent.Domain.Enums.{RecruitmentEventType, is_active}

-- The two letters that texts of the planner begin with are not white space.
pub record LettersShow (x : CalendarContext) : Type 0 where
  pub big_r : x.unicode.is_space 82 ≡ false
  pub big_c : x.unicode.is_space 67 ≡ false

leb_later : (start minutes : ℕ) → 1 ≤ minutes → leb (start + minutes * minute) start ≡ false
leb_later start minutes long = ground (arith, long)

some_minutes : (made slot : Slot) → some made ≡ some slot → made.minutes ≡ slot.minutes
some_minutes made slot h = cc

slot_for-minutes :
    (x : CalendarContext) (p : CalendarPlanner) (c : CalendarCandidate) (t : RecruitmentEventType)
    (slot : Slot)
    → 1 ≤ p.interview_minutes
    → 1 ≤ p.assessment_minutes
    → slot_for x p c t ≡ some slot
    → 1 ≤ slot.minutes
unfolding slot_for
slot_for-minutes x p c RecruitmentEventType.interview slot i a h =
    rw (sym (some_minutes (interview_slot x p c) slot h)) i
slot_for-minutes x p c RecruitmentEventType.interview_reschedule slot i a h =
    rw (sym (some_minutes (interview_slot x p c) slot h)) i
slot_for-minutes x p c RecruitmentEventType.assessment slot i a h =
    rw (sym (some_minutes (assessment_slot x p c) slot h)) a
slot_for-minutes x p c RecruitmentEventType.deadline slot i a h =
    rw (sym (some_minutes (assessment_slot x p c) slot h)) a
slot_for-minutes x p c _ slot i a h = cc

check_planner-positive :
    (p : CalendarPlanner)
    → check_planner p ≡ ok p
    → (1 ≤ p.interview_minutes) × (1 ≤ p.assessment_minutes)
unfolding check_planner
check_planner-positive p h =
    let fine = (passed (ltb p.interview_minutes 1 || ltb p.assessment_minutes 1) _ _ h).0 in
    (ground (arith, fine), ground (arith, fine))

module _ (x : CalendarContext) (letters : LettersShow x) where
  -- The text begins with a letter.
  abbrev Begins : Text → Type 0
  Begins [] = ⊥
  Begins (c ∷ t) = x.unicode.is_space c ≡ false

  Begins-is_blank : (t : Text) → Begins t → is_blank x.unicode t ≡ false
  Begins-is_blank [] h = absurd h
  Begins-is_blank (c ∷ t) h = rw h refl

  join-Begins :
      (ws : List Text) → All (IsWord x.unicode) ws → is_empty (join ws) ≡ false → Begins (join ws)
  join-Begins [] h filled = cc
  join-Begins ([] ∷ ws) h filled = absurd h.0
  join-Begins ((c ∷ w) ∷ []) h filled = h.0.0
  join-Begins ((c ∷ w) ∷ v ∷ ws) h filled = h.0.0

  take-Begins : (n : ℕ) (t : Text) → Begins t → Begins (take (suc n) t)
  take-Begins n [] h = absurd h
  take-Begins n (c ∷ t) h = h

  -- A safe text begins with a letter and is not longer than its limit.
  safe_text-Begins : (t : Text) (n : ℕ) → Begins (safe_text x t (suc n))
  unfolding safe_text collapse
  safe_text-Begins t n =
      let blank = is_empty (collapse x.unicode t) in
      elim (Bool-cases blank) [
        | inl empty ↦ rw (empty, safe_text) letters.big_r
        | inr filled ↦ elim (Bool-cases (x.has_url (collapse x.unicode t))) [
          | inl url ↦ rw (filled, url, safe_text) letters.big_r
          | inr plain ↦
              rw (filled, plain, safe_text)
                (take-Begins n (collapse x.unicode t)
                  (join-Begins (split x.unicode t) (split-words x.unicode t) filled))
        ]
      ]

  length-safe_text : (t : Text) (n : ℕ) → 11 ≤ n → length (safe_text x t n) ≤ n
  unfolding safe_text
  length-safe_text t n room =
      elim (Bool-cases (is_empty (collapse x.unicode t) || x.has_url (collapse x.unicode t))) [
        | inl replaced ↦ rw (replaced, safe_text) room
        | inr kept ↦ rw (kept, safe_text) (omega (arith, length-take n (collapse x.unicode t)))
      ]

  -- The draft of an event of at least a minute passes its check.
  draft_of-check :
      (c : CalendarCandidate) (name : Text) (slot : Slot) (starts_at : Datetime)
      (source : Option Text)
      → 1 ≤ slot.minutes
      → check_draft x.unicode (draft_of x c name slot starts_at source)
        ≡ ok (draft_of x c name slot starts_at source)
  unfolding check_draft draft_of
  draft_of-check c name slot starts_at source long =
      let ends = leb_later starts_at slot.minutes long in
      let subject =
        Begins-is_blank (draft_of x c name slot starts_at source).subject
          (safe_text-Begins _ 254) in
      rw (ends, subject, letters.big_c, check_draft) refl

  draft_of-subject :
      (c : CalendarCandidate) (name : Text) (slot : Slot) (starts_at : Datetime)
      (source : Option Text)
      → length (draft_of x c name slot starts_at source).subject ≤ 255
  unfolding draft_of
  draft_of-subject c name slot starts_at source = length-safe_text _ 255 (omega arith)

  -- A draft passes its check, with a subject of at most 255 characters, and needs no review.
  abbrev DraftFits : Bool → Option CalendarEventDraft → Type 0
  DraftFits needs_review none = Unit
  DraftFits needs_review (some draft) =
      (check_draft x.unicode draft ≡ ok draft)
      × (length draft.subject ≤ 255)
      × (needs_review ≡ false)

  -- The link to the mail is malformed.
  abbrev IsMalformed : CalendarCandidate → Error → Type 0
  IsMalformed c e = (link : Text) × (c.outlook_web_link ≡ some link) × (x.urlsplit link ≡ err e)

  -- The event would end after the last instant.
  abbrev EndsTooLate : CalendarPlanner → CalendarCandidate → Error → Type 0
  EndsTooLate p c e =
      (slot : Slot) × (starts_at : Datetime) × (slot_for x p c c.event_type ≡ some slot)
      × (slot.starts_at ≡ some starts_at)
      × (x.latest_instant < starts_at + slot.minutes * minute)
      × (e ≡ overflow_error "date value out of range")

  abbrev pub Sound : CalendarPlanner → CalendarCandidate → Result CalendarPlan → Type 0
  Sound p c (ok made) = DraftFits made.needs_review made.draft
  Sound p c (err e) = IsMalformed c e ⊎ EndsTooLate p c e

  safe_outlook_link-cases :
      (c : CalendarCandidate)
      → ((source : Option Text) × (safe_outlook_link x c.outlook_web_link ≡ ok source))
        ⊎ ((e : Error) × (safe_outlook_link x c.outlook_web_link ≡ err e) × IsMalformed c e)
  unfolding safe_outlook_link
  safe_outlook_link-cases c = elim (Option-cases c.outlook_web_link) [
    | inl absent ↦ inl (none, rw absent refl)
    | inr (link, there) ↦ elim (Result-cases (x.urlsplit link)) [
      | inl (parsed, is_split) ↦
          inl (outlook_link x parsed, rw (there, is_split, safe_outlook_link) refl)
      | inr (e, malformed) ↦
          inr (e, rw (there, malformed, safe_outlook_link) refl, (link, there, malformed))
    ]
  ]

  plan_event-Sound :
      (p : CalendarPlanner) (c : CalendarCandidate) (name : Text) (slot : Slot)
      (starts_at : Datetime)
      → slot_for x p c c.event_type ≡ some slot
      → slot.starts_at ≡ some starts_at
      → 1 ≤ slot.minutes
      → Sound p c (plan_event x c name slot starts_at)
  unfolding plan_event
  plan_event-Sound p c name slot starts_at known there long =
      elim (Bool-cases (ltb x.latest_instant (starts_at + slot.minutes * minute))) [
        | inl late ↦
            rw (late, plan_event) (inr (slot, starts_at, known, there, ground (arith, late), refl))
        | inr in_time ↦ elim (safe_outlook_link-cases c) [
          | inr (e, failed, malformed) ↦ rw (in_time, failed, plan_event) (inl malformed)
          | inl (source, linked) ↦
              let checked = draft_of-check c name slot starts_at source long in
              rw (in_time, linked, checked, plan_event)
                (checked, draft_of-subject c name slot starts_at source, refl)
        ]
      ]

  plan_slot-Sound :
      (p : CalendarPlanner) (c : CalendarCandidate) (name : Text) (o : Option Slot)
      → slot_for x p c c.event_type ≡ o
      → ((slot : Slot) → o ≡ some slot → 1 ≤ slot.minutes)
      → Sound p c (plan_slot x c name o)
  unfolding plan_slot
  plan_slot-Sound p c name none known long = tt
  plan_slot-Sound p c name (some slot) known long = elim (Option-cases slot.starts_at) [
    | inl missing ↦ rw missing tt
    | inr (starts_at, there) ↦
        let planned = plan_event-Sound p c name slot starts_at known there (long slot refl) in
        rw there planned
  ]

  -- A planner with positive durations never makes a draft that the calendar would refuse: a draft ends
  -- after it starts, its subject and body are not blank, and its subject has at most 255 characters. A
  -- plan with a draft needs no review. The planner raises only what the parser of links raises for the
  -- link to the mail, and an overflow when the event would end after the last instant. The letters R and
  -- C are not white space.
  pub plan-Sound :
      (p : CalendarPlanner) (c : CalendarCandidate) (has_existing_link : Bool)
      → check_planner p ≡ ok p
      → Sound p c (plan x p c has_existing_link)
  unfolding plan check_planner
  plan-Sound p c has_existing_link sane =
      let long : (1 ≤ p.interview_minutes) × (1 ≤ p.assessment_minutes) =
        check_planner-positive p sane in
      elim (Bool-cases (is_active c.event_status)) [
        | inr idle ↦ rw (idle, plan) tt
        | inl active ↦ elim (Option-cases c.company_display_name) [
          | inl nameless ↦ rw (active, nameless, plan) tt
          | inr (name, known) ↦ elim (Bool-cases c.application_resolved) [
            | inr unresolved ↦ rw (active, known, unresolved, plan) tt
            | inl resolved ↦ elim (Bool-cases (truthy c.timezone)) [
              | inr nowhere ↦ rw (active, known, resolved, nowhere, plan) tt
              | inl somewhere ↦
                  let planned =
                    plan_slot-Sound p c name (slot_for x p c c.event_type) refl
                      (λ slot h. slot_for-minutes x p c c.event_type slot long.0 long.1 h) in
                  simp (active, known, resolved, somewhere) planned
            ]
          ]
        ]
      ]
