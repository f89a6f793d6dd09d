-- ===== src/Review/Sound.antt =====
-- graph/contracts.py: what a validated answer says.
use agenda_agent.Review.Decision.{
  ReviewDecision, ReviewRequest, TimeLibrary, ZoneLookup, check_combined, check_decision,
  check_simple, check_zone, found, is_combined, is_conflict, not_found, parse_review_datetime,
  raises, require_zone, validate_review_decision,
}
use agenda_agent.Prelude.Text.{Text, Unicode, codes, text_eq, text_eq→≡}
use agenda_agent.Prelude.{
  Bool, Bool-cases, Option, Option-cases, >>=-eq-ok, exists, false, inl, inr, is_some, none, not,
  ok, ok-injective, passed, refl, some, subst, true, ◌&&◌, ◌≡◌, ◌⊎◌, ◌||◌,
}

-- `ignore` is not `other`.
ignore-other : (t : Text) → text_eq t (codes "ignore") ≡ true → text_eq t (codes "other") ≡ false
ignore-other t h = rw (text_eq→≡ t (codes "ignore") h) refl

unset_clock : (o : Option Text) → (is_some o || true) ≡ false → true ≡ false
unset_clock none h = h
unset_clock (some t) h = h

pub both : (a b : Bool) → (a && b) ≡ true → (a ≡ true) × (b ≡ true)
both true b h = (refl, h)
both false b h = cc

not-false : (b : Bool) → not b ≡ false → b ≡ true
not-false true h = refl
not-false false h = cc

module _ (u : Unicode) (library : TimeLibrary) where
  -- A text that reads as a date.
  abbrev IsDate : Text → Type 0
  IsDate t = (moment : library.Moment) × (parse_review_datetime u library t ≡ ok moment)

  abbrev IsZone : ReviewDecision → Text → Type 0
  IsZone d key = (text_eq d.choice (codes "other") ≡ true) × (library.zone_info key ≡ found)

  -- An override is the zone of the choice `other`, or the date of a conflict of dates.
  abbrev OverrideFits : ReviewRequest → ReviewDecision → Option Text → Type 0
  OverrideFits r d none = text_eq d.choice (codes "other") ≡ false
  OverrideFits r d (some v) =
      IsZone d v
      ⊎ ((is_combined r.reason ≡ false)
          × (is_conflict u library r.review_type ≡ true)
          × (text_eq d.choice (codes "use_override") ≡ true)
          × IsDate v)

  -- A clock answers a question after a time and its zone, which wants one unless it is ignored.
  abbrev ClockFits : ReviewRequest → ReviewDecision → Option Text → Type 0
  ClockFits r d none = (is_combined r.reason ≡ false) ⊎ (text_eq d.choice (codes "ignore") ≡ true)
  ClockFits r d (some t) = (is_combined r.reason ≡ true) × IsDate t

  abbrev pub Fits : ReviewRequest → ReviewDecision → Type 0
  Fits r d = OverrideFits r d d.override_value × ClockFits r d d.clock_override

  -- The choice is one that the question allows, and the overrides fit it.
  abbrev pub Answers : ReviewRequest → ReviewDecision → Type 0
  Answers r d = (exists (text_eq d.choice) r.allowed_choices ≡ true) × Fits r d

  require_zone-found :
      (key : Text) (d e : ReviewDecision) (z : ZoneLookup)
      → library.zone_info key ≡ z
      → require_zone u library key d ≡ ok e
      → (library.zone_info key ≡ found) × (d ≡ e)
  unfolding require_zone
  require_zone-found key d e found at_key h =
      (at_key, ok-injective (rw (at_key, require_zone) at h))
  require_zone-found key d e not_found at_key h = cc (rw (at_key, require_zone) at h)
  require_zone-found key d e (raises failure) at_key h = cc (rw (at_key, require_zone) at h)

  check_zone-Fits :
      (r : ReviewRequest) (d e : ReviewDecision)
      → check_zone u library d ≡ ok e
      → OverrideFits r d d.override_value × (d ≡ e)
  unfolding check_zone
  check_zone-Fits r d e h = elim (Bool-cases (text_eq d.choice (codes "other"))) [
    | inl other ↦ elim (Option-cases d.override_value) [
      | inl absent ↦ cc (rw (other, absent, check_zone) at h)
      | inr (key, given) ↦
          let (known, same) =
            require_zone-found key d e (library.zone_info key) refl
              (rw (other, given, check_zone) at h) in
          (rw given (inl (other, known)), same)
    ]
    | inr plain ↦
        let (unset, same) =
          passed (is_some d.override_value) _ (ok d) (rw (plain, check_zone) at h) in
        (
          elim (Option-cases d.override_value) [
            | inl absent ↦ rw absent plain
            | inr (key, given) ↦ cc (rw given at unset)
          ],
          ok-injective same,
        )
  ]

  check_combined-Fits :
      (r : ReviewRequest) (d e : ReviewDecision)
      → is_combined r.reason ≡ true
      → check_combined u library d ≡ ok e
      → Fits r d × (d ≡ e)
  unfolding check_combined
  check_combined-Fits r d e combined h = elim (Bool-cases (text_eq d.choice (codes "ignore"))) [
    | inl ignored ↦
        let (unset, same) =
          passed (is_some d.override_value || is_some d.clock_override) _ (ok d)
            (rw (ignored, check_combined) at h) in
        (
          (
            elim (Option-cases d.override_value) [
              | inl absent ↦ rw absent (ignore-other d.choice ignored)
              | inr (key, given) ↦ cc (rw given at unset)
            ],
            elim (Option-cases d.clock_override) [
              | inl absent ↦ rw absent (inr ignored)
              | inr (t, given) ↦ cc (unset_clock d.override_value (rw given at unset))
            ],
          ),
          ok-injective same,
        )
    | inr answered ↦ elim (Option-cases d.clock_override) [
      | inl absent ↦ cc (rw (answered, absent, check_combined) at h)
      | inr (t, given) ↦
          let (moment, reads, rest) =
            >>=-eq-ok (parse_review_datetime u library t) (λ moment. check_zone u library d)
              (rw (answered, given, check_combined) at h) in
          let (fits, same) = check_zone-Fits r d e rest in
          ((fits, rw given (combined, (moment, reads))), same)
    ]
  ]

  check_simple-Fits :
      (r : ReviewRequest) (d e : ReviewDecision)
      → is_combined r.reason ≡ false
      → check_simple u library r d ≡ ok e
      → Fits r d × (d ≡ e)
  unfolding check_simple
  check_simple-Fits r d e simple h =
      let (unset, after) = passed (is_some d.clock_override) _ _ h in
      let clock : ClockFits r d d.clock_override = elim (Option-cases d.clock_override) [
        | inl absent ↦ rw absent (inl simple)
        | inr (t, given) ↦ cc (rw given at unset)
      ] in
      let dated = is_conflict u library r.review_type && text_eq d.choice (codes "use_override") in
      elim (Bool-cases dated) [
        | inr plain ↦
            let (fits, same) = check_zone-Fits r d e (rw plain at after) in ((fits, clock), same)
        | inl conflict ↦ elim (Option-cases d.override_value) [
          | inl absent ↦ cc (rw (conflict, absent) at after)
          | inr (value, given) ↦
              let (moment, reads, same) =
                >>=-eq-ok (parse_review_datetime u library value) (λ moment. ok d)
                  (rw (conflict, given) at after) in
              let (typed, chosen) = both _ _ conflict in
              ((rw given (inr (simple, typed, chosen, (moment, reads))), clock), ok-injective same)
        ]
      ]

  -- A validated answer answers the question.
  pub validate_review_decision-Answers :
      (r : ReviewRequest) (raw d : ReviewDecision)
      → validate_review_decision u library r raw ≡ ok d
      → Answers r d
  unfolding validate_review_decision
  validate_review_decision-Answers r raw d h =
      let (checked, is_checked, rest) = >>=-eq-ok (check_decision u raw) _ h in
      let (listed, after) =
        passed (not (exists (text_eq checked.choice) r.allowed_choices)) _ _ rest in
      let allowed : exists (text_eq checked.choice) r.allowed_choices ≡ true = not-false _ listed in
      let (fits, same) : Fits r checked × (checked ≡ d) = elim (Bool-cases (is_combined r.reason)) [
        | inl combined ↦ check_combined-Fits r checked d combined (rw combined at after)
        | inr simple ↦ check_simple-Fits r checked d simple (rw simple at after)
      ] in
      subst (Answers r) same (allowed, fits)
