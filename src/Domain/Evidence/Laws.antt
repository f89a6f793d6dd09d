-- ===== src/Domain/Evidence/Laws.antt =====
-- When evidence may change anything, and what its fingerprint tells apart.
use agenda_agent.Prelude.{true, ◌≡◌, ◌↔◌, none, is_some, arith, some, ap}
use agenda_agent.Prelude.Text.{truthy, Unicode, Text}
use agenda_agent.Domain.Enums.{interview_reschedule}
use agenda_agent.Domain.Evidence.{
  RecruitmentEvidence, evidence_allows_mutation, interview_type, normalized_optional, fold_words,
  semantic_fingerprint, fingerprint_payload,
}
use agenda_agent.Domain.Digest.{Digests, FingerprintPayload}

-- Every time that the email names is known, in a named time zone.
pub record IsSettled (e : RecruitmentEvidence) : Type 0 where
  pub rescheduled : e.event_type ≡ interview_reschedule → is_some e.event_datetime ≡ true
  pub event_time : is_some e.source_datetime_text ≡ true → is_some e.event_datetime ≡ true
  pub deadline_time : is_some e.source_deadline_text ≡ true → is_some e.deadline ≡ true
  pub zone_event : is_some e.event_datetime ≡ true → truthy e.timezone ≡ true
  pub zone_deadline : is_some e.deadline ≡ true → truthy e.timezone ≡ true

-- Evidence may change something exactly when every time that it names is known and in a named time
-- zone; it names a reason exactly when it may not.
pub evidence_allows_mutation_iff :
    (e : RecruitmentEvidence)
    → (((evidence_allows_mutation e).0 ≡ true) ↔ IsSettled e)
      × (((evidence_allows_mutation e).0 ≡ true) ↔ ((evidence_allows_mutation e).1 ≡ none))
unfolding evidence_allows_mutation
evidence_allows_mutation_iff e =
    ((λ h. ground arith, λ h. ground arith), (λ h. ground arith, λ h. ground arith))

-- What a fingerprint stands for. Explicit reschedules count as interviews, and rounds are compared
-- by their folded words.
pub record SameMeaning (u : Unicode) (e f : RecruitmentEvidence) : Type 0 where
  pub company : e.company_id ≡ f.company_id
  pub role : e.role_normalized ≡ f.role_normalized
  pub event : interview_type e.event_type ≡ interview_type f.event_type
  pub round : normalized_optional u e.interview_round ≡ normalized_optional u f.interview_round
  pub event_time : e.event_datetime ≡ f.event_datetime
  pub deadline_time : e.deadline ≡ f.deadline

module _ (u : Unicode) (d : Digests) where
  -- If the documents of two emails do not collide under the hash, the emails have one fingerprint
  -- exactly when they say the same of company, role, event, round, time and deadline.
  pub semantic_fingerprint_iff :
      (e f : RecruitmentEvidence)
      → (d.fingerprint_digest (fingerprint_payload u d e)
            ≡ d.fingerprint_digest (fingerprint_payload u d f)
          → fingerprint_payload u d e ≡ fingerprint_payload u d f)
      → (semantic_fingerprint u d e ≡ semantic_fingerprint u d f) ↔ SameMeaning u e f
  unfolding semantic_fingerprint
  semantic_fingerprint_iff e f no_collision = (
    λ h.
        let p = no_collision h in
        record {
          company = ap (λ (q : FingerprintPayload). q.company_id) p;
          role = ap (λ (q : FingerprintPayload). q.role) p;
          event = ap (λ (q : FingerprintPayload). q.event_type) p;
          round = ap (λ (q : FingerprintPayload). q.round) p;
          event_time = ap (λ (q : FingerprintPayload). q.event_datetime) p;
          deadline_time = ap (λ (q : FingerprintPayload). q.deadline) p;
        },
    λ s. ap d.fingerprint_digest (ground arith),
  )

  -- The letter case and the white space of a round do not matter.
  pub normalized_optional-fold_words :
      (s t : Text)
      → fold_words u s ≡ fold_words u t
      → normalized_optional u (some s) ≡ normalized_optional u (some t)
  unfolding normalized_optional
  normalized_optional-fold_words s t h = rw (h, normalized_optional)
