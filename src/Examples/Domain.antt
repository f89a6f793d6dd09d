-- ===== src/Examples/Domain.antt =====
-- Runs of the domain's functions.
use mathlib.Core.List.{Permᴰ}
use agenda_agent.Prelude.Text.{ascii, codes, collapse, strip}
use agenda_agent.Examples.Samples.{evidence, interview_email, digests}
use agenda_agent.Domain.Enums.{ApplicationStatus}
use agenda_agent.Domain.Status.Laws.{next-progress, progress, is_terminal}
use agenda_agent.Prelude.{[], none, ok, refl, some, true, ◌↔◌, ◌∷◌, ◌≡◌, ◌≤◌, ◌⊎◌}
use agenda_agent.Domain.Evidence.Laws.{
  IsSettled, SameMeaning, evidence_allows_mutation_iff, semantic_fingerprint_iff,
}
use agenda_agent.Domain.Status.{next_application_status, status_after}
use agenda_agent.Domain.Role.{normalize_role_name, role_family, normalize, data_role}
use agenda_agent.Domain.Evidence.{
  evidence_allows_mutation, fingerprint_payload, normalized_optional, semantic_fingerprint,
}
use agenda_agent.Domain.Recipient.{normalize_recipient_address}
use agenda_agent.Domain.Status.History.{
  status_after-eq-first_decision, status_after_perm, status_after_terminal,
}
use agenda_agent.Domain.Recipient.Laws.{normalize_recipient_address_again}

next-progress_example :
    (progress ApplicationStatus.applied
      ≤ progress (next_application_status ApplicationStatus.applied ApplicationStatus.offer))
    × (is_terminal ApplicationStatus.applied ≡ true
        → next_application_status ApplicationStatus.applied ApplicationStatus.offer
          ≡ ApplicationStatus.applied)
    × ((next_application_status ApplicationStatus.applied ApplicationStatus.offer
          ≡ ApplicationStatus.applied)
        ⊎ (next_application_status ApplicationStatus.applied ApplicationStatus.offer
            ≡ ApplicationStatus.offer))
next-progress_example = next-progress ApplicationStatus.applied ApplicationStatus.offer

status_after-eq-first_decision_example :
    status_after ApplicationStatus.applied
      (ApplicationStatus.offer ∷ ApplicationStatus.rejected ∷ [])
    ≡ ApplicationStatus.offer
status_after-eq-first_decision_example =
    status_after-eq-first_decision ApplicationStatus.applied
      (ApplicationStatus.offer ∷ ApplicationStatus.rejected ∷ []) refl

status_after_perm_example :
    status_after ApplicationStatus.applied
      (ApplicationStatus.interview_scheduled ∷ ApplicationStatus.assessment_pending ∷ [])
    ≡ status_after ApplicationStatus.applied
        (ApplicationStatus.assessment_pending ∷ ApplicationStatus.interview_scheduled ∷ [])
status_after_perm_example =
    status_after_perm ApplicationStatus.applied
      (ApplicationStatus.interview_scheduled ∷ ApplicationStatus.assessment_pending ∷ [])
      (ApplicationStatus.assessment_pending ∷ ApplicationStatus.interview_scheduled ∷ [])
      (refl, (refl, tt)) ∣ Permᴰ.swap refl refl ∣₁

status_after_terminal_example :
    status_after ApplicationStatus.rejected (ApplicationStatus.offer ∷ [])
    ≡ ApplicationStatus.rejected
status_after_terminal_example =
    status_after_terminal ApplicationStatus.rejected (ApplicationStatus.offer ∷ []) refl

role_of_data :
    normalize ascii (some (codes "Data - Eng"))
    ≡ ok (record {
      raw_name = some (codes "Data - Eng");
      normalized_name = some (codes "data eng");
      family = some data_role;
    })
unfolding normalize normalize_role_name role_family collapse
role_of_data = refl

evidence_allows_mutation_iff_example :
    (((evidence_allows_mutation evidence).0 ≡ true) ↔ IsSettled evidence)
    × (((evidence_allows_mutation evidence).0 ≡ true)
        ↔ ((evidence_allows_mutation evidence).1 ≡ none))
evidence_allows_mutation_iff_example = evidence_allows_mutation_iff evidence

semantic_fingerprint_iff_example :
    (semantic_fingerprint ascii digests evidence
      ≡ semantic_fingerprint ascii digests (interview_email (codes "ROUND  1") 500))
    ↔ SameMeaning ascii evidence (interview_email (codes "ROUND  1") 500)
unfolding fingerprint_payload normalized_optional collapse
semantic_fingerprint_iff_example =
    semantic_fingerprint_iff ascii digests evidence (interview_email (codes "ROUND  1") 500)
      (λ h. refl)

normalize_recipient_address_again_example :
    normalize_recipient_address ascii (codes "a@b.c") ≡ ok (codes "a@b.c")
unfolding normalize_recipient_address strip
normalize_recipient_address_again_example =
    normalize_recipient_address_again ascii (codes " a@b.c ") (codes "a@b.c") refl
