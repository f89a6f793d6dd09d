-- ===== src/Company/Match.antt =====
-- domain/company.py: matches of companies and the result of a resolution, with their checks.
use Prim.Native.Nat.{◌^◌}
use agenda_agent.Domain.Digest.{Uuid}
use agenda_agent.Prelude.{
  Bool, List, Option, Result, [], domain_validation_error, err, exists, false, if◌then◌else◌,
  is_empty, is_none, is_some, leb, length, ltb, none, not, ok, some, true, ℕ, ◌==◌, ◌>>=◌, ◌||◌,
  ◌∷◌,
}
use agenda_agent.Prelude.Text.{Text, Unicode, is_blank, strip}
use agenda_agent.Prelude.Sort.{sort_by}

pub data CompanyResolutionStatus : Type 0 where
  resolved unresolved ambiguous : CompanyResolutionStatus

pub data CompanyResolutionMethod : Type 0 where
  canonical_exact alias_exact domain_exact unresolved ambiguous : CompanyResolutionMethod

-- A confidence, counted in the smallest float: every float from 0 to 1 is a multiple of it.
abbrev pub Confidence : Type 0
Confidence = ℕ

-- How many of the smallest float make 1.
abbrev pub certain : Confidence
certain = 2 ^ 1074

pub record CompanyResolutionMatch : Type 0 where
  pub company_id : Uuid
  pub matched_value : Text
  pub confidence : Confidence

pub record CompanyResolution : Type 0 where
  pub raw_company_name : Option Text
  pub status : CompanyResolutionStatus
  pub method : CompanyResolutionMethod
  pub company_id : Option Uuid
  pub confidence : Confidence
  pub matched_value : Option Text
  pub candidate_company_ids : List Uuid

-- `_required_text`
unfoldable pub required_text : Unicode → Text → Result Text
required_text u value =
    let stripped = strip u value in
    if is_empty stripped
    then err (domain_validation_error "matched_value must not be empty")
    else ok stripped

-- `_validate_confidence`
abbrev pub is_confidence : Confidence → Bool
is_confidence c = leb c certain

-- `CompanyResolutionMatch.__post_init__`
unfoldable pub check_match : Unicode → CompanyResolutionMatch → Result CompanyResolutionMatch
check_match u m = required_text u m.matched_value >>= (λ value.
    if not (is_confidence m.confidence)
    then err (domain_validation_error "confidence must be between 0 and 1")
    else ok (record m { matched_value = value }))

-- The members of a list, each once.
unfoldable pub distinct : List Uuid → List Uuid
distinct [] = []
distinct (i ∷ is) = let rest = distinct is in if exists (λ j. j == i) rest then rest else i ∷ rest

abbrev pub is_exact : CompanyResolutionMethod → Bool
is_exact CompanyResolutionMethod.canonical_exact = true
is_exact CompanyResolutionMethod.alias_exact = true
is_exact CompanyResolutionMethod.domain_exact = true
is_exact _ = false

abbrev pub is_ambiguous : CompanyResolutionMethod → Bool
is_ambiguous CompanyResolutionMethod.ambiguous = true
is_ambiguous _ = false

abbrev pub is_unresolved : CompanyResolutionMethod → Bool
is_unresolved CompanyResolutionMethod.unresolved = true
is_unresolved _ = false

-- The part of the check that depends on the status.
unfoldable pub check_status : CompanyResolution → Result CompanyResolution
check_status r = elim r.status [
  | CompanyResolutionStatus.resolved ↦
      if is_none r.company_id
        || not (is_exact r.method)
        || is_none r.matched_value
        || not (is_empty r.candidate_company_ids)
      then err (domain_validation_error "resolved company result is inconsistent")
      else ok r
  | CompanyResolutionStatus.ambiguous ↦
      if is_some r.company_id
        || not (is_ambiguous r.method)
        || not (r.confidence == 0)
        || is_some r.matched_value
      then err (domain_validation_error "ambiguous company result is inconsistent")
      else if ltb (length r.candidate_company_ids) 2
      then err (domain_validation_error "ambiguous result requires at least two candidates")
      else ok r
  | CompanyResolutionStatus.unresolved ↦
      if is_some r.company_id
        || not (is_unresolved r.method)
        || not (r.confidence == 0)
        || is_some r.matched_value
        || not (is_empty r.candidate_company_ids)
      then err (domain_validation_error "unresolved company result cannot contain a match")
      else ok r
]

abbrev pub required_optional : Unicode → Option Text → Result (Option Text)
required_optional u none = ok none
required_optional u (some value) = required_text u value >>= (λ v. ok (some v))

abbrev pub blank_name : Unicode → Option Text → Bool
blank_name u none = false
blank_name u (some name) = is_blank u name

-- `CompanyResolution.__post_init__`
unfoldable pub check_resolution : Unicode → CompanyResolution → Result CompanyResolution
check_resolution u r =
    if blank_name u r.raw_company_name
    then err (domain_validation_error "raw_company_name must be null or non-empty")
    else if not (is_confidence r.confidence)
    then err (domain_validation_error "confidence must be between 0 and 1")
    else required_optional u r.matched_value >>= (λ value.
      if not (length r.candidate_company_ids == length (distinct r.candidate_company_ids))
      then err (domain_validation_error "candidate company IDs must be unique")
      else check_status (record r {
        matched_value = value;
        candidate_company_ids = sort_by (λ i. i) r.candidate_company_ids;
      }))
