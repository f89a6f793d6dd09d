-- ===== src/Company/Resolver.antt =====
-- domain/company_resolution.py: `CompanyResolver`.
pub mod Unique
pub mod Candidates
pub mod Checks
pub mod Sound
pub mod Evidence
use agenda_agent.Domain.Digest.{Uuid}
use agenda_agent.Company.Match.{
  CompanyResolution, CompanyResolutionMatch, CompanyResolutionMethod, CompanyResolutionStatus,
  check_resolution, distinct,
}
use agenda_agent.Prelude.{
  Bool, List, Option, Result, [], err, if◌then◌else◌, is_empty, length, ltb, map, none, not, ok,
  or_else, runtime_error, some, ◌++◌, ◌==◌, ◌||◌, ◌∷◌,
}
use agenda_agent.Prelude.Text.{Text, Unicode}
use agenda_agent.Company.Names.{
  is_consumer_mailbox_domain, normalize_company_name, normalize_company_domain,
}
use agenda_agent.Prelude.Sort.{sort_by}

-- The lookups of `CompanyRepository`.
pub record CompanyRepository : Type 0 where
  pub find_by_normalized_canonical_name : Text → List CompanyResolutionMatch
  pub find_by_normalized_alias : Text → List CompanyResolutionMatch
  pub find_by_domain : Text → List CompanyResolutionMatch

abbrev pub is_match_of : Uuid → CompanyResolutionMatch → Bool
is_match_of company m = m.company_id == company

-- The `dict` by company, which keeps the most certain match.
unfoldable pub keep_best :
    CompanyResolutionMatch → List CompanyResolutionMatch → List CompanyResolutionMatch
keep_best m [] = m ∷ []
keep_best m (current ∷ ms) =
    let rest = keep_best m ms in
    if current.company_id == m.company_id
    then (if ltb current.confidence m.confidence then m else current) ∷ ms
    else current ∷ rest

unfoldable pub by_company :
    List CompanyResolutionMatch → List CompanyResolutionMatch → List CompanyResolutionMatch
by_company kept [] = kept
by_company kept (m ∷ ms) = by_company (keep_best m kept) ms

-- `_unique`
unfoldable pub unique : List CompanyResolutionMatch → List CompanyResolutionMatch
unique matches = sort_by (λ (m : CompanyResolutionMatch). m.company_id) (by_company [] matches)

-- What a name says: the method, and the matches.
pub record NameMatches : Type 0 where
  pub name_method : Option CompanyResolutionMethod
  pub name_matches : List CompanyResolutionMatch

-- `_resolved`
abbrev pub resolved_by :
    Option Text → CompanyResolutionMethod → CompanyResolutionMatch → CompanyResolution
resolved_by raw method m = record {
  raw_company_name = raw;
  status = CompanyResolutionStatus.resolved;
  method = method;
  company_id = some m.company_id;
  confidence = m.confidence;
  matched_value = some m.matched_value;
  candidate_company_ids = [];
}

abbrev pub ambiguous_between : Option Text → List Uuid → CompanyResolution
ambiguous_between raw candidates = record {
  raw_company_name = raw;
  status = CompanyResolutionStatus.ambiguous;
  method = CompanyResolutionMethod.ambiguous;
  company_id = none;
  confidence = 0;
  matched_value = none;
  candidate_company_ids = candidates;
}

abbrev pub unresolved_name : Option Text → CompanyResolution
unresolved_name raw = record {
  raw_company_name = raw;
  status = CompanyResolutionStatus.unresolved;
  method = CompanyResolutionMethod.unresolved;
  company_id = none;
  confidence = 0;
  matched_value = none;
  candidate_company_ids = [];
}

-- `candidate_ids`
abbrev pub candidate_ids : List CompanyResolutionMatch → List CompanyResolutionMatch → List Uuid
candidate_ids names domains =
    distinct (map (λ (m : CompanyResolutionMatch). m.company_id) (names ++ domains))

module _ (u : Unicode) where
  -- The end of `resolve`, where the evidence is of one company at most.
  unfoldable pub conclude :
      Option Text
      → Option CompanyResolutionMethod
      → List CompanyResolutionMatch
      → List CompanyResolutionMatch
      → Result CompanyResolution
  conclude raw none (m ∷ ns) domains =
      err (runtime_error "name match must have a deterministic method")
  conclude raw (some method) (m ∷ ns) domains = check_resolution u (resolved_by raw method m)
  conclude raw method [] (m ∷ ds) =
      check_resolution u (resolved_by raw CompanyResolutionMethod.domain_exact m)
  conclude raw method [] [] = check_resolution u (unresolved_name raw)

  -- What the evidence makes of a name.
  unfoldable pub decide :
      Option Text → NameMatches → List CompanyResolutionMatch → Result CompanyResolution
  decide raw names domains =
      let candidates = candidate_ids names.name_matches domains in
      if ltb 1 (length names.name_matches) || ltb 1 (length domains) || ltb 1 (length candidates)
      then check_resolution u (ambiguous_between raw (sort_by (λ i. i) candidates))
      else conclude raw names.name_method names.name_matches domains

module _ (u : Unicode) (idna : Text → Option Text) (repository : CompanyRepository) where
  unfoldable pub name_evidence : Option Text → NameMatches
  name_evidence raw =
      let name = normalize_company_name u (or_else raw []) in
      let canonical = repository.find_by_normalized_canonical_name name in
      let aliases = repository.find_by_normalized_alias name in
      if is_empty name
      then record { name_method = none; name_matches = [] }
      else if not (is_empty canonical)
      then record {
        name_method = some CompanyResolutionMethod.canonical_exact;
        name_matches = unique canonical;
      }
      else if not (is_empty aliases)
      then record {
        name_method = some CompanyResolutionMethod.alias_exact;
        name_matches = unique aliases;
      }
      else record { name_method = none; name_matches = [] }

  unfoldable pub domain_evidence : Option Text → List CompanyResolutionMatch
  domain_evidence none = []
  domain_evidence (some domain) =
      if is_consumer_mailbox_domain u idna (some domain)
      then []
      else elim (normalize_company_domain u idna domain) [
        | err e ↦ []
        | ok normalized ↦ unique (repository.find_by_domain normalized)
      ]

  -- `resolve`
  unfoldable pub resolve : Option Text → Option Text → Result CompanyResolution
  resolve company_raw sender_domain =
      decide u company_raw (name_evidence company_raw) (domain_evidence sender_domain)
