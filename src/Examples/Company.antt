-- ===== src/Examples/Company.antt =====
-- Resolutions of a company whose name and sender agree, and of one whose sender is another's.
use agenda_agent.Company.Match.{
  CompanyResolutionMatch, CompanyResolutionMethod, certain, check_match, check_resolution,
  check_status, distinct, required_text,
}
use agenda_agent.Company.Resolver.{
  CompanyRepository, ambiguous_between, resolve, resolved_by, decide, conclude, name_evidence,
  domain_evidence, unique, by_company, keep_best,
}
use agenda_agent.Prelude.{Option, [], inl, inr, ok, refl, some, ◌∷◌, ◌≡◌}
use agenda_agent.Company.Resolver.Evidence.{IsCheckedRepository, is_evident, resolve-Explains}
use agenda_agent.Company.Resolver.Sound.{Decided}
use agenda_agent.Prelude.Text.{Text, ascii, codes, strip, lstrip, collapse, split, scan}
use agenda_agent.Prelude.Sort.{sort_with, insert_sorted}
use agenda_agent.Company.Names.{
  is_consumer_mailbox_domain, normalize_company_domain, normalize_company_name, split_dots,
}

abbrev acme : CompanyResolutionMatch
acme = record { company_id = 11; matched_value = codes "acme"; confidence = certain }

abbrev other_company : CompanyResolutionMatch
other_company = record { company_id = 12; matched_value = codes "other.com"; confidence = 7 }

abbrev known_companies : CompanyRepository
known_companies = record {
  find_by_normalized_canonical_name = λ t. acme ∷ [];
  find_by_normalized_alias = λ t. [];
  find_by_domain = λ t. other_company ∷ [];
}

abbrev ascii_only : Text → Option Text
ascii_only t = some t

acme_fine : check_match ascii acme ≡ ok acme
unfolding check_match required_text strip lstrip
acme_fine = refl

other_fine : check_match ascii other_company ≡ ok other_company
unfolding check_match required_text strip lstrip
other_fine = refl

abbrev acme_name : Option Text
acme_name = some (codes "ACME")

by_name :
    resolve ascii ascii_only known_companies acme_name (some (codes "mail.gmail.com"))
    ≡ ok (resolved_by acme_name CompanyResolutionMethod.canonical_exact acme)
unfolding resolve decide conclude name_evidence domain_evidence unique by_company keep_best distinct
    check_resolution check_status required_text strip lstrip sort_with insert_sorted
    is_consumer_mailbox_domain normalize_company_domain normalize_company_name split_dots collapse
    split scan
by_name = refl

conflict :
    resolve ascii ascii_only known_companies acme_name (some (codes "Other.com."))
    ≡ ok (ambiguous_between acme_name (11 ∷ 12 ∷ []))
unfolding resolve decide conclude name_evidence domain_evidence unique by_company keep_best distinct
    check_resolution check_status required_text strip lstrip sort_with insert_sorted
    is_consumer_mailbox_domain normalize_company_domain normalize_company_name split_dots collapse
    split scan
conflict = refl

companies_checked : IsCheckedRepository ascii known_companies
companies_checked = record {
  canonical = λ t m h. elim h [ inl e ↦ rw e acme_fine | inr none_there ↦ absurd none_there ];
  alias = λ t m h. absurd h;
  domain = λ t m h. elim h [ inl e ↦ rw e other_fine | inr none_there ↦ absurd none_there ];
}

resolve-Explains_example :
    Decided
      (is_evident ascii ascii_only known_companies acme_name (some (codes "other.com")))
      (resolve ascii ascii_only known_companies acme_name (some (codes "other.com")))
resolve-Explains_example =
    resolve-Explains ascii ascii_only known_companies acme_name (some (codes "other.com")) refl
      companies_checked
