-- ===== src/Company/Resolver/Checks.antt =====
-- The results of a resolution pass their check.
use agenda_agent.Domain.Digest.{Uuid}
use agenda_agent.Company.Match.{
  CompanyResolutionMatch, CompanyResolutionMethod, check_match, check_resolution, check_status,
  distinct, is_confidence, required_text, blank_name, is_exact,
}
use agenda_agent.Company.Resolver.{ambiguous_between, resolved_by, unresolved_name}
use agenda_agent.Company.Resolver.Candidates.{distinct-same, self}
use agenda_agent.Prelude.{
  ==_refl, >>=-eq-ok, List, Option, arith, false, leb, length, ltb, not, ok, ok-injective, passed,
  refl, true, ◌==◌, ◌∙◌, ◌≡◌, ◌≤◌, ap,
}
use agenda_agent.Prelude.Text.{Text, Unicode}
use agenda_agent.Prelude.Rows.{HasKey}
use agenda_agent.Prelude.Sort.{sort_by, sort_with, length-sort_with}

-- The match is one that the check has made.
abbrev pub IsChecked : Unicode → CompanyResolutionMatch → Type 0
IsChecked u m = check_match u m ≡ ok m

module _ (u : Unicode) where
  IsChecked-parts :
      (m : CompanyResolutionMatch)
      → IsChecked u m
      → (required_text u m.matched_value ≡ ok m.matched_value) × (is_confidence m.confidence ≡ true)
  unfolding check_match
  IsChecked-parts m h =
      let (value, made, rest) = >>=-eq-ok (required_text u m.matched_value) _ h in
      let (bad, out) = passed (not (is_confidence m.confidence)) _ _ rest in
      let e : value ≡ m.matched_value =
        ap (λ (n : CompanyResolutionMatch). n.matched_value) (ok-injective out) in
      (made ∙ ap ok e, ground (arith, bad))

  pub check_resolution-resolved :
      (raw : Option Text) (method : CompanyResolutionMethod) (m : CompanyResolutionMatch)
      → blank_name u raw ≡ false
      → is_exact method ≡ true
      → IsChecked u m
      → check_resolution u (resolved_by raw method m) ≡ ok (resolved_by raw method m)
  unfolding check_resolution check_status sort_with distinct
  check_resolution-resolved raw method m named exact checked =
      let (value, sure) = IsChecked-parts m checked in
      rw (named, sure, value, check_resolution) (rw (exact, check_status) refl)

  pub check_resolution-unresolved :
      (raw : Option Text)
      → blank_name u raw ≡ false
      → check_resolution u (unresolved_name raw) ≡ ok (unresolved_name raw)
  unfolding check_resolution check_status sort_with distinct
  check_resolution-unresolved raw named = rw (named, check_resolution) refl

  pub check_resolution-ambiguous :
      (raw : Option Text) (candidates : List Uuid)
      → blank_name u raw ≡ false
      → HasKey self candidates
      → 2 ≤ length candidates
      → check_resolution u (ambiguous_between raw candidates)
        ≡ ok (ambiguous_between raw (sort_by (λ i. i) candidates))
  unfolding check_resolution check_status
  check_resolution-ambiguous raw candidates named keys two =
      let same : (length candidates == length (distinct candidates)) ≡ true =
        rw (distinct-same candidates keys) (==_refl (length candidates)) in
      let enough : ltb (length (sort_by (λ i. i) candidates)) 2 ≡ false =
        rw (length-sort_with (λ x y. leb x y) candidates) (ground (arith, two)) in
      rw (named, same, check_resolution) (rw (enough, check_status) refl)
