-- ===== src/Company/Resolver/Sound.antt =====
-- What a resolution says of the evidence.
use agenda_agent.Domain.Digest.{Uuid}
use agenda_agent.Company.Match.{
  CompanyResolution, CompanyResolutionMatch, CompanyResolutionMethod, CompanyResolutionStatus,
  blank_name, check_resolution, is_exact,
}
use agenda_agent.Company.Resolver.{
  NameMatches, ambiguous_between, candidate_ids, decide, resolved_by, unresolved_name, conclude,
}
use agenda_agent.Company.Resolver.Unique.{company_of, has}
use agenda_agent.Company.Resolver.Candidates.{
  member, self, distinct-HasKey, two-candidates, member-candidate_ids,
}
use agenda_agent.Company.Resolver.Checks.{
  IsChecked, check_resolution-ambiguous, check_resolution-resolved, check_resolution-unresolved,
}
use agenda_agent.Prelude.{
  Bool, In, List, Option, Result, [], arith, false, is_empty, leb, length, ltb, none, ok, refl,
  some, true, ◌==◌, ◌||◌, ◌∙◌, ◌∷◌, ◌≡◌, ◌≤◌, Bool-cases, inl, inr, sym,
}
use agenda_agent.Prelude.Text.{Text, Unicode}
use agenda_agent.Prelude.Rows.{HasKey-sort_with, HasKey}
use agenda_agent.Prelude.Sort.{sort_by, length-sort_with, exists-sort_with}

-- A result agrees with the companies that there is evidence for.
abbrev pub Explains : CompanyResolutionStatus → (Uuid → Bool) → CompanyResolution → Type 0
Explains CompanyResolutionStatus.resolved evident r =
    (c : Uuid) × (r.company_id ≡ some c) × ((k : Uuid) → evident k ≡ (c == k))
Explains CompanyResolutionStatus.ambiguous evident r =
    (r.company_id ≡ none)
    × ((a b : Uuid) × (evident a ≡ true) × (evident b ≡ true) × ((a == b) ≡ false))
    × ((k : Uuid) → member k r.candidate_company_ids ≡ evident k)
Explains CompanyResolutionStatus.unresolved evident r =
    (r.company_id ≡ none) × ((k : Uuid) → evident k ≡ false)

-- Matches as the evidence gives them: one for each company, and checked.
abbrev pub IsFine : Unicode → List CompanyResolutionMatch → Type 0
IsFine u ms = HasKey company_of ms × ((m : CompanyResolutionMatch) → In m ms → IsChecked u m)

-- Where a name has matches, it has an exact method.
abbrev pub HasMethod : NameMatches → Type 0
HasMethod names =
    is_empty names.name_matches ≡ false
    → (method : CompanyResolutionMethod) × (names.name_method ≡ some method)
      × (is_exact method ≡ true)

abbrev pub evident_in : List CompanyResolutionMatch → List CompanyResolutionMatch → Uuid → Bool
evident_in names domains k = has k names || has k domains

-- What a decision gives.
abbrev pub Decided : (Uuid → Bool) → Result CompanyResolution → Type 0
Decided evident out = (r : CompanyResolution) × (out ≡ ok r) × Explains r.status evident r

module _ (u : Unicode) (raw : Option Text) (named : blank_name u raw ≡ false) where
  ambiguous-Decided :
      (ns ds : List CompanyResolutionMatch)
      → ((a b : Uuid) × (evident_in ns ds a ≡ true)
          × (evident_in ns ds b ≡ true)
          × ((a == b) ≡ false))
      → Decided
          (evident_in ns ds)
          (check_resolution u (ambiguous_between raw (sort_by (λ i. i) (candidate_ids ns ds))))
  ambiguous-Decided ns ds (a, b, here, there, apart) =
      let candidates = candidate_ids ns ds in
      let order = λ (x : Uuid) (y : Uuid). leb x y in
      let keys = HasKey-sort_with self order candidates (distinct-HasKey _) in
      let two =
        two-candidates a b candidates (member-candidate_ids a ns ds ∙ here)
          (member-candidate_ids b ns ds ∙ there) apart in
      let enough : 2 ≤ length (sort_by (λ i. i) candidates) =
        rw (length-sort_with order candidates) two in
      (
        _,
        check_resolution-ambiguous u raw (sort_by (λ i. i) candidates) named keys enough,
        (
          refl,
          (a, b, here, there, apart),
          λ k.
              exists-sort_with order (λ j. j == k) (sort_by (λ i. i) candidates)
              ∙ exists-sort_with order (λ j. j == k) candidates
              ∙ member-candidate_ids k ns ds,
        ),
      )

  -- A list of two unique matches has two companies.
  two-companies :
      (ms : List CompanyResolutionMatch)
      → HasKey company_of ms
      → ltb 1 (length ms) ≡ true
      → (a b : Uuid) × (has a ms ≡ true) × (has b ms ≡ true) × ((a == b) ≡ false)
  two-companies [] h many = cc
  two-companies (m ∷ []) h many = cc
  two-companies (m ∷ n ∷ ms) h many =
      (m.company_id, n.company_id, ground arith, ground arith, ground (arith, h.0))

  two-members :
      (is : List Uuid)
      → HasKey self is
      → ltb 1 (length is) ≡ true
      → (a b : Uuid) × (member a is ≡ true) × (member b is ≡ true) × ((a == b) ≡ false)
  two-members [] h many = cc
  two-members (i ∷ []) h many = cc
  two-members (i ∷ j ∷ is) h many = (i, j, ground arith, ground arith, ground (arith, h.0))

  -- At most one candidate, and there is one: every candidate is it.
  one-candidate :
      (is : List Uuid) (c : Uuid)
      → ltb 1 (length is) ≡ false
      → member c is ≡ true
      → (k : Uuid) → member k is ≡ (c == k)
  one-candidate [] c few there k = cc
  one-candidate (i ∷ []) c few there k = ground (arith, there)
  one-candidate (i ∷ j ∷ is) c few there k = absurd (ground (arith, few))

  -- The single candidate, from one match of it.
  single :
      (ns ds : List CompanyResolutionMatch) (c : Uuid)
      → ltb 1 (length (candidate_ids ns ds)) ≡ false
      → evident_in ns ds c ≡ true
      → (k : Uuid) → evident_in ns ds k ≡ (c == k)
  single ns ds c few there k =
      sym (member-candidate_ids k ns ds)
      ∙ one-candidate (candidate_ids ns ds) c few (member-candidate_ids c ns ds ∙ there) k

  -- The evidence of a decision that is not ambiguous.
  settled-Decided :
      (method : Option CompanyResolutionMethod) (ns ds : List CompanyResolutionMatch)
      → IsFine u ns
      → HasMethod (record { name_method = method; name_matches = ns })
      → IsFine u ds
      → ltb 1 (length (candidate_ids ns ds)) ≡ false
      → Decided (evident_in ns ds) (conclude u raw method ns ds)
  unfolding conclude
  settled-Decided method (m ∷ ns) ds fine how fine' few =
      let (exact_method, there, exact) = how refl in
      rw (there, conclude)
        (
          resolved_by raw exact_method m,
          check_resolution-resolved u raw exact_method m named exact (fine.1 m (inl refl)),
          (m.company_id, refl, single (m ∷ ns) ds m.company_id few (ground arith)),
        )
  settled-Decided method [] (d ∷ ds) fine how fine' few = (
    resolved_by raw CompanyResolutionMethod.domain_exact d,
    check_resolution-resolved u raw CompanyResolutionMethod.domain_exact d named refl
        (fine'.1 d (inl refl)),
    (d.company_id, refl, single [] (d ∷ ds) d.company_id few (ground arith)),
  )
  settled-Decided method [] [] fine how fine' few =
      (unresolved_name raw, check_resolution-unresolved u raw named, (refl, λ k. refl))

  pub decide-Decided :
      (names : NameMatches) (ds : List CompanyResolutionMatch)
      → IsFine u names.name_matches
      → HasMethod names
      → IsFine u ds
      → Decided (evident_in names.name_matches ds) (decide u raw names ds)
  unfolding decide
  decide-Decided names ds fine how fine' =
      let ns = names.name_matches in
      elim (Bool-cases (ltb 1 (length ns))) [
        | inl many ↦
            let (a, b, here, there, apart) = two-companies ns fine.0 many in
            rw (many, decide)
              (ambiguous-Decided ns ds (a, b, ground (arith, here), ground (arith, there), apart))
        | inr few ↦ elim (Bool-cases (ltb 1 (length ds))) [
          | inl many ↦
              let (a, b, here, there, apart) = two-companies ds fine'.0 many in
              rw (few, many, decide)
                (ambiguous-Decided ns ds (a, b, ground (arith, here), ground (arith, there), apart))
          | inr few' ↦ elim (Bool-cases (ltb 1 (length (candidate_ids ns ds)))) [
            | inl many ↦
                let (a, b, here, there, apart) =
                  two-members (candidate_ids ns ds) (distinct-HasKey _) many in
                rw (few, few', many, decide)
                  (ambiguous-Decided ns ds (
                    a,
                    b,
                    sym (member-candidate_ids a ns ds) ∙ here,
                    sym (member-candidate_ids b ns ds) ∙ there,
                    apart,
                  ))
            | inr one ↦
                rw (few, few', one, decide)
                  (settled-Decided names.name_method ns ds fine how fine' one)
          ]
        ]
      ]
