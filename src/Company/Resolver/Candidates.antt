-- ===== src/Company/Resolver/Candidates.antt =====
-- The companies that the evidence names.
use agenda_agent.Domain.Digest.{Uuid}
use agenda_agent.Company.Match.{CompanyResolutionMatch, distinct}
use agenda_agent.Company.Resolver.{candidate_ids}
use agenda_agent.Company.Resolver.Unique.{company_of, has}
use agenda_agent.Prelude.{
  ==→≡, Bool, Bool-cases, List, [], ap, arith, exists, false, inl, inr, length, map, refl, true,
  ◌++◌, ◌==◌, ◌||◌, ◌∙◌, ◌∷◌, ◌≡◌, ◌≤◌,
}
use agenda_agent.Prelude.Rows.{HasKey}

abbrev pub member : Uuid → List Uuid → Bool
member k is = exists (λ j. j == k) is

abbrev pub self : Uuid → Uuid
self i = i

member-distinct : (k : Uuid) (is : List Uuid) → member k (distinct is) ≡ member k is
unfolding distinct
member-distinct k [] = refl
member-distinct k (i ∷ is) = elim (Bool-cases (member i (distinct is))) [
  | inl again ↦
      let kept = member-distinct k is in
      elim (Bool-cases (i == k)) [
        | inl same ↦
            let e = ==→≡ i k same in
            rw again (kept ∙ ground (arith, rw (e, member-distinct k is) at again, same))
        | inr other ↦ rw again (kept ∙ ground (arith, other))
      ]
  | inr new ↦ rw new (ground (arith, member-distinct k is))
]

pub distinct-HasKey : (is : List Uuid) → HasKey self (distinct is)
unfolding distinct
distinct-HasKey [] = tt
distinct-HasKey (i ∷ is) = elim (Bool-cases (member i (distinct is))) [
  | inl again ↦ rw again (distinct-HasKey is)
  | inr new ↦ rw new (new, distinct-HasKey is)
]

pub distinct-same : (is : List Uuid) → HasKey self is → distinct is ≡ is
unfolding distinct
distinct-same [] h = refl
distinct-same (i ∷ is) h =
    let rest = distinct-same is h.1 in
    let new : member i (distinct is) ≡ false = rw rest h.0 in rw new (ap (λ js. i ∷ js) rest)

member-map :
    (k : Uuid) (xs ys : List CompanyResolutionMatch)
    → member k (map company_of (xs ++ ys)) ≡ (has k xs || has k ys)
member-map k [] [] = refl
member-map k [] (y ∷ ys) = ground (arith, member-map k [] ys)
member-map k (x ∷ xs) ys = ground (arith, member-map k xs ys)

-- A company is a candidate if some match is of it.
pub member-candidate_ids :
    (k : Uuid) (xs ys : List CompanyResolutionMatch)
    → member k (candidate_ids xs ys) ≡ (has k xs || has k ys)
member-candidate_ids k xs ys = member-distinct k (map company_of (xs ++ ys)) ∙ member-map k xs ys

-- Two candidates make a list of two.
pub two-candidates :
    (a b : Uuid) (is : List Uuid)
    → member a is ≡ true
    → member b is ≡ true
    → (a == b) ≡ false
    → 2 ≤ length is
two-candidates a b [] ha hb apart = cc
two-candidates a b (i ∷ []) ha hb apart = ground arith
two-candidates a b (i ∷ j ∷ is) ha hb apart = omega arith
