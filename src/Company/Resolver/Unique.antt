-- ===== src/Company/Resolver/Unique.antt =====
-- One match for each company.
use agenda_agent.Domain.Digest.{Uuid}
use agenda_agent.Company.Match.{CompanyResolutionMatch}
use agenda_agent.Company.Resolver.{by_company, is_match_of, keep_best, unique}
use agenda_agent.Prelude.{
  ==→≡, Bool, Bool-cases, In, List, [], arith, exists, if◌then◌else◌, inl, inr, ltb, refl, sym,
  ◌==◌, ◌||◌, ◌∙◌, ◌∷◌, ◌≡◌, ◌⊎◌,
}
use agenda_agent.Prelude.Sort.{In-sort_with, exists-sort_with}
use agenda_agent.Prelude.Rows.{HasKey, HasKey-sort_with}

abbrev pub has : Uuid → List CompanyResolutionMatch → Bool
has company ms = exists (is_match_of company) ms

abbrev pub company_of : CompanyResolutionMatch → Uuid
company_of m = m.company_id

abbrev better : CompanyResolutionMatch → CompanyResolutionMatch → CompanyResolutionMatch
better m current = if ltb current.confidence m.confidence then m else current

better-company :
    (m current : CompanyResolutionMatch)
    → current.company_id ≡ m.company_id
    → (better m current).company_id ≡ m.company_id
better-company m current same = elim (Bool-cases (ltb current.confidence m.confidence)) [
  | inl more ↦ rw more refl
  | inr less ↦ rw less same
]

has-keep_best :
    (c : Uuid) (m : CompanyResolutionMatch) (ms : List CompanyResolutionMatch)
    → has c (keep_best m ms) ≡ ((m.company_id == c) || has c ms)
unfolding keep_best
has-keep_best c m [] = refl
has-keep_best c m (x ∷ xs) = elim (Bool-cases (x.company_id == m.company_id)) [
  | inr other ↦ rw other (ground (arith, has-keep_best c m xs))
  | inl same ↦
      let e = ==→≡ x.company_id m.company_id same in
      rw (same, better-company m x e, e) (ground arith)
]

HasKey-keep_best :
    (m : CompanyResolutionMatch) (ms : List CompanyResolutionMatch)
    → HasKey company_of ms
    → HasKey company_of (keep_best m ms)
unfolding keep_best
HasKey-keep_best m [] h = (refl, tt)
HasKey-keep_best m (x ∷ xs) h = elim (Bool-cases (x.company_id == m.company_id)) [
  | inr other ↦
      let inside = has-keep_best x.company_id m xs in
      rw other (ground (arith, inside, h.0), HasKey-keep_best m xs h.1)
  | inl same ↦
      let e = ==→≡ x.company_id m.company_id same in
      rw same (rw (better-company m x e, sym e) h.0, h.1)
]

In-keep_best :
    (m : CompanyResolutionMatch) (ms : List CompanyResolutionMatch) (z : CompanyResolutionMatch)
    → In z (keep_best m ms)
    → (z ≡ m) ⊎ In z ms
unfolding keep_best
In-keep_best m [] z h = h
In-keep_best m (x ∷ xs) z h = elim (Bool-cases (x.company_id == m.company_id)) [
  | inr other ↦ elim (rw other at h) [
    | inl e ↦ inr (inl e)
    | inr k ↦ elim (In-keep_best m xs z k) [ inl e ↦ inl e | inr later ↦ inr (inr later) ]
  ]
  | inl same ↦ elim (rw same at h) [
    | inr k ↦ inr (inr k)
    | inl e ↦ elim (Bool-cases (ltb x.confidence m.confidence)) [
      | inl more ↦ inl (rw more at e)
      | inr less ↦ inr (inl (rw less at e))
    ]
  ]
]

has-by_company :
    (c : Uuid) (kept ms : List CompanyResolutionMatch)
    → has c (by_company kept ms) ≡ (has c kept || has c ms)
unfolding by_company
has-by_company c kept [] = ground arith
has-by_company c kept (m ∷ ms) =
    ground (arith, has-by_company c (keep_best m kept) ms, has-keep_best c m kept)

HasKey-by_company :
    (kept ms : List CompanyResolutionMatch)
    → HasKey company_of kept
    → HasKey company_of (by_company kept ms)
unfolding by_company
HasKey-by_company kept [] h = h
HasKey-by_company kept (m ∷ ms) h =
    HasKey-by_company (keep_best m kept) ms (HasKey-keep_best m kept h)

In-by_company :
    (kept ms : List CompanyResolutionMatch) (z : CompanyResolutionMatch)
    → In z (by_company kept ms)
    → In z kept ⊎ In z ms
unfolding by_company
In-by_company kept [] z h = inl h
In-by_company kept (m ∷ ms) z h = elim (In-by_company (keep_best m kept) ms z h) [
  | inr later ↦ inr (inr later)
  | inl k ↦ elim (In-keep_best m kept z k) [ inl e ↦ inr (inl e) | inr old ↦ inl old ]
]

-- The unique matches are of the same companies as the matches.
pub has-unique : (c : Uuid) (ms : List CompanyResolutionMatch) → has c (unique ms) ≡ has c ms
unfolding unique
has-unique c ms = exists-sort_with _ (is_match_of c) (by_company [] ms) ∙ has-by_company c [] ms

pub unique-HasKey : (ms : List CompanyResolutionMatch) → HasKey company_of (unique ms)
unfolding unique
unique-HasKey ms = HasKey-sort_with company_of _ (by_company [] ms) (HasKey-by_company [] ms tt)

pub In-unique :
    (ms : List CompanyResolutionMatch) (z : CompanyResolutionMatch) → In z (unique ms) → In z ms
unfolding unique
In-unique ms z h = elim (In-by_company [] ms z (In-sort_with _ (by_company [] ms) z h)) [
  | inl none_there ↦ absurd none_there
  | inr there ↦ there
]
