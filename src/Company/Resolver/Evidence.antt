-- ===== src/Company/Resolver/Evidence.antt =====
-- A whole resolution, against the matches of the repository.
use mathlib.Core.Path.{fun_ext}
use agenda_agent.Domain.Digest.{Uuid}
use agenda_agent.Company.Match.{CompanyResolutionMatch, CompanyResolutionMethod, blank_name}
use agenda_agent.Company.Resolver.{
  CompanyRepository, domain_evidence, name_evidence, resolve, unique,
}
use agenda_agent.Company.Resolver.Unique.{has, In-unique, unique-HasKey, has-unique}
use agenda_agent.Company.Resolver.Checks.{IsChecked}
use agenda_agent.Prelude.{
  Bool, Bool-cases, In, List, Option, Result-cases, [], arith, err, false, if◌then◌else◌, inl, inr,
  is_empty, none, ok, or_else, refl, some, subst, sym, true, ◌||◌, ◌∷◌, ◌≡◌,
}
use agenda_agent.Company.Resolver.Sound.{Decided, HasMethod, IsFine, decide-Decided}
use agenda_agent.Prelude.Text.{Text, Unicode}
use agenda_agent.Company.Names.{
  is_consumer_mailbox_domain, normalize_company_name, normalize_company_domain,
}

-- The repository makes its matches with their check.
pub record IsCheckedRepository (u : Unicode) (repository : CompanyRepository) : Type 0 where
  pub canonical :
      (t : Text) (m : CompanyResolutionMatch)
      → In m (repository.find_by_normalized_canonical_name t)
      → IsChecked u m
  pub alias :
      (t : Text) (m : CompanyResolutionMatch)
      → In m (repository.find_by_normalized_alias t)
      → IsChecked u m
  pub domain :
      (t : Text) (m : CompanyResolutionMatch) → In m (repository.find_by_domain t) → IsChecked u m

unique-IsFine :
    (u : Unicode) (ms : List CompanyResolutionMatch)
    → ((m : CompanyResolutionMatch) → In m ms → IsChecked u m)
    → IsFine u (unique ms)
unique-IsFine u ms checked = (unique-HasKey ms, λ m h. checked m (In-unique ms m h))

has-empty : (k : Uuid) (ms : List CompanyResolutionMatch) → is_empty ms ≡ true → has k ms ≡ false
has-empty k [] h = refl
has-empty k (m ∷ ms) h = cc

module _ (u : Unicode) (idna : Text → Option Text) (repository : CompanyRepository) where
  -- The matches of a name: those of the canonical names, or else those of the aliases.
  abbrev pub matches_of_name : Option Text → List CompanyResolutionMatch
  matches_of_name raw =
      let name = normalize_company_name u (or_else raw []) in
      let canonical = repository.find_by_normalized_canonical_name name in
      if is_empty name
      then []
      else if is_empty canonical
      then repository.find_by_normalized_alias name
      else canonical

  -- The matches of a sender, unless it has a personal mailbox or no hostname.
  abbrev pub matches_of_domain : Option Text → List CompanyResolutionMatch
  matches_of_domain none = []
  matches_of_domain (some domain) =
      if is_consumer_mailbox_domain u idna (some domain)
      then []
      else elim (normalize_company_domain u idna domain) [
        | err e ↦ []
        | ok normalized ↦ repository.find_by_domain normalized
      ]

  -- There is a match of the company.
  abbrev pub is_evident : Option Text → Option Text → Uuid → Bool
  is_evident raw sender k = has k (matches_of_name raw) || has k (matches_of_domain sender)

  -- What the name gives: its matches, each company once, with an exact method.
  name_evidence-IsFine :
      IsCheckedRepository u repository
      → (raw : Option Text)
      → IsFine u (name_evidence u idna repository raw).name_matches
        × HasMethod (name_evidence u idna repository raw)
        × ((k : Uuid)
            → has k (name_evidence u idna repository raw).name_matches
              ≡ has k (matches_of_name raw))
  unfolding name_evidence
  name_evidence-IsFine checked raw =
      let name = normalize_company_name u (or_else raw []) in
      let canonical = repository.find_by_normalized_canonical_name name in
      let aliases = repository.find_by_normalized_alias name in
      elim (Bool-cases (is_empty name)) [
        | inl empty ↦ rw (empty, name_evidence) ((tt, λ m h. absurd h), (λ h. cc), λ k. refl)
        | inr there ↦ elim (Bool-cases (is_empty canonical)) [
          | inr some_canonical ↦
              rw (there, some_canonical, name_evidence)
                (
                  unique-IsFine u canonical (checked.canonical name),
                  (λ h. (CompanyResolutionMethod.canonical_exact, refl, refl)),
                  λ k. has-unique k canonical,
                )
          | inl no_canonical ↦ elim (Bool-cases (is_empty aliases)) [
            | inr some_alias ↦
                rw (there, no_canonical, some_alias, name_evidence)
                  (
                    unique-IsFine u aliases (checked.alias name),
                    (λ h. (CompanyResolutionMethod.alias_exact, refl, refl)),
                    λ k. has-unique k aliases,
                  )
            | inl no_alias ↦
                rw (there, no_canonical, no_alias, name_evidence)
                  ((tt, λ m h. absurd h), (λ h. cc), λ k. sym (has-empty k aliases no_alias))
          ]
        ]
      ]

  domain_evidence-IsFine :
      IsCheckedRepository u repository
      → (sender : Option Text)
      → IsFine u (domain_evidence u idna repository sender)
        × ((k : Uuid)
            → has k (domain_evidence u idna repository sender) ≡ has k (matches_of_domain sender))
  unfolding domain_evidence
  domain_evidence-IsFine checked none = ((tt, λ m h. absurd h), λ k. refl)
  domain_evidence-IsFine checked (some domain) =
      elim (Bool-cases (is_consumer_mailbox_domain u idna (some domain))) [
        | inl personal ↦ rw (personal, domain_evidence) ((tt, λ m h. absurd h), λ k. refl)
        | inr other ↦ elim (Result-cases (normalize_company_domain u idna domain)) [
          | inr (e, failed) ↦ rw (other, failed, domain_evidence) ((tt, λ m h. absurd h), λ k. refl)
          | inl (host, made) ↦
              rw (other, made, domain_evidence)
                (
                  unique-IsFine u (repository.find_by_domain host) (checked.domain host),
                  λ k. has-unique k (repository.find_by_domain host),
                )
        ]
      ]

  -- A resolution always gives a result, and it agrees with the evidence. It is resolved to a company
  -- exactly if that is the only one with a match, of the name or of the sender; it is ambiguous if
  -- two companies have one, with all of these as its candidates; and it is unresolved if none has.
  -- The name is absent or not blank, and the repository checks its matches.
  pub resolve-Explains :
      (raw sender : Option Text)
      → blank_name u raw ≡ false
      → IsCheckedRepository u repository
      → Decided (is_evident raw sender) (resolve u idna repository raw sender)
  unfolding resolve
  resolve-Explains raw sender named checked =
      let (fine, how, same) = name_evidence-IsFine checked raw in
      let (fine', same') = domain_evidence-IsFine checked sender in
      let decided =
        decide-Decided u raw named (name_evidence u idna repository raw)
          (domain_evidence u idna repository sender) fine how fine' in
      subst (λ evident. Decided evident (resolve u idna repository raw sender))
        (fun_ext (λ k. ground (arith, same k, same' k))) decided
