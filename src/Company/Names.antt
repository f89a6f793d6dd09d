-- ===== src/Company/Names.antt =====
-- domain/company.py: normalisation of names and hostnames, and the hosts of personal mailboxes.
use mathlib.Core.List.{reverse}
use agenda_agent.Prelude.{
  Bool, List, Option, Result, [], domain_validation_error, err, false, if◌then◌else◌, is_empty, leb,
  length, map, none, not, ok, some, true, ℕ, ◌&&◌, ◌==◌, ◌||◌, ◌∷◌, exists, ltb,
}
use agenda_agent.Prelude.Text.{Text, Unicode, codes, collapse, is_blank, strip, text_eq}
use agenda_agent.Domain.Role.{blank, contains, starts_with}

-- `normalize_company_name`
unfoldable pub normalize_company_name : Unicode → Text → Text
normalize_company_name u value = collapse u (map (blank u) (u.casefold (u.nfkc value)))

-- `rstrip(".")`, on the reversed text
abbrev pub drop_dots : Text → Text
drop_dots [] = []
drop_dots (c ∷ t) = let rest = drop_dots t in if c == 46 then rest else c ∷ t

-- `split(".")`
unfoldable pub split_dots : Text → List Text
split_dots [] = [] ∷ []
split_dots (c ∷ t) = elim (split_dots t) [
  | [] ↦ []
  | l ∷ ls ↦ if c == 46 then [] ∷ l ∷ ls else (c ∷ l) ∷ ls
]

-- `[a-z0-9]`
abbrev pub is_alnum : ℕ → Bool
is_alnum c = (leb 97 c && leb c 122) || (leb 48 c && leb c 57)

-- Letters, digits and hyphens, the last one no hyphen.
abbrev pub ends_label : Text → Bool
ends_label [] = true
ends_label (c ∷ []) = is_alnum c
ends_label (c ∷ d ∷ t) = (is_alnum c || c == 45) && ends_label (d ∷ t)

-- `_DOMAIN_LABEL.fullmatch`
abbrev pub is_label : Text → Bool
is_label [] = false
is_label (c ∷ t) = is_alnum c && leb (length t) 62 && ends_label t

abbrev pub is_mark : ℕ → Bool
is_mark c = c == 47 || c == 64 || c == 63 || c == 35

-- `normalize_company_domain`; `idna` is the codec, which fails on what is no hostname.
module _ (u : Unicode) (idna : Text → Option Text) where
  unfoldable pub normalize_company_domain : Text → Result Text
  normalize_company_domain value =
      let candidate = reverse (drop_dots (reverse (u.casefold (strip u (u.nfkc value))))) in
      if is_empty candidate || contains (codes "://") candidate || exists is_mark candidate
      then err (domain_validation_error "company domain must be a bare hostname")
      else elim (idna candidate) [
        | none ↦ err (domain_validation_error "company domain is invalid")
        | some ascii_domain ↦
            let labels = split_dots ascii_domain in
            if ltb (length labels) 2 || exists (λ (l : Text). not (is_label l)) labels
            then err (domain_validation_error "company domain is invalid")
            else ok ascii_domain
      ]

  -- `_CONSUMER_MAILBOX_DOMAINS`
  abbrev pub consumer_mailbox_domains : List Text
  consumer_mailbox_domains =
      codes "126.com"
      ∷ codes "163.com"
      ∷ codes "yeah.net"
      ∷ codes "qq.com"
      ∷ codes "foxmail.com"
      ∷ codes "sina.com"
      ∷ codes "sina.cn"
      ∷ codes "sohu.com"
      ∷ codes "139.com"
      ∷ codes "189.cn"
      ∷ codes "gmail.com"
      ∷ codes "googlemail.com"
      ∷ codes "outlook.com"
      ∷ codes "hotmail.com"
      ∷ codes "live.com"
      ∷ codes "msn.com"
      ∷ codes "icloud.com"
      ∷ codes "me.com"
      ∷ codes "mac.com"
      ∷ codes "yahoo.com"
      ∷ codes "ymail.com"
      ∷ codes "aol.com"
      ∷ codes "proton.me"
      ∷ codes "protonmail.com"
      ∷ []

  -- `normalized.endswith(f".{suffix}")`, or the domain itself
  abbrev pub is_under : Text → Text → Bool
  is_under normalized suffix =
      text_eq normalized suffix || starts_with (reverse (46 ∷ suffix)) (reverse normalized)

  unfoldable pub is_consumer_mailbox_domain : Option Text → Bool
  is_consumer_mailbox_domain none = false
  is_consumer_mailbox_domain (some domain) =
      if is_blank u domain then false else elim (normalize_company_domain domain) [
        | err e ↦ false
        | ok normalized ↦ exists (is_under normalized) consumer_mailbox_domains
      ]
