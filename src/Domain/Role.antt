-- ===== src/Domain/Role.antt =====
-- domain/role.py: normalisation of a role label, and its family.
pub mod Laws
use agenda_agent.Prelude.{
  ℕ, Bool, true, false, ◌&&◌, ◌||◌, Option, none, some, List, [], ◌∷◌, map, find, exists,
  if◌then◌else◌, is_none, is_some, not, Result, ok, err, domain_validation_error, ◌>>=◌, ◌==◌,
}
use agenda_agent.Prelude.Text.{
  Text, Unicode, codes, text_eq, same_optional_text, split, collapse, is_blank,
}

pub data RoleFamily : Type 0 where
  backend frontend fullstack software_engineering machine_learning algorithm : RoleFamily
  data_role infra security product other unknown : RoleFamily

-- `" " if unicodedata.category(character)[0] in {"P", "S", "Z"} else character`
abbrev pub blank : Unicode → ℕ → ℕ
blank u c = if u.is_separator c then 32 else c

unfoldable pub normalize_role_name : Unicode → Text → Text
normalize_role_name u value = collapse u (map (blank u) (u.casefold (u.nfkc value)))

-- `keyword in text`
abbrev pub starts_with : Text → Text → Bool
starts_with [] t = true
starts_with (c ∷ k) [] = false
starts_with (c ∷ k) (d ∷ t) = c == d && starts_with k t

abbrev pub contains : Text → Text → Bool
contains k [] = starts_with k []
contains k (c ∷ t) = starts_with k (c ∷ t) || contains k t

abbrev pub family_keywords : List (RoleFamily × List Text)
family_keywords =
    (machine_learning, codes "machine learning" ∷ codes "ml engineer" ∷ codes "机器学习" ∷ [])
    ∷ (algorithm, codes "algorithm" ∷ codes "算法" ∷ [])
    ∷ (fullstack, codes "full stack" ∷ codes "fullstack" ∷ codes "全栈" ∷ [])
    ∷ (backend, codes "backend" ∷ codes "back end" ∷ codes "后端" ∷ codes "后台开发" ∷ codes "服务端" ∷ [])
    ∷ (frontend, codes "frontend" ∷ codes "front end" ∷ codes "前端" ∷ [])
    ∷ (security, codes "security" ∷ codes "cyber" ∷ codes "安全" ∷ [])
    ∷ (
      infra,
      codes "infrastructure"
          ∷ codes "platform engineer"
          ∷ codes "devops"
          ∷ codes "sre"
          ∷ codes "基础设施"
          ∷ [],
    )
    ∷ (data_role, codes "data" ∷ codes "数据" ∷ [])
    ∷ (product, codes "product manager" ∷ codes "product owner" ∷ codes "产品" ∷ [])
    ∷ (
      software_engineering,
      codes "software engineer"
          ∷ codes "software developer"
          ∷ codes "graduate engineer"
          ∷ codes "开发工程师"
          ∷ codes "研发工程师"
          ∷ codes "软件工程师"
          ∷ [],
    )
    ∷ []

pub record NormalizedRole : Type 0 where
  pub raw_name : Option Text
  pub normalized_name : Option Text
  pub family : Option RoleFamily

-- The checks of `NormalizedRole.__post_init__`.
pub check_role : Unicode → NormalizedRole → Result NormalizedRole
check_role u r = elim r.raw_name [
  | none ↦
      if is_some r.normalized_name || is_some r.family
      then err (domain_validation_error "missing role cannot have normalized values")
      else ok r
  | some raw ↦
      if is_blank u raw
      then err (domain_validation_error "raw role name must be null or non-empty")
      else if not (same_optional_text r.normalized_name (some (normalize_role_name u raw)))
          || is_none r.family
      then err (domain_validation_error "normalized role is inconsistent")
      else ok r
]

abbrev pub matches_keyword : Text → RoleFamily × List Text → Bool
matches_keyword t (f, keywords) = exists (λ k. contains k t) keywords

-- The first family with a keyword in the text, or `OTHER`.
unfoldable pub role_family : Text → RoleFamily
role_family t = elim (find (matches_keyword t) family_keywords) [ none ↦ other | some (f, _) ↦ f ]

-- `RoleNormalizer.normalize`
unfoldable pub normalize : Unicode → Option Text → Result NormalizedRole
unfolding check_role
normalize u none = check_role u (record { raw_name = none; normalized_name = none; family = none })
normalize u (some raw) =
    let name = normalize_role_name u raw in
    if text_eq name []
    then err (domain_validation_error "raw role name must be null or non-empty")
    else check_role u (record {
      raw_name = some raw;
      normalized_name = some name;
      family = some (role_family name);
    })
