-- ===== src/Domain/Role/Laws.antt =====
-- The words of a normalised role.
use agenda_agent.Prelude.{◌≡◌}
use agenda_agent.Prelude.Text.{Text, Unicode, collapse}
use agenda_agent.Prelude.Text.Words.{collapse-collapse}
use agenda_agent.Domain.Role.{normalize_role_name}

-- Splitting a normalised name into words and joining them again leaves it as it is.
collapse-normalize_role_name :
    (u : Unicode) (value : Text)
    → collapse u (normalize_role_name u value) ≡ normalize_role_name u value
unfolding normalize_role_name
collapse-normalize_role_name u value = collapse-collapse u _
