-- ===== src/Database/ActionStep.antt =====
-- persistence/domain_processing.py: `_apply_action`, the fourth step of a transition.
use agenda_agent.Prelude.{
  Bool, List, Option, Result, [], err, false, find, if◌then◌else◌, integrity_error, none, ok, some,
  true, value_error, ◌&&◌, ◌++◌, ◌==◌, ◌>>=◌, ◌∷◌, exists,
}
use agenda_agent.Database.Tables.{ActionItemRow, SecureLinkRow}
use agenda_agent.Domain.Digest.{Uuid}
use agenda_agent.Domain.Processing.{PlannedActionItem}
use agenda_agent.Prelude.Text.{Text, text_eq}

pub record ActionWrite : Type 0 where
  pub actions : List ActionItemRow
  pub action_ids : List Uuid
  pub changed : Bool

-- The encrypted link of the email that a reference names.
abbrev pub is_link : Uuid → Text → SecureLinkRow → Bool
is_link source ref m = m.source_email_id == source && text_eq m.ref ref

-- `secure_link_id`: none without a reference; a reference must resolve.
unfoldable pub resolve_link : List SecureLinkRow → Uuid → Option Text → Result (Option Uuid)
resolve_link links source none = ok none
resolve_link links source (some ref) = elim (find (is_link source ref) links) [
  | none ↦ err (value_error "action link reference does not resolve to encrypted storage")
  | some m ↦ ok (some m.id)
]

abbrev pub has_key : Uuid → Text → ActionItemRow → Bool
has_key application key m = m.application_id == application && text_eq m.idempotency_key key

abbrev pub action_row : Uuid → Uuid → Option Uuid → PlannedActionItem → ActionItemRow
action_row source application link a = record {
  id = a.id;
  application_id = application;
  source_email_id = source;
  type = a.type;
  title = a.title;
  due_at = a.due_at;
  secure_link_id = link;
  idempotency_key = a.idempotency_key;
}

-- An insert that does nothing if the application has an item of the key.
unfoldable pub insert_action :
    Uuid → Uuid → Option Uuid → PlannedActionItem → List ActionItemRow → Result ActionWrite
insert_action source application link a actions =
    elim (find (has_key application a.idempotency_key) actions) [
      | some existing ↦
          ok (record { actions = actions; action_ids = existing.id ∷ []; changed = false })
      | none ↦
          if exists (λ (m : ActionItemRow). m.id == a.id) actions
          then err (integrity_error "action_items_pkey")
          else ok (record {
            actions = actions ++ action_row source application link a ∷ [];
            action_ids = a.id ∷ [];
            changed = true;
          })
    ]

unfoldable pub apply_action :
    Uuid
    → Uuid
    → Option PlannedActionItem
    → List SecureLinkRow
    → List ActionItemRow
    → Result ActionWrite
unfolding resolve_link insert_action
apply_action source application none links actions =
    ok (record { actions = actions; action_ids = []; changed = false })
apply_action source application (some a) links actions = do
  link ← resolve_link links source a.secure_link_ref
  insert_action source application link a actions
