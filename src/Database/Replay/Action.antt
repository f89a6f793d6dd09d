-- ===== src/Database/Replay/Action.antt =====
-- The action step, a second time.
-- The tables as they are, the same identifiers, and no change.
use agenda_agent.Prelude.{
  List, Option, Option-cases, Result-cases, arith, false, find, inr, none, ok, some, true, ◌≡◌, inl,
  [], ok-injective, sym, ◌++◌, ◌∙◌, ◌∷◌,
}
use agenda_agent.Database.ActionStep.{
  ActionWrite, apply_action, has_key, insert_action, action_row, resolve_link,
}
use agenda_agent.Database.Tables.{ActionItemRow, SecureLinkRow}
use agenda_agent.Domain.Digest.{Uuid}
use agenda_agent.Domain.Processing.{PlannedActionItem}
use agenda_agent.Prelude.Text.{text_eq_refl}
use agenda_agent.Prelude.Rows.{find-append_new}

abbrev pub repeated_action : ActionWrite → ActionWrite
repeated_action w = record w { changed = false }

has_key-action_row :
    (source application : Uuid) (link : Option Uuid) (a : PlannedActionItem)
    → has_key application a.idempotency_key (action_row source application link a) ≡ true
has_key-action_row source application link a = ground (arith, text_eq_refl a.idempotency_key)

-- What an insert returns where the key is there, and where it is new.
insert_action-found :
    (source application : Uuid) (link : Option Uuid) (a : PlannedActionItem)
    (actions : List ActionItemRow) {m : ActionItemRow}
    → find (has_key application a.idempotency_key) actions ≡ some m
    → insert_action source application link a actions
      ≡ ok (record { actions = actions; action_ids = m.id ∷ []; changed = false })
unfolding insert_action
insert_action-found source application link a actions found = rw (found, insert_action)

insert_action-fresh :
    (source application : Uuid) (link : Option Uuid) (a : PlannedActionItem)
    (actions : List ActionItemRow) {w : ActionWrite}
    → find (has_key application a.idempotency_key) actions ≡ none
    → insert_action source application link a actions ≡ ok w
    → w ≡ (record {
      actions = actions ++ action_row source application link a ∷ [];
      action_ids = a.id ∷ [];
      changed = true;
    })
unfolding insert_action
insert_action-fresh source application link a actions fresh h = ground arith

insert_action_again :
    (source application : Uuid) (link : Option Uuid) (a : PlannedActionItem)
    (actions : List ActionItemRow) (w : ActionWrite)
    → insert_action source application link a actions ≡ ok w
    → insert_action source application link a w.actions ≡ ok (repeated_action w)
insert_action_again source application link a actions w h =
    let key = has_key application a.idempotency_key in
    let row = action_row source application link a in
    elim (Option-cases (find key actions)) [
      | inr (m, found) ↦
          let same = insert_action-found source application link a actions found in
          rw (ok-injective (sym h ∙ same)) same
      | inl fresh ↦ rw (insert_action-fresh source application link a actions fresh h) (
          insert_action-found source application link a (actions ++ row ∷ [])
            (find-append_new key actions row fresh (has_key-action_row source application link a)))
    ]

pub apply_action_again :
    (source application : Uuid) (a : Option PlannedActionItem) (links : List SecureLinkRow)
    (actions : List ActionItemRow) (w : ActionWrite)
    → apply_action source application a links actions ≡ ok w
    → apply_action source application a links w.actions ≡ ok (repeated_action w)
unfolding apply_action
apply_action_again source application none links actions w h = ground arith
apply_action_again source application (some a) links actions w h =
    elim (Result-cases (resolve_link links source a.secure_link_ref)) [
      | inl (link, found) ↦
          rw found (insert_action_again source application link a actions w (rw found at h))
      | inr (x, missing) ↦ cc (rw missing at h)
    ]
