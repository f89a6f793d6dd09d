-- ===== src/Examples/Operations.antt =====
-- Runs of the switches.
use agenda_agent.Prelude.Text.{ascii, codes}
use agenda_agent.Prelude.{
  [], err, false, find, none, ok, operation_conflict, refl, some, true, ◌∷◌, ◌≡◌,
}
use agenda_agent.Operations.Control.{
  RuntimeCapabilities, RuntimeControl, RuntimeControlDefaults, RuntimeControlPatch, initial_control,
  manual, of_account, patched, store_update_control, update_control, check_control, ensure_control,
  refuse_patch,
}
use agenda_agent.Operations.Control.Service.{IsSupported, update_control-IsSupported}
use agenda_agent.Operations.Control.Laws.{
  Updated, store_update_control-Updated, store_update_control_stale,
}

abbrev pub defaults : RuntimeControlDefaults
defaults = record {
  mail_sync_enabled = true;
  workflow_enabled = false;
  calendar_write_enabled = false;
  daily_brief_enabled = false;
  daily_brief_recipient = none;
}

abbrev pub capabilities : RuntimeCapabilities
capabilities = record {
  workflow_processing_available = true;
  calendar_write_available = true;
  daily_brief_available = false;
}

-- Turns the workflow and the calendar on.
abbrev turn_on : RuntimeControlPatch
turn_on = record {
  expected_version = 1;
  reason = manual;
  mail_sync_enabled = none;
  workflow_enabled = some true;
  calendar_write_enabled = some true;
  daily_brief_enabled = none;
  daily_brief_recipient = none;
}

abbrev turned_on : RuntimeControl
turned_on = patched turn_on (codes "me") 60 (initial_control 5 defaults 60)

initial_run :
    store_update_control ascii 5 turn_on (codes "me") 60 (initial_control 5 defaults 50 ∷ [])
    ≡ ok (turned_on ∷ [], turned_on)
unfolding store_update_control check_control
initial_run = refl

store_update_control_stale_example :
    store_update_control ascii 5 turn_on (codes "you") 70 (turned_on ∷ [])
    ≡ err (operation_conflict "runtime control version changed")
store_update_control_stale_example =
    store_update_control_stale ascii 5 turn_on turn_on (codes "me") (codes "you") 60 70
      (initial_control 5 defaults 50 ∷ []) (turned_on ∷ [], turned_on) initial_run refl

store_update_control-Updated_example :
    Updated ascii 5 turn_on
      (codes "me")
      60
      (initial_control 5 defaults 50 ∷ [])
      (turned_on ∷ [], turned_on)
store_update_control-Updated_example =
    store_update_control-Updated ascii 5 turn_on (codes "me") 60
      (initial_control 5 defaults 50 ∷ []) (turned_on ∷ [], turned_on) initial_run

first_run :
    (update_control ascii 5 defaults capabilities turn_on (codes "me") 60 []).0 ≡ ok turned_on
unfolding update_control ensure_control check_control refuse_patch store_update_control
first_run = refl

update_control-IsSupported_example :
    IsSupported capabilities turn_on turned_on
    × (find
          (of_account 5)
          (update_control ascii 5 defaults capabilities turn_on (codes "me") 60 []).1
        ≡ some turned_on)
update_control-IsSupported_example =
    update_control-IsSupported ascii 5 defaults capabilities turn_on (codes "me") 60 [] turned_on
      first_run
