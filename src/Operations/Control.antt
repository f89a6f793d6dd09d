-- ===== src/Operations/Control.antt =====
-- application/operations.py and persistence/operations.py: the switches of an account.
pub mod Laws
pub mod Service
use agenda_agent.Prelude.{
  Bool, List, Option, Result, [], err, exists, false, find, if◌then◌else◌, is_none, is_some, ltb,
  none, not, ok, operation_conflict, or_else, runtime_error, some, true, update_where, value_error,
  ℕ, ◌&&◌, ◌++◌, ◌+◌, ◌==◌, ◌>>=◌, ◌∷◌,
}
use agenda_agent.Domain.Digest.{Datetime, Uuid}
use agenda_agent.Prelude.Text.{Text, Unicode, codes, is_blank, text_eq}
use agenda_agent.Domain.Recipient.{normalize_recipient_address}

pub data ControlReason : Type 0 where
  manual testing maintenance incident account_switch : ControlReason

pub record RuntimeControlDefaults : Type 0 where
  pub mail_sync_enabled : Bool
  pub workflow_enabled : Bool
  pub calendar_write_enabled : Bool
  pub daily_brief_enabled : Bool
  pub daily_brief_recipient : Option Text

pub record RuntimeCapabilities : Type 0 where
  pub workflow_processing_available : Bool
  pub calendar_write_available : Bool
  pub daily_brief_available : Bool

pub record RuntimeControl : Type 0 where
  pub account_id : Uuid
  pub mail_sync_enabled : Bool
  pub workflow_enabled : Bool
  pub calendar_write_enabled : Bool
  pub daily_brief_enabled : Bool
  pub daily_brief_recipient : Option Text
  pub version : ℕ
  pub reason : ControlReason
  pub updated_by : Text
  pub updated_at : Datetime

-- `normalize_recipient_address(r) != r`; the normalisation may raise
unfoldable pub check_normalized : Unicode → Option Text → Result (Unit {0})
check_normalized u none = ok tt
check_normalized u (some r) = do
  n ← normalize_recipient_address u r
  if text_eq n r then ok tt else err (value_error "Daily Brief recipient must be normalized")

-- `RuntimeControl.__post_init__`
unfoldable pub check_control : Unicode → RuntimeControl → Result RuntimeControl
unfolding check_normalized
check_control u c =
    if ltb c.version 1
    then err (value_error "runtime control version must be positive")
    else if c.calendar_write_enabled && not c.workflow_enabled
    then err (value_error "calendar writes require workflow processing")
    else if is_blank u c.updated_by
    then err (value_error "runtime control actor must not be empty")
    else (do _ ← check_normalized u c.daily_brief_recipient; ok c)

pub record RuntimeControlPatch : Type 0 where
  pub expected_version : ℕ
  pub reason : ControlReason
  pub mail_sync_enabled : Option Bool
  pub workflow_enabled : Option Bool
  pub calendar_write_enabled : Option Bool
  pub daily_brief_enabled : Option Bool
  pub daily_brief_recipient : Option Text

-- `RuntimeControlPatch.__post_init__`
unfoldable pub check_patch : Unicode → RuntimeControlPatch → Result RuntimeControlPatch
unfolding check_normalized
check_patch u p =
    if ltb p.expected_version 1
    then err (value_error "expected runtime control version must be positive")
    else if is_none p.mail_sync_enabled
        && is_none p.workflow_enabled
        && is_none p.calendar_write_enabled
        && is_none p.daily_brief_enabled
        && is_none p.daily_brief_recipient
    then err (value_error "runtime control patch must change at least one switch")
    else (do _ ← check_normalized u p.daily_brief_recipient; ok p)

abbrev pub of_account : Uuid → RuntimeControl → Bool
of_account account c = c.account_id == account

-- The values that `ensure_control` inserts.
abbrev pub initial_control : Uuid → RuntimeControlDefaults → Datetime → RuntimeControl
initial_control account d now = record {
  account_id = account;
  mail_sync_enabled = d.mail_sync_enabled;
  workflow_enabled = d.workflow_enabled;
  calendar_write_enabled = d.calendar_write_enabled && d.workflow_enabled;
  daily_brief_enabled = d.daily_brief_enabled;
  daily_brief_recipient = d.daily_brief_recipient;
  version = 1;
  reason = manual;
  updated_by = codes "bootstrap";
  updated_at = now;
}

-- The insert of `ensure_control`, which does nothing if the account has a row.
abbrev pub with_row :
    Uuid → RuntimeControlDefaults → Datetime → List RuntimeControl → List RuntimeControl
with_row account d now rows =
    if exists (of_account account) rows then rows else rows ++ initial_control account d now ∷ []

abbrev pub default_recipient : RuntimeControlDefaults → RuntimeControl → RuntimeControl
default_recipient d c = record c { daily_brief_recipient = d.daily_brief_recipient }

-- The rest of `ensure_control`: a missing recipient is filled from the defaults.
unfoldable pub read_control :
    Unicode
    → Uuid
    → RuntimeControlDefaults
    → List RuntimeControl
    → Result (List RuntimeControl × RuntimeControl)
read_control u account d rows = elim (find (of_account account) rows) [
  | none ↦ err (runtime_error "runtime control could not be initialized")
  | some c ↦
      if is_none c.daily_brief_recipient && is_some d.daily_brief_recipient
      then (do
        c' ← check_control u (default_recipient d c)
        ok (update_where (of_account account) (default_recipient d) rows, c'))
      else (do c' ← check_control u c; ok (rows, c'))
]

unfoldable pub ensure_control :
    Unicode
    → Uuid
    → RuntimeControlDefaults
    → Datetime
    → List RuntimeControl
    → Result (List RuntimeControl × RuntimeControl)
unfolding read_control
ensure_control u account d now rows = read_control u account d (with_row account d now rows)

-- The assignments of `update_control`, in its order.
abbrev pub patched : RuntimeControlPatch → Text → Datetime → RuntimeControl → RuntimeControl
patched p updated_by now c = record {
  account_id = c.account_id;
  mail_sync_enabled = or_else p.mail_sync_enabled c.mail_sync_enabled;
  workflow_enabled = or_else p.workflow_enabled c.workflow_enabled;
  calendar_write_enabled = or_else p.calendar_write_enabled c.calendar_write_enabled;
  daily_brief_enabled = or_else p.daily_brief_enabled c.daily_brief_enabled;
  daily_brief_recipient = elim p.daily_brief_recipient [
    | some r ↦ some r
    | none ↦ c.daily_brief_recipient
  ];
  version = c.version + 1;
  reason = p.reason;
  updated_by = updated_by;
  updated_at = now;
}

-- `SqlAlchemyOperationsStore.update_control`
unfoldable pub store_update_control :
    Unicode
    → Uuid
    → RuntimeControlPatch
    → Text
    → Datetime
    → List RuntimeControl
    → Result (List RuntimeControl × RuntimeControl)
store_update_control u account p updated_by now rows = elim (find (of_account account) rows) [
  | none ↦ err (operation_conflict "runtime control is not initialized")
  | some c ↦
      if not (c.version == p.expected_version)
      then err (operation_conflict "runtime control version changed")
      else if (patched p updated_by now c).calendar_write_enabled
          && not (patched p updated_by now c).workflow_enabled
      then err (operation_conflict "calendar writes require workflow processing")
      else (do
        c' ← check_control u (patched p updated_by now c)
        ok (update_where (of_account account) (patched p updated_by now) rows, c'))
]

abbrev pub is_on : Option Bool → Bool
is_on (some true) = true
is_on _ = false

-- The refusals of `OperationsControlService.update_control`.
unfoldable pub refuse_patch :
    RuntimeCapabilities → RuntimeControl → RuntimeControlPatch → Result (Unit {0})
refuse_patch k c p =
    if or_else p.calendar_write_enabled c.calendar_write_enabled
      && not (or_else p.workflow_enabled c.workflow_enabled)
    then err (operation_conflict "calendar writes require workflow processing")
    else if is_on p.workflow_enabled && not k.workflow_processing_available
    then err (operation_conflict "workflow processing is not configured")
    else if is_on p.calendar_write_enabled && not k.calendar_write_available
    then err (operation_conflict "calendar writes are not configured in this deployment")
    else if is_on p.daily_brief_enabled && not k.daily_brief_available
    then err (operation_conflict "Daily Brief is not configured in this deployment")
    else if is_on p.daily_brief_enabled
        && is_none p.daily_brief_recipient
        && is_none c.daily_brief_recipient
    then err (operation_conflict "Daily Brief recipient is not configured")
    else ok tt

-- `OperationsControlService.update_control`. Reading the control is a transaction of its own: what
-- it wrote stays if the patch is refused, so the rows come back beside the error too.
unfoldable pub update_control :
    Unicode
    → Uuid
    → RuntimeControlDefaults
    → RuntimeCapabilities
    → RuntimeControlPatch
    → Text
    → Datetime
    → List RuntimeControl
    → Result RuntimeControl × List RuntimeControl
unfolding ensure_control refuse_patch store_update_control
update_control u account d k p updated_by now rows = elim (ensure_control u account d now rows) [
  | err x ↦ (err x, rows)
  | ok (rows', c) ↦ elim (refuse_patch k c p) [
    | err x ↦ (err x, rows')
    | ok _ ↦ elim (store_update_control u account p updated_by now rows') [
      | err x ↦ (err x, rows')
      | ok (rows'', c') ↦ (ok c', rows'')
    ]
  ]
]
