-- ===== src/Operations/Run.antt =====
-- application/operations.py and persistence/operations.py: the runs of queued commands, with their
-- idempotency keys and leases. An instant is a number of microseconds.
pub mod Create
pub mod Lease
pub mod Keys
pub mod Reachable
pub mod Later
use agenda_agent.Prelude.{
  Bool, List, Option, Result, String, [], err, false, if◌then◌else◌, integrity_error, is_none,
  is_some, leb, length, ltb, map, none, not, ok, operation_conflict, or_else, runtime_error,
  same_optional, select, some, take, true, update_where, value_error, ℕ, ◌&&◌, ◌++◌, ◌+◌, ◌==◌,
  ◌||◌, ◌∷◌, find, exists,
}
use agenda_agent.Domain.Digest.{Datetime, Uuid}
use agenda_agent.Prelude.Text.{Text, text_eq}
use agenda_agent.Prelude.Sort.{sort_by}

pub data OperationType : Type 0 where
  mail_sync process_email process_pending reset_mail_cursor send_daily_brief : OperationType

pub data OperationStatus : Type 0 where
  queued running succeeded failed : OperationStatus

abbrev pub type_code : OperationType → ℕ
type_code mail_sync = 0
type_code process_email = 1
type_code process_pending = 2
type_code reset_mail_cursor = 3
type_code send_daily_brief = 4

abbrev pub same_type : OperationType → OperationType → Bool
same_type a b = type_code a == type_code b

abbrev pub is_queued : OperationStatus → Bool
is_queued queued = true
is_queued _ = false

abbrev pub is_running : OperationStatus → Bool
is_running running = true
is_running _ = false

-- `SafeResultValue` and `SafeOperationResult`
pub data SafeResultValue : Type 0 where
  text_value : Text → SafeResultValue
  number_value : ℕ → SafeResultValue
  bool_value : Bool → SafeResultValue
  no_value : SafeResultValue

abbrev pub SafeOperationResult : Type 0
SafeOperationResult = List (String × SafeResultValue)

pub record OperationCreate : Type 0 where
  pub account_id : Uuid
  pub operation_type : OperationType
  pub idempotency_key_hash : Text
  pub source_email_id : Option Uuid
  pub batch_limit : Option ℕ
  pub parent_operation_id : Option Uuid

-- `not 1 <= batch_limit <= 100`, or `None`
abbrev pub unbounded : Option ℕ → Bool
unbounded none = true
unbounded (some n) = not (leb 1 n && leb n 100)

-- `OperationCreate.__post_init__`
unfoldable pub check_create : OperationCreate → Result OperationCreate
check_create r =
    if not (length r.idempotency_key_hash == 64)
    then err (value_error "operation idempotency hash must be SHA-256")
    else elim r.operation_type [
      | process_email ↦
          if is_none r.source_email_id || is_some r.batch_limit
          then err (value_error "process-email operation requires exactly one source email")
          else ok r
      | process_pending ↦
          if unbounded r.batch_limit
          then err (value_error "process-pending operation requires a bounded batch")
          else if is_some r.source_email_id
          then err (value_error "process-pending operation cannot target one email")
          else ok r
      | _ ↦
          if is_some r.source_email_id || is_some r.batch_limit
          then err (value_error "operation does not accept email targets")
          else ok r
    ]

-- `OperationRunModel`
pub record OperationRow : Type 0 where
  pub id : Uuid
  pub account_id : Uuid
  pub operation_type : OperationType
  pub status : OperationStatus
  pub idempotency_key_hash : Text
  pub source_email_id : Option Uuid
  pub batch_limit : Option ℕ
  pub parent_operation_id : Option Uuid
  pub requested_at : Datetime
  pub started_at : Option Datetime
  pub finished_at : Option Datetime
  pub lease_expires_at : Option Datetime
  pub attempt_count : ℕ
  pub result : Option SafeOperationResult
  pub error_code : Option Text

-- The check constraints of the table on a new row: `operation_idempotency_hash_sha256`,
-- `operation_batch_limit_bounded` and `operation_parameters_match_type`.
abbrev pub keeps_checks : OperationRow → Bool
keeps_checks m =
    (length m.idempotency_key_hash == 64)
    && (is_none m.batch_limit || not (unbounded m.batch_limit))
    && elim m.operation_type [
      | process_email ↦ is_some m.source_email_id && is_none m.batch_limit
      | process_pending ↦ is_none m.source_email_id && is_some m.batch_limit
      | _ ↦ is_none m.source_email_id && is_none m.batch_limit
    ]

-- The row has the key of the request: `uq_operation_runs_idempotency`.
abbrev pub has_request_key : OperationCreate → OperationRow → Bool
has_request_key r m =
    m.account_id == r.account_id
    && same_type m.operation_type r.operation_type
    && text_eq m.idempotency_key_hash r.idempotency_key_hash

-- The values that `create_operation` inserts.
abbrev pub queued_row : Uuid → Datetime → OperationCreate → OperationRow
queued_row i requested_at r = record {
  id = i;
  account_id = r.account_id;
  operation_type = r.operation_type;
  status = queued;
  idempotency_key_hash = r.idempotency_key_hash;
  source_email_id = r.source_email_id;
  batch_limit = r.batch_limit;
  parent_operation_id = r.parent_operation_id;
  requested_at = requested_at;
  started_at = none;
  finished_at = none;
  lease_expires_at = none;
  attempt_count = 0;
  result = none;
  error_code = none;
}

-- The row was created with the parameters of the request.
abbrev pub same_parameters : OperationCreate → OperationRow → Bool
same_parameters r m =
    same_optional m.source_email_id r.source_email_id && same_optional m.batch_limit r.batch_limit

-- `create_operation`; the identifier is the value that `uuid4` gave. The Boolean is `created`.
unfoldable pub create_operation :
    Uuid
    → Datetime
    → OperationCreate
    → List OperationRow
    → Result (List OperationRow × (OperationRow × Bool))
create_operation i requested_at r rows = elim (find (has_request_key r) rows) [
  | some m ↦
      if not (same_parameters r m)
      then err (operation_conflict "Idempotency-Key was already used with different parameters")
      else ok (rows, (m, false))
  | none ↦
      if exists (λ (m : OperationRow). m.id == i) rows
      then err (integrity_error "operation_runs_pkey")
      else if not (keeps_checks (queued_row i requested_at r))
      then err (integrity_error "operation_runs_check")
      else ok (rows ++ queued_row i requested_at r ∷ [], (queued_row i requested_at r, true))
]

abbrev pub operation_by_id : Uuid → List OperationRow → Option OperationRow
operation_by_id i rows = find (λ (m : OperationRow). m.id == i) rows

-- `get_operation`
unfoldable pub get_operation : Uuid → Uuid → List OperationRow → Option OperationRow
get_operation account i rows =
    find (λ (m : OperationRow). (m.account_id == account) && (m.id == i)) rows

-- `lease_expires_at < now`, which is not true of NULL
abbrev pub has_expired : Datetime → Option Datetime → Bool
has_expired now none = false
has_expired now (some until) = ltb until now

-- Queued, or running on a lease that has expired.
abbrev pub is_claimable : Datetime → OperationRow → Bool
is_claimable now m = is_queued m.status || is_running m.status && has_expired now m.lease_expires_at

-- `timedelta(seconds=30)`
abbrev pub head_start : ℕ
head_start = 30000000

-- `list_dispatchable_operation_ids`; `requested_at <= now - 30 s`, for the queued ones
abbrev pub is_dispatchable : Datetime → OperationRow → Bool
is_dispatchable now m =
    is_queued m.status && leb (m.requested_at + head_start) now
    || is_running m.status && has_expired now m.lease_expires_at

unfoldable pub list_dispatchable_operation_ids : Datetime → ℕ → List OperationRow → List Uuid
list_dispatchable_operation_ids now limit rows = take limit (
    map (λ (m : OperationRow). m.id)
      (sort_by (λ (m : OperationRow). m.requested_at) (select (is_dispatchable now) rows)))

-- The assignments of `claim_operation`.
abbrev pub claimed_row : Datetime → Datetime → OperationRow → OperationRow
claimed_row now lease_until m = record m {
  status = running;
  started_at = some (or_else m.started_at now);
  lease_expires_at = some lease_until;
  attempt_count = m.attempt_count + 1;
}

abbrev pub on_operation :
    Uuid → (OperationRow → OperationRow) → List OperationRow → List OperationRow
on_operation i f rows = update_where (λ (m : OperationRow). m.id == i) f rows

-- `claim_operation`; the Boolean says whether the caller holds the operation now.
unfoldable pub claim_operation :
    Uuid
    → Datetime
    → Datetime
    → List OperationRow
    → Result (List OperationRow × (OperationRow × Bool))
claim_operation i now lease_until rows = elim (operation_by_id i rows) [
  | none ↦ err (runtime_error "queued operation does not exist")
  | some m ↦
      if is_claimable now m
      then ok
          (on_operation i (claimed_row now lease_until) rows, (claimed_row now lease_until m, true))
      else ok (rows, (m, false))
]

-- `_finish_operation`
unfoldable pub finish_operation :
    Uuid
    → OperationStatus
    → Option SafeOperationResult
    → Option Text
    → Datetime
    → List OperationRow
    → List OperationRow
finish_operation i status result error_code finished_at rows =
    on_operation i
      (λ m. record m {
        status = status;
        result = result;
        error_code = error_code;
        finished_at = some finished_at;
        lease_expires_at = none;
      })
      rows

unfoldable pub complete_operation :
    Uuid → SafeOperationResult → Datetime → List OperationRow → List OperationRow
unfolding finish_operation
complete_operation i result finished_at rows =
    finish_operation i succeeded (some result) none finished_at rows

unfoldable pub fail_operation : Uuid → Text → Datetime → List OperationRow → List OperationRow
unfolding finish_operation
fail_operation i error_code finished_at rows =
    finish_operation i failed none (some (take 64 error_code)) finished_at rows

unfoldable pub release_operation_for_retry : Uuid → List OperationRow → List OperationRow
release_operation_for_retry i rows =
    on_operation i (λ m. record m { status = queued; lease_expires_at = none; error_code = none })
      rows
