-- ===== src/Invocations/Accept.antt =====
-- `check_executable`, `_emit`, `find_existing` and `accept` of invocations.py.
use favl_agentic_content_os.Prelude.{
  ℕ, ◌+◌, ◌-◌, String, str_eq, Bool, true, false, ◌&&◌, ◌||◌, Option, none, some, List, [], ◌∷◌,
  ◌++◌, any, if◌then◌else◌,
}
use favl_agentic_content_os.Json.{Value, Fields, null, str, bool, real, nat, dict, end}
use favl_agentic_content_os.Lifecycle.State.{
  ConnectorState, draft, installed, configured, validated, enabled, disabled, revoked,
  deletion_requested, archived, deleted, value, is_executable,
}
use favl_agentic_content_os.Store.Rows.{
  ConnectorRecord, InvocationRecord, InvocationStatus, accepted, running, succeeded,
  failed_retryable, failed_terminal, timed_out, cancelled, current_schema_version,
}
use favl_agentic_content_os.Store.Tables.{Db, Clock, NewEvent, enqueue}
use favl_agentic_content_os.Invocations.Results.{
  ErrorCode, connector_disabled, connector_deletion_pending, connector_gone, connector_revoked,
  connector_not_validated,
}

-- ConnectorNotExecutable.
pub record NotExecutable : Type 0 where
  pub status : ConnectorState
  pub code : ErrorCode
  pub http_status : ℕ

-- `_REFUSAL.get(status, ...)`: the enabled state is the one that is not in the mapping.
abbrev pub refusal : ConnectorState → ErrorCode × ℕ
refusal revoked = (connector_revoked, 403)
refusal deletion_requested = (connector_deletion_pending, 409)
refusal archived = (connector_gone, 410)
refusal deleted = (connector_gone, 410)
refusal draft = (connector_not_validated, 409)
refusal installed = (connector_not_validated, 409)
refusal configured = (connector_not_validated, 409)
refusal validated = (connector_not_validated, 409)
refusal disabled = (connector_disabled, 409)
refusal enabled = (connector_disabled, 409)

-- `none` if the connector may serve.
unfoldable pub check_executable : ConnectorRecord → Option NotExecutable
check_executable r =
    let (code, http_status) = refusal r.status in
    if is_executable (value r.status)
    then none
    else some (record { status = r.status; code = code; http_status = http_status })

abbrev pub status_value : InvocationStatus → String
status_value accepted = "accepted"
status_value running = "running"
status_value succeeded = "succeeded"
status_value failed_retryable = "failed_retryable"
status_value failed_terminal = "failed_terminal"
status_value timed_out = "timed_out"
status_value cancelled = "cancelled"

-- `if record.trace_id: ...`
abbrev text_entry : String → Option String → List (String × Value)
text_entry key none = []
text_entry key (some s) = if str_eq s "" then [] else (key, str s) ∷ []

abbrev bool_or_null : Option Bool → Value
bool_or_null none = null
bool_or_null (some b) = bool b

abbrev error_entries : InvocationRecord → List (String × Value)
error_entries r = elim (text_entry "error_code" r.error_code) [
  | [] ↦ []
  | entry ∷ rest ↦ entry ∷ ("retryable", bool_or_null r.retryable) ∷ []
]

-- The duration in thousandths of a millisecond; 0 if the clock went back.
abbrev duration_entry : Option ℕ → Option ℕ → List (String × Value)
duration_entry (some started) (some completed) = ("duration_ms", real (completed - started)) ∷ []
duration_entry _ completed = []

abbrev pub event_payload : InvocationRecord → Fields
event_payload r = dict (
    ("invocation_id", str r.id)
    ∷ ("connector_id", str r.connector_id)
    ∷ ("connector_version", nat r.connector_version)
    ∷ ("adapter_kind", str r.adapter_kind)
    ∷ ("tenant_id", str r.tenant_id)
    ∷ ("actor_id", str r.actor_id)
    ∷ ("operation", str r.operation)
    ∷ ("status", str (status_value r.status))
    ∷ ("attempt", nat r.attempt)
    ∷ (text_entry "trace_id" r.trace_id
        ++ (error_entries r ++ duration_entry r.started_at r.completed_at)))

abbrev pub invocation_event : InvocationRecord → String → NewEvent
invocation_event r event_type = record {
  subject = event_type;
  payload = event_payload r;
  aggregate_type = "invocation";
  aggregate_id = some r.id;
  aggregate_version = r.aggregate_version;
  schema_version = current_schema_version;
  max_attempts = none;
}

-- `_emit`: the event, in the transaction of the row.
unfoldable pub emit : Db → Clock → InvocationRecord → String → Db
emit db k r event_type = record db {
  outbox = enqueue k.event_id k.now (invocation_event r event_type) db.outbox;
}

-- The columns of the unique constraint.
abbrev pub has_key : String → String → String → InvocationRecord → Bool
has_key tenant connector key r =
    str_eq r.tenant_id tenant && (str_eq r.connector_id connector && str_eq r.idempotency_key key)

unfoldable pub find_existing :
    String → String → String → List InvocationRecord → Option InvocationRecord
find_existing tenant connector key [] = none
find_existing tenant connector key (r ∷ rs) =
    if has_key tenant connector key r then some r else find_existing tenant connector key rs

abbrev pub in_flight : InvocationRecord → Bool
in_flight r = elim r.status [ accepted ↦ true | running ↦ true | _ ↦ false ]

-- The arguments of `accept`; the timeout is a number of microseconds.
pub record Job : Type 0 where
  pub operation : String
  pub idempotency_key : String
  pub actor_id : String
  pub tenant_id : String
  pub timeout : ℕ
  pub trace_id : Option String

-- What `accept` returns, or the IntegrityError that it lets through.
pub data Acceptance : Type 0 where
  fresh : InvocationRecord → Acceptance
  replayed : InvocationRecord → Bool → Acceptance
  integrity_error : Acceptance

abbrev pub accepted_row : ConnectorRecord → Clock → Job → InvocationRecord
accepted_row connector k job = record {
  id = k.row_id;
  connector_id = connector.id;
  connector_version = connector.version;
  adapter_kind = connector.kind;
  idempotency_key = job.idempotency_key;
  actor_id = job.actor_id;
  tenant_id = job.tenant_id;
  operation = job.operation;
  status = accepted;
  attempt = 1;
  aggregate_version = 1;
  deadline_at = k.now + job.timeout;
  started_at = none;
  completed_at = none;
  provider_request_id = none;
  error_code = none;
  error_detail = none;
  retryable = none;
  trace_id = job.trace_id;
  output = none;
  audit_metadata = end;
  created_at = k.now;
}

-- The primary key and the unique constraint, which the flush checks.
unfoldable pub breaks_constraint : InvocationRecord → List InvocationRecord → Bool
breaks_constraint r rows =
    any (λ e. str_eq e.id r.id || has_key r.tenant_id r.connector_id r.idempotency_key e) rows

-- After the rollback.
abbrev pub race_lost : Option InvocationRecord → Acceptance
race_lost none = integrity_error
race_lost (some r) = replayed r true

-- The flush, and the commit of the row with its event.
unfoldable pub insert_accepted : Db → Clock → InvocationRecord → Db × Acceptance
insert_accepted db k r =
    if breaks_constraint r db.invocations
    then (db, race_lost (find_existing r.tenant_id r.connector_id r.idempotency_key db.invocations))
    else (
      emit (record db { invocations = db.invocations ++ r ∷ [] }) k r
          "connector.invocation.accepted",
      fresh r,
    )

abbrev pub on_existing :
    Db → ConnectorRecord → Clock → Job → Option InvocationRecord → Db × Acceptance
on_existing db connector k job none = insert_accepted db k (accepted_row connector k job)
on_existing db connector k job (some r) = (db, replayed r (in_flight r))

unfoldable pub accept : Db → ConnectorRecord → Clock → Job → Db × Acceptance
accept db connector k job =
    on_existing db connector k job
      (find_existing job.tenant_id connector.id job.idempotency_key db.invocations)
