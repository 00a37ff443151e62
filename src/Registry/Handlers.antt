-- ===== src/Registry/Handlers.antt =====
-- The endpoints of main.py that read or change connectors. Every body has passed its schema, or the
-- call ends with the framework's 422.
use favl_agentic_content_os.Prelude.{
  ℕ, String, str_eq, Bool, not, ◌&&◌, ◌||◌, Option, none, some, List, [], ◌∷◌, ◌++◌, map, any,
  select, sort_by, if◌then◌else◌,
}
pub use favl_agentic_content_os.Identity.{CallerIdentity}
use favl_agentic_content_os.Json.{Fields, end, field, str}
use favl_agentic_content_os.Lifecycle.State.{ConnectorState, deleted, value, same_state}
use favl_agentic_content_os.Lifecycle.Lookup.{Refusal}
use favl_agentic_content_os.Store.Rows.{
  ConnectorRecord, ConnectorAuditRecord, current_schema_version,
}
use favl_agentic_content_os.Store.Tables.{Db, Clock, NewEvent, get_connector, enqueue}
use favl_agentic_content_os.Transitions.Apply.{
  Outcome, applied, repeated, lookup_error, transition_rejected, reason_required, version_taken,
  apply,
}
use favl_agentic_content_os.Transitions.Apply as Transitions
use favl_agentic_content_os.Registry.Schemas.{
  ConnectorCreate, TransitionRequest, Connector, is_valid_create, is_valid_transition,
  body_or_empty, one_of, to_schema, model_dump,
}

-- `ValidationResult` of adapters/base.py.
pub record ValidationResult : Type 0 where
  pub valid : Bool
  pub errors : List String
  pub supports_idempotency : Bool
  pub idempotency_mode : String

-- What the handlers use of `ADAPTERS`: the registered kinds, and each adapter's `validate_config`.
pub record Adapters : Type 0 where
  pub kinds : List String
  pub validate_config : String → Fields → ValidationResult

-- `refused status code` is an HTTPException, with the code or the text of its detail.
pub data Response : Type 0 where
  shown : Connector → Response
  created : Connector → Response
  listed : List Connector → Response
  report : ValidationResult → Response
  no_content : Response
  refused : ℕ → String → Response
  not_permitted : Refusal → String → List String → Response

abbrev pub not_found : Response
not_found = refused 404 "Connector not found"

abbrev pub owned_by : String → ConnectorRecord → Bool
owned_by tenant r = str_eq r.tenant_id tenant

abbrev pub if_owned : String → Option ConnectorRecord → Option ConnectorRecord
if_owned tenant none = none
if_owned tenant (some r) = if owned_by tenant r then some r else none

-- `_tenant_connector`, with `none` for its 404.
unfoldable pub tenant_connector : Db → String → String → Option ConnectorRecord
tenant_connector db id tenant = if_owned tenant (get_connector id db.connectors)

unfoldable pub list_connectors : Db → String → Bool → List Connector
unfolding sort_by
list_connectors db tenant include_deleted = map to_schema (
    sort_by (λ r. r.created_at)
      (select (λ r. owned_by tenant r && (include_deleted || not (same_state r.status deleted)))
        db.connectors))

-- The unique constraints on the primary key and on (tenant_id, name).
unfoldable pub conflicts : String → String → String → List ConnectorRecord → Bool
conflicts id tenant name rows =
    any (λ r. str_eq r.id id || (str_eq r.tenant_id tenant && str_eq r.name name)) rows

-- `config["base_url"] = str(payload.base_url)` unless the key is there.
unfoldable pub add_base_url : Option String → Fields → Fields
add_base_url none config = config
add_base_url (some url) end = field "base_url" (str url) end
add_base_url (some url) (field k v rest) =
    let rest' = add_base_url (some url) rest in
    if str_eq k "base_url" then field k v rest else field k v rest'

abbrev pub new_connector :
    CallerIdentity → Clock → ConnectorCreate → Fields → ValidationResult → ConnectorRecord
new_connector caller k p config r = record {
  id = k.row_id;
  tenant_id = caller.tenant_id;
  name = p.name;
  kind = p.kind;
  base_url = p.base_url;
  scopes = p.scopes;
  config = config;
  status = p.status;
  version = 1;
  supports_idempotency = r.supports_idempotency;
  idempotency_mode = r.idempotency_mode;
  deletion_requested_at = none;
  deleted_at = none;
  deleted_by = none;
  revoked_at = none;
  archived_at = none;
  credentials_rotated_at = none;
  state_reason = none;
  created_at = k.now;
}

abbrev pub created_audit : CallerIdentity → Clock → ConnectorRecord → ConnectorAuditRecord
created_audit caller k r = record {
  id = k.audit_id;
  connector_id = r.id;
  tenant_id = caller.tenant_id;
  from_state = "";
  to_state = value r.status;
  event = "connector.created";
  actor_id = caller.actor_id;
  reason = none;
  aggregate_version = r.version;
  idempotency_key = none;
  recorded_at = k.now;
}

abbrev pub created_event : ConnectorRecord → NewEvent
created_event r = record {
  subject = "connector.created";
  payload = model_dump (to_schema r);
  aggregate_type = "connector";
  aggregate_id = some r.id;
  aggregate_version = r.version;
  schema_version = current_schema_version;
  max_attempts = none;
}

-- The flush, the audit entry, the event and the commit.
unfoldable pub insert_connector : Db → CallerIdentity → Clock → ConnectorRecord → Db × Response
insert_connector db caller k r =
    if conflicts r.id r.tenant_id r.name db.connectors
    then (db, refused 409 "already exists")
    else (
      record db {
        connectors = db.connectors ++ r ∷ [];
        audit = db.audit ++ created_audit caller k r ∷ [];
        outbox = enqueue k.event_id k.now (created_event r) db.outbox;
      },
      created (to_schema r),
    )

unfoldable pub create_connector :
    Adapters → Db → CallerIdentity → Clock → ConnectorCreate → Db × Response
create_connector adapters db caller k p =
    let config = add_base_url p.base_url p.config in
    let result = adapters.validate_config p.kind config in
    if not (is_valid_create p)
    then (db, refused 422 "invalid body")
    else if not (one_of p.kind adapters.kinds)
    then (db, refused 422 "UNKNOWN_KIND")
    else if not result.valid
    then (db, refused 422 "CONFIG_INVALID")
    else insert_connector db caller k (new_connector caller k p config result)

-- `_transition`: the refusals of `apply` as HTTP.
abbrev pub as_http : Db × Outcome → Db × Response
as_http (db, applied r event) = (db, shown (to_schema r))
as_http (db, repeated r event) = (db, shown (to_schema r))
as_http (db, lookup_error) = (db, not_found)
as_http (db, transition_rejected why current permitted) = (db, not_permitted why current permitted)
as_http (db, reason_required event) = (db, refused 422 "REASON_REQUIRED")
as_http (db, version_taken) = (db, refused 500 "IntegrityError")

abbrev pub transition_request :
    CallerIdentity
    → String
    → ConnectorState
    → Option String
    → TransitionRequest
    → Transitions.Request
transition_request caller id target event b = record {
  connector_id = id;
  target = target;
  event = event;
  actor_id = caller.actor_id;
  tenant_id = caller.tenant_id;
  reason = b.reason;
  idempotency_key = b.idempotency_key;
}

unfoldable pub transition :
    Db
    → CallerIdentity
    → Clock
    → String
    → ConnectorState
    → Option String
    → Option TransitionRequest
    → Db × Response
transition db caller k id target event body =
    if is_valid_transition (body_or_empty body)
    then as_http (apply db (transition_request caller id target event (body_or_empty body)) k)
    else (db, refused 422 "invalid body")

-- The row may be gone, or another tenant's, when it is read.
unfoldable pub rotate_read :
    Db
    → CallerIdentity
    → Clock
    → String
    → Option TransitionRequest
    → Option ConnectorRecord
    → Db × Response
rotate_read db caller k id body none = (db, not_found)
rotate_read db caller k id body (some r) =
    transition db caller k id r.status (some "connector.credentials_rotated") body

unfoldable pub rotate_connector_credentials :
    Db → CallerIdentity → Clock → String → Option TransitionRequest → Db × Response
unfolding rotate_read
rotate_connector_credentials db caller k id body =
    if is_valid_transition (body_or_empty body)
    then rotate_read db caller k id body (tenant_connector db id caller.tenant_id)
    else (db, refused 422 "invalid body")
