-- ===== src/Registry/Endpoints.antt =====
-- `validate_connector` and `request_connector_deletion` of main.py, and the calls that a client can
-- make, each as one step of the database: no other call comes between its reads and its commits. The
-- first read of `validate_connector`, and that of `rotate_connector_credentials`, take no lock: Races
-- has what then may happen.
use favl_agentic_content_os.Prelude.{
  cut, join, ◌+◌, String, Bool, Option, none, some, [], ◌∷◌, if◌then◌else◌,
}
use favl_agentic_content_os.Json.{str, nat, dict}
use favl_agentic_content_os.Lifecycle.State.{
  installed, configured, validated, enabled, disabled, revoked, archived, deletion_requested,
  deleted, value, same_state,
}
use favl_agentic_content_os.Store.Rows.{ConnectorRecord, current_schema_version}
use favl_agentic_content_os.Store.Tables.{Db, Clock, NewEvent, put_connector, enqueue}
use favl_agentic_content_os.Transitions.Apply.{
  Outcome, applied, repeated, lookup_error, transition_rejected, reason_required, version_taken,
  apply,
}
use favl_agentic_content_os.Transitions.Apply as Transitions
use favl_agentic_content_os.Registry.Schemas.{ConnectorCreate, TransitionRequest, one_of, to_schema}
use favl_agentic_content_os.Registry.Handlers.{
  ValidationResult, Adapters, CallerIdentity, Response, shown, report, no_content, refused, listed,
  not_found, tenant_connector, list_connectors, create_connector, transition,
  rotate_connector_credentials,
}

unfoldable pub summary : ValidationResult → Option String
summary r = if r.valid then none else some (cut 1024 (join "; " r.errors))

abbrev pub validation_request : CallerIdentity → String → ValidationResult → Transitions.Request
validation_request caller id r = record {
  connector_id = id;
  target = if r.valid then validated else configured;
  event =
      some (if r.valid then "connector.validation_succeeded" else "connector.validation_failed");
  actor_id = caller.actor_id;
  tenant_id = caller.tenant_id;
  reason = summary r;
  idempotency_key = none;
}

abbrev pub with_guarantee : ValidationResult → ConnectorRecord → ConnectorRecord
with_guarantee v r = record r {
  supports_idempotency = v.supports_idempotency;
  idempotency_mode = v.idempotency_mode;
}

-- The second read of the row, and the commit of the stored guarantee.
unfoldable pub store_guarantee : Db → ValidationResult → Option ConnectorRecord → Db × Response
store_guarantee db v none = (db, not_found)
store_guarantee db v (some r) =
    (record db { connectors = put_connector (with_guarantee v r) db.connectors }, report v)

-- What follows `tr.apply`: a rejection is rolled back and swallowed, any other error is not.
unfoldable pub after_apply :
    CallerIdentity → String → ValidationResult → Db × Outcome → Db × Response
unfolding store_guarantee
after_apply caller id v (db, lookup_error) = (db, refused 500 "LookupError")
after_apply caller id v (db, reason_required event) = (db, refused 500 "ReasonRequired")
after_apply caller id v (db, version_taken) = (db, refused 500 "IntegrityError")
after_apply caller id v (db, other) = store_guarantee db v (tenant_connector db id caller.tenant_id)

unfoldable pub validate_read :
    Adapters → Db → CallerIdentity → Clock → String → Option ConnectorRecord → Db × Response
validate_read adapters db caller k id none = (db, not_found)
validate_read adapters db caller k id (some r) =
    let v = adapters.validate_config r.kind r.config in
    if one_of r.kind adapters.kinds
    then after_apply caller id v (apply db (validation_request caller id v) k)
    else (db, refused 422 "UNKNOWN_KIND")

unfoldable pub validate_connector : Adapters → Db → CallerIdentity → Clock → String → Db × Response
unfolding validate_read
validate_connector adapters db caller k id =
    validate_read adapters db caller k id (tenant_connector db id caller.tenant_id)

-- `request_connector_deletion`, once the row is read under its lock.
abbrev pub deletion_row : CallerIdentity → Clock → ConnectorRecord → ConnectorRecord
deletion_row caller k r = record r {
  status = deletion_requested;
  deletion_requested_at = some k.now;
  deleted_by = some caller.actor_id;
  version = r.version + 1;
}

abbrev pub deletion_event : CallerIdentity → Clock → String → ConnectorRecord → NewEvent
deletion_event caller k id r = record {
  subject = "connector.deletion_requested";
  payload = dict (
      ("connector_id", str id)
      ∷ ("name", str r.name)
      ∷ ("status", str (value r.status))
      ∷ ("requested_by", str caller.actor_id)
      ∷ ("requested_at", nat k.now)
      ∷ []);
  aggregate_type = "connector";
  aggregate_id = some id;
  aggregate_version = r.version;
  schema_version = current_schema_version;
  max_attempts = none;
}

unfoldable pub delete_read :
    Db → CallerIdentity → Clock → String → Option ConnectorRecord → Db × Response
delete_read db caller k id none = (db, not_found)
delete_read db caller k id (some r) =
    if same_state r.status deleted
    then (db, refused 410 "CONNECTOR_GONE")
    else if same_state r.status deletion_requested
    then (db, no_content)
    else (
      record db {
        connectors = put_connector (deletion_row caller k r) db.connectors;
        outbox =
            enqueue k.event_id k.now (deletion_event caller k id (deletion_row caller k r))
              db.outbox;
      },
      no_content,
    )

unfoldable pub request_connector_deletion : Db → CallerIdentity → Clock → String → Db × Response
unfolding delete_read
request_connector_deletion db caller k id =
    delete_read db caller k id (tenant_connector db id caller.tenant_id)

-- The calls on connectors.
pub data Call : Type 0 where
  list_all : Bool → Call
  get_one : String → Call
  create : ConnectorCreate → Call
  validate delete : String → Call
  install configure enable disable rotate revoke archive : String → Option TransitionRequest → Call

abbrev show_read : Db → Option ConnectorRecord → Db × Response
show_read db none = (db, not_found)
show_read db (some r) = (db, shown (to_schema r))

unfoldable pub step : Adapters → Db → CallerIdentity → Clock → Call → Db × Response
step a db u k (list_all deleted_too) = (db, listed (list_connectors db u.tenant_id deleted_too))
step a db u k (get_one id) = show_read db (tenant_connector db id u.tenant_id)
step a db u k (create p) = create_connector a db u k p
step a db u k (validate id) = validate_connector a db u k id
step a db u k (delete id) = request_connector_deletion db u k id
step a db u k (install id b) = transition db u k id installed none b
step a db u k (configure id b) = transition db u k id configured (some "connector.configured") b
step a db u k (enable id b) = transition db u k id enabled (some "connector.enabled") b
step a db u k (disable id b) = transition db u k id disabled (some "connector.disabled") b
step a db u k (rotate id b) = rotate_connector_credentials db u k id b
step a db u k (revoke id b) = transition db u k id revoked (some "connector.revoked") b
step a db u k (archive id b) = transition db u k id archived (some "connector.archived") b
