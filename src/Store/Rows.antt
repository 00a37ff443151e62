-- ===== src/Store/Rows.antt =====
-- The ORM rows: `ConnectorRecord`, `ConnectorAuditRecord`, `InvocationRecord` of models.py, and
-- the `OutboxEvent` of favl_outbox/models.py.
use favl_agentic_content_os.Prelude.{ℕ, String, Bool, Option, List}
use favl_agentic_content_os.Json.{Fields}
use favl_agentic_content_os.Lifecycle.State.{ConnectorState}

-- The column `status` holds one of the ten texts, by its CHECK constraint.
pub record ConnectorRecord : Type 0 where
  pub id : String
  pub tenant_id : String
  pub name : String
  pub kind : String
  pub base_url : Option String
  pub scopes : List String
  pub config : Fields
  pub status : ConnectorState
  pub version : ℕ
  pub supports_idempotency : Bool
  pub idempotency_mode : String
  pub deletion_requested_at : Option ℕ
  pub deleted_at : Option ℕ
  pub deleted_by : Option String
  pub revoked_at : Option ℕ
  pub archived_at : Option ℕ
  pub credentials_rotated_at : Option ℕ
  pub state_reason : Option String
  pub created_at : ℕ

pub record ConnectorAuditRecord : Type 0 where
  pub id : String
  pub connector_id : String
  pub tenant_id : String
  pub from_state : String
  pub to_state : String
  pub event : String
  pub actor_id : String
  pub reason : Option String
  pub aggregate_version : ℕ
  pub idempotency_key : Option String
  pub recorded_at : ℕ

pub data InvocationStatus : Type 0 where
  accepted running succeeded failed_retryable failed_terminal timed_out cancelled : InvocationStatus

pub record InvocationRecord : Type 0 where
  pub id : String
  pub connector_id : String
  pub connector_version : ℕ
  pub adapter_kind : String
  pub idempotency_key : String
  pub actor_id : String
  pub tenant_id : String
  pub operation : String
  pub status : InvocationStatus
  pub attempt : ℕ
  pub aggregate_version : ℕ
  pub deadline_at : ℕ
  pub started_at : Option ℕ
  pub completed_at : Option ℕ
  pub provider_request_id : Option String
  pub error_code : Option String
  pub error_detail : Option String
  pub retryable : Option Bool
  pub trace_id : Option String
  pub output : Option Fields
  pub audit_metadata : Fields
  pub created_at : ℕ

-- The CHECK constraint on `status` of favl_outbox/models.py.
pub data OutboxStatus : Type 0 where
  pending published dead : OutboxStatus

pub record OutboxEvent : Type 0 where
  pub id : String
  pub aggregate_type : String
  pub aggregate_id : Option String
  pub aggregate_version : ℕ
  pub subject : String
  pub schema_version : ℕ
  pub payload : Fields
  pub status : OutboxStatus
  pub attempts : ℕ
  pub max_attempts : ℕ
  pub next_attempt_at : ℕ
  pub last_error : Option String
  pub created_at : ℕ
  pub published_at : Option ℕ
  pub stream_seq : Option ℕ

abbrev pub default_max_attempts : ℕ
default_max_attempts = 8

abbrev pub current_schema_version : ℕ
current_schema_version = 1
