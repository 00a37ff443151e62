-- ===== src/Store/Tables.antt =====
-- The tables of the registry's database, and the queries and writes that the handlers make.
use favl_agentic_content_os.Prelude.{
  ℕ, String, str_eq, Bool, ◌&&◌, Option, none, some, List, [], ◌∷◌, ◌++◌, select, if◌then◌else◌,
}
use favl_agentic_content_os.Json.{Fields}
use favl_agentic_content_os.Store.Rows.{
  ConnectorRecord, ConnectorAuditRecord, InvocationRecord, OutboxEvent, OutboxStatus,
  default_max_attempts,
}

pub record Db : Type 0 where
  pub connectors : List ConnectorRecord
  pub audit : List ConnectorAuditRecord
  pub invocations : List InvocationRecord
  pub outbox : List OutboxEvent

-- `session.get(ConnectorRecord, id)`
unfoldable pub get_connector : String → List ConnectorRecord → Option ConnectorRecord
get_connector id [] = none
get_connector id (c ∷ cs) = if str_eq c.id id then some c else get_connector id cs

-- The UPDATE of one row, by its primary key.
unfoldable pub put_connector : ConnectorRecord → List ConnectorRecord → List ConnectorRecord
put_connector r [] = []
put_connector r (c ∷ cs) = if str_eq c.id r.id then r ∷ cs else c ∷ put_connector r cs

-- What `uuid.uuid4()` and `datetime.now(UTC)` return within one operation.
pub record Clock : Type 0 where
  pub now : ℕ
  pub row_id : String
  pub audit_id : String
  pub event_id : String

-- `enqueue` of favl_outbox/repository.py: the row that it adds to the session, with the column
-- defaults of favl_outbox/models.py.
pub record NewEvent : Type 0 where
  pub subject : String
  pub payload : Fields
  pub aggregate_type : String
  pub aggregate_id : Option String
  pub aggregate_version : ℕ
  pub schema_version : ℕ
  pub max_attempts : Option ℕ

abbrev pub limit_or_default : Option ℕ → ℕ
limit_or_default none = default_max_attempts
limit_or_default (some n) = n

abbrev pub event_row : String → ℕ → NewEvent → OutboxEvent
event_row id now e = record {
  id = id;
  aggregate_type = e.aggregate_type;
  aggregate_id = e.aggregate_id;
  aggregate_version = e.aggregate_version;
  subject = e.subject;
  schema_version = e.schema_version;
  payload = e.payload;
  status = OutboxStatus.pending;
  attempts = 0;
  max_attempts = limit_or_default e.max_attempts;
  next_attempt_at = now;
  last_error = none;
  created_at = now;
  published_at = none;
  stream_seq = none;
}

abbrev pub enqueue : String → ℕ → NewEvent → List OutboxEvent → List OutboxEvent
enqueue id now e rows = rows ++ event_row id now e ∷ []

-- The versions of one connector's events, in the order of their insertion.
abbrev pub is_connector_event : String → OutboxEvent → Bool
is_connector_event id e =
    str_eq e.aggregate_type "connector"
    && elim e.aggregate_id [ none ↦ Bool.false | some a ↦ str_eq a id ]

unfoldable pub connector_versions : String → List OutboxEvent → List ℕ
connector_versions id [] = []
connector_versions id (e ∷ es) =
    let rest = connector_versions id es in
    if is_connector_event id e then e.aggregate_version ∷ rest else rest

-- The audit rows of one connector.
unfoldable pub audit_of : String → List ConnectorAuditRecord → List ConnectorAuditRecord
audit_of id rows = select (λ a. str_eq a.connector_id id) rows
