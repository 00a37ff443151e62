-- ===== src/Invocations/Endpoint.antt =====
-- `_http_status_for` and `invoke_connector_v1` of main.py.
use favl_agentic_content_os.Prelude.{ℕ, String, Option, none, some, List, []}
use favl_agentic_content_os.Json.{Fields}
use favl_agentic_content_os.Store.Rows.{
  ConnectorRecord, InvocationRecord, InvocationStatus, accepted, running, succeeded, timed_out,
}
use favl_agentic_content_os.Store.Tables.{Db, Clock}
use favl_agentic_content_os.Registry.Handlers.{CallerIdentity, tenant_connector}
use favl_agentic_content_os.Invocations.Results.{InvocationRequest}
use favl_agentic_content_os.Invocations.Accept.{
  NotExecutable, check_executable, Job, Acceptance, fresh, replayed, integrity_error, accept,
}
use favl_agentic_content_os.Invocations.Execute.{Runtime, Times, Execution, execute}

-- `_http_status_for`
abbrev pub http_status_for : InvocationStatus → ℕ
http_status_for succeeded = 200
http_status_for timed_out = 504
http_status_for accepted = 202
http_status_for running = 202
http_status_for _ = 502

-- The responses: the row with its status, the refusals, and an exception that is not caught.
pub data Answer : Type 0 where
  shown : InvocationRecord → ℕ → Answer
  missing : Answer
  not_executable : NotExecutable → Answer
  server_error : Answer

abbrev pub answer : InvocationRecord → Answer
answer r = shown r (http_status_for r.status)

pub record InvocationCreate : Type 0 where
  pub operation : String
  pub payload : Fields
  pub idempotency_key : String
  pub timeout : ℕ

-- What one call of the endpoint did: the database, the response, and the requests to the adapter.
pub record Invoked : Type 0 where
  pub db : Db
  pub response : Answer
  pub calls : List InvocationRequest

abbrev pub only_answer : Db → Answer → Invoked
only_answer db a = record { db = db; response = a; calls = [] }

abbrev pub answer_row : Option InvocationRecord → Answer
answer_row none = server_error
answer_row (some r) = answer r

abbrev pub executed : Execution → Invoked
executed e = record { db = e.db; response = answer_row e.row; calls = e.calls }

abbrev pub after_accept : Runtime → ConnectorRecord → Fields → Times → Db × Acceptance → Invoked
after_accept rt connector payload t (db, replayed r racing) = only_answer db (answer r)
after_accept rt connector payload t (db, integrity_error) = only_answer db server_error
after_accept rt connector payload t (db, fresh r) = executed (execute rt db connector r payload t)

abbrev pub job_of : CallerIdentity → InvocationCreate → Option String → Job
job_of caller p trace_id = record {
  operation = p.operation;
  idempotency_key = p.idempotency_key;
  actor_id = caller.actor_id;
  tenant_id = caller.tenant_id;
  timeout = p.timeout;
  trace_id = trace_id;
}

-- What follows the read of the connector and the check of its state.
abbrev pub when_executable :
    Runtime → Db → ConnectorRecord → Fields → Job → Clock → Times → Option NotExecutable → Invoked
when_executable rt db connector payload job k t (some why) = only_answer db (not_executable why)
when_executable rt db connector payload job k t none =
    after_accept rt connector payload t (accept db connector k job)

abbrev pub when_read :
    Runtime → Db → Fields → Job → Clock → Times → Option ConnectorRecord → Invoked
when_read rt db payload job k t none = only_answer db missing
when_read rt db payload job k t (some connector) =
    when_executable rt db connector payload job k t (check_executable connector)

-- A call whose body has passed its schema; `k` is the clock of the acceptance.
unfoldable pub invoke_connector_v1 :
    Runtime
    → Db
    → CallerIdentity
    → String
    → InvocationCreate
    → Option String
    → Clock
    → Times
    → Invoked
invoke_connector_v1 rt db caller id p trace_id k t =
    when_read rt db p.payload (job_of caller p trace_id) k t
      (tenant_connector db id caller.tenant_id)
