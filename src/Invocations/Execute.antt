-- ===== src/Invocations/Execute.antt =====
-- `execute` and `_finalise` of invocations.py. What an adapter does is a parameter.
use favl_agentic_content_os.Prelude.{
  ℕ, ◌+◌, String, str_eq, Option, none, some, List, [], ◌∷◌, cut, if◌then◌else◌,
}
use favl_agentic_content_os.Json.{Fields, field, end}
use favl_agentic_content_os.Store.Rows.{
  ConnectorRecord, InvocationRecord, InvocationStatus, accepted, running, succeeded,
  failed_retryable, failed_terminal, timed_out, cancelled,
}
use favl_agentic_content_os.Store.Tables.{Db, Clock}
use favl_agentic_content_os.Registry.Schemas.{one_of}
use favl_agentic_content_os.Invocations.Results.{
  ErrorCode, code_value, unknown_kind, upstream_timeout, upstream_error, InvocationRequest,
  InvocationResult, failure, seconds_remaining,
}
use favl_agentic_content_os.Invocations.Accept.{emit}

-- What `asyncio.wait_for(adapter.invoke(...))` does.
pub data Reply : Type 0 where
  returned : InvocationResult → Reply
  timeout : Reply
  raised : String → Reply

-- The registered kinds, the text of UnknownAdapterKind, each adapter's answer to a request, with its
-- budget and the connector's configuration, and the text of a TimeoutError.
pub record Runtime : Type 0 where
  pub kinds : List String
  pub unknown_text : String → String
  pub invoke : String → Fields → InvocationRequest → ℕ → Reply
  pub deadline_text : ℕ → String

-- The UPDATE of one row, by its primary key.
unfoldable pub put_invocation : InvocationRecord → List InvocationRecord → List InvocationRecord
put_invocation r [] = []
put_invocation r (e ∷ es) = if str_eq e.id r.id then r ∷ es else e ∷ put_invocation r es

abbrev pub save : Db → InvocationRecord → Db
save db r = record db { invocations = put_invocation r db.invocations }

-- `TERMINAL_EVENT[status]`, with `none` for the KeyError.
abbrev pub terminal_event : InvocationStatus → Option String
terminal_event succeeded = some "connector.invocation.succeeded"
terminal_event timed_out = some "connector.invocation.timed_out"
terminal_event failed_retryable = some "connector.invocation.failed"
terminal_event failed_terminal = some "connector.invocation.failed"
terminal_event cancelled = some "connector.invocation.failed"
terminal_event accepted = none
terminal_event running = none

-- `a or b`, where a time is never false.
abbrev pub or_time : Option ℕ → ℕ → ℕ
or_time none b = b
or_time (some a) b = a

abbrev pub text_or_none : String → Option String
text_or_none s = if str_eq s "" then none else some s

abbrev pub output_or_none : Fields → Option Fields
output_or_none end = none
output_or_none (field k v rest) = some (field k v rest)

abbrev pub code_text : Option ErrorCode → Option String
code_text none = none
code_text (some c) = some (code_value c)

abbrev pub finished_row : ℕ → InvocationResult → InvocationRecord → InvocationRecord
finished_row now result r = record r {
  status = result.status;
  completed_at = some (or_time result.completed_at now);
  started_at = some (or_time r.started_at (or_time result.started_at now));
  provider_request_id = result.provider_request_id;
  error_code = code_text result.error_code;
  error_detail = text_or_none result.error_detail;
  retryable = some result.retryable;
  output = output_or_none result.output;
  audit_metadata = result.audit_metadata;
  aggregate_version = r.aggregate_version + 1;
}

-- `none` is the KeyError, before the commit.
abbrev pub commit_final :
    Db → Clock → InvocationRecord → Option String → Db × Option InvocationRecord
commit_final db k r none = (db, none)
commit_final db k r (some event) = (emit (save db r) k r event, some r)

unfoldable pub finalise :
    Db → Clock → InvocationRecord → InvocationResult → Db × Option InvocationRecord
finalise db k r result =
    commit_final db k (finished_row k.now result r) (terminal_event result.status)

-- The row in the state running, and its commit.
abbrev pub running_row : ℕ → InvocationRecord → InvocationRecord
running_row now r = record r {
  status = running;
  started_at = some now;
  aggregate_version = r.aggregate_version + 1;
}

unfoldable pub start : Db → Clock → InvocationRecord → Db × InvocationRecord
start db k r =
    let r' = running_row k.now r in (emit (save db r') k r' "connector.invocation.started", r')

abbrev pub request_of : ConnectorRecord → Fields → InvocationRecord → InvocationRequest
request_of connector payload r = record {
  invocation_id = r.id;
  connector_id = connector.id;
  operation = r.operation;
  payload = payload;
  idempotency_key = r.idempotency_key;
  actor_id = r.actor_id;
  tenant_id = r.tenant_id;
  deadline_at = r.deadline_at;
  trace_id = r.trace_id;
  attempt = r.attempt;
}

-- The `try` around the call; `now` is when it ended.
abbrev pub result_of : Runtime → Option ℕ → ℕ → ℕ → Reply → InvocationResult
result_of rt started budget now (returned result) = result
result_of rt started budget now timeout =
    failure upstream_timeout (rt.deadline_text budget) started (some now)
result_of rt started budget now (raised text) =
    failure upstream_error (cut 500 text) started (some now)

-- When the call is made and when it ends, and the clocks of the two commits.
pub record Times : Type 0 where
  pub starting : Clock
  pub asked_at : ℕ
  pub finishing : Clock

-- The database, the final row or `none` for a KeyError, and the requests that the adapter got.
pub record Execution : Type 0 where
  pub db : Db
  pub row : Option InvocationRecord
  pub calls : List InvocationRequest

abbrev execution : Db × Option InvocationRecord → List InvocationRequest → Execution
execution (db, r) calls = record { db = db; row = r; calls = calls }

abbrev pub call_adapter :
    Runtime → ConnectorRecord → Fields → Times → Db × InvocationRecord → Execution
call_adapter rt connector payload t (db, r) =
    let q = request_of connector payload r in
    let budget = seconds_remaining q t.asked_at in
    let reply = rt.invoke connector.kind connector.config q budget in
    execution (finalise db t.finishing r (result_of rt r.started_at budget t.finishing.now reply))
      (q ∷ [])

unfoldable pub execute :
    Runtime → Db → ConnectorRecord → InvocationRecord → Fields → Times → Execution
execute rt db connector r payload t =
    if one_of connector.kind rt.kinds
    then call_adapter rt connector payload t (start db t.starting r)
    else execution
        (finalise db t.finishing r
          (failure unknown_kind (rt.unknown_text connector.kind) none none))
        []
