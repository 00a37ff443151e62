-- ===== src/Invocations/Examples.antt =====
-- The theorems on invocations, at one connector and one key.
use favl_agentic_content_os.Prelude.{
  ℕ, ◌≤◌, ◌≡◌, refl, none, some, List, [], ◌∷◌, ◌++◌, false, true, arith,
}
use favl_agentic_content_os.Json.{end}
use favl_agentic_content_os.Lifecycle.State.{ConnectorState, enabled, is_executable}
use favl_agentic_content_os.Store.Rows.{ConnectorRecord, InvocationRecord, failed_retryable}
use favl_agentic_content_os.Store.Tables.{Db, Clock, get_connector}
use favl_agentic_content_os.Registry.Handlers.{CallerIdentity, tenant_connector}
use favl_agentic_content_os.Invocations.Results.{InvocationRequest, failure}
use favl_agentic_content_os.Invocations.Accept.{
  check_executable, has_key, find_existing, Job, insert_accepted, accepted_row, breaks_constraint,
  accept,
}
use favl_agentic_content_os.Invocations.Execute.{Runtime, raised, Times, execute, start, finalise}
use favl_agentic_content_os.Invocations.Endpoint.{
  InvocationCreate, shown, after_accept, invoke_connector_v1,
}
use favl_agentic_content_os.Invocations.Replay.{invoke-replays}
use favl_agentic_content_os.Invocations.Interleaving.{
  World, Process, Advance, looking, advance, Reaches, arrive, act, here, then_step, acted,
}
use favl_agentic_content_os.Invocations.Once.Rows.{tally, asks}
use favl_agentic_content_os.Invocations.Once.{asked_once}
use favl_agentic_content_os.Invocations.Reads.{Filters}
use favl_agentic_content_os.Invocations.Settles.{IsSettled, Concludes, accept-IsSettled}

abbrev connector : ConnectorState → ConnectorRecord
connector s = record {
  id = "c1";
  tenant_id = "acme";
  name = "hook";
  kind = "http";
  base_url = none;
  scopes = [];
  config = end;
  status = s;
  version = 4;
  supports_idempotency = true;
  idempotency_mode = "provider_key";
  deletion_requested_at = none;
  deleted_at = none;
  deleted_by = none;
  revoked_at = none;
  archived_at = none;
  credentials_rotated_at = none;
  state_reason = none;
  created_at = 10;
}

abbrev db : Db
db = record { connectors = connector enabled ∷ []; audit = []; invocations = []; outbox = [] }

abbrev clock : ℕ → Clock
clock now = record { now = now; row_id = "i1"; audit_id = "a"; event_id = "e" }

abbrev job : Job
job = record {
  operation = "send";
  idempotency_key = "key-0001";
  actor_id = "ann";
  tenant_id = "acme";
  timeout = 15_000_000;
  trace_id = none;
}

-- A provider that refuses every connection.
abbrev runtime : Runtime
runtime = record {
  kinds = "http" ∷ [];
  unknown_text = λ kind. "no adapter";
  invoke = λ kind config q budget. raised "ConnectError: refused";
  deadline_text = λ budget. "deadline";
}

abbrev times : Times
times = record { starting = clock 21; asked_at = 22; finishing = clock 23 }

concludes : Concludes runtime
concludes kind config q budget result e = cc e

fits : breaks_constraint (accepted_row (connector enabled) (clock 20) job) [] ≡ false
unfolding breaks_constraint
fits = refl

absent : find_existing "acme" "c1" "key-0001" [] ≡ none
unfolding find_existing
absent = refl

accept-IsSettled_example : IsSettled db (connector enabled) job "i1" true (
    after_accept runtime
      (connector enabled)
      end
      times
      (accept db (connector enabled) (clock 20) job))
accept-IsSettled_example =
    accept-IsSettled runtime db (connector enabled) (clock 20) job end times concludes absent fits

abbrev body : InvocationCreate
body = record {
  operation = "send";
  payload = end;
  idempotency_key = "key-0001";
  timeout = 15_000_000;
}

abbrev caller : CallerIdentity
caller = record { actor_id = "ann"; tenant_id = "acme"; verified = true }

abbrev row : InvocationRecord
row = record {
  id = "i1";
  connector_id = "c1";
  connector_version = 4;
  adapter_kind = "http";
  idempotency_key = "key-0001";
  actor_id = "ann";
  tenant_id = "acme";
  operation = "send";
  status = failed_retryable;
  attempt = 1;
  aggregate_version = 3;
  deadline_at = 15_000_020;
  started_at = some 21;
  completed_at = some 23;
  provider_request_id = none;
  error_code = some "UPSTREAM_ERROR";
  error_detail = some "ConnectError: refused";
  retryable = some true;
  trace_id = none;
  output = none;
  audit_metadata = end;
  created_at = 20;
}

invoked :
    (invoke_connector_v1 runtime db caller "c1" body none (clock 20) times).response ≡ shown row 502
unfolding invoke_connector_v1 tenant_connector get_connector check_executable is_executable accept
    find_existing insert_accepted breaks_constraint execute finalise failure start
invoked = refl

invoke-replays_example :
    let db' = (invoke_connector_v1 runtime db caller "c1" body none (clock 20) times).db in
    invoke_connector_v1 runtime db' caller "c1" body none (clock 90) times
    ≡ record { db = db'; response = shown row 502; calls = [] }
invoke-replays_example =
    invoke-replays runtime runtime db caller caller "c1" body body none none (clock 20) (clock 90)
      times times row 502 refl refl invoked

-- Two calls under one key arrive, and the first goes on until it has asked the adapter.
abbrev waiting : Process
waiting = looking (connector enabled) job end

abbrev has_looked : Advance
has_looked = advance runtime (clock 20) db waiting

abbrev has_inserted : Advance
has_inserted = advance runtime (clock 20) has_looked.db has_looked.process

abbrev has_started : Advance
has_started = advance runtime (clock 21) has_inserted.db has_inserted.process

abbrev has_asked : Advance
has_asked = advance runtime (clock 23) has_started.db has_started.process

abbrev asked_before : List InvocationRequest
asked_before = has_started.asked ++ (has_inserted.asked ++ (has_looked.asked ++ []))

abbrev later : World
later = acted asked_before [] (waiting ∷ []) has_asked

reached : Reaches runtime (record { db = db; processes = []; asked = [] }) later
reached =
    then_step
      (then_step
        (then_step
          (then_step
            (then_step (then_step (here _) (arrive _ (connector enabled) job end))
              (arrive _ (connector enabled) job end))
            (act (clock 20) db [] [] waiting (waiting ∷ [])))
          (act (clock 20) has_looked.db (has_looked.asked ++ []) [] has_looked.process
            (waiting ∷ [])))
        (act (clock 21) has_inserted.db (has_inserted.asked ++ (has_looked.asked ++ [])) []
          has_inserted.process (waiting ∷ [])))
      (act (clock 23) has_started.db asked_before [] has_started.process (waiting ∷ []))

asked_once_example :
    (tally (asks "acme" "c1" "key-0001") later.asked ≤ 1)
    × (tally (asks "acme" "c1" "key-0001") later.asked
        ≤ tally (has_key "acme" "c1" "key-0001") later.db.invocations)
asked_once_example =
    asked_once runtime db later "acme" "c1" "key-0001" (λ t n k. omega arith) reached

abbrev stored : Db
stored = record db { invocations = row ∷ record row { id = "i2"; tenant_id = "other" } ∷ [] }

abbrev every_row : Filters
every_row = record { connector_id = none; status_filter = none; before = none }
