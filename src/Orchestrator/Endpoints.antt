-- ===== src/Orchestrator/Endpoints.antt =====
-- The agent endpoints of services/orchestrator/app/main.py. A read and the commit that follows it are
-- apart where another call may come between: an invocation reads the agent before its fan-out, and
-- again after it.
use favl_agentic_content_os.Prelude.{
  ℕ, ◌+◌, String, str_eq, not, Option, none, some, List, [], ◌∷◌, ◌++◌, map, select, sort_by, ltb,
  length, if◌then◌else◌,
}
use favl_agentic_content_os.Json.{Fields, Items, nil, cons, str, obj, arr, dict}
use favl_agentic_content_os.Store.Rows.{current_schema_version}
use favl_agentic_content_os.Store.Tables.{Clock, NewEvent, enqueue}
use favl_agentic_content_os.Orchestrator.Agents.{
  AgentRecord, AgentCreate, Agent, AgentDb, is_valid_agent, agent_schema, dump_agent, read_agent,
  put_agent, remove_agent, breaks_uniqueness,
}
use favl_agentic_content_os.Orchestrator.FanOut.{
  MeshSettings, MeshCall, MeshReply, FannedOut, fan_out,
}

-- `refused status code` is an HTTPException; `server_error` is an exception that is not caught.
pub data AgentAnswer : Type 0 where
  agents : List Agent → AgentAnswer
  agent : Agent → AgentAnswer
  created_agent : Agent → AgentAnswer
  agent_deleted : AgentAnswer
  invoked : Fields → AgentAnswer
  refused : ℕ → String → AgentAnswer
  server_error : AgentAnswer

abbrev pub agent_not_found : AgentAnswer
agent_not_found = refused 404 "Agent not found"

unfoldable pub list_agents : AgentDb → String → List Agent
unfolding sort_by
list_agents db tenant =
    map agent_schema
      (sort_by (λ a. a.created_at) (select (λ a. str_eq a.tenant_id tenant) db.agents))

abbrev pub if_tenants : String → Option AgentRecord → Option AgentRecord
if_tenants tenant none = none
if_tenants tenant (some r) = if str_eq r.tenant_id tenant then some r else none

-- `_tenant_agent`, with `none` for its 404.
unfoldable pub tenant_agent : AgentDb → String → String → Option AgentRecord
tenant_agent db id tenant = if_tenants tenant (read_agent id db.agents)

abbrev pub show_agent : Option AgentRecord → AgentAnswer
show_agent none = agent_not_found
show_agent (some r) = agent (agent_schema r)

unfoldable pub get_agent : AgentDb → String → String → AgentAnswer
get_agent db tenant id = show_agent (tenant_agent db id tenant)

abbrev pub agent_event : String → String → ℕ → Fields → NewEvent
agent_event subject id version payload = record {
  subject = subject;
  payload = payload;
  aggregate_type = "agent";
  aggregate_id = some id;
  aggregate_version = version;
  schema_version = current_schema_version;
  max_attempts = none;
}

abbrev pub new_agent : String → Clock → AgentCreate → AgentRecord
new_agent tenant k p = record {
  id = k.row_id;
  tenant_id = tenant;
  name = p.name;
  description = p.description;
  connector_ids = p.connector_ids;
  version = 1;
  created_at = k.now;
}

-- The flush, the event and the commit.
unfoldable pub insert_agent : AgentDb → Clock → AgentRecord → AgentDb × AgentAnswer
insert_agent db k r =
    if breaks_uniqueness r db.agents then (db, refused 409 "already exists") else (
      record {
        agents = db.agents ++ r ∷ [];
        outbox =
            enqueue k.event_id k.now
              (agent_event "agent.created" r.id r.version (dump_agent (agent_schema r))) db.outbox;
      },
      created_agent (agent_schema r),
    )

unfoldable pub create_agent : AgentDb → String → Clock → AgentCreate → AgentDb × AgentAnswer
create_agent db tenant k p =
    if not (is_valid_agent p)
    then (db, refused 422 "invalid body")
    else insert_agent db k (new_agent tenant k p)

-- The deletion of the row that was read, and the commit.
unfoldable pub delete_commit : AgentDb → Clock → String → AgentRecord → AgentDb
delete_commit db k id r = record {
  agents = remove_agent id db.agents;
  outbox =
      enqueue k.event_id k.now
        (agent_event "agent.deleted" id (r.version + 1)
          (dict (("agent_id", str id) ∷ ("name", str r.name) ∷ [])))
        db.outbox;
}

abbrev pub after_delete_read : AgentDb → Clock → String → Option AgentRecord → AgentDb × AgentAnswer
after_delete_read db k id none = (db, agent_not_found)
after_delete_read db k id (some r) = (delete_commit db k id r, agent_deleted)

unfoldable pub delete_agent : AgentDb → String → Clock → String → AgentDb × AgentAnswer
delete_agent db tenant k id = after_delete_read db k id (tenant_agent db id tenant)

abbrev objects : List Fields → Items
objects [] = nil
objects (o ∷ os) = cons (obj o) (objects os)

abbrev pub invocation_result : String → List Fields → Fields
invocation_result id outputs = dict (("agent_id", str id) ∷ ("outputs", arr (objects outputs)) ∷ [])

-- The fresh row with the next version, the event and the commit.
unfoldable pub commit_invocation : AgentDb → Clock → String → Fields → AgentRecord → AgentDb
commit_invocation db k id result fresh =
    let next = record fresh { version = fresh.version + 1 } in
    record {
      agents = put_agent next db.agents;
      outbox =
          enqueue k.event_id k.now (agent_event "agent.invoked" id next.version result) db.outbox;
    }

abbrev pub after_fresh_read :
    AgentDb → Clock → String → Fields → Option AgentRecord → AgentDb × AgentAnswer
after_fresh_read db k id result none = (db, agent_not_found)
after_fresh_read db k id result (some fresh) =
    (commit_invocation db k id result fresh, invoked result)

-- What follows the fan-out.
unfoldable pub finish_invocation :
    AgentDb → String → Clock → String → Option (List Fields) → AgentDb × AgentAnswer
finish_invocation db tenant k id none = (db, server_error)
finish_invocation db tenant k id (some outputs) =
    after_fresh_read db k id (invocation_result id outputs) (tenant_agent db id tenant)

-- One call of a client: the database after it, the state of the registry, the calls made to it, and
-- the answer.
pub record Turn (S : Type 0) : Type 0 where
  pub db : AgentDb
  pub mesh : S
  pub calls : List MeshCall
  pub answer : AgentAnswer

-- The calls of a client. An invocation has with it the database that its first read sees, which
-- other calls may have changed by the time that it commits.
pub data AgentRequest : Type 0 where
  list_all : AgentRequest
  get_one : String → AgentRequest
  create : AgentCreate → AgentRequest
  delete : String → AgentRequest
  invoke : AgentDb → String → Fields → AgentRequest

module _ {S : Type 0} (post : S → MeshCall → S × MeshReply) (s : MeshSettings) where
  abbrev pub still : S → AgentDb × AgentAnswer → Turn S
  still mesh (db, a) = record { db = db; mesh = mesh; calls = []; answer = a }

  abbrev pub fanned : AgentDb → String → Clock → String → FannedOut S → Turn S
  fanned db tenant k id f =
      let (db', a) = finish_invocation db tenant k id f.outputs in
      record { db = db'; mesh = f.mesh; calls = f.calls; answer = a }

  unfoldable pub after_read :
      S → AgentDb → String → Clock → String → Fields → Option AgentRecord → Turn S
  after_read mesh db tenant k id payload none = still mesh (db, agent_not_found)
  after_read mesh db tenant k id payload (some r) =
      if ltb s.max_fan_out (length r.connector_ids)
      then still mesh (db, refused 422 "FAN_OUT_TOO_WIDE")
      else fanned db tenant k id (fan_out post s tenant id payload mesh r.connector_ids)

  unfoldable pub invoke_agent : S → AgentDb → AgentDb → String → Clock → String → Fields → Turn S
  invoke_agent mesh seen db tenant k id payload =
      after_read mesh db tenant k id payload (tenant_agent seen id tenant)

  -- One call of a client. A deletion, which reads its row without a lock, runs here as one step, with no
  -- other call between its read and its commit: Races cuts it.
  unfoldable pub agent_step : S → AgentDb → String → Clock → AgentRequest → Turn S
  agent_step mesh db tenant k list_all = still mesh (db, agents (list_agents db tenant))
  agent_step mesh db tenant k (get_one id) = still mesh (db, get_agent db tenant id)
  agent_step mesh db tenant k (create p) = still mesh (create_agent db tenant k p)
  agent_step mesh db tenant k (delete id) = still mesh (delete_agent db tenant k id)
  agent_step mesh db tenant k (invoke seen id payload) =
      invoke_agent mesh seen db tenant k id payload
