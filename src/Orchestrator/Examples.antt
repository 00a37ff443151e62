-- ===== src/Orchestrator/Examples.antt =====
-- The theorems on the orchestrator at one agent, with a registry that answers by the count of its calls.
use favl_agentic_content_os.Prelude.{
  ℕ, String, ◌≤◌, ◌≡◌, refl, Option, none, some, inl, inr, List, [], ◌∷◌, ◌++◌, map, first, length,
  All, arith, eq_iff, count_up, if◌then◌else◌, ◌==◌, ◌+◌,
}
use favl_agentic_content_os.Json.{Fields, null, end, str, obj, dict, get, nat}
use favl_agentic_content_os.Store.Tables.{Clock}
use favl_agentic_content_os.Outbox.Ordering.{applied}
use favl_agentic_content_os.Outbox.Delivery.{deliver, redeliver, all_delivered}
use favl_agentic_content_os.Orchestrator.Agents.{
  AgentRecord, AgentCreate, AgentDb, read_agent, agent_versions, is_valid_agent, breaks_uniqueness,
  put_agent, remove_agent,
}
use favl_agentic_content_os.Orchestrator.FanOut.{
  MeshSettings, MeshCall, MeshReply, response, fan_out, output_of, internal_call_headers,
}
use favl_agentic_content_os.Orchestrator.Endpoints.{
  AgentRequest, create, delete, invoke, agent_step, create_agent, insert_agent, invoke_agent,
  after_read, tenant_agent, delete_agent, delete_commit, finish_invocation, commit_invocation,
  invocation_result, invoked,
}
use favl_agentic_content_os.Orchestrator.Runs.{AgentArrival, agent_run, agent_run-isolation}
use favl_agentic_content_os.Orchestrator.Versions.{
  IsOrdered, IsUnused, agent_run-IsOrdered, agent_run-applied,
}
use favl_agentic_content_os.Orchestrator.Bounds.{
  connector_of, names_of, calls_of, invoke_agent-IsBounded, invoke_agent-IsOfAll,
}
use favl_agentic_content_os.Orchestrator.Races.{raced, deletion_dropped}

abbrev clock : ℕ → String → Clock
clock n id = record { now = n; row_id = id; audit_id = ""; event_id = "e" }

abbrev agent : ℕ → AgentRecord
agent v = record {
  id = "a1";
  tenant_id = "acme";
  name = "writer";
  description = "";
  connector_ids = "c1" ∷ "c2" ∷ [];
  version = v;
  created_at = 1;
}

abbrev body : AgentCreate
body = record { name = "writer"; description = ""; connector_ids = "c1" ∷ "c2" ∷ [] }

abbrev empty : AgentDb
empty = record { agents = []; outbox = [] }

abbrev one_agent : AgentDb
one_agent = record { agents = agent 1 ∷ []; outbox = [] }

abbrev settings : MeshSettings
settings = record { max_fan_out = 16; internal_service_token = "t"; registry_url = "http://r" }

-- The first call fails, the second succeeds.
abbrev post : ℕ → MeshCall → ℕ × MeshReply
post n c = (
  n + 1,
  if n == 0
      then response 502 (some (obj (dict (("error_code", str "UPSTREAM_ERROR") ∷ []))))
      else response 200 (some (obj end)),
)

abbrev arrival : String → ℕ → AgentRequest → AgentArrival
arrival tenant n q = record { tenant = tenant; clock = clock n "a1"; request = q }

abbrev later : String → ℕ → AgentRequest → AgentArrival
later tenant n q = record { tenant = tenant; clock = clock n "a2"; request = q }

-- Another tenant cannot delete the agent.
abbrev history : List AgentArrival
history =
    arrival "acme" 1 (create body)
    ∷ later "other" 2 (delete "a1")
    ∷ later "acme" 3 (invoke one_agent "a1" end)
    ∷ later "acme" 4 (delete "a1")
    ∷ []

abbrev foreign : List AgentArrival
foreign = later "other" 2 (delete "a1") ∷ later "third" 3 (invoke one_agent "a1" end) ∷ []

read : read_agent "a1" one_agent.agents ≡ some (agent 1)
unfolding read_agent
read = refl

found : tenant_agent one_agent "a1" "acme" ≡ some (agent 1)
unfolding tenant_agent read_agent
found = refl

agent_run-isolation_example :
    read_agent "a1" (agent_run post settings 0 one_agent foreign).agents ≡ some (agent 1)
agent_run-isolation_example =
    agent_run-isolation post settings 0 one_agent foreign "a1" (agent 1) read
      (ground (arith, eq_iff "acme" "other"), (ground (arith, eq_iff "acme" "third"), tt))

IsOrdered-empty : IsOrdered empty
unfolding read_agent agent_versions count_up
IsOrdered-empty = record { at = λ id. (0, refl) }

unused : IsUnused post settings 0 empty history
unfolding IsUnused agent_step create_agent insert_agent is_valid_agent breaks_uniqueness
    delete_agent delete_commit tenant_agent read_agent remove_agent put_agent invoke_agent
    after_read fan_out finish_invocation commit_invocation output_of agent_versions
    internal_call_headers get
unused = (refl, (refl, (refl, (refl, tt))))

-- The creation, the invocation and the deletion.
versions : agent_versions "a1" (agent_run post settings 0 empty history).outbox ≡ 1 ∷ 2 ∷ 3 ∷ []
unfolding agent_run agent_step create_agent insert_agent is_valid_agent breaks_uniqueness
    delete_agent delete_commit tenant_agent read_agent remove_agent put_agent invoke_agent
    after_read fan_out finish_invocation commit_invocation output_of agent_versions
    internal_call_headers get
versions = refl

abbrev messages : List (Option ℕ)
messages = some 1 ∷ some 2 ∷ some 1 ∷ some 3 ∷ []

agent_run-applied_example :
    applied none messages ≡ agent_versions "a1" (agent_run post settings 0 empty history).outbox
agent_run-applied_example =
    agent_run-applied post settings 0 empty history "a1" messages unused IsOrdered-empty
      (rw versions (deliver 1 (deliver 2 (redeliver 1 (inr (inl refl)) (deliver 3 all_delivered)))))

invoke_agent-IsBounded_example :
    (length (invoke_agent post settings 0 one_agent one_agent "acme" (clock 3 "") "a1" end).calls
      ≤ 16)
    × All
        (λ (c : MeshCall). first c.headers ≡ some ("X-Tenant-ID", "acme"))
        (invoke_agent post settings 0 one_agent one_agent "acme" (clock 3 "") "a1" end).calls
invoke_agent-IsBounded_example =
    invoke_agent-IsBounded post settings 0 one_agent "acme" (clock 3 "") "a1" end one_agent

abbrev outputs : List Fields
outputs =
    dict (
      ("connector_id", str "c1")
      ∷ ("status", str "failed")
      ∷ ("error_code", str "UPSTREAM_ERROR")
      ∷ ("retryable", null)
      ∷ ("http_status", nat 502)
      ∷ [])
    ∷ dict (("connector_id", str "c2") ∷ ("status", str "completed") ∷ ("output", obj end) ∷ [])
    ∷ []

answers :
    (invoke_agent post settings 0 one_agent one_agent "acme" (clock 3 "") "a1" end).answer
    ≡ invoked (invocation_result "a1" outputs)
unfolding invoke_agent after_read fan_out output_of finish_invocation commit_invocation tenant_agent
    read_agent get
answers = refl

invoke_agent-IsOfAll_example :
    ((invoke_agent post settings 0 one_agent one_agent "acme" (clock 3 "") "a1" end).calls
      ≡ calls_of post settings "acme" "a1" end ("c1" ∷ "c2" ∷ []))
    × (length {A = String} ("c1" ∷ "c2" ∷ []) ≤ 16)
    × ((os : List Fields) × (invocation_result "a1" outputs ≡ invocation_result "a1" os)
        × (map connector_of os ≡ names_of ("c1" ∷ "c2" ∷ [])))
invoke_agent-IsOfAll_example =
    invoke_agent-IsOfAll post settings 0 one_agent "acme" (clock 3 "") "a1" end one_agent (agent 1)
      (invocation_result "a1" outputs) found answers

abbrev created : AgentDb
created = (create_agent empty "acme" (clock 1 "a1") body).0

IsOrdered-created : IsOrdered created
unfolding IsUnused agent_versions create_agent agent_run is_valid_agent agent_step
IsOrdered-created =
    agent_run-IsOrdered post settings 0 empty (arrival "acme" 1 (create body) ∷ []) (refl, tt)
      IsOrdered-empty

deletion_dropped_example :
    (read_agent "a1" (raced created "acme" (clock 2 "") (clock 3 "") "a1" (agent 1) outputs).agents
      ≡ none)
    × (agent_versions "a1"
          (raced created "acme" (clock 2 "") (clock 3 "") "a1" (agent 1) outputs).outbox
        ≡ count_up 2 ++ 2 ∷ [])
    × (applied none (
          map some (
            agent_versions "a1"
              (raced created "acme" (clock 2 "") (clock 3 "") "a1" (agent 1) outputs).outbox))
        ≡ count_up 2)
unfolding tenant_agent read_agent create_agent is_valid_agent insert_agent breaks_uniqueness
deletion_dropped_example =
    deletion_dropped created "acme" (clock 2 "") (clock 3 "") "a1" (agent 1) outputs
      IsOrdered-created refl
