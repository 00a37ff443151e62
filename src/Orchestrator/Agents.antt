-- ===== src/Orchestrator/Agents.antt =====
-- services/orchestrator/app/models.py and schemas.py: an agent as a row, a request body and a response,
-- with the queries and writes that main.py makes.
use favl_agentic_content_os.Prelude.{
  ℕ, String, str_eq, Bool, ◌&&◌, ◌||◌, Option, none, some, List, [], ◌∷◌, any, leb, length,
  if◌then◌else◌,
}
use favl_agentic_content_os.Prelude.Text.{codes}
use favl_agentic_content_os.Json.{Fields, Items, nil, cons, str, arr, nat, dict}
use favl_agentic_content_os.Store.Rows.{OutboxEvent}

pub record AgentRecord : Type 0 where
  pub id : String
  pub tenant_id : String
  pub name : String
  pub description : String
  pub connector_ids : List String
  pub version : ℕ
  pub created_at : ℕ

pub record AgentCreate : Type 0 where
  pub name : String
  pub description : String
  pub connector_ids : List String

-- The response model: it has neither the tenant nor the version.
pub record Agent : Type 0 where
  pub name : String
  pub description : String
  pub connector_ids : List String
  pub id : String
  pub created_at : ℕ

-- The two tables of the orchestrator's database.
pub record AgentDb : Type 0 where
  pub agents : List AgentRecord
  pub outbox : List OutboxEvent

-- The bounds on the body's texts.
unfoldable pub is_valid_agent : AgentCreate → Bool
is_valid_agent p =
    leb 3 (length (codes p.name))
    && (leb (length (codes p.name)) 80 && leb (length (codes p.description)) 500)

-- `_to_schema`
unfoldable pub agent_schema : AgentRecord → Agent
agent_schema r = record {
  name = r.name;
  description = r.description;
  connector_ids = r.connector_ids;
  id = r.id;
  created_at = r.created_at;
}

abbrev items_of : List String → Items
items_of [] = nil
items_of (s ∷ ss) = cons (str s) (items_of ss)

-- `agent.model_dump(mode="json")`; a timestamp stays a number here.
abbrev pub dump_agent : Agent → Fields
dump_agent a = dict (
    ("name", str a.name)
    ∷ ("description", str a.description)
    ∷ ("connector_ids", arr (items_of a.connector_ids))
    ∷ ("id", str a.id)
    ∷ ("created_at", nat a.created_at)
    ∷ [])

-- `session.get(AgentRecord, id)`
unfoldable pub read_agent : String → List AgentRecord → Option AgentRecord
read_agent id [] = none
read_agent id (r ∷ rs) = if str_eq r.id id then some r else read_agent id rs

-- The UPDATE of one row, by its primary key.
unfoldable pub put_agent : AgentRecord → List AgentRecord → List AgentRecord
put_agent r [] = []
put_agent r (a ∷ rs) = if str_eq a.id r.id then r ∷ rs else a ∷ put_agent r rs

-- The DELETE of a row, by its primary key.
unfoldable pub remove_agent : String → List AgentRecord → List AgentRecord
remove_agent id [] = []
remove_agent id (a ∷ rs) =
    let rest = remove_agent id rs in if str_eq a.id id then rest else a ∷ rest

-- The primary key and `uq_agents_tenant_name`.
unfoldable pub breaks_uniqueness : AgentRecord → List AgentRecord → Bool
breaks_uniqueness r rows =
    any (λ a. str_eq a.id r.id || (str_eq a.tenant_id r.tenant_id && str_eq a.name r.name)) rows

-- The versions of one agent's events, in the order of their insertion.
abbrev pub is_agent_event : String → OutboxEvent → Bool
is_agent_event id e =
    str_eq e.aggregate_type "agent"
    && elim e.aggregate_id [ none ↦ Bool.false | some a ↦ str_eq a id ]

unfoldable pub agent_versions : String → List OutboxEvent → List ℕ
agent_versions id [] = []
agent_versions id (e ∷ es) =
    let rest = agent_versions id es in
    if is_agent_event id e then e.aggregate_version ∷ rest else rest
