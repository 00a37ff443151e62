-- ===== src/Orchestrator/Laws.antt =====
-- Reads after writes of the orchestrator's two tables.
use mathlib.Core.List.{append-nil}
use favl_agentic_content_os.Prelude.{
  ℕ, String, eq_iff, ◌≡◌, ◌≢◌, refl, ap, ◌∙◌, none, some, List, [], ◌∷◌, ◌++◌, str_eq, arith,
  if◌then◌else◌,
}
use favl_agentic_content_os.Store.Rows.{OutboxEvent}
use favl_agentic_content_os.Orchestrator.Agents.{
  AgentRecord, AgentDb, read_agent, put_agent, remove_agent, agent_versions,
}

pub read_agent-id :
    (id : String) (rows : List AgentRecord) (r : AgentRecord)
    → read_agent id rows ≡ some r
    → r.id ≡ id
unfolding read_agent
read_agent-id id [] r h = cc
read_agent-id id (a ∷ rows) r h = ground (arith, eq_iff a.id id, read_agent-id id rows r)

pub read_agent-put :
    (id : String) (r old : AgentRecord) (rows : List AgentRecord)
    → r.id ≡ id
    → read_agent id rows ≡ some old
    → read_agent id (put_agent r rows) ≡ some r
unfolding read_agent put_agent
read_agent-put id r old [] here h = cc
read_agent-put id r old (a ∷ rows) here h =
    ground
      (arith, eq_iff a.id r.id, eq_iff a.id id, eq_iff r.id id, read_agent-put id r old rows here)

pub read_agent-put_ne :
    (r : AgentRecord) (j : String) (rows : List AgentRecord)
    → j ≢ r.id
    → read_agent j (put_agent r rows) ≡ read_agent j rows
unfolding read_agent put_agent
read_agent-put_ne r j [] h = refl
read_agent-put_ne r j (a ∷ rows) h =
    ground (arith, eq_iff a.id r.id, eq_iff r.id j, eq_iff a.id j, read_agent-put_ne r j rows h)

pub read_agent-append :
    (j : String) (rows : List AgentRecord) (r : AgentRecord)
    → read_agent r.id rows ≡ none
    → read_agent j (rows ++ r ∷ []) ≡ (if str_eq r.id j then some r else read_agent j rows)
unfolding read_agent
read_agent-append j [] r h = refl
read_agent-append j (a ∷ rows) r h =
    ground (arith, eq_iff a.id r.id, eq_iff r.id j, eq_iff a.id j, read_agent-append j rows r)

pub read_agent-remove :
    (id : String) (rows : List AgentRecord) → read_agent id (remove_agent id rows) ≡ none
unfolding read_agent remove_agent
read_agent-remove id [] = refl
read_agent-remove id (a ∷ rows) = ground (arith, read_agent-remove id rows)

pub read_agent-remove_ne :
    (id j : String) (rows : List AgentRecord)
    → j ≢ id
    → read_agent j (remove_agent id rows) ≡ read_agent j rows
unfolding read_agent remove_agent
read_agent-remove_ne id j [] h = refl
read_agent-remove_ne id j (a ∷ rows) h =
    ground (arith, eq_iff a.id id, eq_iff a.id j, read_agent-remove_ne id j rows h)

pub agent_versions-append :
    (id : String) (xs ys : List OutboxEvent)
    → agent_versions id (xs ++ ys) ≡ agent_versions id xs ++ agent_versions id ys
unfolding agent_versions
agent_versions-append id [] ys = refl
agent_versions-append id (x ∷ xs) ys = ground (arith, agent_versions-append id xs ys)

-- The event that a write appends carries the agent's id and a version.
pub record Announces (db db' : AgentDb) (id : String) (version : ℕ) : Type 0 where
  pub event : OutboxEvent
  pub outbox : db'.outbox ≡ db.outbox ++ event ∷ []
  pub kind : event.aggregate_type ≡ "agent"
  pub aggregate : event.aggregate_id ≡ some id
  pub has_version : event.aggregate_version ≡ version

pub announced_self :
    (db db' : AgentDb) (id : String) (v : ℕ)
    → Announces db db' id v
    → agent_versions id db'.outbox ≡ agent_versions id db.outbox ++ v ∷ []
unfolding agent_versions
announced_self db db' id v n =
    ap (agent_versions id) n.outbox
    ∙ (agent_versions-append id db.outbox (n.event ∷ [])
        ∙ ground (
          arith,
          n.kind,
          n.aggregate,
          n.has_version,
          eq_iff n.event.aggregate_type "agent",
          eq_iff id id,
        ))

pub announced_other :
    (db db' : AgentDb) (id j : String) (v : ℕ)
    → Announces db db' id v
    → j ≢ id
    → agent_versions j db'.outbox ≡ agent_versions j db.outbox
unfolding agent_versions
announced_other db db' id j v n ne =
    ap (agent_versions j) n.outbox
    ∙ (agent_versions-append j db.outbox (n.event ∷ [])
        ∙ (nothing ∙ append-nil (agent_versions j db.outbox)))
  where
    nothing :
        agent_versions j db.outbox ++ agent_versions j (n.event ∷ [])
        ≡ agent_versions j db.outbox ++ []
    nothing = ap (λ l. agent_versions j db.outbox ++ l) (ground (arith, n.aggregate, eq_iff id j))
