-- ===== src/Orchestrator/Runs.antt =====
-- Tenants of the orchestrator: no call reaches another tenant's agent.
use favl_agentic_content_os.Prelude.{
  String, ◌≡◌, ◌≢◌, ◌∙◌, sym, Option, none, some, List, [], ◌∷◌, arith, All,
}
use favl_agentic_content_os.Store.Tables.{Clock}
use favl_agentic_content_os.Orchestrator.Agents.{AgentRecord, AgentDb, read_agent}
use favl_agentic_content_os.Orchestrator.FanOut.{MeshSettings, MeshCall, MeshReply}
use favl_agentic_content_os.Orchestrator.Endpoints.{AgentRequest, agent_step}
use favl_agentic_content_os.Orchestrator.Changes.{
  Change, unchanged, changed, IsTenants, agent_step-Change,
}

-- A call with its tenant and what the clock and the generator of ids return.
pub record AgentArrival : Type 0 where
  pub tenant : String
  pub clock : Clock
  pub request : AgentRequest

before_is :
    (tenant id : String) (before : Option AgentRecord) (r : AgentRecord)
    → IsTenants tenant before
    → before ≡ some r
    → r.tenant_id ≡ tenant
before_is tenant id none r own e = cc
before_is tenant id (some b) r own e = ground arith

pub Change_keeps :
    (tenant row_id : String) (db db' : AgentDb) (j : String) (r : AgentRecord)
    → Change tenant row_id db db'
    → r.tenant_id ≢ tenant
    → read_agent j db.agents ≡ some r
    → read_agent j db'.agents ≡ some r
Change_keeps tenant row_id db db' j r (unchanged e) ne read = rw e read
Change_keeps tenant row_id db db' j r (changed id before after v found own _ _ _ w _) ne read =
    w.others j (λ e. ne (before_is tenant id before r own (sym found ∙ rw (← e) read))) ∙ read

module _ {S : Type 0} (post : S → MeshCall → S × MeshReply) (s : MeshSettings) where
  unfoldable pub agent_run : S → AgentDb → List AgentArrival → AgentDb
  agent_run mesh db [] = db
  agent_run mesh db (x ∷ xs) =
      let turn = agent_step post s mesh db x.tenant x.clock x.request in
      agent_run turn.mesh turn.db xs

  -- However many calls other tenants make, deletions included, a tenant's agent is what it was, in
  -- every field.
  pub agent_run-isolation :
      (mesh : S) (db : AgentDb) (xs : List AgentArrival) (j : String) (r : AgentRecord)
      → read_agent j db.agents ≡ some r
      → All (λ (x : AgentArrival). r.tenant_id ≢ x.tenant) xs
      → read_agent j (agent_run mesh db xs).agents ≡ some r
  unfolding agent_run
  agent_run-isolation mesh db [] j r read others = read
  agent_run-isolation mesh db (x ∷ xs) j r read others =
      let turn = agent_step post s mesh db x.tenant x.clock x.request in
      agent_run-isolation turn.mesh turn.db xs j r
        (Change_keeps x.tenant x.clock.row_id db turn.db j r
          (agent_step-Change post s mesh db x.tenant x.clock x.request) others.0 read)
        others.1
