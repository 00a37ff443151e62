-- ===== src/Orchestrator/Mesh.antt =====
-- The orchestrator's fan-out over the registry of connectors, whose endpoint for calls of the mesh is
-- `invoke_connector_internal`.
mod Examples
use favl_agentic_content_os.Prelude.{
  ℕ, String, ◌≡◌, refl, sym, ◌∙◌, ap, Option, none, some, List, [], ◌∷◌, ◌++◌, All, All-append,
  All-map, first, Option-cases, inl, inr, str_eq, Bool-cases, if◌then◌else◌,
}
use mathlib.Core.Path.{subst}
use favl_agentic_content_os.Json.{Fields, Value}
use favl_agentic_content_os.Store.Rows.{ConnectorRecord}
use favl_agentic_content_os.Store.Tables.{Db, Clock, get_connector}
use favl_agentic_content_os.Registry.Handlers.{tenant_connector}
use favl_agentic_content_os.Invocations.Results.{InvocationRequest}
use favl_agentic_content_os.Invocations.Execute.{Runtime, Times}
use favl_agentic_content_os.Invocations.Endpoint.{Answer, Invoked, when_read}
use favl_agentic_content_os.Invocations.Reads.{AgentCall, agent_job, invoke_connector_internal}
use favl_agentic_content_os.Invocations.Replay.{when_read_connectors}
use favl_agentic_content_os.Invocations.Asks.{IsFor, when_read-asks}
use favl_agentic_content_os.Orchestrator.FanOut.{
  MeshSettings, MeshCall, MeshReply, response, output_of, FannedOut, cons_output, call_of, fan_out,
  internal_call_headers,
}

-- The registry, with the requests that its adapters have got.
pub record RegistryState : Type 0 where
  pub db : Db
  pub asked : List InvocationRequest

-- The routing of the framework: the connector, the tenant header and the body of a call, or no route; the
-- times of a call; and the status and the body of an answer.
pub record Service : Type 0 where
  pub route : MeshCall → Option (String × String × AgentCall)
  pub clock : RegistryState → Clock
  pub times : RegistryState → Times
  pub encode : Answer → ℕ × Option Value

-- The tenant that the framework reads is that of the header.
abbrev pub ReadsTenant : Service → Type 0
ReadsTenant v =
    (c : MeshCall) (id tenant : String) (call : AgentCall)
    → v.route c ≡ some (id, tenant, call)
    → first c.headers ≡ some ("X-Tenant-ID", tenant)

module _ (rt : Runtime) (v : Service) where
  abbrev pub after_invoked : RegistryState → Option Invoked → RegistryState × MeshReply
  after_invoked st none = (st, response 400 none)
  after_invoked st (some x) =
      let (status, body) = v.encode x.response in
      (record { db = x.db; asked = st.asked ++ x.calls }, response status body)

  abbrev pub routed :
      RegistryState → Option (String × String × AgentCall) → RegistryState × MeshReply
  routed st none = (st, response 404 none)
  routed st (some (id, tenant, call)) =
      after_invoked st (invoke_connector_internal rt st.db tenant id call (v.clock st) (v.times st))

  unfoldable pub registry_post : RegistryState → MeshCall → RegistryState × MeshReply
  registry_post st c = routed st (v.route c)

-- The registry still has its connectors, and every request so far was for the tenant.
pub record IsOwnWork (connectors : List ConnectorRecord) (tenant : String) (st : RegistryState)
    : Type 0 where
  pub same_connectors : st.db.connectors ≡ connectors
  pub own : All (IsFor connectors tenant) st.asked

module _ (rt : Runtime) (v : Service) (connectors : List ConnectorRecord) (tenant : String) where
  invoked_own :
      (st : RegistryState) (id : String) (call : AgentCall)
      → IsOwnWork connectors tenant st
      → IsOwnWork connectors tenant
          (after_invoked rt v st
            (invoke_connector_internal rt st.db tenant id call (v.clock st) (v.times st))).0
  unfolding invoke_connector_internal
  invoked_own st id call w = elim (Bool-cases (str_eq tenant "")) [
    | inl e ↦ rw e w
    | inr e ↦
        let job = agent_job tenant call in
        let read = tenant_connector st.db id tenant in
        let asks = when_read-asks rt st.db id call.body job (v.clock st) (v.times st) in
        rw e (record {
          same_connectors =
              when_read_connectors rt st.db call.body job (v.clock st) (v.times st) read
              ∙ w.same_connectors;
          own = All-append (IsFor connectors tenant) st.asked _ w.own (
              subst
                (λ cs.
                  All (IsFor cs tenant)
                    (when_read rt st.db call.body job (v.clock st) (v.times st) read).calls)
                w.same_connectors asks);
        })
  ]

  posted_own :
      (reads : ReadsTenant v) (st : RegistryState) (c : MeshCall)
      → first c.headers ≡ some ("X-Tenant-ID", tenant)
      → IsOwnWork connectors tenant st
      → IsOwnWork connectors tenant (registry_post rt v st c).0
  unfolding registry_post
  posted_own reads st c header w = go (v.route c) refl
    where
      go :
          (r : Option (String × String × AgentCall))
          → v.route c ≡ r
          → IsOwnWork connectors tenant (routed rt v st r).0
      go none e = w
      go (some (id, t, call)) e =
          let same : t ≡ tenant = cc (reads c id t call e, header) in
          rw same (invoked_own st id call w)

headers_lem :
    (s : MeshSettings) (tenant : String)
    → first (internal_call_headers s tenant) ≡ some ("X-Tenant-ID", tenant)
unfolding internal_call_headers
headers_lem s tenant = elim (Bool-cases (str_eq s.internal_service_token "")) [
  | inl e ↦ rw e refl
  | inr e ↦ rw e refl
]

-- A fan-out for a tenant, over whatever connectors its agent names, leaves every connector as it was, and
-- asks the adapters only on that tenant's behalf and only for that tenant's connectors.
pub fan_out-IsOwnWork :
    (rt : Runtime) (v : Service) (s : MeshSettings) (connectors : List ConnectorRecord)
    (tenant agent_id : String) (payload : Fields) (st : RegistryState) (ids : List String)
    → ReadsTenant v
    → IsOwnWork connectors tenant st
    → IsOwnWork connectors tenant
        (fan_out (registry_post rt v) s tenant agent_id payload st ids).mesh
unfolding fan_out
fan_out-IsOwnWork rt v s connectors tenant agent_id payload st [] reads w = w
fan_out-IsOwnWork rt v s connectors tenant agent_id payload st (id ∷ ids) reads w =
    let call = call_of (registry_post rt v) s tenant agent_id payload id in
    let turn = registry_post rt v st call in
    let own = posted_own rt v connectors tenant reads st call (headers_lem s tenant) w in
    elim (Option-cases (output_of id turn.1)) [
      | inl e ↦ rw (fan_out, e) own
      | inr (o, e) ↦
          rw (fan_out, e)
            (fan_out-IsOwnWork rt v s connectors tenant agent_id payload turn.0 ids reads own)
    ]
