-- ===== src/Orchestrator/Mesh/Examples.antt =====
-- The theorem on the fan-out over the registry, at one connector.
use favl_agentic_content_os.Prelude.{
  String, str_eq, eq_iff, ◌≡◌, refl, Option, none, some, [], ◌∷◌, first, arith, true, if◌then◌else◌,
}
use mathlib.Core.Logic.{◌≢◌, ◌⊎◌}
use favl_agentic_content_os.Json.{end}
use favl_agentic_content_os.Lifecycle.State.{enabled}
use favl_agentic_content_os.Store.Rows.{ConnectorRecord}
use favl_agentic_content_os.Store.Tables.{Clock}
use favl_agentic_content_os.Invocations.Execute.{Runtime, raised, Times}
use favl_agentic_content_os.Invocations.Reads.{AgentCall, invoke_connector_internal}
use favl_agentic_content_os.Invocations.Internal.{
  CallerEntry, let_in, internal_endpoint, handled, stopped,
}
use favl_agentic_content_os.Orchestrator.FanOut.{MeshSettings, fan_out, internal_call_headers}
use favl_agentic_content_os.Orchestrator.Admission.{IsShared, internal_endpoint-handles}
use favl_agentic_content_os.Orchestrator.Mesh.{
  RegistryState, Service, ReadsTenant, registry_post, IsOwnWork, fan_out-IsOwnWork,
}

abbrev connector : ConnectorRecord
connector = record {
  id = "c1";
  tenant_id = "acme";
  name = "hook";
  kind = "http";
  base_url = none;
  scopes = [];
  config = end;
  status = enabled;
  version = 4;
  supports_idempotency = true;
  idempotency_mode = "provider_key";
  deletion_requested_at = none;
  deleted_at = none;
  deleted_by = none;
  revoked_at = none;
  archived_at = none;
  credentials_rotated_at = none;
  state_reason = none;
  created_at = 10;
}

abbrev state : RegistryState
state = record {
  db = record { connectors = connector ∷ []; audit = []; invocations = []; outbox = [] };
  asked = [];
}

abbrev clock : Clock
clock = record { now = 1; row_id = "i1"; audit_id = "a"; event_id = "e" }

abbrev call : AgentCall
call = record { agent_id = "a1"; body = end; digest = "d"; operation = "send"; timeout = 9 }

-- Every call with a tenant header goes to the one connector.
abbrev routed_by : Option (String × String) → Option (String × String × AgentCall)
routed_by none = none
routed_by (some (name, tenant)) =
    if str_eq name "X-Tenant-ID" then some ("c1", tenant, call) else none

abbrev times : Times
times = record { starting = clock; asked_at = 2; finishing = clock }

abbrev service : Service
service = record {
  route = λ c. routed_by (first c.headers);
  clock = λ st. clock;
  times = λ st. times;
  encode = λ a. (200, none);
}

route_lem :
    (h : Option (String × String)) (id tenant : String) (q : AgentCall)
    → routed_by h ≡ some (id, tenant, q)
    → h ≡ some ("X-Tenant-ID", tenant)
route_lem none id tenant q e = cc
route_lem (some (name, t)) id tenant q e = ground (arith, eq_iff name "X-Tenant-ID")

reads : ReadsTenant service
reads c id tenant q e = route_lem (first c.headers) id tenant q e

abbrev runtime : Runtime
runtime = record {
  kinds = "http" ∷ [];
  unknown_text = λ kind. kind;
  invoke = λ kind config q budget. raised "refused";
  deadline_text = λ budget. "deadline";
}

abbrev settings : MeshSettings
settings = record { max_fan_out = 16; internal_service_token = "t"; registry_url = "http://r" }

fan_out-IsOwnWork_example :
    IsOwnWork
      (connector ∷ [])
      "acme"
      (fan_out
        (registry_post runtime service)
        settings
        "acme"
        "a1"
        end
        state
        ("c1" ∷ "c1" ∷ [])).mesh
fan_out-IsOwnWork_example =
    fan_out-IsOwnWork runtime service settings (connector ∷ []) "acme" "a1" end state
      ("c1" ∷ "c1" ∷ []) reads (record { same_connectors = refl; own = tt })

abbrev shared_settings : MeshSettings
shared_settings = record {
  max_fan_out = 16;
  internal_service_token = "s3cret";
  registry_url = "http://registry";
}

internal_endpoint-handles_example :
    let answer =
      internal_endpoint "s3cret" runtime state.db
        (internal_call_headers shared_settings "acme")
        "c1"
        call
        clock
        times in
    (IsShared "s3cret" shared_settings
      × (answer
          ≡ handled (invoke_connector_internal runtime state.db "acme" "c1" call clock times)))
    ⊎ ((¬ IsShared "s3cret" shared_settings)
        × ((e : CallerEntry) × (e ≢ let_in) × (answer ≡ stopped e)))
internal_endpoint-handles_example =
    internal_endpoint-handles "s3cret" shared_settings runtime state.db "acme" "c1" call clock times
