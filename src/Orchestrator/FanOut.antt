-- ===== src/Orchestrator/FanOut.antt =====
-- The loop of `invoke_agent` in services/orchestrator/app/main.py: one call of the registry for each
-- connector of an agent.
use favl_agentic_content_os.Prelude.{
  ℕ, String, str_eq, append, Option, none, some, List, [], ◌∷◌, leb, if◌then◌else◌,
}
use favl_agentic_content_os.Json.{Fields, Value, null, str, obj, end, get, nat, dict}

-- What the module reads of the environment.
pub record MeshSettings : Type 0 where
  pub max_fan_out : ℕ
  pub internal_service_token : String
  pub registry_url : String

-- `internal_call_headers`
unfoldable pub internal_call_headers : MeshSettings → String → List (String × String)
internal_call_headers s tenant =
    if str_eq s.internal_service_token ""
    then ("X-Tenant-ID", tenant) ∷ []
    else ("X-Tenant-ID", tenant) ∷ ("X-Internal-Service-Token", s.internal_service_token) ∷ []

-- A POST to the registry.
pub record MeshCall : Type 0 where
  pub url : String
  pub body : Fields
  pub headers : List (String × String)

-- What the client returns: the text of an HTTPError, or a status with the JSON of its body, with `none`
-- for a body that is no JSON.
pub data MeshReply : Type 0 where
  http_error : String → MeshReply
  response : ℕ → Option Value → MeshReply

abbrev pub invoke_url : MeshSettings → String → String
invoke_url s connector_id =
    append s.registry_url (append "/internal/connectors/" (append connector_id "/invoke"))

abbrev pub mesh_call : MeshSettings → String → String → Fields → String → MeshCall
mesh_call s tenant agent_id payload connector_id = record {
  url = invoke_url s connector_id;
  body = dict (("agent_id", str agent_id) ∷ ("input", obj payload) ∷ []);
  headers = internal_call_headers s tenant;
}

-- `body.get(key)`
abbrev pub value_or_null : Option Value → Value
value_or_null none = null
value_or_null (some v) = v

-- `body.get("status", "failed")`
abbrev pub status_or_failed : Option Value → Value
status_or_failed none = str "failed"
status_or_failed (some v) = v

abbrev pub failed_output : String → ℕ → Fields → Fields
failed_output connector_id status body = dict (
    ("connector_id", str connector_id)
    ∷ ("status", status_or_failed (get "status" body))
    ∷ ("error_code", value_or_null (get "error_code" body))
    ∷ ("retryable", value_or_null (get "retryable" body))
    ∷ ("http_status", nat status)
    ∷ [])

-- A body that is no JSON counts as {}; one that is no object has no `get`.
abbrev pub error_output : String → ℕ → Option Value → Option Fields
error_output connector_id status none = some (failed_output connector_id status end)
error_output connector_id status (some (obj body)) = some (failed_output connector_id status body)
error_output connector_id status (some other) = none

abbrev pub success_output : String → Option Value → Option Fields
success_output connector_id none = none
success_output connector_id (some v) =
    some
      (dict (("connector_id", str connector_id) ∷ ("status", str "completed") ∷ ("output", v) ∷ []))

-- The entry of one connector, with `none` for an exception that is not caught.
unfoldable pub output_of : String → MeshReply → Option Fields
output_of connector_id (http_error text) = some (
    dict (
      ("connector_id", str connector_id)
      ∷ ("status", str "failed")
      ∷ ("detail", str (append "registry unreachable: " text))
      ∷ []))
output_of connector_id (response status body) =
    if leb 400 status
    then error_output connector_id status body
    else success_output connector_id body

-- What a fan-out did: the state of the registry, the calls in their order, and the outputs, with `none`
-- for an exception.
pub record FannedOut (S : Type 0) : Type 0 where
  pub mesh : S
  pub calls : List MeshCall
  pub outputs : Option (List Fields)

abbrev pub cons_output : Fields → Option (List Fields) → Option (List Fields)
cons_output o none = none
cons_output o (some os) = some (o ∷ os)

-- The registry is a parameter: it may answer each call by its state, and change it.
module _ {S : Type 0} (post : S → MeshCall → S × MeshReply) (s : MeshSettings)
    (tenant agent_id : String) (payload : Fields) where
  abbrev pub call_of : String → MeshCall
  call_of connector_id = mesh_call s tenant agent_id payload connector_id

  unfoldable pub fan_out : S → List String → FannedOut S
  fan_out mesh [] = record { mesh = mesh; calls = []; outputs = some [] }
  fan_out mesh (id ∷ ids) =
      let (mesh', reply) = post mesh (call_of id) in
      elim (output_of id reply) [
        | none ↦ record { mesh = mesh'; calls = call_of id ∷ []; outputs = none }
        | some o ↦
            let rest = fan_out mesh' ids in
            record {
              mesh = rest.mesh;
              calls = call_of id ∷ rest.calls;
              outputs = cons_output o rest.outputs;
            }
      ]
