-- ===== src/Adapters/Internal/Config.antt =====
-- `validate_config` and `health_check` of adapters/internal.py.
use favl_agentic_content_os.Prelude.{
  String, append, cut, Bool, false, Option, none, some, List, [], ◌∷◌, ◌++◌, if◌then◌else◌,
}
use favl_agentic_content_os.Json.{Fields, Value, str, get, is_truthy}
use favl_agentic_content_os.Security.Outbound.{Sent, response, request}
use favl_agentic_content_os.Registry.Handlers.{ValidationResult}
use favl_agentic_content_os.Adapters.Base.{
  ConnectorContext, HealthResult, World, valid_config, invalid_config, is_success, http_text,
  no_body,
}
use favl_agentic_content_os.Adapters.Internal.{
  InternalSettings, OperationError, operation_error, operation_message, find_service, service_of,
  policy_of,
}

-- The sorted names of the services, for a message, and `str` of an operation.
pub record Shown : Type 0 where
  pub known_services : String
  pub show : Value → String

abbrev message_of : InternalSettings → String → Option OperationError → List String
message_of s operation none = []
message_of s operation (some e) = operation_message (s.repr operation) e ∷ []

-- `str(config.get("operation") or "")`
abbrev text_or_empty : Shown → Option Value → String
text_or_empty shown none = ""
text_or_empty shown (some (str o)) = o
text_or_empty shown (some v) = if is_truthy v then shown.show v else ""

abbrev unknown_service : Shown → String → Option String → List String
unknown_service shown name (some base) = []
unknown_service shown name none =
    append "service '"
      (append name (append "' is not registered; known services: " shown.known_services))
    ∷ []

-- A service that is a list or a dict has no hash, and ends in a TypeError; every other value that is
-- no text is not registered.
abbrev service_errors : InternalSettings → Shown → Option Value → List String
service_errors s shown none = "config.service is required" ∷ []
service_errors s shown (some (str name)) =
    if is_truthy (str name)
    then unknown_service shown name (find_service name s.services)
    else "config.service is required" ∷ []
service_errors s shown (some v) =
    if is_truthy v
    then unknown_service shown (shown.show v) none
    else "config.service is required" ∷ []

abbrev url_errors : Option Value → List String
url_errors none = []
url_errors (some v) = "config.url is not permitted; address services by name" ∷ []

abbrev as_result : List String → ValidationResult
as_result [] = valid_config "gateway_dedup_only"
as_result (e ∷ es) = invalid_config (e ∷ es)

unfoldable pub validate_internal : InternalSettings → Shown → Fields → ValidationResult
validate_internal s shown config =
    let operation = text_or_empty shown (get "operation" config) in
    as_result (
      service_errors s shown (get "service" config)
      ++ (message_of s operation (operation_error operation) ++ url_errors (get "url" config)))

abbrev pub healthy_if : Bool → String → HealthResult
healthy_if b detail = record { healthy = b; detail = detail }

-- Every exception makes the service unhealthy; `text` is its type and message.
abbrev health_of_sent : (Sent → String) → Sent → HealthResult
health_of_sent text (response r) = healthy_if (is_success r.status_code) (http_text r.status_code)
health_of_sent text other = healthy_if false (cut 200 (text other))

abbrev probe : InternalSettings → World → (Sent → String) → Option String → HealthResult
probe s w text none = healthy_if false "service_not_registered"
probe s w text (some base) =
    let url = append base "/health/live" in
    health_of_sent text (request w.net (w.client "GET" no_body) (policy_of s w url) [] url).outcome

-- The health of a service; a name that is no text is not registered.
abbrev base_of : InternalSettings → Option String → Option String
base_of s none = none
base_of s (some name) = find_service name s.services

unfoldable pub health_internal :
    InternalSettings → World → (Sent → String) → ConnectorContext → HealthResult
health_internal s w text context =
    probe s w text (base_of s (service_of (get "service" context.config)))
