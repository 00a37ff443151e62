-- ===== src/Adapters/Http/Config.antt =====
-- `validate_config` and `health_check` of adapters/http.py.
use favl_agentic_content_os.Prelude.{
  String, append, cut, join, map, Bool, false, not, ◌&&◌, ◌||◌, Option, none, some, List, [], ◌∷◌,
  ◌++◌, leb, ltb, if◌then◌else◌,
}
use favl_agentic_content_os.Prelude.Text.{codes, lower, text_eq, contains}
use favl_agentic_content_os.Json.{Fields, Value, str, end, field, get, is_truthy}
use favl_agentic_content_os.Security.Ssrf.{
  OutboundPolicy, Checked, passed, blocked, Endpoint, ValidatedTarget, validate_static,
}
use favl_agentic_content_os.Security.Outbound.{Sent, response, Headers, request}
use favl_agentic_content_os.Security.Secrets.{
  Refused, legacy, malformed, other_connector, other_tenant, Permission, permitted, refused,
  check_addressable, is_secret_reference,
}
use favl_agentic_content_os.Security.Policy.Parsing.{config_policy, rejected_operator_keys}
use favl_agentic_content_os.Registry.Handlers.{ValidationResult}
use favl_agentic_content_os.Adapters.Base.{
  ConnectorContext, HealthResult, World, valid_config, invalid_config, no_body, http_text,
}
use favl_agentic_content_os.Adapters.Http.{
  Built, made, secret_missing, secret_refused, wrong_type, header_fields, text_at, headers_of,
}

-- The cause in a SecretNotPermitted, for a reference that no rule of ownership refuses.
abbrev pub why : Refused → String
why legacy = "direct storage references are no longer accepted; use secret://connector/<name>/<key>"
why malformed = "malformed reference; expected secret://…"
why other_connector = "may not read"
why other_tenant = "may not read"

-- `"may not read" not in str(exc)`: the text of the exception has the reference in it.
abbrev pub is_form_error : String → Refused → Bool
is_form_error value r = not (
    contains
      (codes (append "secret reference " (append value (append " is not permitted: " (why r)))))
      (codes "may not read"))

abbrev pub form_errors : String → String → Permission → List String
form_errors prefix value (permitted r) = []
form_errors prefix value (refused r) =
    if is_form_error value r then append prefix (append ": " (why r)) ∷ [] else []

-- `f"header '{key}'"`
abbrev header_name : String → String
header_name key = append "header '" (append key "'")

abbrev is_credential : String → Bool
is_credential key =
    text_eq (lower (codes key)) (codes "authorization")
    || text_eq (lower (codes key)) (codes "x-api-key")

abbrev literal_errors : String → List String
literal_errors key =
    if is_credential key
    then append (header_name key) " must be a secret reference, not a literal value" ∷ []
    else []

abbrev header_errors : String → String → Value → List String
header_errors owner key (str v) =
    if is_secret_reference (codes v)
    then form_errors (header_name key) v (check_addressable (codes v) (codes owner) [])
    else literal_errors key
header_errors owner key other = literal_errors key

abbrev all_header_errors : String → Fields → List String
all_header_errors owner end = []
all_header_errors owner (field key v rest) =
    header_errors owner key v ++ all_header_errors owner rest

-- `repr` of a list of plain words.
abbrev quoted : String → String
quoted s = append "'" (append s "'")

abbrev pub shown_list : List String → String
shown_list words = append "[" (append (join ", " (map quoted words)) "]")

abbrev pub if_missing : Option Value → String → List String
if_missing none text = text ∷ []
if_missing (some v) text = if is_truthy v then [] else text ∷ []

abbrev escalating : List String → List String
escalating [] = []
escalating (k ∷ ks) =
    append "config may not set operator-controlled keys: " (
      append (shown_list (k ∷ ks))
        ". Private addressing and permitted schemes are deployment settings; a connector cannot widen its own reach.")
    ∷ []

-- The errors of the static check, with `none` for an exception that is not caught.
abbrev rejected : Checked Endpoint → List String
rejected (passed e) = []
rejected (blocked reason) = append "base_url rejected: " reason ∷ []

abbrev static_check : World → Option Value → Option OutboundPolicy → Option (List String)
static_check w (some (str url)) (some policy) = some (rejected (validate_static w.net url policy))
static_check w url policy = none

abbrev pub is_set : Option Value → Bool
is_set none = false
is_set (some v) = is_truthy v

unfoldable pub url_errors : World → Fields → Option (List String)
url_errors w config =
    if is_set (get "base_url" config) && is_set (get "allowed_hosts" config)
    then static_check w (get "base_url" config) (config_policy w.operator config)
    else some []

abbrev pub http_mode : Fields → String
http_mode config =
    if is_set (get "idempotency_header" config) then "provider_key" else "gateway_dedup_only"

abbrev pub as_result : String → List String → ValidationResult
as_result mode [] = valid_config mode
as_result mode (e ∷ es) = invalid_config (e ∷ es)

abbrev all_errors : Fields → String → Fields → List String → List String
all_errors config owner headers later =
    if_missing (get "base_url" config) "config.base_url is required"
    ++ (if_missing (get "allowed_hosts" config)
          "config.allowed_hosts is required; an unrestricted HTTP connector is an SSRF primitive"
        ++ (escalating (rejected_operator_keys config)
            ++ (all_header_errors owner headers ++ later)))

abbrev with_checks :
    Fields → String → Option Fields → Option (List String) → Option ValidationResult
with_checks config owner (some headers) (some later) =
    some (as_result (http_mode config) (all_errors config owner headers later))
with_checks config owner headers later = none

-- `HttpAdapter.validate_config`, with `none` for an exception.
unfoldable pub validate_http : World → Fields → Option ValidationResult
validate_http w config =
    with_checks config (text_at w (get "name" config)) (header_fields (get "headers" config))
      (url_errors w config)

-- A health check: the headers that it passes on, the targets, and its result.
pub record HealthProbe : Type 0 where
  pub headers : Headers
  pub targets : List ValidatedTarget
  pub result : HealthResult

abbrev pub unhealthy : String → HealthProbe
unhealthy detail = record {
  headers = [];
  targets = [];
  result = record { healthy = false; detail = detail };
}

-- `text` is the type and the message of an exception.
abbrev health_result : (Sent → String) → Sent → HealthResult
health_result text (response r) = record {
  healthy = leb 200 r.status_code && ltb r.status_code 400;
  detail = http_text r.status_code;
}
health_result text other = record { healthy = false; detail = cut 200 (text other) }

-- `config.get("health_method", "GET")`
abbrev health_method : World → Option Value → String
health_method w none = "GET"
health_method w (some (str m)) = m
health_method w (some v) = w.show v

abbrev pub probe_url :
    World → (Sent → String) → Fields → Headers → Option Value → Option OutboundPolicy → HealthProbe
probe_url w text config headers (some (str url)) (some policy) =
    let sent =
      request w.net (w.client (health_method w (get "health_method" config)) no_body) policy headers
        url in
    record { headers = headers; targets = sent.targets; result = health_result text sent.outcome }
probe_url w text config headers url policy = unhealthy "TypeError"

abbrev pub probe_with : World → (Sent → String) → Fields → Option Value → Built → HealthProbe
probe_with w text config url (made headers) =
    probe_url w text config headers url (config_policy w.operator config)
probe_with w text config url (secret_missing reference) =
    unhealthy (append "secret unresolved: " reference)
probe_with w text config url secret_refused = unhealthy "SecretNotPermitted"
probe_with w text config url wrong_type = unhealthy "TypeError"

-- `config.get("health_url") or config.get("base_url")`
abbrev pub health_url : Fields → Option Value
health_url config =
    if is_set (get "health_url" config) then get "health_url" config else get "base_url" config

-- `HttpAdapter.health_check`
unfoldable pub health_http : World → (Sent → String) → ConnectorContext → HealthProbe
health_http w text context =
    let url = health_url context.config in
    if is_set url
    then probe_with w text context.config url (headers_of w context none)
    else unhealthy "no health_url or base_url configured"
