-- ===== src/Adapters/Internal.antt =====
-- services/connector-registry/app/adapters/internal.py: a service by its registered name.
pub mod Paths
pub mod Config
pub mod Ending
use favl_agentic_content_os.Prelude.{
  ℕ, ◌==◌, String, str_eq, append, cut, join, map, Bool, true, false, not, ◌&&◌, ◌||◌, Option, none,
  some, List, [], ◌∷◌, ◌++◌, any, leb, every_char, lstrip_of, rstrip_of, strip, split_on,
  if◌then◌else◌,
}
use favl_agentic_content_os.Prelude.Text.{is_upper, is_lower, is_digit}
use favl_agentic_content_os.Json.{Fields, Value, Items, str, obj, end, dict, nat, get, is_truthy}
use favl_agentic_content_os.Store.Rows.{succeeded}
use favl_agentic_content_os.Security.Ssrf.{OutboundPolicy}
use favl_agentic_content_os.Security.Outbound.{
  Sent, response, ssrf_blocked, too_many_redirects, content_type_rejected, response_too_large,
  failed, out_of_fuel, OutboundResponse, Headers, request,
}
use favl_agentic_content_os.Security.Policy.{default_content_types}
use favl_agentic_content_os.Registry.Handlers.{ValidationResult}
use favl_agentic_content_os.Invocations.Execute.{Reply, returned, raised}
use favl_agentic_content_os.Invocations.Results.{
  ErrorCode, InvocationRequest, InvocationResult, failure, seconds_remaining,
  service_not_registered, deadline_exceeded, operation_not_supported, upstream_timeout,
  upstream_unavailable, upstream_error, upstream_client_error,
}
use favl_agentic_content_os.Invocations.Results as Codes
use favl_agentic_content_os.Adapters.Base.{
  ConnectorContext, HealthResult, World, Attempt, answered, json, no_body, TransportError,
  timed_out, http_error, other_error, valid_config, invalid_config, Span, success, failed_with,
  failure_with, is_success, is_client_error, output_of_body, http_text,
}

-- The names of services with their base URLs.
abbrev pub Services : Type 0
Services = List (String × String)

abbrev pub is_slash : ℕ → Bool
is_slash c = c == b'/'

-- `registry[name] = base`
abbrev pub set_service : String → String → Services → Services
set_service name base [] = (name, base) ∷ []
set_service name base ((n, b) ∷ rest) =
    if str_eq n name then (n, base) ∷ rest else (n, b) ∷ set_service name base rest

-- `entry.partition("=")`, with `none` where there is no `=`.
abbrev pub rejoin : List String → Option (String × String)
rejoin [] = none
rejoin (name ∷ []) = none
rejoin (name ∷ part ∷ parts) = some (name, join "=" (part ∷ parts))

abbrev pub add_entry : Option (String × String) → Services → Services
add_entry none services = services
add_entry (some (name, base)) services =
    set_service (strip name) (rstrip_of is_slash (strip base)) services

abbrev add_entries : List String → Services → Services
add_entries [] services = services
add_entries (entry ∷ entries) services =
    add_entries entries (add_entry (rejoin (split_on b'=' (strip entry))) services)

-- `_load_registry`, of the variable's text.
unfoldable pub load_registry : String → Services
load_registry raw = add_entries (split_on b',' raw) []

unfoldable pub find_service : String → Services → Option String
find_service name [] = none
find_service name ((n, b) ∷ rest) = if str_eq n name then some b else find_service name rest

-- `[A-Za-z0-9._~/-]`
abbrev pub is_safe_char : ℕ → Bool
is_safe_char c =
    is_upper c
    || (is_lower c
        || (is_digit c || (c == b'.' || (c == b'_' || (c == b'~' || (c == b'/' || c == b'-'))))))

pub data OperationError : Type 0 where
  required unsafe_character parent_segment : OperationError

-- `_operation_error`
unfoldable pub operation_error : String → Option OperationError
operation_error operation =
    if str_eq operation ""
    then some required
    else if not (every_char is_safe_char operation)
    then some unsafe_character
    else if any (str_eq "..") (split_on b'/' operation)
    then some parent_segment
    else none

-- The message, with `repr` of the operation as an argument.
abbrev pub operation_message : String → OperationError → String
operation_message shown required = "config.operation is required"
operation_message shown unsafe_character =
    append "config.operation " (
      append shown " may contain only letters, digits, '-', '_', '/' and '.', with no '..' segment")
operation_message shown parent_segment = "config.operation may not contain a '..' segment"

-- `_policy`
unfoldable pub internal_policy : ℕ → String → OutboundPolicy
internal_policy max_bytes host = record {
  allowed_hosts = host ∷ [];
  allowed_schemes = "http" ∷ "https" ∷ [];
  allow_private_addresses = true;
  max_redirects = 0;
  max_response_bytes = max_bytes;
  allowed_content_types = default_content_types;
}

abbrev pub base_and_path : String → String → String
base_and_path base operation = append base (append "/" (lstrip_of is_slash operation))

-- `_classify`
abbrev pub code_for : ℕ → ErrorCode
code_for status = if is_client_error status then upstream_client_error else upstream_error

unfoldable pub classify_response : World → Span → String → OutboundResponse → InvocationResult
classify_response w t operation r =
    if is_success r.status_code
    then success (output_of_body w r.body) r.provider_request_id (some t.started) (some t.ended) (
        dict (
          ("http_status", nat r.status_code)
          ∷ ("redirects", nat r.redirects)
          ∷ ("operation", str operation)
          ∷ []))
    else failure_with (code_for r.status_code) (http_text r.status_code) (some t.started)
        (some t.ended) r.provider_request_id (dict (("http_status", nat r.status_code) ∷ []))

-- How an error of the client is reported.
abbrev pub transport_result : Span → String → TransportError → Reply
transport_result t text timed_out = returned (failed_with t upstream_timeout text)
transport_result t text http_error = returned (failed_with t upstream_unavailable text)
transport_result t text other_error = raised text

-- The `except` clauses around the request; what they do not name goes on.
unfoldable pub internal_reply : World → Span → String → Sent → Reply
internal_reply w t operation (response r) = returned (classify_response w t operation r)
internal_reply w t operation (ssrf_blocked reason) =
    returned (failed_with t Codes.ssrf_blocked reason)
internal_reply w t operation too_many_redirects = raised "TooManyRedirects"
internal_reply w t operation (content_type_rejected media) = raised "ContentTypeRejected"
internal_reply w t operation response_too_large =
    returned (failed_with t Codes.response_too_large "response exceeded the limit")
internal_reply w t operation (failed text) = transport_result t text (w.error_kind text)
internal_reply w t operation out_of_fuel = raised "unreachable"

-- INTERNAL_MAX_RESPONSE_BYTES, the registered services, and `repr` of a text.
pub record InternalSettings : Type 0 where
  pub services : Services
  pub max_bytes : ℕ
  pub repr : String → String

abbrev pub internal_headers : InvocationRequest → Headers
internal_headers q =
    ("X-FAVL-Invocation-ID", q.invocation_id)
    ∷ ("X-FAVL-Idempotency-Key", q.idempotency_key)
    ∷ ("Content-Type", "application/json")
    ∷ []

-- `self._policy(httpx.URL(url).host)`
abbrev pub policy_of : InternalSettings → World → String → OutboundPolicy
policy_of s w url = internal_policy s.max_bytes (w.host_of url)

unfoldable pub post_internal :
    InternalSettings → World → Span → InvocationRequest → String → String → Attempt
post_internal s w t q base operation =
    let url = base_and_path base operation in
    let sent =
      request w.net (w.client "POST" (json q.payload)) (policy_of s w url) (internal_headers q)
        url in
    record { targets = sent.targets; reply = internal_reply w t operation sent.outcome }

-- The operation of the configuration is checked again.
abbrev pub checked_post :
    InternalSettings
    → World
    → Span
    → InvocationRequest
    → String
    → String
    → Option OperationError
    → Attempt
checked_post s w t q base operation (some e) =
    answered [] (failed_with t operation_not_supported (operation_message (s.repr operation) e))
checked_post s w t q base operation none = post_internal s w t q base operation

-- A value that is no text does not match; one that is false is no operation.
abbrev pub with_operation :
    InternalSettings → World → Span → InvocationRequest → String → Option Value → Attempt
with_operation s w t q base none = checked_post s w t q base "" (operation_error "")
with_operation s w t q base (some (str operation)) =
    checked_post s w t q base operation (operation_error operation)
with_operation s w t q base (some v) =
    if is_truthy v
    then record { targets = []; reply = raised "TypeError" }
    else checked_post s w t q base "" (operation_error "")

abbrev pub with_base :
    InternalSettings → World → Span → InvocationRequest → Fields → String → Option String → Attempt
with_base s w t q config service none = answered [] (failed_with t service_not_registered service)
with_base s w t q config service (some base) =
    if seconds_remaining q t.started == 0
    then answered [] (failed_with t deadline_exceeded "deadline passed before dispatch")
    else with_operation s w t q base (get "operation" config)

-- The name of the service, if it is a text: another value ends in a TypeError.
abbrev pub service_of : Option Value → Option String
service_of none = some ""
service_of (some (str name)) = some name
service_of (some v) = none

abbrev pub with_service :
    InternalSettings → World → Span → InvocationRequest → Fields → Option String → Attempt
with_service s w t q config none = record { targets = []; reply = raised "TypeError" }
with_service s w t q config (some name) =
    with_base s w t q config name (find_service name s.services)

-- `InternalAdapter.invoke`
unfoldable pub invoke_internal :
    InternalSettings → World → Span → InvocationRequest → ConnectorContext → Attempt
invoke_internal s w t q context =
    with_service s w t q context.config (service_of (get "service" context.config))
