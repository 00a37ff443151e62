-- ===== src/Adapters/Http.antt =====
-- services/connector-registry/app/adapters/http.py: a request to an allowlisted host.
pub mod Config
pub mod Own
pub mod Ending
pub mod Retries
use favl_agentic_content_os.Prelude.{
  ℕ, ◌+◌, ◌/◌, ◌==◌, length, String, str_eq, append, cut, Bool, true, false, ◌&&◌, ◌||◌, Option,
  none, some, List, [], ◌∷◌, ◌++◌, any, lstrip_of, rstrip_of, if◌then◌else◌,
}
use favl_agentic_content_os.Prelude.Text.{Text, codes}
use favl_agentic_content_os.Json.{
  Fields, Value, str, obj, null, end, field, dict, nat, get, is_truthy, real,
}
use favl_agentic_content_os.Security.Ssrf.{OutboundPolicy}
use favl_agentic_content_os.Security.Outbound.{
  Sent, response, ssrf_blocked, too_many_redirects, content_type_rejected, response_too_large,
  failed, out_of_fuel, OutboundResponse, Headers, is_stripped, request,
}
use favl_agentic_content_os.Security.Secrets.{
  Resolved, secret, not_found, not_permitted, is_secret_reference, resolve,
}
use favl_agentic_content_os.Security.Policy.Parsing.{config_policy}
use favl_agentic_content_os.Invocations.Execute.{Reply, returned, raised}
use favl_agentic_content_os.Invocations.Results.{
  ErrorCode, InvocationRequest, InvocationResult, seconds_remaining, deadline_exceeded,
  secret_not_found, upstream_timeout, upstream_unavailable, upstream_error, upstream_client_error,
}
use favl_agentic_content_os.Invocations.Results as Codes
use favl_agentic_content_os.Adapters.Base.{
  ConnectorContext, World, Attempt, answered, json, TransportError, timed_out, http_error,
  other_error, Span, success, failed_with, failure_with, is_success, is_client_error,
  output_of_body, http_text,
}

-- The headers of a request, or the exception that ends their construction: SecretNotFound with the
-- reference, SecretNotPermitted, or a TypeError or AttributeError of a value of another type.
pub data Built : Type 0 where
  made : Headers → Built
  secret_missing : String → Built
  secret_refused : Built
  wrong_type : Built

-- `headers[key] = value`
unfoldable pub set_header : String → String → Headers → Headers
set_header key value [] = (key, value) ∷ []
set_header key value ((k, v) ∷ rest) =
    if str_eq k key then (k, value) ∷ rest else (k, v) ∷ set_header key value rest

-- What the resolver gives for the connector.
abbrev pub resolver : World → ConnectorContext → String → Resolved
resolver w context reference =
    resolve w.environ (codes reference) (codes context.connector_id) (codes context.tenant_id)

-- One header of the configuration, given how the rest go on.
abbrev pub add_resolved : String → String → Resolved → (String → Built) → Built
add_resolved key reference (secret value) next = next value
add_resolved key reference not_found next = secret_missing reference
add_resolved key reference (not_permitted why) next = secret_refused

-- A header whose value is no text: the rest are read, `sanitise_headers` may drop it, and if it does not,
-- the client raises. (That a later header of the same name may replace it is left out.)
abbrev pub without_text : String → Built → Built
without_text key (made headers) = if is_stripped key then made headers else wrong_type
without_text key other = other

unfoldable pub add_headers : (String → Resolved) → Fields → Headers → Built
add_headers resolved end headers = made headers
add_headers resolved (field key (str v) rest) headers =
    if is_secret_reference (codes v)
    then add_resolved key v (resolved v) (λ x. add_headers resolved rest (set_header key x headers))
    else add_headers resolved rest (set_header key v headers)
add_headers resolved (field key other rest) headers =
    without_text key (add_headers resolved rest headers)

-- `(config.get("headers") or {}).items()`, with `none` for an AttributeError.
abbrev pub header_fields : Option Value → Option Fields
header_fields none = some end
header_fields (some (obj fields)) = some fields
header_fields (some v) = if is_truthy v then none else some end

abbrev pub first_headers : Headers
first_headers = ("Content-Type", "application/json") ∷ ("Accept", "application/json") ∷ []

abbrev pub config_headers : (String → Resolved) → Option Fields → Built
config_headers resolved none = wrong_type
config_headers resolved (some fields) = add_headers resolved fields first_headers

-- The header for the idempotency key, if the configuration names one.
abbrev pub add_key : Option Value → String → Headers → Built
add_key none key headers = made headers
add_key (some (str name)) key headers =
    made (if str_eq name "" then headers else set_header name key headers)
add_key (some v) key headers = if is_truthy v then wrong_type else made headers

abbrev pub add_trace : Option String → Headers → Headers
add_trace none headers = headers
add_trace (some id) headers =
    if str_eq id "" then headers else set_header "X-FAVL-Trace-ID" id headers

abbrev pub add_ids : InvocationRequest → Built → Built
add_ids q (made headers) =
    made (add_trace q.trace_id (set_header "X-FAVL-Invocation-ID" q.invocation_id headers))
add_ids q other = other

abbrev pub add_request : Option Value → Option InvocationRequest → Built → Built
add_request idem none built = built
add_request idem (some q) (made headers) = add_ids q (add_key idem q.idempotency_key headers)
add_request idem (some q) other = other

-- `_headers`
unfoldable pub headers_of : World → ConnectorContext → Option InvocationRequest → Built
headers_of w context q =
    add_request (get "idempotency_header" context.config) q
      (config_headers (resolver w context) (header_fields (get "headers" context.config)))

abbrev pub is_slash : ℕ → Bool
is_slash c = c == b'/'

-- `config.get("method", "POST")`
abbrev pub method_of : World → Option Value → String
method_of w none = "POST"
method_of w (some (str m)) = m
method_of w (some v) = w.show v

-- `str(config.get(key, ""))`
abbrev pub text_at : World → Option Value → String
text_at w none = ""
text_at w (some (str s)) = s
text_at w (some v) = w.show v

unfoldable pub url_for : World → Fields → String → String
url_for w config operation =
    let base = rstrip_of is_slash (text_at w (get "base_url" config)) in
    let named = if str_eq operation "" then text_at w (get "path" config) else operation in
    let path = lstrip_of is_slash named in
    if str_eq path "" then base else append base (append "/" path)

abbrev pub is_unavailable : ℕ → Bool
is_unavailable s = s == 408 || (s == 429 || (s == 502 || (s == 503 || s == 504)))

unfoldable pub http_code : ℕ → ErrorCode
http_code status =
    if is_unavailable status
    then upstream_unavailable
    else if is_client_error status
    then upstream_client_error
    else upstream_error

unfoldable pub http_result : World → Span → OutboundResponse → InvocationResult
http_result w t r =
    if is_success r.status_code
    then success (output_of_body w r.body) r.provider_request_id (some t.started) (some t.ended) (
        dict (
          ("http_status", nat r.status_code)
          ∷ ("redirects", nat r.redirects)
          ∷ ("response_bytes", nat (length r.body))
          ∷ []))
    else failure_with (http_code r.status_code) (http_text r.status_code) (some t.started)
        (some t.ended) r.provider_request_id (dict (("http_status", nat r.status_code) ∷ []))

-- The type of the exception is the text of a timeout. Its budget stands in the audit metadata, rounded
-- to thousandths of a second.
abbrev pub http_transport : Span → ℕ → String → TransportError → Reply
http_transport t remaining text timed_out = returned (
    failure_with upstream_timeout text (some t.started) (some t.ended) none
      (dict (("timeout_budget_seconds", real ((remaining + 500) / 1000)) ∷ [])))
http_transport t remaining text http_error =
    returned (failed_with t upstream_unavailable (cut 300 text))
http_transport t remaining text other_error = raised text

-- The `except` clauses around the request.
unfoldable pub http_reply : World → Span → ℕ → Sent → Reply
http_reply w t remaining (response r) = returned (http_result w t r)
http_reply w t remaining (ssrf_blocked reason) = returned (failed_with t Codes.ssrf_blocked reason)
http_reply w t remaining too_many_redirects =
    returned (failed_with t Codes.too_many_redirects "too many redirects")
http_reply w t remaining (content_type_rejected media) =
    returned (failed_with t Codes.content_type_rejected (w.decode media))
http_reply w t remaining response_too_large =
    returned (failed_with t Codes.response_too_large "response exceeded the limit")
http_reply w t remaining (failed text) = http_transport t remaining text (w.error_kind text)
http_reply w t remaining out_of_fuel = raised "unreachable"

abbrev pub send :
    World → Span → InvocationRequest → Fields → String → Headers → Option OutboundPolicy → Attempt
send w t q config method headers none = record { targets = []; reply = raised "TypeError" }
send w t q config method headers (some policy) =
    let sent =
      request w.net (w.client method (json q.payload)) policy headers
        (url_for w config q.operation) in
    record {
      targets = sent.targets;
      reply = http_reply w t (seconds_remaining q t.started) sent.outcome;
    }

-- SecretNotPermitted is not caught.
abbrev pub with_headers : World → Span → InvocationRequest → Fields → Built → Attempt
with_headers w t q config (made headers) =
    send w t q config (method_of w (get "method" config)) headers (config_policy w.operator config)
with_headers w t q config (secret_missing reference) =
    answered [] (failed_with t secret_not_found reference)
with_headers w t q config secret_refused = record {
  targets = [];
  reply = raised "SecretNotPermitted";
}
with_headers w t q config wrong_type = record { targets = []; reply = raised "TypeError" }

-- `HttpAdapter.invoke`
unfoldable pub invoke_http : World → Span → InvocationRequest → ConnectorContext → Attempt
invoke_http w t q context =
    if seconds_remaining q t.started == 0
    then answered [] (failed_with t deadline_exceeded "deadline passed before dispatch")
    else with_headers w t q context.config (headers_of w context (some q))
