-- ===== src/Adapters/Webhook.antt =====
-- services/connector-registry/app/adapters/webhook.py: a signed POST of a fixed envelope.
pub mod Signature
pub mod Config
pub mod Ending
use favl_agentic_content_os.Prelude.{
  ℕ, ◌+◌, ◌/◌, ◌==◌, String, str_eq, append, decimal, cut, Bool, true, false, Option, none, some,
  List, [], ◌∷◌, ◌++◌, length, if◌then◌else◌,
}
use favl_agentic_content_os.Prelude.Text.{Text, codes}
use favl_agentic_content_os.Json.{Fields, Value, str, obj, bool, dict, nat, get}
use favl_agentic_content_os.Security.Ssrf.{OutboundPolicy}
use favl_agentic_content_os.Security.Outbound.{
  Sent, response, ssrf_blocked, too_many_redirects, content_type_rejected, response_too_large,
  failed, out_of_fuel, OutboundResponse, Headers, request,
}
use favl_agentic_content_os.Security.Secrets.{Resolved, secret, not_found, not_permitted}
use favl_agentic_content_os.Security.Policy.Parsing.{config_policy}
use favl_agentic_content_os.Invocations.Execute.{Reply, returned, raised}
use favl_agentic_content_os.Invocations.Results.{
  InvocationRequest, InvocationResult, seconds_remaining, deadline_exceeded, secret_not_found,
  upstream_timeout, upstream_unavailable,
}
use favl_agentic_content_os.Invocations.Results as Codes
use favl_agentic_content_os.Adapters.Base.{
  ConnectorContext, World, Attempt, answered, content, TransportError, timed_out, http_error,
  other_error, Span, success, failed_with, failure_with, is_success, http_text,
}
use favl_agentic_content_os.Adapters.Http.{resolver, http_code}

-- `b".".join([event_id.encode(), timestamp.encode(), body])`
unfoldable pub signed_text : Text → Text → Text → Text
signed_text event_id timestamp body = event_id ++ (b'.' ∷ (timestamp ++ (b'.' ∷ body)))

unfoldable pub build_signature : (String → Text → String) → String → String → String → Text → String
build_signature hmac key event_id timestamp body =
    append "v1=" (hmac key (signed_text (codes event_id) (codes timestamp) body))

unfoldable pub verify_signature :
    (String → Text → String) → String → String → String → Text → String → Bool
verify_signature hmac key event_id timestamp body provided =
    str_eq (build_signature hmac key event_id timestamp body) provided

-- `replace(build_policy(config), max_redirects=0)`
abbrev no_redirects : Option OutboundPolicy → Option OutboundPolicy
no_redirects none = none
no_redirects (some policy) = some (record policy { max_redirects = 0 })

unfoldable pub webhook_policy : World → Fields → Option OutboundPolicy
webhook_policy w config = no_redirects (config_policy w.operator config)

-- `str(int(started.timestamp()))`, of microseconds.
abbrev pub timestamp_of : ℕ → String
timestamp_of started = decimal (started / 1_000_000)

abbrev pub event_type_of : String → String
event_type_of operation = if str_eq operation "" then "connector.webhook" else operation

unfoldable pub delivery_envelope : World → ℕ → InvocationRequest → String → Fields
delivery_envelope w started q connector_id = dict (
    ("event_id", str q.invocation_id)
    ∷ ("event_type", str (event_type_of q.operation))
    ∷ ("occurred_at", str (w.isoformat started))
    ∷ ("connector_id", str connector_id)
    ∷ ("data", obj q.payload)
    ∷ [])

unfoldable pub delivery_headers : World → String → ℕ → InvocationRequest → Text → Headers
delivery_headers w key started q body =
    let timestamp = timestamp_of started in
    ("Content-Type", "application/json")
    ∷ ("X-FAVL-Event-ID", q.invocation_id)
    ∷ ("X-FAVL-Timestamp", timestamp)
    ∷ ("X-FAVL-Signature", build_signature w.hmac key q.invocation_id timestamp body)
    ∷ ("X-FAVL-Delivery-Attempt", decimal q.attempt)
    ∷ []

-- The delivery record.
abbrev pub delivery_audit : World → InvocationRequest → String → Text → OutboundResponse → Fields
delivery_audit w q url body r = dict (
    ("http_status", nat r.status_code)
    ∷ ("delivery_attempt", nat q.attempt)
    ∷ ("signed_bytes", nat (length body))
    ∷ ("signature_version", str "v1")
    ∷ ("target_host", str (w.host_of url))
    ∷ [])

unfoldable pub delivery_result :
    World → Span → InvocationRequest → String → Text → OutboundResponse → InvocationResult
delivery_result w t q url body r =
    let audit = delivery_audit w q url body r in
    if is_success r.status_code
    then success (dict (("delivered", bool true) ∷ ("http_status", nat r.status_code) ∷ []))
        r.provider_request_id (some t.started) (some t.ended) audit
    else failure_with (http_code r.status_code) (http_text r.status_code) (some t.started)
        (some t.ended) r.provider_request_id audit

-- The type of an error stands in its text, which is cut by no message here.
abbrev pub delivery_transport : Span → String → TransportError → Reply
delivery_transport t text timed_out =
    returned (failed_with t upstream_timeout "webhook delivery timed out")
delivery_transport t text http_error = returned (failed_with t upstream_unavailable (cut 200 text))
delivery_transport t text other_error = raised text

-- The `except` clauses around the request; what they do not name goes on.
unfoldable pub delivery_reply : World → Span → InvocationRequest → String → Text → Sent → Reply
delivery_reply w t q url body (response r) = returned (delivery_result w t q url body r)
delivery_reply w t q url body (ssrf_blocked reason) =
    returned (failed_with t Codes.ssrf_blocked reason)
delivery_reply w t q url body too_many_redirects = raised "TooManyRedirects"
delivery_reply w t q url body (content_type_rejected media) = raised "ContentTypeRejected"
delivery_reply w t q url body response_too_large =
    returned (failed_with t Codes.response_too_large "response exceeded the limit")
delivery_reply w t q url body (failed text) = delivery_transport t text (w.error_kind text)
delivery_reply w t q url body out_of_fuel = raised "unreachable"

abbrev pub raises : String → Attempt
raises text = record { targets = []; reply = raised text }

abbrev pub deliver_to :
    World
    → Span
    → InvocationRequest
    → ConnectorContext
    → String
    → Option Value
    → Option OutboundPolicy
    → Attempt
deliver_to w t q context key none policy = raises "KeyError"
deliver_to w t q context key (some (str url)) (some policy) =
    let body = w.dumps (delivery_envelope w t.started q context.connector_id) in
    let sent =
      request w.net (w.client "POST" (content body)) policy
        (delivery_headers w key t.started q body) url in
    record { targets = sent.targets; reply = delivery_reply w t q url body sent.outcome }
deliver_to w t q context key (some other) policy = raises "TypeError"

abbrev pub with_secret :
    World → Span → InvocationRequest → ConnectorContext → String → Resolved → Attempt
with_secret w t q context reference not_found =
    answered [] (failed_with t secret_not_found reference)
with_secret w t q context reference (not_permitted why) = raises "SecretNotPermitted"
with_secret w t q context reference (secret key) =
    deliver_to w t q context key (get "target_url" context.config) (webhook_policy w context.config)

-- `config["signing_secret_ref"]`: a KeyError is caught, an AttributeError of another type is not.
abbrev pub with_reference :
    World → Span → InvocationRequest → ConnectorContext → Option Value → Attempt
with_reference w t q context none =
    answered [] (failed_with t secret_not_found "signing_secret_ref")
with_reference w t q context (some (str reference)) =
    with_secret w t q context reference (resolver w context reference)
with_reference w t q context (some other) = raises "AttributeError"

-- `WebhookAdapter.invoke`
unfoldable pub invoke_webhook : World → Span → InvocationRequest → ConnectorContext → Attempt
invoke_webhook w t q context =
    if seconds_remaining q t.started == 0
    then answered [] (failed_with t deadline_exceeded "deadline passed before dispatch")
    else with_reference w t q context (get "signing_secret_ref" context.config)
