-- ===== src/Adapters/Http/Ending.antt =====
-- Every result of the HTTP adapter ends its invocation.
use favl_agentic_content_os.Prelude.{
  ℕ, ◌==◌, String, ◌≡◌, refl, true, Option, none, some, Bool-cases, inl, inr,
}
use favl_agentic_content_os.Json.{Fields, get}
use favl_agentic_content_os.Security.Ssrf.{OutboundPolicy}
use favl_agentic_content_os.Security.Outbound.{
  Sent, response, ssrf_blocked, too_many_redirects, content_type_rejected, response_too_large,
  failed, out_of_fuel, OutboundResponse, Headers,
}
use favl_agentic_content_os.Security.Policy.Parsing.{config_policy}
use favl_agentic_content_os.Invocations.Results.{InvocationRequest, failure, seconds_remaining}
use favl_agentic_content_os.Invocations.Failures.{ends, failure_ends}
use favl_agentic_content_os.Adapters.Base.{
  ConnectorContext, World, TransportError, timed_out, http_error, other_error, Span, is_success,
}
use favl_agentic_content_os.Adapters.Http.{
  Built, made, secret_missing, secret_refused, wrong_type, headers_of, http_result, http_code,
  http_reply, http_transport, send, with_headers, invoke_http, method_of,
}
use favl_agentic_content_os.Adapters.Ending.{Ends}

module _ (w : World) (t : Span) (q : InvocationRequest) where
  http_ends : (r : OutboundResponse) → ends (http_result w t r).status ≡ true
  unfolding http_result failure
  http_ends r = elim (Bool-cases (is_success r.status_code)) [
    | inl e ↦ rw e refl
    | inr e ↦ rw e (failure_ends (http_code r.status_code))
  ]

  http_transport-Ends :
      (remaining : ℕ) (text : String) (e : TransportError)
      → Ends (http_transport t remaining text e)
  unfolding failure
  http_transport-Ends remaining text timed_out = refl
  http_transport-Ends remaining text http_error = refl
  http_transport-Ends remaining text other_error = tt

  http_reply-Ends : (remaining : ℕ) (sent : Sent) → Ends (http_reply w t remaining sent)
  unfolding http_reply failure
  http_reply-Ends remaining (response r) = http_ends r
  http_reply-Ends remaining (ssrf_blocked reason) = refl
  http_reply-Ends remaining too_many_redirects = refl
  http_reply-Ends remaining (content_type_rejected media) = refl
  http_reply-Ends remaining response_too_large = refl
  http_reply-Ends remaining (failed text) = http_transport-Ends remaining text (w.error_kind text)
  http_reply-Ends remaining out_of_fuel = tt

  send-Ends :
      (config : Fields) (method : String) (headers : Headers) (p : Option OutboundPolicy)
      → Ends (send w t q config method headers p).reply
  send-Ends config method headers none = tt
  send-Ends config method headers (some p) = http_reply-Ends (seconds_remaining q t.started) _

  with_headers-Ends : (config : Fields) (b : Built) → Ends (with_headers w t q config b).reply
  unfolding failure
  with_headers-Ends config (made headers) =
      send-Ends config (method_of w (get "method" config)) headers (config_policy w.operator config)
  with_headers-Ends config (secret_missing reference) = refl
  with_headers-Ends config secret_refused = tt
  with_headers-Ends config wrong_type = tt

  pub invoke_http-Ends : (context : ConnectorContext) → Ends (invoke_http w t q context).reply
  unfolding invoke_http failure
  invoke_http-Ends context = elim (Bool-cases (seconds_remaining q t.started == 0)) [
    | inl e ↦ rw e refl
    | inr e ↦ rw e (with_headers-Ends context.config (headers_of w context (some q)))
  ]
