-- ===== src/Adapters/Webhook/Ending.antt =====
-- Every result of the webhook adapter ends its invocation.
use favl_agentic_content_os.Prelude.{
  ◌==◌, String, ◌≡◌, refl, true, Option, none, some, Bool-cases, inl, inr,
}
use favl_agentic_content_os.Prelude.Text.{Text}
use favl_agentic_content_os.Json.{Value, null, bool, int, real, str, obj, arr, get}
use favl_agentic_content_os.Security.Ssrf.{OutboundPolicy}
use favl_agentic_content_os.Security.Outbound.{
  Sent, response, ssrf_blocked, too_many_redirects, content_type_rejected, response_too_large,
  failed, out_of_fuel, OutboundResponse,
}
use favl_agentic_content_os.Security.Secrets.{Resolved, secret, not_found, not_permitted}
use favl_agentic_content_os.Invocations.Results.{InvocationRequest, failure, seconds_remaining}
use favl_agentic_content_os.Invocations.Failures.{ends, failure_ends}
use favl_agentic_content_os.Adapters.Base.{
  ConnectorContext, World, TransportError, timed_out, http_error, other_error, Span, is_success,
}
use favl_agentic_content_os.Adapters.Http.{resolver, http_code}
use favl_agentic_content_os.Adapters.Webhook.{
  delivery_result, delivery_reply, delivery_transport, deliver_to, with_secret, with_reference,
  invoke_webhook, webhook_policy,
}
use favl_agentic_content_os.Adapters.Ending.{Ends}

module _ (w : World) (t : Span) (q : InvocationRequest) where
  delivered_ends :
      (url : String) (body : Text) (r : OutboundResponse)
      → ends (delivery_result w t q url body r).status ≡ true
  unfolding delivery_result failure
  delivered_ends url body r = elim (Bool-cases (is_success r.status_code)) [
    | inl e ↦ rw e refl
    | inr e ↦ rw e (failure_ends (http_code r.status_code))
  ]

  delivery_transport-Ends :
      (text : String) (e : TransportError) → Ends (delivery_transport t text e)
  unfolding failure
  delivery_transport-Ends text timed_out = refl
  delivery_transport-Ends text http_error = refl
  delivery_transport-Ends text other_error = tt

  delivery_reply-Ends :
      (url : String) (body : Text) (sent : Sent) → Ends (delivery_reply w t q url body sent)
  unfolding delivery_reply failure
  delivery_reply-Ends url body (response r) = delivered_ends url body r
  delivery_reply-Ends url body (ssrf_blocked reason) = refl
  delivery_reply-Ends url body too_many_redirects = tt
  delivery_reply-Ends url body (content_type_rejected media) = tt
  delivery_reply-Ends url body response_too_large = refl
  delivery_reply-Ends url body (failed text) = delivery_transport-Ends text (w.error_kind text)
  delivery_reply-Ends url body out_of_fuel = tt

  deliver_to-Ends :
      (context : ConnectorContext) (key : String) (url : Option Value) (p : Option OutboundPolicy)
      → Ends (deliver_to w t q context key url p).reply
  deliver_to-Ends context key none p = tt
  deliver_to-Ends context key (some (str url)) none = tt
  deliver_to-Ends context key (some (str url)) (some p) = delivery_reply-Ends url _ _
  deliver_to-Ends context key (some null) p = tt
  deliver_to-Ends context key (some (bool b)) p = tt
  deliver_to-Ends context key (some (int n)) p = tt
  deliver_to-Ends context key (some (real n)) p = tt
  deliver_to-Ends context key (some (obj fs)) p = tt
  deliver_to-Ends context key (some (arr vs)) p = tt

  with_secret-Ends :
      (context : ConnectorContext) (reference : String) (r : Resolved)
      → Ends (with_secret w t q context reference r).reply
  unfolding failure
  with_secret-Ends context reference not_found = refl
  with_secret-Ends context reference (not_permitted why) = tt
  with_secret-Ends context reference (secret key) =
      deliver_to-Ends context key (get "target_url" context.config)
        (webhook_policy w context.config)

  with_reference-Ends :
      (context : ConnectorContext) (o : Option Value) → Ends (with_reference w t q context o).reply
  unfolding failure
  with_reference-Ends context none = refl
  with_reference-Ends context (some (str r)) = with_secret-Ends context r (resolver w context r)
  with_reference-Ends context (some null) = tt
  with_reference-Ends context (some (bool b)) = tt
  with_reference-Ends context (some (int n)) = tt
  with_reference-Ends context (some (real n)) = tt
  with_reference-Ends context (some (obj fs)) = tt
  with_reference-Ends context (some (arr vs)) = tt

  pub invoke_webhook-Ends : (context : ConnectorContext) → Ends (invoke_webhook w t q context).reply
  unfolding invoke_webhook failure
  invoke_webhook-Ends context = elim (Bool-cases (seconds_remaining q t.started == 0)) [
    | inl e ↦ rw e refl
    | inr e ↦ rw e (with_reference-Ends context (get "signing_secret_ref" context.config))
  ]
