-- ===== src/Adapters/Gaps.antt =====
-- What the adapters do that their documentation does not say.
use favl_agentic_content_os.Prelude.{ℕ, String, ◌≡◌, refl, true, false, Option, none, some, [], ◌∷◌}
use favl_agentic_content_os.Prelude.Text.{Text, codes}
use favl_agentic_content_os.Json.{Fields, str, obj, field, end, get}
use favl_agentic_content_os.Store.Rows.{ConnectorRecord, failed_retryable}
use favl_agentic_content_os.Security.Ssrf.{OutboundPolicy, ValidatedTarget, passed, validate_url}
use favl_agentic_content_os.Security.Outbound.{
  HttpResponse, call_of, responded, is_redirect, media_type, type_allowed, sanitise_headers,
}
use favl_agentic_content_os.Security.Outbound.Hops.{request_rejected}
use favl_agentic_content_os.Security.Secrets.{
  permitted, secret, tenant, env_name, parse_reference, check_addressable, is_secret_reference,
  resolve,
}
use favl_agentic_content_os.Invocations.Execute.{Runtime, result_of}
use favl_agentic_content_os.Invocations.Results.{InvocationRequest, failure}
use favl_agentic_content_os.Adapters.Base.{ConnectorContext, World, Span, content}
use favl_agentic_content_os.Adapters.Http.{
  Built, made, add_headers, first_headers, set_header, headers_of,
}
use favl_agentic_content_os.Adapters.Webhook.{
  delivery_envelope, delivery_headers, delivery_reply, deliver_to,
}
use favl_agentic_content_os.Adapters.Dispatch.{health_context}

-- The configuration of a connector with one header, whose value names a secret.
abbrev pub one_header : String → String → Fields → Fields
one_header name reference rest = field "headers" (obj (field name (str reference) end)) rest

-- The headers that its health check passes on.
abbrev pub with_header : String → String → Built
with_header name value = made (set_header name value first_headers)

resolve_default :
    (environ : Text → Option String) (reference owner : Text) (key : Text) (value : String)
    → parse_reference reference
      ≡ permitted (record { scope = tenant; owner = codes "default"; key = key })
    → environ (env_name (record { scope = tenant; owner = codes "default"; key = key }))
      ≡ some value
    → resolve environ reference owner (codes "default") ≡ secret value
unfolding resolve check_addressable
resolve_default environ reference owner key value parsed there = rw (parsed, there) refl

-- The headers that a health check of any tenant's HTTP connector builds have the secrets of the tenant
-- called default: where the configuration's one header refers to a secret of that tenant, and it is
-- set, the header has its value.
pub health_check_secret :
    (w : World) (r : ConnectorRecord) (name reference : String) (rest : Fields) (key : Text)
    (value : String)
    → r.config ≡ one_header name reference rest
    → is_secret_reference (codes reference) ≡ true
    → parse_reference (codes reference)
      ≡ permitted (record { scope = tenant; owner = codes "default"; key = key })
    → w.environ (env_name (record { scope = tenant; owner = codes "default"; key = key }))
      ≡ some value
    → headers_of w (health_context r) none ≡ with_header name value
unfolding headers_of add_headers get
health_check_secret w r name reference rest key value shape marked parsed there =
    let found = resolve_default w.environ (codes reference) (codes r.id) key value parsed there in
    rw (shape, marked, found) refl

module _ (w : World) (t : Span) (q : InvocationRequest) (context : ConnectorContext)
    (key url : String) (policy : OutboundPolicy) where
  abbrev pub body_of : Text
  body_of = w.dumps (delivery_envelope w t.started q context.connector_id)

  -- A receiver that was sent the delivery and answers with a status that is no redirect, such as a
  -- success, and a media type that the policy does not list: the invocation is recorded as failed and
  -- retryable.
  pub delivered_again :
      (target : ValidatedTarget) (r : HttpResponse) (rt : Runtime) (started : Option ℕ)
      (budget now : ℕ)
      → validate_url w.net 0 url policy ≡ passed target
      → (w.client "POST" (content body_of)).send 0
          (call_of target (sanitise_headers (delivery_headers w key t.started q body_of)))
        ≡ responded r
      → is_redirect r.status_code ≡ false
      → type_allowed policy (media_type r.content_type) ≡ false
      → ((deliver_to w t q context key (some (str url)) (some policy)).targets ≡ target ∷ [])
        × ((result_of rt started budget now
              (deliver_to w t q context key (some (str url)) (some policy)).reply).status
            ≡ failed_retryable)
  unfolding delivery_reply failure
  delivered_again target r rt started budget now reached answer here rejected =
      let sent =
        request_rejected w.net (w.client "POST" (content body_of)) policy
          (delivery_headers w key t.started q body_of) url target r reached answer here rejected in
      rw sent (refl, refl)
