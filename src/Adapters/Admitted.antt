-- ===== src/Adapters/Admitted.antt =====
-- Where the adapters whose destination a configuration names may connect.
use favl_agentic_content_os.Prelude.{
  ◌==◌, String, ◌≡◌, refl, Option, none, some, List, All, All-map, Bool-cases, Option-cases, inl,
  inr, arith,
}
use favl_agentic_content_os.Json.{Fields, Value, null, bool, int, real, str, obj, arr, get}
use favl_agentic_content_os.Security.Ssrf.{OutboundPolicy, ValidatedTarget}
use favl_agentic_content_os.Security.Outbound.{Headers}
use favl_agentic_content_os.Security.Outbound.Bounds.{IsChecked, request-IsGuarded}
use favl_agentic_content_os.Security.Policy.{
  Operator, IsWithin, build_policy, build_policy-IsWithin,
}
use favl_agentic_content_os.Security.Policy.Parsing.{wanted_of, config_policy}
use favl_agentic_content_os.Security.Secrets.{Resolved, secret, not_found, not_permitted}
use favl_agentic_content_os.Invocations.Results.{InvocationRequest, seconds_remaining}
use favl_agentic_content_os.Adapters.Base.{ConnectorContext, World, Attempt, Span, json, content}
use favl_agentic_content_os.Adapters.Http.{
  Built, made, secret_missing, secret_refused, wrong_type, resolver, headers_of, send, with_headers,
  method_of, url_for, invoke_http,
}
use favl_agentic_content_os.Adapters.Webhook.{
  webhook_policy, delivery_envelope, delivery_headers, deliver_to, with_secret, with_reference,
  invoke_webhook,
}

-- The target passed the checks of a policy that gives no more than the operator does.
abbrev pub IsAdmitted : World → ValidatedTarget → Type 0
IsAdmitted w target =
    (policy : OutboundPolicy) × IsWithin w.operator policy × IsChecked w.net policy target

abbrev pub Admits : World → Attempt → Type 0
Admits w a = All (IsAdmitted w) a.targets

config_policy-IsWithin :
    (op : Operator) (config : Fields) (policy : OutboundPolicy)
    → config_policy op config ≡ some policy
    → IsWithin op policy
unfolding config_policy
config_policy-IsWithin op config policy h = elim (Option-cases (wanted_of config)) [
  | inl e ↦ cc (rw e at h)
  | inr (wanted, e) ↦
      let same : build_policy op wanted 3 ≡ policy = cc (rw e at h) in
      rw (← same) (build_policy-IsWithin op wanted 3)
]

webhook_policy-IsWithin :
    (w : World) (config : Fields) (policy : OutboundPolicy)
    → webhook_policy w config ≡ some policy
    → IsWithin w.operator policy
unfolding webhook_policy
webhook_policy-IsWithin w config policy h = elim (Option-cases (config_policy w.operator config)) [
  | inl e ↦ cc (rw e at h)
  | inr (p, e) ↦
      let same : record p { max_redirects = 0 } ≡ policy = cc (rw e at h) in
      let within = config_policy-IsWithin w.operator config p e in
      rw (← same) (record {
        schemes = within.schemes;
        types = within.types;
        private_addresses = within.private_addresses;
        bytes = within.bytes;
        redirects = omega arith;
        hosts = within.hosts;
      })
]

module _ (w : World) (t : Span) (q : InvocationRequest) where
  checked_admits :
      (policy : OutboundPolicy) (targets : List ValidatedTarget)
      → IsWithin w.operator policy
      → All (IsChecked w.net policy) targets
      → All (IsAdmitted w) targets
  checked_admits policy targets within =
      All-map (IsChecked w.net policy) (IsAdmitted w) (λ target c. (policy, within, c)) targets

  send-Admits :
      (config : Fields) (method : String) (headers : Headers) (p : Option OutboundPolicy)
      → config_policy w.operator config ≡ p
      → Admits w (send w t q config method headers p)
  send-Admits config method headers none e = tt
  send-Admits config method headers (some policy) e =
      checked_admits policy _ (config_policy-IsWithin w.operator config policy e)
        (request-IsGuarded w.net (w.client method (json q.payload)) policy headers
          (url_for w config q.operation)).targets

  with_headers-Admits : (config : Fields) (b : Built) → Admits w (with_headers w t q config b)
  with_headers-Admits config (made headers) =
      send-Admits config (method_of w (get "method" config)) headers _ refl
  with_headers-Admits config (secret_missing reference) = tt
  with_headers-Admits config secret_refused = tt
  with_headers-Admits config wrong_type = tt

  deliver_to-Admits :
      (context : ConnectorContext) (key : String) (url : Option Value) (p : Option OutboundPolicy)
      → webhook_policy w context.config ≡ p
      → Admits w (deliver_to w t q context key url p)
  deliver_to-Admits context key none p e = tt
  deliver_to-Admits context key (some (str url)) none e = tt
  deliver_to-Admits context key (some (str url)) (some policy) e =
      let body = w.dumps (delivery_envelope w t.started q context.connector_id) in
      checked_admits policy _ (webhook_policy-IsWithin w context.config policy e)
        (request-IsGuarded w.net (w.client "POST" (content body)) policy
          (delivery_headers w key t.started q body) url).targets
  deliver_to-Admits context key (some null) p e = tt
  deliver_to-Admits context key (some (bool b)) p e = tt
  deliver_to-Admits context key (some (int n)) p e = tt
  deliver_to-Admits context key (some (real n)) p e = tt
  deliver_to-Admits context key (some (obj fs)) p e = tt
  deliver_to-Admits context key (some (arr vs)) p e = tt

  with_secret-Admits :
      (context : ConnectorContext) (reference : String) (r : Resolved)
      → Admits w (with_secret w t q context reference r)
  with_secret-Admits context reference not_found = tt
  with_secret-Admits context reference (not_permitted why) = tt
  with_secret-Admits context reference (secret key) =
      deliver_to-Admits context key (get "target_url" context.config) _ refl

  with_reference-Admits :
      (context : ConnectorContext) (o : Option Value) → Admits w (with_reference w t q context o)
  with_reference-Admits context none = tt
  with_reference-Admits context (some (str r)) = with_secret-Admits context r (resolver w context r)
  with_reference-Admits context (some null) = tt
  with_reference-Admits context (some (bool b)) = tt
  with_reference-Admits context (some (int n)) = tt
  with_reference-Admits context (some (real n)) = tt
  with_reference-Admits context (some (obj fs)) = tt
  with_reference-Admits context (some (arr vs)) = tt

  http-Admits : (context : ConnectorContext) → Admits w (invoke_http w t q context)
  unfolding invoke_http
  http-Admits context = elim (Bool-cases (seconds_remaining q t.started == 0)) [
    | inl e ↦ rw e tt
    | inr e ↦ rw e (with_headers-Admits context.config (headers_of w context (some q)))
  ]

  webhook-Admits : (context : ConnectorContext) → Admits w (invoke_webhook w t q context)
  unfolding invoke_webhook
  webhook-Admits context = elim (Bool-cases (seconds_remaining q t.started == 0)) [
    | inl e ↦ rw e tt
    | inr e ↦ rw e (with_reference-Admits context (get "signing_secret_ref" context.config))
  ]

  -- Whatever its configuration, redirects and answers of the resolver, each target that an HTTP or a
  -- webhook connector connects to in an invocation has a URL and an address that passed a policy which
  -- gives no more than the operator does, and its pinned URL has that address in the place of the host.
  pub invoke-Admits :
      (context : ConnectorContext)
      → Admits w (invoke_http w t q context) × Admits w (invoke_webhook w t q context)
  invoke-Admits context = (http-Admits context, webhook-Admits context)
