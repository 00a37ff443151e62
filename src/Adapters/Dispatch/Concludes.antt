-- ===== src/Adapters/Dispatch/Concludes.antt =====
-- Every result of an adapter ends its invocation.
use favl_agentic_content_os.Prelude.{ℕ, String, ◌≡◌, true, Option, none, some, arith}
use favl_agentic_content_os.Json.{get}
use favl_agentic_content_os.Invocations.Execute.{Reply, returned, timeout, raised}
use favl_agentic_content_os.Invocations.Results.{InvocationRequest, InvocationResult}
use favl_agentic_content_os.Invocations.Failures.{ends}
use favl_agentic_content_os.Invocations.Settles.{Concludes}
use favl_agentic_content_os.Adapters.Base.{ConnectorContext, World, Span}
use favl_agentic_content_os.Adapters.Internal.{InternalSettings, service_of, invoke_internal}
use favl_agentic_content_os.Adapters.Dispatch.{
  Adapter, internal, http, webhook, find_adapter, registered, invoke_by, context_of, runtime,
}
use favl_agentic_content_os.Adapters.Ending.{Ends}
use favl_agentic_content_os.Adapters.Internal.Ending.{with_service-Ends}
use favl_agentic_content_os.Adapters.Http.Ending.{invoke_http-Ends}
use favl_agentic_content_os.Adapters.Webhook.Ending.{invoke_webhook-Ends}

invoke_by-Ends :
    (s : InternalSettings) (w : World) (t : Span) (q : InvocationRequest)
    (context : ConnectorContext) (a : Option Adapter)
    → Ends (invoke_by s w t q context a).reply
unfolding invoke_internal
invoke_by-Ends s w t q context none = tt
invoke_by-Ends s w t q context (some internal) =
    with_service-Ends s w t q context.config (service_of (get "service" context.config))
invoke_by-Ends s w t q context (some http) = invoke_http-Ends w t q context
invoke_by-Ends s w t q context (some webhook) = invoke_webhook-Ends w t q context

returned-Ends :
    (reply : Reply) (result : InvocationResult)
    → Ends reply
    → reply ≡ returned result
    → ends result.status ≡ true
returned-Ends (returned r) result h e = let same : r ≡ result = cc e in rw (← same) h
returned-Ends timeout result h e = absurd (ground arith)
returned-Ends (raised text) result h e = absurd (ground arith)

-- Whatever the configuration, the secrets and the answer of the provider, an adapter that returns a
-- result returns one that ends the invocation, so the runtime of the three adapters concludes.
pub runtime-Concludes :
    (s : InternalSettings) (w : World) (t : Span) (unknown_text : String → String)
    (deadline_text : ℕ → String)
    → Concludes (runtime s w t unknown_text deadline_text)
unfolding runtime
runtime-Concludes s w t unknown_text deadline_text kind config q budget result e =
    returned-Ends _ result
      (invoke_by-Ends s w t q (context_of q config) (find_adapter kind registered)) e
