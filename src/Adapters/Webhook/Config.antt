-- ===== src/Adapters/Webhook/Config.antt =====
-- `validate_config` and `health_check` of adapters/webhook.py.
use favl_agentic_content_os.Prelude.{
  String, append, Bool, true, false, Option, none, some, List, [], ◌∷◌, ◌++◌, if◌then◌else◌,
}
use favl_agentic_content_os.Prelude.Text.{codes}
use favl_agentic_content_os.Json.{Fields, Value, str, get, is_truthy}
use favl_agentic_content_os.Security.Ssrf.{
  OutboundPolicy, Checked, passed, blocked, Endpoint, validate_static,
}
use favl_agentic_content_os.Security.Secrets.{
  Resolved, secret, not_found, not_permitted, check_addressable, is_secret_reference,
}
use favl_agentic_content_os.Security.Policy.Parsing.{rejected_operator_keys}
use favl_agentic_content_os.Registry.Handlers.{ValidationResult}
use favl_agentic_content_os.Adapters.Base.{ConnectorContext, HealthResult, World}
use favl_agentic_content_os.Adapters.Http.{resolver}
use favl_agentic_content_os.Adapters.Http.Config.{
  if_missing, is_set, form_errors, shown_list, as_result,
}
use favl_agentic_content_os.Adapters.Webhook.{webhook_policy}

-- The form of a reference is checked, and not its owner.
abbrev reference_errors : Value → List String
reference_errors (str v) =
    if is_secret_reference (codes v)
    then form_errors "config.signing_secret_ref" v (check_addressable (codes v) [] [])
    else "config.signing_secret_ref must be a reference such as env:NAME, never a literal secret"
      ∷ []
reference_errors other =
    "config.signing_secret_ref must be a reference such as env:NAME, never a literal secret" ∷ []

abbrev pub secret_errors : Option Value → List String
secret_errors none = "config.signing_secret_ref is required; deliveries are signed" ∷ []
secret_errors (some v) =
    if is_truthy v
    then reference_errors v
    else "config.signing_secret_ref is required; deliveries are signed" ∷ []

abbrev literal_errors : Option Value → List String
literal_errors v =
    if is_set v then "config.signing_secret is not permitted; use a reference" ∷ [] else []

abbrev operator_errors : List String → List String
operator_errors [] = []
operator_errors (k ∷ ks) =
    append "config may not set operator-controlled keys: " (shown_list (k ∷ ks)) ∷ []

-- `WebhookAdapter.validate_config`
unfoldable pub validate_webhook : Fields → ValidationResult
validate_webhook config = as_result "gateway_dedup_only" (
    if_missing (get "target_url" config) "config.target_url is required"
    ++ (if_missing (get "allowed_hosts" config) "config.allowed_hosts is required"
        ++ (secret_errors (get "signing_secret_ref" config)
            ++ (literal_errors (get "signing_secret" config)
                ++ operator_errors (rejected_operator_keys config)))))

abbrev is_ok : Bool → String → Option HealthResult
is_ok b detail = some (record { healthy = b; detail = detail })

abbrev after_secret : String → Resolved → Option HealthResult
after_secret reference (secret key) = is_ok true "target reachable by policy; secret resolvable"
after_secret reference not_found = is_ok false (append "secret unresolved: " reference)
after_secret reference (not_permitted why) = none

abbrev resolve_secret : World → ConnectorContext → Option Value → Option HealthResult
resolve_secret w context (some (str reference)) =
    after_secret reference (resolver w context reference)
resolve_secret w context other = none

abbrev after_static : World → ConnectorContext → Checked Endpoint → Option HealthResult
after_static w context (blocked reason) = is_ok false (append "target rejected: " reason)
after_static w context (passed e) =
    resolve_secret w context (get "signing_secret_ref" context.config)

abbrev static_target :
    World → ConnectorContext → Option Value → Option OutboundPolicy → Option HealthResult
static_target w context (some (str url)) (some policy) =
    after_static w context (validate_static w.net url policy)
static_target w context url policy = none

-- `WebhookAdapter.health_check`, with `none` for an exception: no delivery is sent.
unfoldable pub health_webhook : World → ConnectorContext → Option HealthResult
health_webhook w context =
    if is_set (get "target_url" context.config)
    then static_target w context (get "target_url" context.config) (webhook_policy w context.config)
    else is_ok false "no target_url configured"
