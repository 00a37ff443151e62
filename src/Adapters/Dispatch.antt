-- ===== src/Adapters/Dispatch.antt =====
-- adapters/registry.py: the adapters by their kinds, and the endpoint of main.py that asks one for the
-- health of a connector.
pub mod Concludes
use favl_agentic_content_os.Prelude.{
  ℕ, String, str_eq, Bool, true, false, ◌≡◌, refl, Option, none, some, List, [], ◌∷◌, ◌++◌, any,
  if◌then◌else◌,
}
use favl_agentic_content_os.Json.{Fields}
use favl_agentic_content_os.Store.Rows.{ConnectorRecord}
use favl_agentic_content_os.Store.Tables.{Db}
use favl_agentic_content_os.Security.Outbound.{Sent}
use favl_agentic_content_os.Registry.Handlers.{tenant_connector}
use favl_agentic_content_os.Invocations.Execute.{Reply, Runtime, raised}
use favl_agentic_content_os.Invocations.Results.{InvocationRequest}
use favl_agentic_content_os.Adapters.Base.{ConnectorContext, HealthResult, World, Attempt, Span}
use favl_agentic_content_os.Adapters.Internal.{InternalSettings, invoke_internal}
use favl_agentic_content_os.Adapters.Internal.Config.{health_internal}
use favl_agentic_content_os.Adapters.Http.{invoke_http}
use favl_agentic_content_os.Adapters.Http.Config.{HealthProbe, health_http}
use favl_agentic_content_os.Adapters.Webhook.{invoke_webhook}
use favl_agentic_content_os.Adapters.Webhook.Config.{health_webhook}

-- The adapters that `build_registry` makes.
pub data Adapter : Type 0 where
  internal http webhook : Adapter

abbrev pub kind_of : Adapter → String
kind_of internal = "internal"
kind_of http = "http"
kind_of webhook = "webhook"

-- `AdapterRegistry`, as the items of its dict.
abbrev pub Registered : Type 0
Registered = List (String × Adapter)

abbrev pub has : String → Registered → Bool
has kind items = any (λ (i : String × Adapter). str_eq i.0 kind) items

-- `register`, with `none` for the ValueError of a kind that is empty or registered.
unfoldable pub register : String → Adapter → Registered → Option Registered
register kind adapter items =
    if str_eq kind ""
    then none
    else if has kind items
    then none
    else some (items ++ (kind, adapter) ∷ [])

-- `get`, with `none` for UnknownAdapterKind.
unfoldable pub find_adapter : String → Registered → Option Adapter
find_adapter kind [] = none
find_adapter kind ((k, a) ∷ rest) = if str_eq k kind then some a else find_adapter kind rest

-- `sorted(self._adapters)`, of the three kinds.
abbrev pub built_kinds : List String
built_kinds = "http" ∷ "internal" ∷ "webhook" ∷ []

abbrev and_register : Adapter → Option Registered → Option Registered
and_register adapter none = none
and_register adapter (some items) = register (kind_of adapter) adapter items

-- `build_registry`
unfoldable pub build_registry : Option Registered
unfolding register
build_registry = and_register webhook (and_register http (register "internal" internal []))

abbrev pub registered : Registered
registered = ("internal", internal) ∷ ("http", http) ∷ ("webhook", webhook) ∷ []

-- No kind is registered twice, so the registry is built.
build_registry_lem : build_registry ≡ some registered
unfolding build_registry register
build_registry_lem = refl

abbrev pub invoke_by :
    InternalSettings
    → World
    → Span
    → InvocationRequest
    → ConnectorContext
    → Option Adapter
    → Attempt
invoke_by s w t q context none = record { targets = []; reply = raised "UnknownAdapterKind" }
invoke_by s w t q context (some internal) = invoke_internal s w t q context
invoke_by s w t q context (some http) = invoke_http w t q context
invoke_by s w t q context (some webhook) = invoke_webhook w t q context

-- The context that `execute` of invocations.py makes for a request.
abbrev pub context_of : InvocationRequest → Fields → ConnectorContext
context_of q config = record {
  connector_id = q.connector_id;
  config = config;
  tenant_id = q.tenant_id;
}

-- The adapters as `execute` runs them, at the times of an invocation.
unfoldable pub runtime :
    InternalSettings → World → Span → (String → String) → (ℕ → String) → Runtime
runtime s w t unknown_text deadline_text = record {
  kinds = built_kinds;
  unknown_text = unknown_text;
  invoke = λ kind config q budget.
      (invoke_by s w t q (context_of q config) (find_adapter kind registered)).reply;
  deadline_text = deadline_text;
}

-- What `connector_health` of main.py gives to an adapter: the tenant is the default of the field.
abbrev pub health_context : ConnectorRecord → ConnectorContext
health_context r = record { connector_id = r.id; config = r.config; tenant_id = "default" }

-- The report of a health check, or an exception that is not caught.
pub data Health : Type 0 where
  health_report : HealthResult → Health
  health_missing : Health
  unknown_kind_error : Health
  health_error : Health

abbrev report_or_error : Option HealthResult → Health
report_or_error none = health_error
report_or_error (some h) = health_report h

abbrev pub health_by :
    InternalSettings → World → (Sent → String) → ConnectorContext → Option Adapter → Health
health_by s w text context none = unknown_kind_error
health_by s w text context (some internal) = health_report (health_internal s w text context)
health_by s w text context (some http) = health_report (health_http w text context).result
health_by s w text context (some webhook) = report_or_error (health_webhook w context)

abbrev health_of : InternalSettings → World → (Sent → String) → Option ConnectorRecord → Health
health_of s w text none = health_missing
health_of s w text (some r) = health_by s w text (health_context r) (find_adapter r.kind registered)

-- `connector_health` of main.py
unfoldable pub connector_health :
    InternalSettings → World → (Sent → String) → Db → String → String → Health
connector_health s w text db id tenant = health_of s w text (tenant_connector db id tenant)
