-- ===== src/Adapters/Examples.antt =====
-- The theorems on the adapters, and runs of them, at a host and a service.
mod Ends
use favl_agentic_content_os.Prelude.{
  append, String, ◌≡◌, refl, true, false, Option, none, some, [], ◌∷◌, if◌then◌else◌,
}
use favl_agentic_content_os.Prelude.Text.{Text, codes, text_eq}
use favl_agentic_content_os.Json.{Fields, end, field, str, obj, arr, cons, nil, dict, get}
use favl_agentic_content_os.Store.Rows.{ConnectorRecord, failed_retryable}
use favl_agentic_content_os.Lifecycle.State.{enabled}
use favl_agentic_content_os.Security.Address.{
  v4, quad, classify, address_is_forbidden, always_forbidden, normalise_address, match_metadata,
  match_table,
}
use favl_agentic_content_os.Security.Ssrf.{
  Network, OutboundPolicy, ValidatedTarget, passed, validate_url, validate_static,
  resolve_and_validate, check_infos, host_allowed,
}
use favl_agentic_content_os.Security.Outbound.{Client, HttpResponse, responded, OutboundResponse}
use favl_agentic_content_os.Security.Policy.{Operator}
use favl_agentic_content_os.Security.Secrets.{
  check_addressable, parse_reference, is_secret_reference, resolve, env_name,
}
use favl_agentic_content_os.Invocations.Results.{InvocationRequest}
use favl_agentic_content_os.Invocations.Execute.{Runtime, result_of}
use favl_agentic_content_os.Invocations.Settles.{Concludes}
use favl_agentic_content_os.Adapters.Base.{ConnectorContext, World, http_error, Span}
use favl_agentic_content_os.Adapters.Internal.{
  InternalSettings, load_registry, operation_error, unsafe_character, parent_segment,
  invoke_internal,
}
use favl_agentic_content_os.Adapters.Internal.Paths.{Reaches, invoke_internal-Reaches}
use favl_agentic_content_os.Adapters.Http.{
  made, headers_of, add_headers, set_header, http_result, invoke_http,
}
use favl_agentic_content_os.Adapters.Http.Retries.{http_result-status}
use favl_agentic_content_os.Adapters.Http.Own.{IsSourced, headers_of-IsSourced}
use favl_agentic_content_os.Adapters.Webhook.{
  build_signature, verify_signature, deliver_to, invoke_webhook,
}
use favl_agentic_content_os.Adapters.Webhook.Signature.{verify_signature-same}
use favl_agentic_content_os.Adapters.Dispatch.{runtime, health_context}
use favl_agentic_content_os.Adapters.Dispatch.Concludes.{runtime-Concludes}
use favl_agentic_content_os.Adapters.Admitted.{Admits, invoke-Admits}
use favl_agentic_content_os.Adapters.Gaps.{
  with_header, one_header, health_check_secret, delivered_again,
}

abbrev pub network : Network
network = record {
  urlparse = λ url. record {
    scheme = "https";
    hostname = some "api.example";
    username = none;
    password = none;
    port = none;
  };
  getaddrinfo = λ hop host port. some ("8.8.8.8" ∷ []);
  ip_address = λ s. some (v4 (quad 8 8 8 8));
  ip_text = λ ip. "8.8.8.8";
  with_netloc = λ url netloc. append "https://" netloc;
}

-- A receiver that answers with a page.
abbrev pub page : HttpResponse
page = record {
  status_code = 200;
  location = none;
  content_type = "text/html";
  chunks = [];
  request_id = none;
}

abbrev pub client : Client
client = record { send = λ hop call. responded page; url_join = λ current location. current }

abbrev pub operator : Operator
operator = record {
  host_allowlist = [];
  allowed_schemes = [];
  allowed_content_types = [];
  allow_private_addresses = false;
  max_response_bytes = 1_048_576;
  max_redirects = 3;
}

abbrev pub variables : Text → Option String
variables name =
    if text_eq name (codes "FAVL_SECRET_TENANT_DEFAULT_KEY")
    then some "s3cret"
    else if text_eq name (codes "FAVL_SECRET_CONNECTOR_C1_KEY")
    then some "own"
    else none

abbrev pub world : World
world = record {
  net = network;
  client = λ method body. client;
  error_kind = λ text. http_error;
  operator = operator;
  environ = variables;
  loads = λ body. none;
  show = λ v. "";
  decode = λ body. "";
  host_of = λ url. "api.example";
  dumps = λ fields. codes "{}";
  isoformat = λ t. "";
  hmac = λ key s. "aa";
}

abbrev pub span : Span
span = record { started = 1_000_000; ended = 2_000_000 }

abbrev pub asked : InvocationRequest
asked = record {
  invocation_id = "i1";
  connector_id = "c1";
  operation = "send";
  payload = end;
  idempotency_key = "key-0001";
  actor_id = "ann";
  tenant_id = "acme";
  deadline_at = 9_000_000;
  trace_id = none;
  attempt = 1;
}

abbrev pub config : Fields
config = dict (
    ("base_url", str "https://api.example/")
    ∷ ("allowed_hosts", arr (cons (str "api.example") nil))
    ∷ ("headers", obj (field "X-Key" (str "secret://connector/c1/key") end))
    ∷ ("service", str "billing")
    ∷ ("operation", str "/v1/charge")
    ∷ [])

abbrev pub context : ConnectorContext
context = record { connector_id = "c1"; config = config; tenant_id = "acme" }

abbrev pub settings : InternalSettings
settings = record {
  services = ("billing", "http://billing:8000/api") ∷ [];
  max_bytes = 1024;
  repr = λ s. s;
}

loads_registry :
    load_registry " billing = http://billing:8000/api/ ,broken"
    ≡ ("billing", "http://billing:8000/api") ∷ []
unfolding load_registry
loads_registry = refl

refuses_parent : operation_error "v1/../admin" ≡ some parent_segment
unfolding operation_error
refuses_parent = refl

refuses_query : operation_error "v1?x" ≡ some unsafe_character
unfolding operation_error
refuses_query = refl

invoke_internal-Reaches_example :
    Reaches settings.services (invoke_internal settings world span asked context)
invoke_internal-Reaches_example = invoke_internal-Reaches settings world span asked context

invoke-Admits_example :
    Admits world (invoke_http world span asked context)
    × Admits world (invoke_webhook world span asked context)
invoke-Admits_example = invoke-Admits world span asked context

built :
    headers_of world context (some asked)
    ≡ made (
        ("Content-Type", "application/json")
        ∷ ("Accept", "application/json")
        ∷ ("X-Key", "own")
        ∷ ("X-FAVL-Invocation-ID", "i1")
        ∷ [])
unfolding headers_of get add_headers is_secret_reference resolve check_addressable parse_reference
    env_name set_header
built = refl

headers_of-IsSourced_example : IsSourced world context (some asked) (
    ("Content-Type", "application/json")
    ∷ ("Accept", "application/json")
    ∷ ("X-Key", "own")
    ∷ ("X-FAVL-Invocation-ID", "i1")
    ∷ [])
headers_of-IsSourced_example = headers_of-IsSourced world context asked _ built

runtime-Concludes_example : Concludes (runtime settings world span (λ kind. kind) (λ budget. ""))
runtime-Concludes_example = runtime-Concludes settings world span (λ kind. kind) (λ budget. "")

accepts :
    verify_signature world.hmac "k" "i1" "17" [] (build_signature world.hmac "k" "i1" "17" [])
    ≡ true
unfolding verify_signature build_signature
accepts = refl

verify_signature-same_example :
    (codes "i1" ≡ codes "i1") × (codes "17" ≡ codes "17") × (◌≡◌ {A = Text} [] [])
verify_signature-same_example =
    verify_signature-same world.hmac "k" "i1" "i1" "17" "17" [] [] (λ e. refl) refl refl refl refl
      accepts
