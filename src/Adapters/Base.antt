-- ===== src/Adapters/Base.antt =====
-- What the adapters of adapters/base.py are given, and what they use of the world.
use favl_agentic_content_os.Prelude.{
  ℕ, String, Bool, true, false, ◌&&◌, Option, none, some, List, [], ◌∷◌, cut, leb, ltb, append,
  decimal,
}
use favl_agentic_content_os.Prelude.Text.{Text}
use favl_agentic_content_os.Json.{Fields, Value, end, field, str, obj}
use favl_agentic_content_os.Store.Rows.{succeeded}
use favl_agentic_content_os.Security.Ssrf.{Network, ValidatedTarget}
use favl_agentic_content_os.Security.Outbound.{Client}
use favl_agentic_content_os.Security.Policy.{Operator}
use favl_agentic_content_os.Registry.Handlers.{ValidationResult}
use favl_agentic_content_os.Invocations.Execute.{Reply, returned}
use favl_agentic_content_os.Invocations.Results.{ErrorCode, InvocationResult, failure}

-- `ConnectorContext`, without the version and the kind, which no adapter reads.
pub record ConnectorContext : Type 0 where
  pub connector_id : String
  pub config : Fields
  pub tenant_id : String

pub record HealthResult : Type 0 where
  pub healthy : Bool
  pub detail : String

-- `ValidationResult.ok` and `ValidationResult.failed`.
abbrev pub valid_config : String → ValidationResult
valid_config mode = record {
  valid = true;
  errors = [];
  supports_idempotency = true;
  idempotency_mode = mode;
}

abbrev pub invalid_config : List String → ValidationResult
invalid_config errors = record {
  valid = false;
  errors = errors;
  supports_idempotency = false;
  idempotency_mode = "unsupported";
}

-- The body of a request, if it has one.
pub data Body : Type 0 where
  no_body : Body
  json : Fields → Body
  content : Text → Body

-- What an error of the client is: TimeoutException, another HTTPError, or no error of that library.
pub data TransportError : Type 0 where
  timed_out http_error other_error : TransportError

-- The environment, the network, the HTTP client for a method and a body, and the standard library:
-- `json.loads` of bytes, or its ValueError; `str` of a value that is no text; `bytes.decode`; the
-- host of an `httpx.URL`; `json.dumps` and `isoformat`; and the HMAC-SHA256 of bytes under a secret, in
-- hexadecimal.
pub record World : Type 0 where
  pub net : Network
  pub client : String → Body → Client
  pub error_kind : String → TransportError
  pub operator : Operator
  pub environ : Text → Option String
  pub loads : Text → Option Value
  pub show : Value → String
  pub decode : Text → String
  pub host_of : String → String
  pub dumps : Fields → Text
  pub isoformat : ℕ → String
  pub hmac : String → Text → String

-- What an invocation did: the targets that were connected to, and how it ended.
pub record Attempt : Type 0 where
  pub targets : List ValidatedTarget
  pub reply : Reply

abbrev pub answered : List ValidatedTarget → InvocationResult → Attempt
answered targets result = record { targets = targets; reply = returned result }

-- `parsed if isinstance(parsed, dict) else {"result": parsed}`, with the raw text of what is no JSON.
abbrev pub as_output : World → Text → Option Value → Fields
as_output w body none = field "raw" (str (cut 4000 (w.decode body))) end
as_output w body (some (obj fields)) = fields
as_output w body (some v) = field "result" v end

unfoldable pub output_of_body : World → Text → Fields
output_of_body w [] = end
output_of_body w (c ∷ body) = as_output w (c ∷ body) (w.loads (c ∷ body))

-- `200 <= status < 300`
abbrev pub is_success : ℕ → Bool
is_success status = leb 200 status && ltb status 300

-- `400 <= status < 500`
abbrev pub is_client_error : ℕ → Bool
is_client_error status = leb 400 status && ltb status 500

-- The result of a success, and of a failure with the id that the provider gave.
abbrev pub success : Fields → Option String → Option ℕ → Option ℕ → Fields → InvocationResult
success output provider_request_id started completed audit = record {
  status = succeeded;
  output = output;
  error_code = none;
  error_detail = "";
  retryable = false;
  provider_request_id = provider_request_id;
  started_at = started;
  completed_at = completed;
  audit_metadata = audit;
}

abbrev pub failure_with :
    ErrorCode → String → Option ℕ → Option ℕ → Option String → Fields → InvocationResult
failure_with code detail started completed provider_request_id audit =
    record (failure code detail started completed) {
      provider_request_id = provider_request_id;
      audit_metadata = audit;
    }

-- When an invocation starts, and when it ends.
pub record Span : Type 0 where
  pub started : ℕ
  pub ended : ℕ

abbrev pub failed_with : Span → ErrorCode → String → InvocationResult
failed_with t code detail = failure code detail (some t.started) (some t.ended)

-- `f"HTTP {status}"`
abbrev pub http_text : ℕ → String
http_text status = append "HTTP " (decimal status)
