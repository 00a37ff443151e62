-- ===== src/Invocations/Results.antt =====
-- `ErrorCode`, `InvocationRequest`, `InvocationResult` and `failure` of adapters/base.py.
use favl_agentic_content_os.Prelude.{
  ℕ, ◌-◌, String, str_eq, Bool, Option, none, some, List, [], ◌∷◌, any, cut, if◌then◌else◌,
}
use favl_agentic_content_os.Json.{Fields, end}
use favl_agentic_content_os.Store.Rows.{
  InvocationStatus, failed_retryable, failed_terminal, timed_out,
}

pub data ErrorCode : Type 0 where
  config_invalid unknown_kind connector_disabled connector_deletion_pending : ErrorCode
  connector_gone connector_revoked connector_not_validated secret_not_found : ErrorCode
  ssrf_blocked host_not_allowed upstream_timeout upstream_unavailable : ErrorCode
  upstream_error upstream_client_error response_too_large content_type_rejected : ErrorCode
  too_many_redirects deadline_exceeded service_not_registered : ErrorCode
  operation_not_supported : ErrorCode

-- `code.value`
abbrev pub code_value : ErrorCode → String
code_value config_invalid = "CONFIG_INVALID"
code_value unknown_kind = "UNKNOWN_KIND"
code_value connector_disabled = "CONNECTOR_DISABLED"
code_value connector_deletion_pending = "CONNECTOR_DELETION_PENDING"
code_value connector_gone = "CONNECTOR_GONE"
code_value connector_revoked = "CONNECTOR_REVOKED"
code_value connector_not_validated = "CONNECTOR_NOT_VALIDATED"
code_value secret_not_found = "SECRET_NOT_FOUND"
code_value ssrf_blocked = "SSRF_BLOCKED"
code_value host_not_allowed = "HOST_NOT_ALLOWED"
code_value upstream_timeout = "UPSTREAM_TIMEOUT"
code_value upstream_unavailable = "UPSTREAM_UNAVAILABLE"
code_value upstream_error = "UPSTREAM_ERROR"
code_value upstream_client_error = "UPSTREAM_CLIENT_ERROR"
code_value response_too_large = "RESPONSE_TOO_LARGE"
code_value content_type_rejected = "CONTENT_TYPE_REJECTED"
code_value too_many_redirects = "TOO_MANY_REDIRECTS"
code_value deadline_exceeded = "DEADLINE_EXCEEDED"
code_value service_not_registered = "SERVICE_NOT_REGISTERED"
code_value operation_not_supported = "OPERATION_NOT_SUPPORTED"

abbrev pub retryable_codes : List ErrorCode
retryable_codes = upstream_timeout ∷ upstream_unavailable ∷ upstream_error ∷ []

-- The codes of the test for a timeout in `failure`.
abbrev pub timeout_codes : List ErrorCode
timeout_codes = upstream_timeout ∷ deadline_exceeded ∷ []

-- A `str` enum compares as its text.
abbrev pub code_in : ErrorCode → List ErrorCode → Bool
code_in c codes = any (λ d. str_eq (code_value c) (code_value d)) codes

pub record InvocationRequest : Type 0 where
  pub invocation_id : String
  pub connector_id : String
  pub operation : String
  pub payload : Fields
  pub idempotency_key : String
  pub actor_id : String
  pub tenant_id : String
  pub deadline_at : ℕ
  pub trace_id : Option String
  pub attempt : ℕ

-- `seconds_remaining`, in microseconds: `max(0.0, ...)` is what subtraction does here.
abbrev pub seconds_remaining : InvocationRequest → ℕ → ℕ
seconds_remaining q now = q.deadline_at - now

pub record InvocationResult : Type 0 where
  pub status : InvocationStatus
  pub output : Fields
  pub error_code : Option ErrorCode
  pub error_detail : String
  pub retryable : Bool
  pub provider_request_id : Option String
  pub started_at : Option ℕ
  pub completed_at : Option ℕ
  pub audit_metadata : Fields

abbrev pub failure_status : ErrorCode → InvocationStatus
failure_status code =
    if code_in code timeout_codes
    then timed_out
    else if code_in code retryable_codes
    then failed_retryable
    else failed_terminal

-- `InvocationResult.failure`, with its two optional times.
unfoldable pub failure : ErrorCode → String → Option ℕ → Option ℕ → InvocationResult
failure code detail started_at completed_at = record {
  status = failure_status code;
  output = end;
  error_code = some code;
  error_detail = cut 1000 detail;
  retryable = code_in code retryable_codes;
  provider_request_id = none;
  started_at = started_at;
  completed_at = completed_at;
  audit_metadata = end;
}
