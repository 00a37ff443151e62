-- ===== src/Adapters/Http/Retries.antt =====
-- Which answers of a provider are worth a retry.
use favl_agentic_content_os.Prelude.{
  ℕ, ◌==◌, ◌≡◌, inl, inr, refl, sym, ◌∙◌, true, false, arith, Bool-cases, if◌then◌else◌,
}
use favl_agentic_content_os.Store.Rows.{
  InvocationStatus, succeeded, failed_retryable, failed_terminal,
}
use favl_agentic_content_os.Security.Outbound.{OutboundResponse}
use favl_agentic_content_os.Invocations.Results.{failure}
use favl_agentic_content_os.Adapters.Base.{World, Span, is_success, is_client_error}
use favl_agentic_content_os.Adapters.Http.{is_unavailable, http_code, http_result}

-- How an invocation ends, by the status of the provider.
abbrev pub expected_status : ℕ → InvocationStatus
expected_status status =
    if is_success status
    then succeeded
    else if status == 408
    then failed_retryable
    else if status == 429
    then failed_retryable
    else if is_client_error status
    then failed_terminal
    else failed_retryable

unavailable_lem :
    (status : ℕ) → is_unavailable status ≡ true → expected_status status ≡ failed_retryable
unavailable_lem status e = ground arith

client_lem :
    (status : ℕ)
    → is_unavailable status ≡ false
    → is_client_error status ≡ true
    → expected_status status ≡ failed_terminal
client_lem status e c = ground arith

server_lem :
    (status : ℕ)
    → is_success status ≡ false
    → is_unavailable status ≡ false
    → is_client_error status ≡ false
    → expected_status status ≡ failed_retryable
server_lem status s e c = ground arith

-- Once the HTTP adapter has read the body of an answer, its result has the class of the status: a 2xx
-- has succeeded; a 4xx other than 408 and 429 has failed for good; every other answer may be retried.
pub http_result-status :
    (w : World) (t : Span) (r : OutboundResponse)
    → (http_result w t r).status ≡ expected_status r.status_code
unfolding http_result http_code failure
http_result-status w t r = elim (Bool-cases (is_success r.status_code)) [
  | inl s ↦ rw s refl
  | inr s ↦ elim (Bool-cases (is_unavailable r.status_code)) [
    | inl e ↦
        let ended : (http_result w t r).status ≡ failed_retryable = rw (s, e) refl in
        ended ∙ sym (unavailable_lem r.status_code e)
    | inr e ↦ elim (Bool-cases (is_client_error r.status_code)) [
      | inl c ↦
          let ended : (http_result w t r).status ≡ failed_terminal = rw (s, e, c) refl in
          ended ∙ sym (client_lem r.status_code e c)
      | inr c ↦
          let ended : (http_result w t r).status ≡ failed_retryable = rw (s, e, c) refl in
          ended ∙ sym (server_lem r.status_code s e c)
    ]
  ]
]
