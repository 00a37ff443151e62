-- ===== src/Invocations/Failures.antt =====
-- How failures are told to callers: the states that refuse a call, the classes of error codes, and
-- the HTTP statuses.
use favl_agentic_content_os.Prelude.{
  ℕ, ◌≤◌, ◌≡◌, ◌⊎◌, refl, inl, inr, Bool, true, false, Option, none, some, arith, String,
}
use favl_agentic_content_os.Lifecycle.State.{
  ConnectorState, draft, installed, configured, validated, enabled, disabled, revoked,
  deletion_requested, archived, deleted, value, is_executable, parse,
}
use favl_agentic_content_os.Store.Rows.{
  ConnectorRecord, InvocationStatus, accepted, running, timed_out, failed_retryable,
  failed_terminal,
}
use favl_agentic_content_os.Invocations.Results.{ErrorCode, failure, failure_status}
use favl_agentic_content_os.Invocations.Accept.{NotExecutable, refusal, check_executable}
use favl_agentic_content_os.Invocations.Endpoint.{http_status_for}

-- Only an enabled connector may serve.
enabled_or_not :
    (s : ConnectorState)
    → ((is_executable (value s) ≡ true) × (s ≡ enabled))
      ⊎ ((is_executable (value s) ≡ false) × (403 ≤ (refusal s).1) × ((refusal s).1 ≤ 410))
unfolding is_executable parse
enabled_or_not enabled = inl (refl, refl)
enabled_or_not draft = inr (refl, omega arith, omega arith)
enabled_or_not installed = inr (refl, omega arith, omega arith)
enabled_or_not configured = inr (refl, omega arith, omega arith)
enabled_or_not validated = inr (refl, omega arith, omega arith)
enabled_or_not disabled = inr (refl, omega arith, omega arith)
enabled_or_not revoked = inr (refl, omega arith, omega arith)
enabled_or_not deletion_requested = inr (refl, omega arith, omega arith)
enabled_or_not archived = inr (refl, omega arith, omega arith)
enabled_or_not deleted = inr (refl, omega arith, omega arith)

-- A connector passes the check exactly if it is enabled, and any other is refused by its own state
-- with an HTTP status from 403 to 410.
pub check_executable_lem :
    (r : ConnectorRecord)
    → ((check_executable r ≡ none) × (r.status ≡ enabled))
      ⊎ ((why : NotExecutable) × (check_executable r ≡ some why)
          × (why.status ≡ r.status)
          × (403 ≤ why.http_status)
          × (why.http_status ≤ 410))
unfolding check_executable
check_executable_lem r = elim (enabled_or_not r.status) [
  | inl (runs, e) ↦ inl (rw runs refl, e)
  | inr (stopped, low, high) ↦ inr (
    record { status = r.status; code = (refusal r.status).0; http_status = (refusal r.status).1 },
    rw stopped refl,
    refl,
    low,
    high,
  )
]

-- The statuses in which an invocation ends.
abbrev pub ends : InvocationStatus → Bool
ends accepted = false
ends running = false
ends _ = true

pub failure_ends : (code : ErrorCode) → ends (failure_status code) ≡ true
failure_ends code = ground arith

-- A failure ends the invocation with an HTTP status of 502 or 504, never of a success, and the row
-- says whether to retry: by its status, or, for a deadline that passed, by its mark.
pub failure_lem :
    (code : ErrorCode) (detail : String) (started completed : Option ℕ)
    → let r = failure code detail started completed in
      (502 ≤ http_status_for r.status)
      × (http_status_for r.status ≤ 504)
      × ((r.status ≡ timed_out)
          ⊎ (((r.status ≡ failed_retryable) × (r.retryable ≡ true))
              ⊎ ((r.status ≡ failed_terminal) × (r.retryable ≡ false))))
unfolding failure
failure_lem code detail started completed = (ground arith, ground arith, ground arith)
