-- ===== src/Outbox/Timing.antt =====
-- packages/favl-outbox/favl_outbox/timing.py, and `compute_backoff` of publisher.py. A duration in
-- seconds is a number of milliseconds, a ratio a number of thousandths, and their products are
-- microseconds: the floats of the source with three decimals, without their rounding.
pub mod Horizon
use favl_agentic_content_os.Prelude.{
  ℕ, zero, suc, ◌+◌, ◌-◌, ◌*◌, ◌^◌, ◌≤◌, ◌<◌, min, max, Bool, true, false, Option, none, some, List,
  [], ◌∷◌, ltb, if◌then◌else◌,
}

pub record RetryPolicy : Type 0 where
  pub max_attempts : ℕ
  pub base : ℕ
  pub cap : ℕ
  pub jitter_ratio : ℕ

pub record OperationalDelays : Type 0 where
  pub db_lock_wait : ℕ
  pub broker_connect_timeout : ℕ
  pub publish_timeout : ℕ
  pub process_restart : ℕ
  pub poll_interval : ℕ

-- `base_seconds * 2 ** max(attempt - 1, 0)`, capped.
abbrev pub raw_backoff : RetryPolicy → ℕ → ℕ
raw_backoff p attempt = min (p.base * 2 ^ (attempt - 1)) p.cap

-- `RetryPolicy.backoff_for`, in microseconds.
unfoldable pub backoff_for : RetryPolicy → ℕ → ℕ
backoff_for p attempt = raw_backoff p attempt * (1000 + p.jitter_ratio)

-- `per_attempt_seconds`
unfoldable pub per_attempt : OperationalDelays → ℕ
per_attempt d =
    d.db_lock_wait + d.broker_connect_timeout + d.publish_timeout + d.process_restart
    + d.poll_interval

-- The loop over `range(attempt, attempt + count)`.
unfoldable pub add_backoffs : RetryPolicy → ℕ → ℕ → ℕ → ℕ
add_backoffs p attempt zero total = total
add_backoffs p attempt (suc count) total =
    add_backoffs p (attempt + 1) count (total + backoff_for p attempt)

-- `worst_case_retry_horizon`, in microseconds.
unfoldable pub worst_case_retry_horizon : RetryPolicy → OperationalDelays → ℕ
unfolding add_backoffs
worst_case_retry_horizon p d =
    add_backoffs p 1 (p.max_attempts - 1) (p.max_attempts * (per_attempt d * 1000))

-- `validate_duplicate_window`: the horizon, whose quotient by the window it returns, or `none` for
-- DuplicateWindowTooSmall.
unfoldable pub validate_duplicate_window : RetryPolicy → OperationalDelays → ℕ → ℕ → Option ℕ
validate_duplicate_window p d window safety_margin =
    let horizon = worst_case_retry_horizon p d in
    if ltb (window * safety_margin) horizon then none else some horizon

-- The jitter, and the least delay that `compute_backoff` returns: 0.1 seconds.
abbrev pub jitter : RetryPolicy → ℕ → ℕ
jitter p attempts = raw_backoff p attempts * p.jitter_ratio

abbrev pub least_delay : ℕ
least_delay = 100_000

-- `compute_backoff`, in microseconds; `draw` is how far `uniform(-jitter, jitter)` lies above
-- `-jitter`. A negative sum is below the least delay, as is the 0 that stands for it here.
unfoldable pub compute_backoff : RetryPolicy → ℕ → ℕ → ℕ
compute_backoff p attempts draw =
    max least_delay (raw_backoff p attempts * 1000 + draw - jitter p attempts)
