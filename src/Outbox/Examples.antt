-- ===== src/Outbox/Examples.antt =====
-- The theorems on the outbox, at one row and one retry policy.
use favl_agentic_content_os.Prelude.{
  ◌≢◌, ℕ, zero, suc, ◌*◌, ◌≤◌, ◌<◌, ◌≡◌, refl, ap, String, append, All, Option, none, some, List,
  [], ◌∷◌, true, false, take, sort_by, insert_by, arith, eq_iff,
}
use favl_agentic_content_os.Json.{end}
use favl_agentic_content_os.Store.Rows.{OutboxEvent, pending, dead}
use favl_agentic_content_os.Outbox.Envelope.{IsoFormat, replace_z, envelope_from_row}
use favl_agentic_content_os.Outbox.Consumer.{
  parse_event, parsed, event_of_row, parse_event-envelope,
}
use favl_agentic_content_os.Outbox.Ordering.{Redelivers, done, again, next}
use favl_agentic_content_os.Outbox.Timing.{
  RetryPolicy, OperationalDelays, backoff_for, least_delay, worst_case_retry_horizon,
  validate_duplicate_window, per_attempt, add_backoffs,
}
use favl_agentic_content_os.Outbox.Timing.Horizon.{Attempt, span, Within, span-in-window}
use favl_agentic_content_os.Outbox.Publisher.{
  acked, Environment, failed_with, drain_once, claim, is_due,
}
use favl_agentic_content_os.Outbox.Broker.{
  Delivery, send_all, Evolves, at_first, and_then, crashed, drained,
}
use favl_agentic_content_os.Outbox.Broker.Delivered.{IsDelivered, Evolves-IsDelivered}
use favl_agentic_content_os.Outbox.Connection.{raises, returns, startup, new_service}
use favl_agentic_content_os.Outbox.Connection.Boot.{Chance, offers_by, refused, startup_failed-dead}
use favl_agentic_content_os.Outbox.Publisher.Settling.{Offer, offered, offered_settles}
use favl_agentic_content_os.Outbox.Publisher.Rows.{IsAccounted, drain_once-IsAccounted}

abbrev row : OutboxEvent
row = record {
  id = "e1";
  aggregate_type = "connector";
  aggregate_id = some "c1";
  aggregate_version = 2;
  subject = "connector.enabled";
  schema_version = 1;
  payload = end;
  status = pending;
  attempts = 7;
  max_attempts = 8;
  next_attempt_at = 10;
  last_error = none;
  created_at = 10;
  published_at = none;
  stream_seq = none;
}

-- A format that writes a time as that many strokes.
abbrev strokes : ℕ → String
strokes zero = ""
strokes (suc n) = append "|" (strokes n)

abbrev count_strokes : String → ℕ
count_strokes String.[] = 0
count_strokes (String.◌∷◌ c s) = suc (count_strokes s)

strokes_read : (t : ℕ) → count_strokes (replace_z (strokes t)) ≡ t
unfolding replace_z
strokes_read zero = refl
strokes_read (suc t) = ap suc (strokes_read t)

abbrev iso : IsoFormat
iso = record {
  isoformat = strokes;
  fromisoformat = λ s. some (count_strokes s);
  reads_back = λ t. ap some (strokes_read t);
}

parse_event-envelope_example :
    parse_event iso (envelope_from_row iso row) none ≡ parsed (event_of_row row)
parse_event-envelope_example =
    parse_event-envelope iso row none refl (ground (arith, eq_iff "e1" ""))
      (ground (arith, eq_iff "connector.enabled" ""))

abbrev stream : List (Option ℕ)
stream = some 1 ∷ some 1 ∷ some 2 ∷ some 1 ∷ []

abbrev redelivers : Redelivers 0 stream 2
redelivers = next 0 (
    again 1 1 (omega arith) (omega arith) (next 1 (again 2 1 (omega arith) (omega arith) (done 2))))

abbrev policy : RetryPolicy
policy = record { max_attempts = 3; base = 500; cap = 300_000; jitter_ratio = 200 }

abbrev delays : OperationalDelays
delays = record {
  db_lock_wait = 30_000;
  broker_connect_timeout = 5_000;
  publish_timeout = 10_000;
  process_restart = 60_000;
  poll_interval = 1_000;
}

abbrev attempts : List Attempt
attempts = record { cost = 106_000; draw = 200_000 } ∷ record { cost = 90_000; draw = 0 } ∷ []

floor : least_delay ≤ backoff_for policy 1
unfolding backoff_for
floor = omega arith

valid : validate_duplicate_window policy delays 600_000 800 ≡ some 319_800_000
unfolding validate_duplicate_window worst_case_retry_horizon per_attempt add_backoffs backoff_for
valid = refl

in_time : Within policy delays 1 attempts
unfolding per_attempt
in_time = (omega arith, omega arith, (omega arith, omega arith, tt))

span-in-window_example : span policy 1 attempts ≤ 600_000 * 1000
span-in-window_example =
    span-in-window policy delays 600_000 800 319_800_000 attempts valid (omega arith) floor
      (omega arith) in_time

abbrev hasty : RetryPolicy
hasty = record { max_attempts = 3; base = 50; cap = 300_000; jitter_ratio = 200 }

below : backoff_for hasty 1 < least_delay
unfolding backoff_for
below = omega arith

abbrev environment : Environment
environment = record { answer = λ row. failed_with "nats: timeout"; draw = λ row. 3 }

abbrev generous : RetryPolicy
generous = record { max_attempts = 10; base = 500; cap = 300_000; jitter_ratio = 200 }

accounted : IsAccounted generous row
accounted = record { retries_left = λ e. ground arith; exhausted = λ e. ground arith }

drain_once-IsAccounted_example :
    All (IsAccounted generous) (drain_once generous 100 20 (λ id. false) environment (row ∷ [])).0
drain_once-IsAccounted_example =
    drain_once-IsAccounted generous 100 20 (λ id. false) environment (row ∷ []) (accounted, tt)

abbrev offers : List Offer
offers =
    record { now = 20; draw = 3; answer = failed_with "nats: timeout" }
    ∷ record { now = 40; draw = 3; answer = acked none }
    ∷ []

offered_settles_example : (offered generous offers row).status ≢ pending
offered_settles_example = offered_settles generous offers row accounted refl (omega arith)

abbrev before : Delivery
before = record { rows = row ∷ []; taken = [] }

abbrev answers : Environment
answers = record { answer = λ r. acked (some 7); draw = λ r. 3 }

-- The first drain dies with its message sent; the second one sends the message again.
abbrev sent : List String
sent = send_all (λ r. true) (take 1 (claim 100 20 (λ id. false) before.rows)) before.taken

abbrev after : Delivery
after = record {
  rows = (drain_once generous 100 30 (λ id. false) answers before.rows).0;
  taken = send_all (λ r. true) (claim 100 30 (λ id. false) before.rows) sent;
}

crash_then_drain : Evolves generous before after
crash_then_drain =
    and_then (and_then at_first (crashed 100 20 1 (λ id. false) (λ r. true)))
      (drained 100 30 (λ id. false) answers (λ r. true) (λ r seq h. refl))

Evolves-IsDelivered_example : IsDelivered after
Evolves-IsDelivered_example =
    Evolves-IsDelivered generous before after crash_then_drain
      (record { backed = (λ h. cc, tt); committed = tt })

sent_twice : after.taken ≡ "e1" ∷ "e1" ∷ []
unfolding send_all claim is_due sort_by insert_by
sent_twice = refl

-- The broker is back before the first drain, and it would acknowledge each message.
abbrev chances : List Chance
chances =
    record { now = 20; draw = 3; alive = true; answer = acked (some 7) }
    ∷ record { now = 40; draw = 3; alive = true; answer = acked (some 8) }
    ∷ []

startup_failed-dead_example :
    (offered generous
      (offers_by
        (startup true (raises "ConnectionRefusedError") returns new_service).connection
        chances)
      row).status
    ≡ dead
startup_failed-dead_example =
    startup_failed-dead generous true (raises "ConnectionRefusedError") returns chances row
      (refused "ConnectionRefusedError" returns) accounted refl (omega arith)
