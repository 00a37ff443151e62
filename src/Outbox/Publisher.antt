-- ===== src/Outbox/Publisher.antt =====
-- packages/favl-outbox/favl_outbox/publisher.py: one drain of the outbox. The rows are those of the
-- service's table; a timestamp is a number of microseconds.
pub mod Rows
pub mod Settling
use favl_agentic_content_os.Prelude.{
  take, ℕ, zero, suc, ◌+◌, min, String, str_eq, Bool, true, false, not, ◌&&◌, Option, none, some,
  List, [], ◌∷◌, ◌++◌, leb, cut, append, if◌then◌else◌, length, select, sort_by,
}
use favl_agentic_content_os.Json.{Fields}
use favl_agentic_content_os.Store.Rows.{OutboxEvent, OutboxStatus, pending, published, dead}
use favl_agentic_content_os.Outbox.Timing.{RetryPolicy, compute_backoff}

pub record DrainResult : Type 0 where
  pub claimed : ℕ
  pub published_count : ℕ
  pub failed : ℕ
  pub dead_lettered : ℕ
  pub subjects : List String

-- What `self._conn.publish` does: an ack, with the sequence number if it has one, or an exception,
-- with the text that `last_error` is cut from.
pub data Ack : Type 0 where
  acked : Option ℕ → Ack
  failed_with : String → Ack

abbrev pub same_status : OutboxStatus → OutboxStatus → Bool
same_status pending pending = true
same_status published published = true
same_status dead dead = true
same_status _ _ = false

-- `JetStreamConnection.publish` prefixes the subject.
unfoldable pub wire_subject : String → String
wire_subject subject = append "favl." subject

-- The WHERE clause of the claim; `locked` are the rows that another replica holds.
unfoldable pub is_due : ℕ → (String → Bool) → OutboxEvent → Bool
is_due now locked row =
    same_status row.status pending && (leb row.next_attempt_at now && not (locked row.id))

-- ORDER BY created_at LIMIT batch_size FOR UPDATE SKIP LOCKED
unfoldable pub claim : ℕ → ℕ → (String → Bool) → List OutboxEvent → List OutboxEvent
unfolding sort_by is_due
claim batch_size now locked rows =
    take batch_size (sort_by (λ e. e.created_at) (select (is_due now locked) rows))

-- The limit of `_record_failure`.
abbrev pub limit : RetryPolicy → OutboxEvent → ℕ
limit policy row = min policy.max_attempts row.max_attempts

-- `_record_failure`, on the row.
unfoldable pub fail_row : RetryPolicy → ℕ → ℕ → String → OutboxEvent → OutboxEvent
fail_row policy now draw why row =
    let attempts = row.attempts + 1 in
    if leb (limit policy row) attempts
    then record row { attempts = attempts; last_error = some (cut 2000 why); status = dead }
    else record row {
      attempts = attempts;
      last_error = some (cut 2000 why);
      next_attempt_at = now + compute_backoff policy attempts draw;
    }

unfoldable pub publish_row : RetryPolicy → ℕ → ℕ → Ack → OutboxEvent → OutboxEvent
unfolding fail_row
publish_row policy now draw (acked seq) row = record row {
  status = published;
  published_at = some now;
  stream_seq = seq;
  last_error = none;
}
publish_row policy now draw (failed_with why) row = fail_row policy now draw why row

-- The counters of the result that `_publish_row` and `_record_failure` advance.
abbrev pub count_failure : Bool → DrainResult → DrainResult
count_failure exhausted r = record r {
  failed = r.failed + 1;
  dead_lettered = if exhausted then r.dead_lettered + 1 else r.dead_lettered;
}

unfoldable pub count_row : RetryPolicy → Ack → OutboxEvent → DrainResult → DrainResult
count_row policy (acked seq) row r = record r {
  published_count = r.published_count + 1;
  subjects = r.subjects ++ row.subject ∷ [];
}
count_row policy (failed_with why) row r =
    count_failure (leb (limit policy row) (row.attempts + 1)) r

-- The write of one row, by its primary key.
unfoldable pub put_row : OutboxEvent → List OutboxEvent → List OutboxEvent
put_row r [] = []
put_row r (e ∷ es) = if str_eq e.id r.id then r ∷ es else e ∷ put_row r es

-- What the environment does for each row of one drain: the broker's answer and the jitter drawn.
pub record Environment : Type 0 where
  pub answer : OutboxEvent → Ack
  pub draw : OutboxEvent → ℕ

-- The loop over the claimed rows.
unfoldable pub publish_all :
    RetryPolicy
    → ℕ
    → Environment
    → List OutboxEvent
    → List OutboxEvent × DrainResult
    → List OutboxEvent × DrainResult
publish_all policy now env [] state = state
publish_all policy now env (row ∷ rest) (rows, result) = publish_all policy now env rest (
  put_row (publish_row policy now (env.draw row) (env.answer row) row) rows,
  count_row policy (env.answer row) row result,
)

unfoldable pub drain_once :
    RetryPolicy
    → ℕ
    → ℕ
    → (String → Bool)
    → Environment
    → List OutboxEvent
    → List OutboxEvent × DrainResult
unfolding publish_all claim
drain_once policy batch_size now locked env rows =
    let claimed = claim batch_size now locked rows in
    publish_all policy now env claimed (
      rows,
      record {
        claimed = length claimed;
        published_count = 0;
        failed = 0;
        dead_lettered = 0;
        subjects = [];
      },
    )
