-- ===== src/Outbox/Publisher/Settling.antt =====
-- A row does not stay pending: it is published, or it runs out of attempts.
use favl_agentic_content_os.Prelude.{
  ℕ, ◌+◌, ◌≤◌, ◌<◌, ◌≡◌, ◌≢◌, ◌⊎◌, refl, Bool, false, List, [], ◌∷◌, arith, length, leb, Bool-cases,
  inl, inr, if◌then◌else◌,
}
use favl_agentic_content_os.Store.Rows.{OutboxEvent, OutboxStatus, pending}
use favl_agentic_content_os.Outbox.Timing.{RetryPolicy}
use favl_agentic_content_os.Outbox.Publisher.{
  Ack, acked, failed_with, same_status, limit, fail_row, publish_row,
}
use favl_agentic_content_os.Outbox.Publisher.Rows.{IsAccounted}

-- One drain that claims the row: its time, the jitter drawn and the broker's answer.
pub record Offer : Type 0 where
  pub now : ℕ
  pub draw : ℕ
  pub answer : Ack

unfoldable pub is_pending : OutboxStatus → Bool
is_pending s = same_status s pending

-- The row after a number of drains, each of which claims it if it is pending still.
unfoldable pub offered : RetryPolicy → List Offer → OutboxEvent → OutboxEvent
offered policy [] row = row
offered policy (o ∷ os) row =
    let next = publish_row policy o.now o.draw o.answer row in
    offered policy os (if is_pending row.status then next else row)

settled_stays :
    (policy : RetryPolicy) (os : List Offer) (row : OutboxEvent)
    → is_pending row.status ≡ false
    → is_pending (offered policy os row).status ≡ false
unfolding offered
settled_stays policy [] row h = h
settled_stays policy (o ∷ os) row h = rw (h, offered) (settled_stays policy os row h)

-- An attempt settles the row, or uses up one of those that are left.
attempt :
    (policy : RetryPolicy) (now draw : ℕ) (answer : Ack) (row : OutboxEvent)
    → let next = publish_row policy now draw answer row in
      (is_pending next.status ≡ false)
      ⊎ ((next.attempts ≡ row.attempts + 1)
          × (limit policy next ≡ limit policy row)
          × (row.attempts + 1 < limit policy row))
unfolding publish_row fail_row is_pending
attempt policy now draw (acked seq) row = inl refl
attempt policy now draw (failed_with why) row =
    elim (Bool-cases (leb (limit policy row) (row.attempts + 1))) [
      | inl e ↦ rw e (inl refl)
      | inr e ↦ rw e (inr (refl, refl, ground arith))
    ]

settles :
    (policy : RetryPolicy) (os : List Offer) (row : OutboxEvent)
    → limit policy row ≤ row.attempts + length os
    → row.attempts < limit policy row
    → is_pending (offered policy os row).status ≡ false
unfolding offered
settles policy [] row enough left = absurd (omega arith)
settles policy (o ∷ os) row enough left =
    let next = publish_row policy o.now o.draw o.answer row in
    elim (Bool-cases (is_pending row.status)) [
      | inr over ↦ rw (over, offered) (settled_stays policy os row over)
      | inl waits ↦ elim (attempt policy o.now o.draw o.answer row) [
        | inl over ↦ rw (waits, offered) (settled_stays policy os next over)
        | inr (more, same, below) ↦
            rw (waits, offered)
              (settles policy os next (omega (arith, more, same)) (omega (arith, more, same)))
      ]
    ]

not_pending : (s : OutboxStatus) → is_pending s ≡ false → s ≢ pending
unfolding is_pending
not_pending s h e = cc (rw e at h)

-- Whatever the broker answers, a row of an accounted table that has been claimed as often as it had
-- attempts left is pending no more.
pub offered_settles :
    (policy : RetryPolicy) (os : List Offer) (row : OutboxEvent)
    → IsAccounted policy row
    → row.status ≡ pending
    → limit policy row ≤ row.attempts + length os
    → (offered policy os row).status ≢ pending
offered_settles policy os row h waits enough =
    not_pending (offered policy os row).status (settles policy os row enough (h.retries_left waits))
