-- ===== src/Outbox/Connection/Boot.antt =====
-- A service that starts while the broker is down: jetstream.py says that its outbox drains once the broker
-- returns.
use favl_agentic_content_os.Prelude.{
  ℕ, ◌+◌, ◌≤◌, ◌≡◌, ◌≢◌, inl, inr, refl, String, Bool, false, List, [], ◌∷◌, arith, length, leb,
  Bool-cases,
}
use favl_agentic_content_os.Store.Rows.{OutboxEvent, OutboxStatus, pending, published, dead}
use favl_agentic_content_os.Outbox.Timing.{RetryPolicy}
use favl_agentic_content_os.Outbox.Publisher.{Ack, limit, fail_row, publish_row}
use favl_agentic_content_os.Outbox.Publisher.Rows.{IsAccounted}
use favl_agentic_content_os.Outbox.Publisher.Settling.{Offer, offered, offered_settles, is_pending}
use favl_agentic_content_os.Outbox.Connection.{
  CallOutcome, returns, raises, Connection, connect, is_connected, ready, publish, unavailable,
  startup, new_service,
}

-- A drain that claims the row: its time, the jitter, whether the client is is_connected, and what the broker
-- would answer.
pub record Chance : Type 0 where
  pub now : ℕ
  pub draw : ℕ
  pub alive : Bool
  pub answer : Ack

unfoldable pub offer_by : Connection → Chance → Offer
unfolding publish ready is_connected
offer_by c o = record { now = o.now; draw = o.draw; answer = publish o.alive o.answer c }

abbrev pub offers_by : Connection → List Chance → List Offer
offers_by c [] = []
offers_by c (o ∷ os) = offer_by c o ∷ offers_by c os

-- The client raised, or the set-up of the stream did.
pub data FailedStart : CallOutcome → CallOutcome → Type 0 where
  refused : (why : String) (ensured : CallOutcome) → FailedStart (raises why) ensured
  without_stream : (why : String) → FailedStart returns (raises why)

never_ready :
    (c : Connection) (opened ensured : CallOutcome)
    → FailedStart opened ensured
    → (alive : Bool) → ready alive (connect opened ensured c) ≡ false
unfolding ready is_connected connect
never_ready c _ _ (refused why ensured) alive = refl
never_ready c _ _ (without_stream why) alive = refl

failed_row :
    (policy : RetryPolicy) (now draw : ℕ) (row : OutboxEvent)
    → row.status ≢ published
    → (publish_row policy now draw unavailable row).status ≢ published
unfolding publish_row fail_row
failed_row policy now draw row h = elim (Bool-cases (leb (limit policy row) (row.attempts + 1))) [
  | inl full ↦ rw full (λ e. cc)
  | inr left ↦ rw left h
]

length-offers_by : (c : Connection) (os : List Chance) → length (offers_by c os) ≡ length os
length-offers_by c [] = refl
length-offers_by c (o ∷ os) = ground (arith, length-offers_by c os)

-- Neither the row nor any later state of it is published.
not_published :
    (policy : RetryPolicy) (c : Connection) (os : List Chance) (row : OutboxEvent)
    → ((alive : Bool) → ready alive c ≡ false)
    → row.status ≢ published
    → (offered policy (offers_by c os) row).status ≢ published
unfolding offered offer_by publish
not_published policy c [] row never h = h
not_published policy c (o ∷ os) row never h =
    let next = publish_row policy o.now o.draw unavailable row in
    elim (Bool-cases (is_pending row.status)) [
      | inr settled ↦ rw (settled, offered) (not_published policy c os row never h)
      | inl waits ↦
          rw (waits, never o.alive, offered)
            (not_published policy c os next never (failed_row policy o.now o.draw row h))
    ]

only_dead : (s : OutboxStatus) → s ≢ pending → s ≢ published → s ≡ dead
only_dead pending p q = absurd (p refl)
only_dead published p q = absurd (q refl)
only_dead dead p q = refl

-- If the connection fails when the service starts, each pending row that drains have claimed as often as it
-- had attempts left is dead, although the broker may be back all the time and would acknowledge it.
pub startup_failed-dead :
    (policy : RetryPolicy) (enabled : Bool) (opened ensured : CallOutcome) (os : List Chance)
    (row : OutboxEvent)
    → FailedStart opened ensured
    → IsAccounted policy row
    → row.status ≡ pending
    → limit policy row ≤ row.attempts + length os
    → (offered policy
        (offers_by (startup enabled opened ensured new_service).connection os)
        row).status
      ≡ dead
unfolding startup
startup_failed-dead policy enabled opened ensured os row failed h waits enough =
    let c = connect opened ensured new_service.connection in
    let os' = offers_by c os in
    only_dead _ (offered_settles policy os' row h waits (omega (arith, length-offers_by c os))) (
      not_published policy c os row (never_ready new_service.connection opened ensured failed)
        (λ e. cc))
