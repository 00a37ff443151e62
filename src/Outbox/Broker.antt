-- ===== src/Outbox/Broker.antt =====
-- The outbox and what the broker has taken of it: what drains of publisher.py, and crashes in the middle of
-- them, can do to the two. A message is sent under its row's id; that the broker removes repeats of an id
-- within its window, and forgets messages by their age, is not modelled.
pub mod Delivered
use favl_agentic_content_os.Prelude.{
  ℕ, ◌≤◌, String, str_eq, ◌≡◌, Bool, true, false, Option, List, [], ◌∷◌, take,
}
use favl_agentic_content_os.Store.Rows.{OutboxEvent}
use favl_agentic_content_os.Store.Tables.{NewEvent, enqueue}
use favl_agentic_content_os.Outbox.Timing.{RetryPolicy}
use favl_agentic_content_os.Outbox.Publisher.{Ack, acked, claim, Environment, drain_once}

-- The committed rows, and the ids under which the broker has taken messages, each time it took one.
pub record Delivery : Type 0 where
  pub rows : List OutboxEvent
  pub taken : List String

-- An ack says that the broker took the message.
abbrev pub IsHonest : Environment → (OutboxEvent → Bool) → Type 0
IsHonest env arrives =
    (row : OutboxEvent) (seq : Option ℕ) → env.answer row ≡ acked seq → arrives row ≡ true

-- A message may not reach the broker; one that does may lose its ack.
abbrev pub store_message : Bool → String → List String → List String
store_message true id taken = id ∷ taken
store_message false id taken = taken

unfoldable pub send_all : (OutboxEvent → Bool) → List OutboxEvent → List String → List String
send_all arrives [] taken = taken
send_all arrives (row ∷ rest) taken =
    send_all arrives rest (store_message (arrives row) row.id taken)

-- A drain commits all its rows at once; a process that dies first has sent the messages of some of
-- them, and none of its writes is kept.
pub data DeliveryStep (policy : RetryPolicy) (d : Delivery) : Delivery → Type 0 where
  wrote :
      (id : String) (now : ℕ) (e : NewEvent)
      → DeliveryStep policy d (record d { rows = enqueue id now e d.rows })
  drained :
      (batch_size now : ℕ) (locked : String → Bool) (env : Environment)
      (arrives : OutboxEvent → Bool)
      → IsHonest env arrives
      → DeliveryStep policy d (record {
        rows = (drain_once policy batch_size now locked env d.rows).0;
        taken = send_all arrives (claim batch_size now locked d.rows) d.taken;
      })
  crashed :
      (batch_size now sent : ℕ) (locked : String → Bool) (arrives : OutboxEvent → Bool)
      → DeliveryStep policy d (record d {
        taken = send_all arrives (take sent (claim batch_size now locked d.rows)) d.taken;
      })

pub data Evolves (policy : RetryPolicy) (d : Delivery) : Delivery → Type 0 where
  at_first : Evolves policy d d
  and_then : {e f : Delivery} → Evolves policy d e → DeliveryStep policy e f → Evolves policy d f
