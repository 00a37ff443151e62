-- ===== src/Outbox/Connection.antt =====
-- packages/favl-outbox/favl_outbox/jetstream.py: the connection to the broker; and of publisher.py and the
-- services' main.py, the life of the publisher's task. What the client library does is an argument.
pub mod Boot
use favl_agentic_content_os.Prelude.{
  ℕ, String, append, Bool, true, false, ◌&&◌, not, Option, none, some, if◌then◌else◌, ltb,
}
use favl_agentic_content_os.Outbox.Publisher.{Ack, acked, failed_with}

-- A call of the client library: it returns, or it raises, with the text of its exception.
pub data CallOutcome : Type 0 where
  returns : CallOutcome
  raises : String → CallOutcome

-- Whether `_nc` and `_js` are set, and the last error.
pub record Connection : Type 0 where
  pub client : Bool
  pub jetstream : Bool
  pub last_error : Option String

abbrev pub new_connection : Connection
new_connection = record { client = false; jetstream = false; last_error = none }

abbrev pub no_connection : String → Connection
no_connection why = record {
  client = false;
  jetstream = false;
  last_error = some (append "connect failed: " why);
}

-- `nats.connect`, then `_ensure_stream`; an exception of either is caught.
unfoldable pub connect : CallOutcome → CallOutcome → Connection → Connection
connect (raises why) ensured c = no_connection why
connect returns (raises why) c = no_connection why
connect returns returns c = record { client = true; jetstream = true; last_error = none }

-- `is_connected` of the client, which reconnects by itself once it has been connected.
unfoldable pub is_connected : Bool → Connection → Bool
is_connected alive c = c.client && alive

unfoldable pub ready : Bool → Connection → Bool
ready alive c = is_connected alive c && c.jetstream

-- An exception is recorded with the name of its class.
abbrev pub unavailable : Ack
unavailable = failed_with "ConnectionError: jetstream unavailable"

unfoldable pub publish : Bool → Ack → Connection → Ack
publish alive answer c = if ready alive c then answer else unavailable

unfoldable pub close : Connection → Connection
close c = record c { client = false; jetstream = false }

-- `_task`: none, one that runs, one that has ended.
pub data Task : Type 0 where
  no_task working ended : Task

pub record PublisherLife : Type 0 where
  pub task : Task
  pub stopping : Bool
  pub last_error : Option String

unfoldable pub start_task : PublisherLife → PublisherLife
start_task p = elim p.task [
  | no_task ↦ record p { task = working; stopping = false }
  | working ↦ p
  | ended ↦ p
]

unfoldable pub stop_task : PublisherLife → PublisherLife
stop_task p = elim p.task [
  | no_task ↦ p
  | working ↦ record p { task = no_task; stopping = true }
  | ended ↦ record p { task = no_task; stopping = true }
]

unfoldable pub running : PublisherLife → Bool
running p = elim p.task [ no_task ↦ false | working ↦ true | ended ↦ false ]

-- A drain of the loop: the number of rows it claimed, or the text of what it raised.
pub data Drained : Type 0 where
  drained_rows : ℕ → Drained
  drain_raised : String → Drained

-- The two delays of the loop, in milliseconds.
pub record Intervals : Type 0 where
  pub poll : ℕ
  pub idle : ℕ

-- One turn of `_run`: the publisher, and the delay before the next one.
unfoldable pub run_turn : Intervals → Drained → PublisherLife → PublisherLife × ℕ
run_turn i (drained_rows n) p = (p, if ltb 0 n then i.poll else i.idle)
run_turn i (drain_raised why) p = (record p { last_error = some why }, i.idle)

-- What a service keeps of the two.
pub record ServiceState : Type 0 where
  pub connection : Connection
  pub publisher : PublisherLife

abbrev pub new_service : ServiceState
new_service = record {
  connection = new_connection;
  publisher = record { task = no_task; stopping = false; last_error = none };
}

-- `lifespan` up to its yield, which is the one place that connects, and after it.
unfoldable pub startup : Bool → CallOutcome → CallOutcome → ServiceState → ServiceState
unfolding connect start_task
startup enabled opened ensured s = record {
  connection = connect opened ensured s.connection;
  publisher = if enabled then start_task s.publisher else s.publisher;
}

unfoldable pub shutdown : ServiceState → ServiceState
unfolding stop_task close
shutdown s = record { connection = close s.connection; publisher = stop_task s.publisher }
