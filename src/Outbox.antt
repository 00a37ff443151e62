-- ===== src/Outbox.antt =====
-- packages/favl-outbox: the transactional outbox, its publisher and its consumers.
pub mod Envelope
pub mod Consumer
pub mod Ordering
pub mod Delivery
pub mod Timing
pub mod Publisher
pub mod Broker
pub mod Connection
pub mod Stats
mod Examples
