-- ===== src/Adapters.antt =====
-- services/connector-registry/app/adapters: what serves an invocation, for each kind of connector.
pub mod Base
pub mod Ending
pub mod Internal
pub mod Http
pub mod Webhook
pub mod Dispatch
pub mod Admitted
pub mod Gaps
mod Examples
