-- ===== src/Invocations.antt =====
-- services/connector-registry/app/invocations.py, with the results of adapters/base.py and the
-- invocation endpoint of main.py.
pub mod Results
pub mod Accept
pub mod Execute
pub mod Endpoint
pub mod Replay
pub mod Interleaving
pub mod Once
pub mod Failures
pub mod Settles
pub mod Asks
pub mod Reads
pub mod Internal
mod Examples
