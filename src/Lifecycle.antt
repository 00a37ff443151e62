-- ===== src/Lifecycle.antt =====
-- services/connector-registry/app/lifecycle.py: the connector states, the table of permitted
-- transitions and the functions that consult it. States travel as text, as in the source.
pub mod State
pub mod Table
pub mod Lookup
pub mod Safety
pub mod Runs
pub mod Repeats
mod Examples
