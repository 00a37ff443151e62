-- ===== src/Transitions.antt =====
-- services/connector-registry/app/transitions.py: applying one lifecycle transition.
pub mod Apply
pub mod Effect
pub mod Commits
mod Examples
