-- ===== src/Orchestrator.antt =====
-- services/orchestrator/app: the agents and their fan-out over connectors.
pub mod Agents
pub mod FanOut
pub mod Endpoints
pub mod Laws
pub mod Changes
pub mod Runs
pub mod Versions
pub mod Bounds
pub mod Races
pub mod Mesh
pub mod Admission
mod Examples
