-- ===== src/Registry.antt =====
-- services/connector-registry/app/main.py: the endpoints that read and change connectors.
pub mod Schemas
pub mod Handlers
pub mod Endpoints
pub mod Trail
pub mod Changes
pub mod Steps
pub mod Tenancy
pub mod Versions
pub mod Retirement
pub mod Projection
pub mod Gaps
pub mod Races
mod Examples
