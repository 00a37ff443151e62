-- ===== src/Security.antt =====
-- services/connector-registry/app/security: what a configuration may show and where a request may go.
pub mod Redaction
pub mod Address
pub mod Ssrf
pub mod Outbound
pub mod Secrets
pub mod Policy
mod Examples
