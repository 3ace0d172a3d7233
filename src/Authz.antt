-- ===== src/Authz.antt =====
-- internal/authz: the policy that maps a verified identity to a NATS account and permissions.
pub mod Patterns
pub mod Cel
pub mod Rules
pub mod Policy
pub mod Strict
