-- ===== src/Examples.antt =====
-- The theorems at concrete inputs.
pub mod Fixtures
pub mod Patterns
pub mod Policies
pub mod Tokens
pub mod Keys
pub mod Calls
pub mod Authorizations
pub mod Services
pub mod AwsTokens
pub mod Startups
pub mod Probes
pub mod Issuers
pub mod Origins
pub mod Expressions
pub mod Clients
