-- ===== src/AdminToken.antt =====
-- The policy on the tokens of administrators: src/admin-token-policy.
pub mod Claims
pub mod Uuid
pub mod Service
pub mod Build
pub mod Validate
pub mod RoundTrip
mod Tests
