-- ===== src/Password.antt =====
-- The policy on the passwords of administrators: src/password-policy.
pub mod Text
pub mod Service
pub mod Repetitions
pub mod Errors
pub mod Laws
pub mod Names
mod Tests
