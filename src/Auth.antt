-- ===== src/Auth.antt =====
-- Login and bootstrap of administrators: src/auth.
pub mod Users
pub mod Requests
pub mod Service
pub mod Laws
pub mod Bootstrap
mod Tests
