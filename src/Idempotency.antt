-- ===== src/Idempotency.antt =====
-- Requests that are repeated under one key: src/idempotency.
pub mod Key
pub mod Path
pub mod Json
pub mod Fingerprint
pub mod Table
pub mod Records
pub mod Replay
pub mod Requests
pub mod Stored
pub mod Interceptor
pub mod Refusal
pub mod Endpoint
mod Tests
mod BodyTests
