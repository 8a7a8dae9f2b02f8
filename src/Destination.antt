-- ===== src/Destination.antt =====
-- Where a webhook may be delivered: src/webhook-dns-safety.
pub mod Address
pub mod Service
pub mod Unique
pub mod Blocks
pub mod Notation
pub mod Laws
mod Tests
