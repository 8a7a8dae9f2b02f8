-- ===== src/Lifecycle.antt =====
-- The life cycle of an electronic document: src/document-lifecycle.
pub mod Status
pub mod Service
pub mod Laws
pub mod Next
pub mod Flow
mod Tests
