-- ===== src/Tax.antt =====
-- Taxes and totals of documents: src/tax-calculation.
pub mod Decimal
pub mod Service
pub mod Line
pub mod Errors
pub mod Document
mod Tests
