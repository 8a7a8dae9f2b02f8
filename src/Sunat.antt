-- ===== src/Sunat.antt =====
-- The errors of SUNAT and of the way to it: src/sunat-errors.
pub mod Table
pub mod Tokens
pub mod Codes
pub mod Classifier
pub mod Public
pub mod Network
pub mod Numbers
mod Tests
