-- ===== src/Js.antt =====
-- The parts of the JavaScript language that the source uses: texts, numbers and dynamic values.
pub mod Text
pub mod Utf8
pub mod Search
pub mod Pattern
pub mod Number
pub mod Integer
pub mod Value
pub mod Map
