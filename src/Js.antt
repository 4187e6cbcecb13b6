-- ===== src/Js.antt =====
-- The values of the language that the front ends compute with: numbers, JSON, exceptions, decimal
-- texts, and the functions of the JavaScript runtime that the source calls.
pub mod Number
pub mod Json
pub mod Exception
pub mod Runtime
pub mod Access
pub mod Decimal
pub mod Split
pub mod Samples
