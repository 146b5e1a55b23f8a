-- ===== src/Tests.antt =====
-- Small inputs, and the theorems at them.
pub mod Data
pub mod Counting
pub mod Sorting
pub mod Parsing
pub mod Grammar
pub mod Braces
pub mod Alarm
pub mod Run
pub mod Main
pub mod Output
