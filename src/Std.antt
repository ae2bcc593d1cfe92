-- ===== src/Std.antt =====
-- The parts of the C++ standard library that the sources call.
pub mod LowerBound
pub mod Ordered
pub mod Map
pub mod Names
pub mod Outcome
