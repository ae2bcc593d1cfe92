-- ===== src/Services.antt =====
-- The services that drive the storage: libs/allocator and libs/failure_detector.
pub mod Allocator
pub mod FailureDetector
pub mod Safety
pub mod Scheduler
