-- ===== src/Common.antt =====
-- libs/common: resource amounts, and results that carry an error.
pub mod Slot
pub mod Base64
pub mod Result
