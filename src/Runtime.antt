-- ===== src/Runtime.antt =====
-- The user-space library of runtime/src.
pub mod Text
pub mod Scan
pub mod Library
pub mod Tests
