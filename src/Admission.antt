-- ===== src/Admission.antt =====
-- The admission pool: throttling/rust/lib.rs.
pub mod Pool
pub mod Classify
pub mod Lanes
pub mod Snapshot
mod Tests
