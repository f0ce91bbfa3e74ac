-- ===== src/Time.antt =====
-- kernel/src/time
mod Tests
pub mod Date
