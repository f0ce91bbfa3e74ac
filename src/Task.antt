-- ===== src/Task.antt =====
-- kernel/src/task: what a task keeps.
mod Tests
pub mod Mapping
