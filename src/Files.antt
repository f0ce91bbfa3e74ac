-- ===== src/Files.antt =====
-- kernel/src/files: paths.
mod Tests
pub mod Path
pub mod Open
