-- ===== src/Io.antt =====
-- The results of IO operations, as the kernel and the programs pass them.
mod Tests
pub mod Error
