-- ===== src/Net.antt =====
-- kernel/src/net
mod Tests
pub mod Checksum
pub mod Tcp
