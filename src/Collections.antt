-- ===== src/Collections.antt =====
-- kernel/src/collections, and the pipes and handle tables that rest on it.
mod Tests
pub mod RingBuffer
pub mod SlotList
pub mod Pipe
pub mod RefCount
