-- ===== src/Memory.antt =====
-- kernel/src/memory: addresses, and the tracking of physical frames.
mod Tests
pub mod Address
pub mod Range
pub mod Bitmap
pub mod BiosMap
pub mod Tracking
pub mod Heap
