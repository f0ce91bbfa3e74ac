-- ===== src/Fat.antt =====
-- components/drivers/fatdriver and the geometry of components/drivers/floppy.
mod Tests
pub mod Table
pub mod Geometry
pub mod Cache
