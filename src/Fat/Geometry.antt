-- ===== src/Fat/Geometry.antt =====
-- components/drivers/floppy/src/geometry.rs: the place of a sector on the floppy disk.
use idos_nx.Base.{ℕ, ◌+◌, ◌-◌, ◌*◌, ◌/◌, ◌%◌, ◌≤◌, ◌<◌, ◌≡◌, arith}

abbrev pub sectors_per_track : ℕ
sectors_per_track = 18

pub record ChsGeometry : Type 0 where
  pub cylinder : ℕ
  pub head : ℕ
  pub sector : ℕ

unfoldable pub from_lba : ℕ → ChsGeometry
from_lba lba =
    let sectors_per_cylinder = 2 * sectors_per_track in
    let cylinder_offset = lba % sectors_per_cylinder in
    record {
      cylinder = lba / sectors_per_cylinder;
      head = cylinder_offset / sectors_per_track;
      sector = cylinder_offset % sectors_per_track + 1;
    }

-- The place names the block: its two heads, its sectors from 1 to 18, and counting them in order of
-- cylinder, head and sector gives the number of the block again.
pub from_lba_lem :
    (lba : ℕ)
    → let place = from_lba lba in
      (place.head < 2)
      × (1 ≤ place.sector)
      × (place.sector ≤ sectors_per_track)
      × ((place.cylinder * 2 + place.head) * sectors_per_track + (place.sector - 1) ≡ lba)
unfolding from_lba
from_lba_lem lba = (omega arith, omega arith, omega arith, omega arith)
