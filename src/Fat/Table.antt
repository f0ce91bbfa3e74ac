-- ===== src/Fat/Table.antt =====
-- components/drivers/fatdriver/src/table.rs: the FAT12 allocation table. The disk is the byte at each
-- offset, as `DiskAccess` presents it. Offsets into the tables of a FAT12 disk are far below 2 ^ 32, so
-- their sums are not reduced.
pub mod Entries
pub mod Allocate
use idos_nx.Base.{
  ℕ, zero, suc, ◌+◌, ◌*◌, ◌/◌, ◌%◌, Option, none, some, ◌==◌, if◌then◌else◌, wrap32, sub32,
}

pub record BiosParamBlock : Type 0 where
  pub bytes_per_sector : ℕ
  pub sectors_per_cluster : ℕ
  pub reserved_sectors : ℕ
  pub fat_count : ℕ
  pub root_directory_entries : ℕ
  pub total_sectors : ℕ
  pub media_descriptor : ℕ
  pub sectors_per_fat : ℕ

pub record AllocationTable : Type 0 where
  pub table_start : ℕ
  pub sectors_per_cluster : ℕ
  pub bytes_per_fat : ℕ
  pub fat_count : ℕ
  pub first_cluster_location : ℕ

abbrev pub first_root_directory_sector : BiosParamBlock → ℕ
first_root_directory_sector bpb = bpb.reserved_sectors + bpb.fat_count * bpb.sectors_per_fat

abbrev pub root_directory_size : BiosParamBlock → ℕ
root_directory_size bpb = bpb.root_directory_entries * 32

unfoldable pub from_bpb : BiosParamBlock → AllocationTable
from_bpb bpb = record {
  table_start = bpb.reserved_sectors * 512;
  sectors_per_cluster = bpb.sectors_per_cluster;
  bytes_per_fat = bpb.sectors_per_fat * 512;
  fat_count = bpb.fat_count;
  first_cluster_location = wrap32 (first_root_directory_sector bpb * 512 + root_directory_size bpb);
}

abbrev pub bytes_per_cluster : AllocationTable → ℕ
bytes_per_cluster t = t.sectors_per_cluster * 512

unfoldable pub get_cluster_location : AllocationTable → ℕ → ℕ
get_cluster_location t cluster =
    wrap32 (t.first_cluster_location + bytes_per_cluster t * sub32 cluster 2)

abbrev pub Disk : Type 0
Disk = ℕ → ℕ

-- `read_bytes_from_disk` and `write_bytes_to_disk` of three bytes, as one little-endian number.
abbrev pub read_pair : Disk → ℕ → ℕ
read_pair d at = d (at + 2) * 0x10000 + d (at + 1) * 0x100 + d at

abbrev pub write_pair : Disk → ℕ → ℕ → Disk
write_pair d at pair x =
    if x == at
    then pair % 256
    else if x == at + 1
    then pair / 0x100 % 256
    else if x == at + 2
    then pair / 0x10000 % 256
    else d x

abbrev pub pair_offset : ℕ → ℕ
pair_offset cluster = cluster / 2 * 3

-- The low twelve bits for an even cluster, the high twelve for an odd one.
abbrev pub entry_of : ℕ → ℕ → ℕ
entry_of cluster pair = if cluster % 2 == 0 then pair % 0x1000 else pair / 0x1000 % 0x1000

abbrev pub with_entry : ℕ → ℕ → ℕ → ℕ
with_entry cluster value pair =
    if cluster % 2 == 0
    then pair / 0x1000 % 0x1000 * 0x1000 + value
    else pair % 0x1000 + value * 0x1000

unfoldable pub get_next_cluster : AllocationTable → ℕ → Disk → Option ℕ
get_next_cluster t cluster d =
    let next_cluster = entry_of cluster (read_pair d (t.table_start + pair_offset cluster)) in
    if next_cluster == 0xfff then none else some next_cluster

unfoldable pub get_nth_cluster : AllocationTable → ℕ → ℕ → Disk → Option ℕ
unfolding get_next_cluster
get_nth_cluster t current zero d = some current
get_nth_cluster t current (suc index) d = elim (get_next_cluster t current d) [
  | none ↦ none
  | some next ↦ get_nth_cluster t next index d
]

-- The table copy that starts at an offset.
abbrev pub set_in_copy : ℕ → ℕ → ℕ → Disk → Disk
set_in_copy fat_start cluster value d =
    write_pair d (fat_start + pair_offset cluster)
      (with_entry cluster value (read_pair d (fat_start + pair_offset cluster)))

-- The loop of `set_cluster_entry`, over the copies that are left.
unfoldable pub set_copies : ℕ → AllocationTable → ℕ → ℕ → ℕ → Disk → Disk
set_copies zero t fat_index cluster value d = d
set_copies (suc left) t fat_index cluster value d =
    set_copies left t (fat_index + 1) cluster value
      (set_in_copy (t.table_start + fat_index * t.bytes_per_fat) cluster value d)

unfoldable pub set_cluster_entry : AllocationTable → ℕ → ℕ → Disk → Disk
unfolding set_copies
set_cluster_entry t cluster value d = set_copies t.fat_count t 0 cluster (value % 0x1000) d

-- The loop of `allocate_cluster`, over the clusters that are left.
unfoldable pub allocate_from : ℕ → AllocationTable → ℕ → Disk → Option ℕ × Disk
unfolding set_cluster_entry
allocate_from zero t cluster d = (none, d)
allocate_from (suc left) t cluster d =
    let rest = allocate_from left t (cluster + 1) d in
    if entry_of cluster (read_pair d (t.table_start + pair_offset cluster)) == 0
    then (some cluster, set_cluster_entry t cluster 0xfff d)
    else rest

unfoldable pub allocate_cluster : AllocationTable → Disk → Option ℕ × Disk
unfolding allocate_from
allocate_cluster t d = allocate_from 4083 t 2 d

-- `free_chain`, for at most so many clusters: none if the chain is longer, for the loop has no other
-- end than the mark 0xfff.
unfoldable pub free_chain : ℕ → AllocationTable → ℕ → Disk → Option Disk
unfolding get_next_cluster set_cluster_entry
free_chain zero t current d = none
free_chain (suc rounds) t current d = elim (get_next_cluster t current d) [
  | none ↦ some (set_cluster_entry t current 0 d)
  | some next ↦ free_chain rounds t next (set_cluster_entry t current 0 d)
]
