-- ===== src/Fat/Tests.antt =====
-- A small table, and the theorems at it.
use idos_nx.Base.{ℕ, ◌≤◌, ◌<◌, ◌≡◌, refl, ◌≢◌, some, [], ◌∷◌, arith, ◌==◌, if◌then◌else◌}
use idos_nx.Base.Results.{done}
use idos_nx.Fat.Cache.{Cells, hash_empty, hash_insert, hash_lookup}
use idos_nx.Fat.Cache.Insert.{empty-IsTable, hash_insert_lem}
use idos_nx.Fat.Cache.Probing.{IsTable, position, hash_lookup_lem}
use idos_nx.Fat.Geometry.{from_lba}
use idos_nx.Fat.Table.{AllocationTable, Disk, get_next_cluster, allocate_cluster, free_chain}
use idos_nx.Fat.Table.Entries.{HasBytes, InTable, entry_in}
use idos_nx.Fat.Table.Allocate.{first_entry, allocate_cluster_lem, freed, free_chain_lem}

-- Two copies of a table of one sector, behind the boot sector.
abbrev table : AllocationTable
table = record {
  table_start = 512;
  sectors_per_cluster = 1;
  bytes_per_fat = 512;
  fat_count = 2;
  first_cluster_location = 8192;
}

-- Cluster 2 is followed by cluster 3, which ends the chain; the others are free.
abbrev disk : Disk
disk = λ x. if x == 515 then 3 else if x == 516 then 0xf0 else if x == 517 then 0xff else 0

disk-HasBytes : HasBytes disk
disk-HasBytes x = ground arith

next_of_two : get_next_cluster table 2 disk ≡ some 3
unfolding get_next_cluster
next_of_two = refl

allocate_cluster_lem_example :
    (c : ℕ) × ((allocate_cluster table disk).0 ≡ some c)
    × (2 ≤ c)
    × (c ≤ 5)
    × (first_entry table disk c ≡ 0)
    × ((k : ℕ) → 2 ≤ k → k < c → first_entry table disk k ≢ 0)
    × ((g k : ℕ)
        → g < 2
        → InTable table k
        → entry_in table g (allocate_cluster table disk).1 k
          ≡ (if c == k then 0xfff else entry_in table g disk k))
allocate_cluster_lem_example =
    allocate_cluster_lem table 5 disk disk-HasBytes (omega arith) (omega arith) (omega arith)
      (omega arith) refl

free_chain_lem_example :
    (d' : Disk) × (free_chain 2 table 2 disk ≡ some d')
    × ((k : ℕ)
        → InTable table k
        → first_entry table d' k ≡ freed (2 ∷ 3 ∷ []) k (first_entry table disk k))
free_chain_lem_example = free_chain_lem table (omega arith) (3 ∷ []) 2 disk disk-HasBytes (
  refl,
  (λ e. absurd (omega (arith, e))),
  omega arith,
  ((λ e. absurd (omega (arith, e))), tt),
  (refl, omega arith),
)

last_block : from_lba 2879 ≡ record { cylinder = 79; head = 1; sector = 18 }
unfolding from_lba
last_block = refl

abbrev no_slots : Cells
no_slots i = hash_empty

hash_insert_lem_example : IsTable (hash_insert no_slots 7 0) (7 ∷ [])
hash_insert_lem_example = hash_insert_lem no_slots [] 7 empty-IsTable (omega arith) (λ slot e. cc)

hash_lookup_lem_example :
    hash_lookup (hash_insert no_slots 7 0) (7 ∷ []) 7 ≡ done (position (7 ∷ []) 7)
hash_lookup_lem_example =
    hash_lookup_lem (hash_insert no_slots 7 0) (7 ∷ []) 7
      (hash_insert_lem no_slots [] 7 empty-IsTable (omega arith) (λ slot e. cc))
