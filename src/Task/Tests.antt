-- ===== src/Task/Tests.antt =====
-- Tests of the task modules on small inputs, and their theorems at such inputs.
use idos_nx.Base.{◌≡◌, refl, false, some, List, [], ◌∷◌, arith}
use idos_nx.Base.Results.{ok, done}
use idos_nx.Task.Mapping.{
  MemMappedRegion, Regions, UnmappedRegion, free_memory, file_backed, unmap_memory, file_offset,
}
use idos_nx.Task.Mapping.Removed.{Removed, unmap_memory_lem}
use idos_nx.Task.Mapping.Tail.{Cut, tail_offset}
use idos_nx.Task.Mapping.Paged.{Nearest}
use idos_nx.Task.Mapping.Nearest.{find_nearest_free_space-Nearest}
use idos_nx.Task.Mapping.Placed.{Highest, find_free_mapping_space-Highest}
use idos_nx.Task.Mapping.Request.{Mapped, map_memory-Mapped}
use idos_nx.Task.Mapping.Space.{
  improve, consider, nearest_from, find_nearest_free_space, search_down, find_free_mapping_space,
  map_memory,
}

-- The map of the source's own test, with a second region.
abbrev regions : Regions
regions =
    record { address = 0x4000; size = 0x3000; backed_by = free_memory }
    ∷ record { address = 0x8000; size = 0x1800; backed_by = free_memory }
    ∷ []

unmap_memory_lem_example :
    (out : List UnmappedRegion) × (m' : Regions) × (unmap_memory 0xc0000000 regions 0x5000 0x4000
      ≡ done (ok out, m'))
    × Removed 0 0xc0000000 0x5000 0x9000 regions m' out
unmap_memory_lem_example =
    unmap_memory_lem 0xc0000000 0 0xc0000000 regions 0x5000 0x4000 (omega arith) (omega arith)
      (omega arith) (omega arith) (omega arith) (omega arith)

-- Four pages of a file, mapped from its byte 0x1000 on.
abbrev file_region : MemMappedRegion
file_region = record { address = 0x10000; size = 0x4000; backed_by = file_backed 1 2 0x1000 false }

file_region-Cut : Cut file_region 1 2 0x1000 false 0x1000 0x12000
file_region-Cut = record {
  backed = refl;
  aligned = omega arith;
  within = omega arith;
  bound = omega arith;
}

-- The third page holds the bytes from 0x3000; after the first page is unmapped, those from 0x2000.
tail_offset_example :
    (out : List UnmappedRegion) × (m' : Regions) × (unmap_memory 0xc0000000
        (file_region ∷ [])
        0x10000
        0x1000
      ≡ done (ok out, m'))
    × (file_offset (file_region ∷ []) 0x12000 ≡ some 0x3000)
    × (file_offset m' 0x12000 ≡ some 0x2000)
tail_offset_example =
    tail_offset 0xc0000000 file_region 1 2 0x1000 false 0x1000 0x12000 file_region-Cut (omega arith)
      (omega arith)

-- The place asked for, 0x5000, is taken; the free page below is as near as any.
nearest-regions : find_nearest_free_space 0xc0000000 regions 0x5000 0x1000 ≡ some 0x7000
unfolding find_nearest_free_space nearest_from consider improve
nearest-regions = refl

find_nearest_free_space-Nearest_example :
    Nearest 0xc0000000 regions 0x5000 0x1000
      (find_nearest_free_space 0xc0000000 regions 0x5000 0x1000)
find_nearest_free_space-Nearest_example =
    find_nearest_free_space-Nearest 0xc0000000 0x5000 0x1000 regions (omega arith) (omega arith)
      (omega arith) (omega arith) (omega arith) (omega arith) (omega arith)

map_memory-Mapped_example :
    Mapped 0xc0000000 regions 0x5000 0x1800 free_memory
      (map_memory 0xc0000000 regions (some 0x5000) 0x1800 free_memory)
map_memory-Mapped_example =
    map_memory-Mapped 0xc0000000 0x5000 0x1800 regions free_memory (omega arith) (omega arith)
      (omega arith) (omega arith) (omega arith) (omega arith) (omega arith)

-- An address space of ten pages with no room for five.
no_room : find_free_mapping_space 0xa000 regions 0x5000 ≡ some 0
unfolding find_free_mapping_space search_down
no_room = refl

find_free_mapping_space-Highest_example :
    Highest 0xa000 0x5000 regions (find_free_mapping_space 0xa000 regions 0x5000)
find_free_mapping_space-Highest_example =
    find_free_mapping_space-Highest 0xa000 0x5000 regions (omega arith) (omega arith) (omega arith)
      (omega arith) (omega arith)
