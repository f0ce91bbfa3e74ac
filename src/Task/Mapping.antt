-- ===== src/Task/Mapping.antt =====
-- kernel/src/task/memory.rs: the mapped regions of a task's address space. The `BTreeMap` from
-- start addresses to regions is the list of its regions by ascending address; a region's key is
-- its own address.
pub mod Map
pub mod Unmap
pub mod Removed
pub mod Tail
pub mod Space
pub mod Paged
pub mod Nearest
pub mod Placed
pub mod Request
use idos_nx.Base.{
  ℕ, zero, suc, ◌+◌, ◌-◌, ◌*◌, ◌/◌, ◌%◌, ◌^◌, min, max, Bool, true, false, not, ◌&&◌, ◌||◌, Option,
  none, some, List, [], ◌∷◌, ◌++◌, ltb, leb, ◌==◌, if◌then◌else◌, add32,
}
use idos_nx.Base.Results.{Result, ok, err, Outcome, done, panic, ◌>>=◌}
use idos_nx.Memory.Address.{address_add, address_sub, prev_page_barrier}

pub data MemoryBacking : Type 0 where
  direct : ℕ → MemoryBacking
  free_memory isa_dma : MemoryBacking
  file_backed : (driver_id mapping_token offset_in_file : ℕ) → Bool → MemoryBacking

pub record MemMappedRegion : Type 0 where
  pub address : ℕ
  pub size : ℕ
  pub backed_by : MemoryBacking

pub data UnmappedRegionKind : Type 0 where
  direct : ℕ → UnmappedRegionKind
  free_memory : UnmappedRegionKind
  file_backed : (driver_id mapping_token offset_in_file : ℕ) → Bool → UnmappedRegionKind

pub record UnmappedRegion : Type 0 where
  pub address : ℕ
  pub size : ℕ
  pub kind : UnmappedRegionKind

pub data MemMapError : Type 0 where
  invalid_size mapping_wrong_alignment not_enough_memory unmap_not_page_multiple map_out_of_bounds :
      MemMapError

abbrev pub Regions : Type 0
Regions = List MemMappedRegion

-- The end of `get_address_range`.
abbrev pub region_end : MemMappedRegion → ℕ
region_end r = address_add r.address r.size

abbrev pub contains_address : MemMappedRegion → ℕ → Bool
contains_address r addr = leb r.address addr && ltb addr (region_end r)

pub page_count : MemMappedRegion → ℕ
page_count r = add32 r.size 0xfff / 0x1000

pub get_mapping_containing_address : Regions → ℕ → Option MemMappedRegion
get_mapping_containing_address [] addr = none
get_mapping_containing_address (r ∷ rest) addr =
    if contains_address r addr then some r else get_mapping_containing_address rest addr

-- `total_offset` of the page-fault handler, kernel/src/task/paging.rs: where in its file the page of a
-- file-backed address is read from.
abbrev pub offset_in_region : MemMappedRegion → ℕ → Option ℕ
offset_in_region r addr = elim r.backed_by [
  | file_backed d t offset_in_file shared ↦
      some (add32 offset_in_file (address_sub (prev_page_barrier addr) r.address))
  | _ ↦ none
]

abbrev pub offset_at : Option MemMappedRegion → ℕ → Option ℕ
offset_at none addr = none
offset_at (some r) addr = offset_in_region r addr

unfoldable pub file_offset : Regions → ℕ → Option ℕ
unfolding get_mapping_containing_address
file_offset m addr = offset_at (get_mapping_containing_address m addr) addr

-- `BTreeMap::remove` and `BTreeMap::insert`, at a region's own address.
pub find_key : ℕ → Regions → Option MemMappedRegion
find_key k [] = none
find_key k (r ∷ rest) = if r.address == k then some r else find_key k rest

pub remove_key : ℕ → Regions → Regions
remove_key k [] = []
remove_key k (r ∷ rest) = if r.address == k then rest else r ∷ remove_key k rest

pub insert : MemMappedRegion → Regions → Regions
insert x [] = x ∷ []
insert x (r ∷ rest) =
    if ltb x.address r.address
    then x ∷ r ∷ rest
    else if x.address == r.address
    then x ∷ rest
    else r ∷ insert x rest

-- `range(..=addr).next_back()` and `range(addr..).next()`
pub last_key : Regions → ℕ → Option ℕ
last_key [] addr = none
last_key (r ∷ rest) addr = elim (last_key rest addr) [
  | some k ↦ some k
  | none ↦ if leb r.address addr then some r.address else none
]

pub first_key : Regions → ℕ → Option ℕ
first_key [] addr = none
first_key (r ∷ rest) addr = if leb addr r.address then some r.address else first_key rest addr

pub initial_key : Regions → ℕ → Option ℕ
unfolding last_key first_key
initial_key m addr = elim (last_key m addr) [ some k ↦ some k | none ↦ first_key m addr ]

-- The first loop of `unmap_memory`, over `range(initial_key..)`: the keys to modify.
pub keys_to_modify : Regions → ℕ → ℕ → ℕ → List ℕ
keys_to_modify [] initial addr unmap_end = []
keys_to_modify (r ∷ rest) initial addr unmap_end =
    let others = keys_to_modify rest initial addr unmap_end in
    if ltb r.address initial
    then others
    else if leb unmap_end r.address
    then []
    else if leb (region_end r) addr
    then others
    else r.address ∷ others

abbrev pub kind_at : MemoryBacking → ℕ → UnmappedRegionKind
kind_at (direct paddr) offset = UnmappedRegionKind.direct (address_add paddr offset)
kind_at free_memory offset = UnmappedRegionKind.free_memory
kind_at isa_dma offset = UnmappedRegionKind.free_memory
kind_at (file_backed d t o shared) offset =
    UnmappedRegionKind.file_backed d t (add32 o offset) shared

-- What one region gives to the list of unmapped parts, and what is left of it on the two sides.
abbrev pub unmapped_part : MemMappedRegion → ℕ → ℕ → List UnmappedRegion
unmapped_part r addr unmap_end =
    let start = max r.address addr in
    let size = address_sub (min (region_end r) unmap_end) start in
    if ltb 0 size
    then record {
      address = start;
      size = size;
      kind = kind_at r.backed_by (address_sub start r.address);
    }
      ∷ []
    else []

abbrev pub part_before : MemMappedRegion → ℕ → MemMappedRegion
part_before r addr = record r { size = address_sub addr r.address }

abbrev pub part_after : MemMappedRegion → ℕ → MemMappedRegion
part_after r unmap_end = record r {
  address = unmap_end;
  size = address_sub (region_end r) unmap_end;
}

abbrev pub insert_before : MemMappedRegion → ℕ → Regions → Regions
insert_before r addr m = if ltb r.address addr then insert (part_before r addr) m else m

abbrev pub insert_after : MemMappedRegion → ℕ → Regions → Regions
insert_after r unmap_end m =
    if ltb unmap_end (region_end r) then insert (part_after r unmap_end) m else m

-- One round of the second loop: what `remove` found, and the map without it. `expect` and `assert!`
-- panic.
abbrev pub unmap_found :
    Option MemMappedRegion → Regions → ℕ → ℕ → Outcome (List UnmappedRegion × Regions)
unmap_found none m addr unmap_end = panic
unmap_found (some r) m addr unmap_end =
    if ltb (min (region_end r) unmap_end) (max r.address addr)
    then panic
    else done (unmapped_part r addr unmap_end, insert_after r unmap_end (insert_before r addr m))

pub unmap_key : ℕ → ℕ → ℕ → Regions → Outcome (List UnmappedRegion × Regions)
unfolding find_key remove_key insert
unmap_key k addr unmap_end m = unmap_found (find_key k m) (remove_key k m) addr unmap_end

pub unmap_keys : List ℕ → ℕ → ℕ → Regions → Outcome (List UnmappedRegion × Regions)
unfolding unmap_key
unmap_keys [] addr unmap_end m = done ([], m)
unmap_keys (k ∷ ks) addr unmap_end m = do
  (part, m') ← unmap_key k addr unmap_end m
  (parts, m'') ← unmap_keys ks addr unmap_end m'
  done (part ++ parts, m'')

abbrev pub unmap_from :
    Regions → Option ℕ → ℕ → ℕ → Outcome (Result (List UnmappedRegion) MemMapError × Regions)
unmap_from m none addr unmap_end = done (ok [], m)
unmap_from m (some initial) addr unmap_end = do
  (parts, m') ← unmap_keys (keys_to_modify m initial addr unmap_end) addr unmap_end m
  done (ok parts, m')

-- `U` is the bound of the mapped address space.
pub unmap_memory :
    ℕ → Regions → ℕ → ℕ → Outcome (Result (List UnmappedRegion) MemMapError × Regions)
unfolding initial_key keys_to_modify unmap_keys
unmap_memory U m addr length =
    if not (length % 0x1000 == 0)
    then done (err unmap_not_page_multiple, m)
    else if leb U addr || ltb U (add32 addr length)
    then done (err map_out_of_bounds, m)
    else unmap_from m (initial_key m addr) addr (address_add addr length)
