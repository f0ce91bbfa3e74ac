-- ===== src/Memory/Tests.antt =====
-- Tests of the memory modules on small inputs, and their theorems at such inputs.
use idos_nx.Base.{
  ℕ, zero, suc, ◌+◌, ◌*◌, ◌^◌, ◌%◌, ◌≤◌, ◌<◌, ◌≡◌, refl, ◌↔◌, true, false, not, ◌&&◌, none, some,
  List, [], ◌∷◌, arith, ltb, ◌==◌, get_or, if◌then◌else◌, ◌>>>◌,
}
use idos_nx.Base.Bits.{without_bit}
use idos_nx.Base.Results.{ok, err, done}
use idos_nx.Memory.Address.{page_indexes, get_page_directory_index, get_page_table_index}
use idos_nx.Memory.Range.{FrameRange, contains_address, contains_address_iff}
use idos_nx.Memory.Bitmap.{
  reset, update_frame, update_frames, FrameBitmap, frame_used, allocate_range, free_range,
  free_frame, is_range_free, contains_range, find_free_range, allocate_frames, get_free_frame_count,
  total_frame_count, out_of_bounds, already_free,
}
use idos_nx.Memory.Bitmap.Frames.{IsBytes}
use idos_nx.Memory.Bitmap.Ranges.{
  in_frames, allocate_range_frames, free_range_frames, free_frame_lem, is_range_free_iff,
}
use idos_nx.Memory.Bitmap.Search.{Finds, find_free_range-Finds, Allocates, allocate_frames_lem}
use idos_nx.Memory.Bitmap.Count.{free_below, get_free_frame_count_lem}
use idos_nx.Memory.BiosMap.{MapEntry, initialize_from_memory_map}
use idos_nx.Memory.BiosMap.Entries.{any_outside, before_outside, some_meets, free_bytes}
use idos_nx.Memory.BiosMap.Released.{initialize_from_memory_map_lem}
use idos_nx.Memory.Tracking.Nodes.{slot_at, slot_set}
use idos_nx.Memory.Tracking.{extract_index, empty_tree, contains, is_some}
use idos_nx.Memory.Tracking.Refine.{
  Op, add, add_if_exists, remove, count, run, spec_run, AllPages, run_refines,
  empty_tree-Represents, contains-eq-is_some,
}

-- Frames 0, 1, 6, 7 and 8 of sixteen are in use.
abbrev bitmap : FrameBitmap
bitmap = record { map = 0xc3 ∷ 1 ∷ [] }

bitmap-IsBytes : IsBytes bitmap.map
bitmap-IsBytes = record { at = at }
  where
    at : (i : ℕ) → get_or bitmap.map i 0 < 256
    at zero = omega arith
    at (suc zero) = omega arith
    at (suc (suc i)) = omega arith

allocate_frames_example :
    Allocates bitmap.map (allocate_frames bitmap 3).1.map 3 (allocate_frames bitmap 3).0
allocate_frames_example =
    allocate_frames_lem bitmap 3 bitmap-IsBytes (omega arith) (omega arith) (omega arith)

find_free_range-Finds_example : Finds bitmap.map 3 (find_free_range bitmap 3)
find_free_range-Finds_example =
    find_free_range-Finds bitmap 3 (omega arith) (omega arith) (omega arith)

get_free_frame_count_lem_example : get_free_frame_count bitmap ≡ free_below bitmap.map 16
get_free_frame_count_lem_example = get_free_frame_count_lem bitmap

free_frames : get_free_frame_count bitmap ≡ 11
unfolding get_free_frame_count
free_frames = refl

abbrev third : FrameRange
third = record { start = 0x2000; length = 0x2000 }

abbrev beyond : FrameRange
beyond = record { start = 0xf000; length = 0x2000 }

allocate_range_frames_example :
    ((allocate_range bitmap third).0
      ≡ (if contains_range bitmap third then ok tt else err out_of_bounds))
    × (frame_used (allocate_range bitmap third).1.map 3 ≡ (
        if contains_range bitmap third && in_frames third 3 then true else frame_used bitmap.map 3))
allocate_range_frames_example = allocate_range_frames bitmap third bitmap-IsBytes 3

free_range_frames_example :
    ((free_range bitmap beyond).0
      ≡ (if contains_range bitmap beyond then ok tt else err out_of_bounds))
    × (frame_used (free_range bitmap beyond).1.map 8 ≡ (
        if contains_range bitmap beyond && in_frames beyond 8
        then false
        else frame_used bitmap.map 8))
free_range_frames_example = free_range_frames bitmap beyond bitmap-IsBytes 8

is_range_free_iff_example : (is_range_free bitmap third ≡ true) ↔ (
    (contains_range bitmap third ≡ true)
    × ((g : ℕ) → in_frames third g ≡ true → frame_used bitmap.map g ≡ false))
is_range_free_iff_example = is_range_free_iff bitmap third (omega arith)

free_frame_lem_example :
    let frame = 0x6000 >>> 12 in
    let inside = ltb frame (total_frame_count bitmap) in
    ((free_frame bitmap 0x6000).0 ≡ (
      if inside
      then (if frame_used bitmap.map frame then ok tt else err already_free)
      else err out_of_bounds))
    × (frame_used (free_frame bitmap 0x6000).1.map 7
        ≡ (if inside && frame == 7 then false else frame_used bitmap.map 7))
free_frame_lem_example = free_frame_lem bitmap 0x6000 7 bitmap-IsBytes

-- Two free regions and a reserved one.
abbrev bios : List MapEntry
bios =
    record { base = 0; length = 0x2000; region_type = 1; acpi = 0 }
    ∷ record { base = 0x2000; length = 0x1000; region_type = 2; acpi = 0 }
    ∷ record { base = 0x4000; length = 0x3000; region_type = 1; acpi = 0 }
    ∷ []

initialize_total : (initialize_from_memory_map bitmap bios).0 ≡ ok 0x5000
unfolding initialize_from_memory_map free_range update_frames update_frame without_bit reset
initialize_total = refl

initialize_from_memory_map_lem_example :
    ((initialize_from_memory_map bitmap bios).0
      ≡ (if any_outside 16 bios then err out_of_bounds else ok (free_bytes bios % 2 ^ 32)))
    × (frame_used (initialize_from_memory_map bitmap bios).1.map 5
        ≡ not (some_meets (before_outside 16 bios) 5))
initialize_from_memory_map_lem_example =
    initialize_from_memory_map_lem bitmap bios 5 (refl, (refl, (refl, tt))) (omega arith)

-- A free entry at 4 GiB frees the first frames.
entry_at_4_gib :
    (initialize_from_memory_map bitmap
      (record { base = 0x100000000; length = 0x2000; region_type = 1; acpi = 0 } ∷ [])).1.map
    ≡ 252 ∷ 255 ∷ []
unfolding initialize_from_memory_map free_range update_frames update_frame without_bit reset
entry_at_4_gib = refl

-- A free entry of one byte frees its whole frame.
entry_of_one_byte :
    (initialize_from_memory_map bitmap
      (record { base = 0x1800; length = 1; region_type = 1; acpi = 0 } ∷ [])).1.map
    ≡ 253 ∷ 255 ∷ []
unfolding initialize_from_memory_map free_range update_frames update_frame without_bit reset
entry_of_one_byte = refl

-- A free entry of no bytes at 0 is out of bounds.
empty_entry :
    (initialize_from_memory_map bitmap
      (record { base = 0; length = 0; region_type = 1; acpi = 0 } ∷ [])).0
    ≡ err out_of_bounds
unfolding initialize_from_memory_map free_range reset
empty_entry = refl

abbrev calls : List Op
calls =
    add 0x1000
    ∷ add 0x1000
    ∷ add_if_exists 0x2000
    ∷ remove 0x1000
    ∷ count 0x1000
    ∷ remove 0x1000
    ∷ []

calls-AllPages : AllPages calls
calls-AllPages = omega arith

run_refines_example : run empty_tree calls ≡ done (spec_run (λ k. none) calls)
run_refines_example = run_refines calls empty_tree-Represents calls-AllPages

replies : run empty_tree calls ≡ done (some 1 ∷ some 2 ∷ none ∷ some 1 ∷ some 1 ∷ some 0 ∷ [])
unfolding run empty_tree slot_at extract_index slot_set
replies = refl

contains-eq-is_some_example : contains empty_tree 0x1000 ≡ is_some {A = ℕ} none
contains-eq-is_some_example = contains-eq-is_some 0x1000 empty_tree-Represents (omega arith)

kernel_indexes :
    (get_page_directory_index 0xc0401234 * 2 ^ 22 + get_page_table_index 0xc0401234 * 2 ^ 12 + 0x234
      ≡ 0xc0401234)
    × (get_page_directory_index 0xc0401234 < 1024)
    × (get_page_table_index 0xc0401234 < 1024)
kernel_indexes = page_indexes 0xc0401234 (omega arith)

contains_address_iff_example :
    (contains_address third 0x3fff ≡ true) ↔ ((0x2000 ≤ 0x3fff) × (0x3fff < 0x4000))
contains_address_iff_example = contains_address_iff third 0x3fff (omega arith)
