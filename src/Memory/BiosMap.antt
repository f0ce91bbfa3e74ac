-- ===== src/Memory/BiosMap.antt =====
-- kernel/src/memory/physical/bios.rs and `initialize_from_memory_map` of bitmap.rs: the map of free
-- memory that the BIOS reports becomes the frame bitmap.
pub mod Entries
pub mod Released
use idos_nx.Base.{ℕ, ◌%◌, ◌^◌, List, [], ◌∷◌, ◌==◌, if◌then◌else◌, length, add32}
use idos_nx.Base.Results.{Result, ok, err}
use idos_nx.Memory.Range.{FrameRange}
use idos_nx.Memory.Bitmap.{FrameBitmap, BitmapError, reset, free_range}

pub record MapEntry : Type 0 where
  pub base : ℕ
  pub length : ℕ
  pub region_type : ℕ
  pub acpi : ℕ

abbrev pub region_type_free : ℕ
region_type_free = 1

-- `as u32` of the two 64-bit fields
abbrev pub entry_range : MapEntry → FrameRange
entry_range e = record { start = e.base % 2 ^ 32; length = e.length % 2 ^ 32 }

-- The loop over the entries, with the `?` of `free_range`.
unfoldable pub release_entries :
    List MapEntry → ℕ → FrameBitmap → Result ℕ BitmapError × FrameBitmap
release_entries [] total_length b = (ok total_length, b)
release_entries (e ∷ rest) total_length b =
    let skipped = release_entries rest total_length b in
    let (freed, b') = free_range b (entry_range e) in
    let went_on = release_entries rest (add32 total_length (e.length % 2 ^ 32)) b' in
    if e.region_type == region_type_free
    then elim freed [ ok _ ↦ went_on | err x ↦ (err x, b') ]
    else skipped

unfoldable pub initialize_from_memory_map :
    FrameBitmap → List MapEntry → Result ℕ BitmapError × FrameBitmap
unfolding release_entries
initialize_from_memory_map b entries = release_entries entries 0 (reset b)
