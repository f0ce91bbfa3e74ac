-- ===== src/Memory/Bitmap.antt =====
-- kernel/src/memory/physical/bitmap.rs: one bit for each frame of 4 KiB, set while it is in use.
pub mod Frames
pub mod Count
pub mod Ranges
pub mod Search
use idos_nx.Base.{
  ℕ, zero, suc, ◌+◌, ◌-◌, ◌*◌, ◌/◌, ◌%◌, ◌^◌, Bool, true, false, Option, none, some, List, [], ◌∷◌,
  arith, ltb, ◌==◌, if◌then◌else◌, length, get_or, set, replicate, add32, sub32, ◌<<<◌, ◌>>>◌,
  bit_and,
}
use idos_nx.Base.Bits.{bit_set, with_bit, without_bit}
use idos_nx.Base.Results.{Result, ok, err}
use idos_nx.Memory.Range.{FrameRange, get_first_frame_index, get_last_frame_index}

pub data BitmapError : Type 0 where
  no_available_space out_of_bounds already_free : BitmapError

-- The bytes of the map.
pub record FrameBitmap : Type 0 where
  pub map : List ℕ

-- `n` bytes of memory from an address on.
slice : (ℕ → ℕ) → ℕ → ℕ → List ℕ
slice memory start zero = []
slice memory start (suc n) = memory start ∷ slice memory (start + 1) n

pub byte_size : ℕ → ℕ
byte_size frame_count = if frame_count % 8 == 0 then frame_count >>> 3 else (frame_count >>> 3) + 1

pub at_location : (ℕ → ℕ) → ℕ → ℕ → FrameBitmap
unfolding slice byte_size
at_location memory start frame_count = record { map = slice memory start (byte_size frame_count) }

unfoldable pub reset : FrameBitmap → FrameBitmap
reset b = record { map = replicate (length b.map) 0xff }

abbrev pub total_frame_count : FrameBitmap → ℕ
total_frame_count b = length b.map * 8

pub size_in_frames : FrameBitmap → ℕ
size_in_frames b =
    if length b.map % 4096 == 0 then length b.map >>> 12 else (length b.map >>> 12) + 1

unfoldable pub contains_range : FrameBitmap → FrameRange → Bool
contains_range b r = ltb (get_last_frame_index r) (total_frame_count b)

-- The test of the byte at `frame >> 3` under the mask of `frame & 7`.
unfoldable pub frame_used : List ℕ → ℕ → Bool
frame_used m frame = bit_set (get_or m (frame >>> 3) 0) (frame % 8)

module _ (op : ℕ → ℕ → ℕ) where
  -- `self.map[byte_index]` updated at one frame: `|=` by `with_bit`, `&= !` by `without_bit`
  unfoldable pub update_frame : List ℕ → ℕ → List ℕ
  update_frame m frame = set m (frame >>> 3) (op (get_or m (frame >>> 3) 0) (frame % 8))

  -- `for frame in first..=last`, as the number of rounds and the first frame
  unfoldable pub update_frames : ℕ → ℕ → List ℕ → List ℕ
  update_frames zero frame m = m
  update_frames (suc n) frame m = update_frames n (frame + 1) (update_frame m frame)

abbrev pub rounds : FrameRange → ℕ
rounds r = get_last_frame_index r + 1 - get_first_frame_index r

unfoldable pub free_range : FrameBitmap → FrameRange → Result (Unit {0}) BitmapError × FrameBitmap
unfolding contains_range
free_range b r =
    if contains_range b r
    then (
      ok tt,
      record { map = update_frames without_bit (rounds r) (get_first_frame_index r) b.map },
    )
    else (err out_of_bounds, b)

unfoldable pub allocate_range :
    FrameBitmap → FrameRange → Result (Unit {0}) BitmapError × FrameBitmap
unfolding contains_range
allocate_range b r =
    if contains_range b r
    then (ok tt, record { map = update_frames with_bit (rounds r) (get_first_frame_index r) b.map })
    else (err out_of_bounds, b)

pub free_frame : FrameBitmap → ℕ → Result (Unit {0}) BitmapError × FrameBitmap
free_frame b address =
    let frame = address >>> 12 in
    if ltb frame (total_frame_count b)
    then if frame_used b.map frame
      then (ok tt, record { map = update_frame without_bit b.map frame })
      else (err already_free, b)
    else (err out_of_bounds, b)

pub is_address_allocated : FrameBitmap → ℕ → Bool
is_address_allocated b address =
    let frame = address >>> 12 in
    if ltb frame (total_frame_count b) then frame_used b.map frame else false

all_free : List ℕ → ℕ → ℕ → Bool
all_free m zero frame = true
all_free m (suc n) frame =
    let rest = all_free m n (frame + 1) in if frame_used m frame then false else rest

pub is_range_free : FrameBitmap → FrameRange → Bool
unfolding contains_range all_free
is_range_free b r =
    if contains_range b r then all_free b.map (rounds r) (get_first_frame_index r) else false

-- The `while` of `find_free_range`. The first argument is `search_end - frame`.
pub search_from : List ℕ → ℕ → ℕ → ℕ → ℕ → ℕ → Option FrameRange
search_from m frame_count zero frame remaining search_start = none
search_from m frame_count (suc left) frame remaining search_start =
    let restarted = search_from m frame_count left (frame + 1) frame_count (frame + 1) in
    let continued = search_from m frame_count left (frame + 1) (sub32 remaining 1) search_start in
    if frame_used m frame
    then restarted
    else if sub32 remaining 1 == 0
    then some (record { start = search_start <<< 12; length = (frame + 1 - search_start) <<< 12 })
    else continued

unfoldable pub find_free_range : FrameBitmap → ℕ → Option FrameRange
unfolding search_from
find_free_range b frame_count = search_from b.map frame_count (total_frame_count b) 0 frame_count 0

-- `self.allocate_range(range).map(|_| range)`
abbrev pub with_range : FrameRange → Result (Unit {0}) BitmapError → Result FrameRange BitmapError
with_range r (ok _) = ok r
with_range r (err e) = err e

abbrev pub allocate_found :
    FrameBitmap → Option FrameRange → Result FrameRange BitmapError × FrameBitmap
allocate_found b none = (err no_available_space, b)
allocate_found b (some r) = (with_range r (allocate_range b r).0, (allocate_range b r).1)

unfoldable pub allocate_frames : FrameBitmap → ℕ → Result FrameRange BitmapError × FrameBitmap
allocate_frames b frame_count = allocate_found b (find_free_range b frame_count)

-- `if map_value & mask == 0 { free += 1; }`
pub tally : ℕ → ℕ → ℕ → ℕ
tally value mask free = if bit_and value mask == 0 then free + 1 else free

-- The inner `while mask != 0` of `get_free_frame_count`, over `free` and `frame`. A mask of eight
-- bits is shifted out after eight rounds.
pub count_bits : ℕ → ℕ → ℕ → ℕ → ℕ → ℕ × ℕ
count_bits zero value mask free frame = (free, frame)
count_bits (suc fuel) value mask free frame =
    let rest = count_bits fuel value (mask * 2 % 256) (tally value mask free) (frame + 1) in
    if mask == 0 then (free, frame) else rest

-- The outer loop; each round moves `frame` on.
pub count_from : ℕ → List ℕ → ℕ → ℕ → ℕ
count_from zero m free frame = free
count_from (suc fuel) m free frame =
    let value = get_or m (frame >>> 3) 0 in
    let counted = count_bits 9 value 1 free frame in
    let skipped = count_from fuel m free (frame + 1) in
    let went_on = count_from fuel m counted.0 counted.1 in
    if ltb frame (length m * 8) then (if value == 0xff then skipped else went_on) else free

unfoldable pub get_free_frame_count : FrameBitmap → ℕ
unfolding tally count_bits count_from
get_free_frame_count b = count_from (total_frame_count b + 1) b.map 0 0
