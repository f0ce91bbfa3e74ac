-- ===== src/Memory/Range.antt =====
-- kernel/src/memory/physical/range.rs
use idos_nx.Base.{
  ℕ, ◌+◌, ◌^◌, ◌≤◌, ◌<◌, ◌≡◌, Bool, true, ◌&&◌, ◌↔◌, arith, leb, add32, sub32, ◌>>>◌,
}
use idos_nx.Memory.Address.{address_add}

pub record FrameRange : Type 0 where
  pub start : ℕ
  pub length : ℕ

abbrev pub get_first_frame_index : FrameRange → ℕ
get_first_frame_index r = r.start >>> 12

abbrev pub get_last_frame_index : FrameRange → ℕ
get_last_frame_index r = sub32 (add32 r.start r.length) 1 >>> 12

abbrev pub get_final_address : FrameRange → ℕ
get_final_address r = address_add r.start (sub32 r.length 1)

unfoldable pub contains_address : FrameRange → ℕ → Bool
contains_address r a = leb r.start a && leb a (get_final_address r)

-- A range that is not empty and does not pass the end of the address space.
pub record Fits (r : FrameRange) : Type 0 where
  pub pos : 0 < r.length
  pub top : r.start + r.length ≤ 2 ^ 32

-- A range that fits contains exactly the addresses from `start` below `start + length`, and an
-- address in it lies in a frame from the first to the last.
pub contains_address_iff :
    (r : FrameRange) (a : ℕ)
    → Fits r
    → (contains_address r a ≡ true) ↔ ((r.start ≤ a) × (a < r.start + r.length))
unfolding contains_address
contains_address_iff r a h = ground arith

pub frames_of_range :
    (r : FrameRange) (a : ℕ)
    → Fits r
    → contains_address r a ≡ true
    → (get_first_frame_index r ≤ a >>> 12) × (a >>> 12 ≤ get_last_frame_index r)
unfolding contains_address
frames_of_range r a h c = ground arith
