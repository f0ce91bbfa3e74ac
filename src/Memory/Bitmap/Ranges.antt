-- ===== src/Memory/Bitmap/Ranges.antt =====
-- `allocate_range`, `free_range` and `free_frame`, and the tests of ranges.
use native.Mathlib.Decide.{ℕ_discrete}
use idos_nx.Base.{
  ℕ, zero, suc, ◌+◌, ◌-◌, ◌*◌, ◌≤◌, ◌<◌, ◌≡◌, refl, Bool, true, false, ◌&&◌, List, arith, ltb, leb,
  ◌==◌, if◌then◌else◌, length, ◌↔◌, ◌>>>◌, Bool-cases, inl, inr,
}
use idos_nx.Base.Results.{ok, err}
use idos_nx.Memory.Range.{FrameRange, get_first_frame_index, get_last_frame_index}
use idos_nx.Memory.Bitmap.{
  FrameBitmap, frame_used, update_frames, rounds, contains_range, total_frame_count, free_range,
  allocate_range, free_frame, all_free, is_range_free, out_of_bounds, already_free,
}
use idos_nx.Memory.Bitmap.Frames.{
  IsBytes, Writes, with_bit-Writes, without_bit-Writes, frame_used-update_frames,
  frame_used-update_frame, length-update_frames, update_frames-IsBytes,
}

-- The frames of a range, of which there are none if the last comes before the first.
abbrev pub in_frames : FrameRange → ℕ → Bool
in_frames r g = leb (get_first_frame_index r) g && leb g (get_last_frame_index r)

module _ {op : ℕ → ℕ → ℕ} {v : Bool} (w : Writes op v) where
  frame_used_to_last :
      (first last g n : ℕ) {m : List ℕ}
      → IsBytes m
      → last < length m * 8
      → n ≡ last + 1 - first
      → frame_used (update_frames op n first m) g
        ≡ (if leb first g && leb g last then v else frame_used m g)
  unfolding update_frames
  frame_used_to_last first last g zero h inside e = ground arith
  frame_used_to_last first last g (suc n) {m} h inside e =
      unfold update_frames in ground (arith, frame_used-update_frames w (suc n) first g h)

module _ (b : FrameBitmap) (r : FrameRange) (h : IsBytes b.map) where
  -- On a map of bytes `allocate_range` succeeds if `contains_range` holds, and then marks the frames of
  -- the range and no other; else it returns `out_of_bounds` and changes no frame.
  pub allocate_range_frames :
      (g : ℕ)
      → ((allocate_range b r).0 ≡ (if contains_range b r then ok tt else err out_of_bounds))
        × (frame_used (allocate_range b r).1.map g
            ≡ (if contains_range b r && in_frames r g then true else frame_used b.map g))
  unfolding allocate_range
  allocate_range_frames g = ground (
    arith,
    frame_used_to_last with_bit-Writes (get_first_frame_index r) (get_last_frame_index r) g
        (rounds r) h,
  )

  -- On a map of bytes `free_range` succeeds if `contains_range` holds, and then clears the frames of the
  -- range and no other; else it returns `out_of_bounds` and changes no frame.
  pub free_range_frames :
      (g : ℕ)
      → ((free_range b r).0 ≡ (if contains_range b r then ok tt else err out_of_bounds))
        × (frame_used (free_range b r).1.map g
            ≡ (if contains_range b r && in_frames r g then false else frame_used b.map g))
  unfolding free_range
  free_range_frames g = ground (
    arith,
    frame_used_to_last without_bit-Writes (get_first_frame_index r) (get_last_frame_index r) g
        (rounds r) h,
  )

  pub allocate_range-IsBytes : IsBytes (allocate_range b r).1.map
  unfolding allocate_range
  allocate_range-IsBytes =
      ground (arith, update_frames-IsBytes with_bit-Writes (rounds r) (get_first_frame_index r) h)

  pub free_range-IsBytes : IsBytes (free_range b r).1.map
  unfolding free_range
  free_range-IsBytes =
      ground
        (arith, update_frames-IsBytes without_bit-Writes (rounds r) (get_first_frame_index r) h)

  pub length-free_range : length (free_range b r).1.map ≡ length b.map
  unfolding free_range
  length-free_range =
      ground
        (arith, length-update_frames without_bit-Writes (rounds r) (get_first_frame_index r) b.map)

all_free_lem :
    (m : List ℕ) (n f : ℕ)
    → (all_free m n f ≡ true) ↔ ((g : ℕ) → f ≤ g → g < f + n → frame_used m g ≡ false)
unfolding all_free
all_free_lem m zero f = ((λ _ g p q. absurd (omega arith)), λ _. refl)
all_free_lem m (suc n) f = elim (Bool-cases (frame_used m f)) [
  | inl used ↦ rw used ((λ (h : false ≡ true). cc), λ h. cc (h f (omega arith) (omega arith), used))
  | inr free ↦ rw free (
    (λ h g p q. elim (ℕ_discrete g f) [
      | yes e ↦ rw e free
      | no ne ↦ (all_free_lem m n (f + 1)).0 h g (omega arith) (omega arith)
    ]),
    λ h. (all_free_lem m n (f + 1)).1 (λ g p q. h g (omega arith) (omega arith)),
  )
]

-- Of a range whose first frame is not after its last, `is_range_free` holds exactly if
-- `contains_range` does and all frames of the range are free.
pub is_range_free_iff :
    (b : FrameBitmap) (r : FrameRange)
    → get_first_frame_index r ≤ get_last_frame_index r
    → (is_range_free b r ≡ true) ↔ (
        (contains_range b r ≡ true) × ((g : ℕ) → in_frames r g ≡ true → frame_used b.map g ≡ false))
unfolding is_range_free
is_range_free_iff b r order =
    let whole = all_free_lem b.map (rounds r) (get_first_frame_index r) in
    (
      (λ e. (ground arith, λ g i. whole.0 (ground arith) g (ground arith) (ground arith))),
      λ p. let e = whole.1 (λ g lo hi. p.1 g (ground arith)) in rw (p.0, e),
    )

-- On a map of bytes `free_frame` returns `out_of_bounds` for a frame outside the map, and
-- `already_free` for one that is not in use; else it clears the frame of the address. No other frame
-- changes.
pub free_frame_lem :
    (b : FrameBitmap) (address g : ℕ)
    → IsBytes b.map
    → let frame = address >>> 12 in
      let inside = ltb frame (total_frame_count b) in
      ((free_frame b address).0 ≡ (
        if inside
        then (if frame_used b.map frame then ok tt else err already_free)
        else err out_of_bounds))
      × (frame_used (free_frame b address).1.map g
          ≡ (if inside && frame == g then false else frame_used b.map g))
unfolding free_frame
free_frame_lem b address g h =
    ground (arith, frame_used-update_frame without_bit-Writes (address >>> 12) g h)
