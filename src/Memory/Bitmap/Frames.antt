-- ===== src/Memory/Bitmap/Frames.antt =====
-- What the updates of the map do to each frame's bit.
use idos_nx.Base.{
  ℕ, zero, suc, ◌+◌, ◌*◌, ◌/◌, ◌%◌, ◌≤◌, ◌<◌, ◌≡◌, refl, ◌∙◌, Bool, true, false, ◌&&◌, List, arith,
  ltb, leb, ◌==◌, if◌then◌else◌, length, get_or, length-set, get_or-set,
}
use idos_nx.Base.Bits.{
  bit_set, with_bit, without_bit, bit_set-with_bit, bit_set-without_bit, with_bit-lt,
  without_bit-lt,
}
use idos_nx.Memory.Bitmap.{frame_used, update_frame, update_frames}

pub record IsBytes (m : List ℕ) : Type 0 where
  pub at : (i : ℕ) → get_or m i 0 < 256

-- What the bit operations of `Base.Bits` do, for either of them.
pub record Writes (op : ℕ → ℕ → ℕ) (v : Bool) : Type 0 where
  pub bit :
      (b k : ℕ)
      → b < 256
      → k < 8
      → (j : ℕ) → j < 8
      → bit_set (op b k) j ≡ (if k == j then v else bit_set b j)
  pub byte : (b k : ℕ) → b < 256 → k < 8 → op b k < 256

module _ {op : ℕ → ℕ → ℕ} {v : Bool} (w : Writes op v) where
  pub length-update_frame : (m : List ℕ) (f : ℕ) → length (update_frame op m f) ≡ length m
  unfolding update_frame
  length-update_frame m f = length-set m (f / 8) _

  pub update_frame-IsBytes : {m : List ℕ} (f : ℕ) → IsBytes m → IsBytes (update_frame op m f)
  unfolding update_frame
  update_frame-IsBytes {m} f h = record {
    at = λ i.
        rw (get_or-set m (f / 8) i (op (get_or m (f / 8) 0) (f % 8)) 0)
          (ground (arith, h.at i, w.byte (get_or m (f / 8) 0) (f % 8) (h.at (f / 8))));
  }

  pub frame_used-update_frame :
      {m : List ℕ} (f g : ℕ)
      → IsBytes m
      → f < length m * 8
      → frame_used (update_frame op m f) g ≡ (if f == g then v else frame_used m g)
  unfolding update_frame frame_used
  frame_used-update_frame {m} f g h inside =
      rw (get_or-set m (f / 8) (g / 8) (op (get_or m (f / 8) 0) (f % 8)) 0) (
        ground (
          arith,
          w.bit (get_or m (f / 8) 0) (f % 8) (h.at (f / 8)) (omega arith) (g % 8) (omega arith),
        ))

  pub length-update_frames : (n f : ℕ) (m : List ℕ) → length (update_frames op n f m) ≡ length m
  unfolding update_frames
  length-update_frames zero f m = refl
  length-update_frames (suc n) f m =
      length-update_frames n (f + 1) (update_frame op m f) ∙ length-update_frame m f

  pub update_frames-IsBytes : (n f : ℕ) {m : List ℕ} → IsBytes m → IsBytes (update_frames op n f m)
  unfolding update_frames
  update_frames-IsBytes zero f h = h
  update_frames-IsBytes (suc n) f h = update_frames-IsBytes n (f + 1) (update_frame-IsBytes f h)

  -- Exactly the frames from `f` below `f + n` get the value `v`.
  pub frame_used-update_frames :
      (n f g : ℕ) {m : List ℕ}
      → IsBytes m
      → f + n ≤ length m * 8
      → frame_used (update_frames op n f m) g
        ≡ (if leb f g && ltb g (f + n) then v else frame_used m g)
  unfolding update_frames
  frame_used-update_frames zero f g h inside = ground arith
  frame_used-update_frames (suc n) f g {m} h inside = ground (
    arith,
    frame_used-update_frames n (f + 1) g (update_frame-IsBytes f h),
    frame_used-update_frame f g h (omega arith),
    length-update_frame m f,
  )

pub with_bit-Writes : Writes with_bit true
with_bit-Writes = record {
  bit = λ b k hb hk. bit_set-with_bit b k hb hk;
  byte = λ b k hb hk. with_bit-lt b k hb hk;
}

pub without_bit-Writes : Writes without_bit false
without_bit-Writes = record {
  bit = λ b k hb hk. bit_set-without_bit b k hb hk;
  byte = λ b k hb hk. without_bit-lt b k hb hk;
}
