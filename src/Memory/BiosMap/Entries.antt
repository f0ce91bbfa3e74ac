-- ===== src/Memory/BiosMap/Entries.antt =====
-- kernel/src/memory/physical/bitmap.rs: the frames of the entries of a memory map.
use idos_nx.Base.{
  ℕ, ◌+◌, ◌*◌, ◌^◌, ◌≡◌, Bool, true, false, not, ◌&&◌, ◌||◌, List, [], ◌∷◌, arith, ltb, leb, ◌==◌,
  if◌then◌else◌,
}
use idos_nx.Memory.Bitmap.{FrameBitmap, total_frame_count, contains_range}
use idos_nx.Memory.Bitmap.Ranges.{in_frames}
use idos_nx.Memory.BiosMap.{MapEntry, region_type_free, entry_range}

abbrev pub is_free_entry : MapEntry → Bool
is_free_entry e = e.region_type == region_type_free

-- An entry that is not empty and ends below 4 GiB, which a 32-bit range can tell.
abbrev pub is_low : MapEntry → Bool
is_low e = ltb 0 e.length && leb (e.base + e.length) (2 ^ 32)

abbrev pub FreeIsLow : List MapEntry → Type 0
FreeIsLow [] = Unit {0}
FreeIsLow (e ∷ rest) = ((not (is_free_entry e) || is_low e) ≡ true) × FreeIsLow rest

-- The entry is free, and has a byte in the frame.
abbrev pub meets_frame : ℕ → MapEntry → Bool
meets_frame g e =
    is_free_entry e && ltb e.base ((g + 1) * 4096) && ltb (g * 4096) (e.base + e.length)

abbrev pub some_meets : List MapEntry → ℕ → Bool
some_meets [] g = false
some_meets (e ∷ rest) g = meets_frame g e || some_meets rest g

-- The entry is free, and passes the end of a map of so many frames.
abbrev pub is_outside : ℕ → MapEntry → Bool
is_outside frames e = is_free_entry e && ltb (frames * 4096) (e.base + e.length)

abbrev pub any_outside : ℕ → List MapEntry → Bool
any_outside frames [] = false
any_outside frames (e ∷ rest) = is_outside frames e || any_outside frames rest

-- The entries before the first that is outside.
abbrev pub before_outside : ℕ → List MapEntry → List MapEntry
before_outside frames [] = []
before_outside frames (e ∷ rest) =
    let further = before_outside frames rest in if is_outside frames e then [] else e ∷ further

abbrev pub free_bytes : List MapEntry → ℕ
free_bytes [] = 0
free_bytes (e ∷ rest) =
    let further = free_bytes rest in if is_free_entry e then e.length + further else further

-- What the frames of a low entry are.
pub entry_range-frames :
    (e : MapEntry) (g : ℕ)
    → is_low e ≡ true
    → in_frames (entry_range e) g
      ≡ (ltb e.base ((g + 1) * 4096) && ltb (g * 4096) (e.base + e.length))
entry_range-frames e g low = ground (arith, low)

pub entry_range-outside :
    (e : MapEntry) (b : FrameBitmap)
    → is_low e ≡ true
    → contains_range b (entry_range e) ≡ not (ltb (total_frame_count b * 4096) (e.base + e.length))
unfolding contains_range
entry_range-outside e b low = ground (arith, low)

pub frames_of_entry :
    (e : MapEntry) (b : FrameBitmap) (g : ℕ)
    → is_free_entry e ≡ true
    → is_low e ≡ true
    → contains_range b (entry_range e) ≡ true
    → (contains_range b (entry_range e) && in_frames (entry_range e) g) ≡ meets_frame g e
frames_of_entry e b g free low holds = rw (holds, entry_range-frames e g low) (ground (arith, free))
