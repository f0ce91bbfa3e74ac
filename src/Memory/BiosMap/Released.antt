-- ===== src/Memory/BiosMap/Released.antt =====
-- kernel/src/memory/physical/bitmap.rs: what `initialize_from_memory_map` frees.
use idos_nx.Base.{
  ℕ, zero, suc, ◌+◌, ◌*◌, ◌/◌, ◌%◌, ◌^◌, ◌<◌, ◌≡◌, refl, sym, subst, ap, ◌∙◌, inl, inr, true, false,
  not, List, [], ◌∷◌, arith, ltb, if◌then◌else◌, lt→ltb, Bool-cases, length, get_or, replicate,
  length-replicate, add32,
}
use idos_nx.Base.Results.{Result, ok, err}
use idos_nx.Memory.Range.{FrameRange}
use idos_nx.Memory.Bitmap.{
  FrameBitmap, BitmapError, reset, free_range, frame_used, total_frame_count, contains_range,
  out_of_bounds,
}
use idos_nx.Memory.Bitmap.Count.{full_byte}
use idos_nx.Memory.Bitmap.Frames.{IsBytes}
use idos_nx.Memory.Bitmap.Ranges.{free_range_frames, free_range-IsBytes, length-free_range}
use idos_nx.Memory.BiosMap.{MapEntry, entry_range, release_entries, initialize_from_memory_map}
use idos_nx.Memory.BiosMap.Entries.{
  is_free_entry, is_low, FreeIsLow, meets_frame, some_meets, is_outside, any_outside,
  before_outside, free_bytes, entry_range-outside, frames_of_entry,
}

-- What the loop comes to with so many bytes counted.
abbrev Releases :
    ℕ → ℕ → List MapEntry → FrameBitmap → ℕ → Result ℕ BitmapError × FrameBitmap → Type 0
Releases frames total entries b g (outcome, after) =
    (outcome ≡ (
      if any_outside frames entries
      then err out_of_bounds
      else ok ((total + free_bytes entries) % 2 ^ 32)))
    × (frame_used after.map g
        ≡ (if some_meets (before_outside frames entries) g then false else frame_used b.map g))

-- A free entry within the map.
Releases-free :
    (frames total : ℕ) (e : MapEntry) (rest : List MapEntry) (b b' : FrameBitmap) (g : ℕ)
    (result : Result ℕ BitmapError × FrameBitmap)
    → is_free_entry e ≡ true
    → is_outside frames e ≡ false
    → frame_used b'.map g ≡ (if meets_frame g e then false else frame_used b.map g)
    → Releases frames (add32 total (e.length % 2 ^ 32)) rest b' g result
    → Releases frames total (e ∷ rest) b g result
Releases-free frames total e rest b b' g result free inside used (outcome, after) =
    let sum : (add32 total (e.length % 2 ^ 32) + free_bytes rest) % 2 ^ 32
        ≡ (total + (e.length + free_bytes rest)) % 2 ^ 32 =
      omega arith in
    rw (inside, free)
      (
        outcome ∙ ap (λ n. if any_outside frames rest then err out_of_bounds else ok n) sum,
        ground (arith, after, used),
      )

-- An entry that is not free changes nothing.
Releases-other :
    (frames total : ℕ) (e : MapEntry) (rest : List MapEntry) (b : FrameBitmap) (g : ℕ)
    (result : Result ℕ BitmapError × FrameBitmap)
    → is_free_entry e ≡ false
    → Releases frames total rest b g result
    → Releases frames total (e ∷ rest) b g result
Releases-other frames total e rest b g result other (outcome, after) =
    let inside : is_outside frames e ≡ false = ground (arith, other) in
    let apart : meets_frame g e ≡ false = ground (arith, other) in
    rw (inside, apart, other) (outcome, after)

release_entries-inside :
    (e : MapEntry) (rest : List MapEntry) (total : ℕ) (b : FrameBitmap)
    → is_free_entry e ≡ true
    → (free_range b (entry_range e)).0 ≡ ok tt
    → release_entries (e ∷ rest) total b
      ≡ release_entries rest (add32 total (e.length % 2 ^ 32)) (free_range b (entry_range e)).1
unfolding release_entries
release_entries-inside e rest total b free done_it = rw (release_entries, free, done_it) refl

free_range-outside :
    (b : FrameBitmap) (r : FrameRange)
    → contains_range b r ≡ false
    → free_range b r ≡ (err out_of_bounds, b)
unfolding free_range
free_range-outside b r outside = rw (free_range, outside) refl

release_entries-outside :
    (e : MapEntry) (rest : List MapEntry) (total : ℕ) (b : FrameBitmap)
    → is_free_entry e ≡ true
    → contains_range b (entry_range e) ≡ false
    → release_entries (e ∷ rest) total b ≡ (err out_of_bounds, b)
unfolding release_entries
release_entries-outside e rest total b free outside =
    let e_range = free_range-outside b (entry_range e) outside in
    rw (release_entries, free, e_range) (ap (λ pair. (err out_of_bounds, pair.1)) e_range)

release_entries-other :
    (e : MapEntry) (rest : List MapEntry) (total : ℕ) (b : FrameBitmap)
    → is_free_entry e ≡ false
    → release_entries (e ∷ rest) total b ≡ release_entries rest total b
unfolding release_entries
release_entries-other e rest total b other = rw (release_entries, other) refl

release_entries-Releases :
    (entries : List MapEntry) (total : ℕ) (b : FrameBitmap) (g frames : ℕ)
    → IsBytes b.map
    → FreeIsLow entries
    → frames ≡ total_frame_count b
    → total < 2 ^ 32
    → Releases frames total entries b g (release_entries entries total b)
unfolding release_entries
release_entries-Releases [] total b g frames h low n small = (ap ok (omega arith), refl)
release_entries-Releases (e ∷ rest) total b g frames h (low, lows) n small =
    elim (Bool-cases (is_free_entry e)) [
      | inl free ↦
          let low_e : is_low e ≡ true = ground (arith, low, free) in
          elim (Bool-cases (is_outside frames e)) [
            | inl outside ↦
                let leaves : contains_range b (entry_range e) ≡ false =
                  entry_range-outside e b low_e ∙ ground (arith, outside) in
                subst (Releases frames total (e ∷ rest) b g)
                  (sym (release_entries-outside e rest total b free leaves))
                  (rw outside (refl, refl))
            | inr inside ↦
                let holds : contains_range b (entry_range e) ≡ true =
                  entry_range-outside e b low_e ∙ ground (arith, inside, free) in
                let (freed, used) = free_range_frames b (entry_range e) h g in
                let b' = (free_range b (entry_range e)).1 in
                subst (Releases frames total (e ∷ rest) b g)
                  (sym (release_entries-inside e rest total b free (freed ∙ rw holds refl)))
                  (Releases-free frames total e rest b b' g
                    (release_entries rest (add32 total (e.length % 2 ^ 32)) b') free inside
                    (used
                      ∙ ap (λ m. if m then false else frame_used b.map g)
                          (frames_of_entry e b g free low_e holds))
                    (release_entries-Releases rest (add32 total (e.length % 2 ^ 32)) b' g frames
                      (free_range-IsBytes b (entry_range e) h) lows
                      (n ∙ ap (λ m. m * 8) (sym (length-free_range b (entry_range e) h)))
                      (omega arith)))
          ]
      | inr other ↦
          subst (Releases frames total (e ∷ rest) b g)
            (sym (release_entries-other e rest total b other))
            (Releases-other frames total e rest b g (release_entries rest total b) other
              (release_entries-Releases rest total b g frames h lows n small))
    ]

get_or-replicate : (n i v : ℕ) → get_or (replicate n v) i 0 ≡ (if ltb i n then v else 0)
get_or-replicate zero i v = ground arith
get_or-replicate (suc n) zero v = ground arith
get_or-replicate (suc n) (suc i) v = ground (arith, get_or-replicate n i v)

reset-IsBytes : (b : FrameBitmap) → IsBytes (reset b).map
unfolding reset
reset-IsBytes b = record { at = λ i. rw (get_or-replicate (length b.map) i 255) (ground arith) }

-- After `reset` every frame of the map is in use.
frame_used-reset :
    (b : FrameBitmap) (g : ℕ) → g < total_frame_count b → frame_used (reset b).map g ≡ true
unfolding reset frame_used
frame_used-reset b g h =
    rw (get_or-replicate (length b.map) (g / 8) 255)
      (rw (lt→ltb (g / 8) (length b.map) (omega arith)) (full_byte (g % 8) (omega arith)))

-- For a memory map whose free entries are not empty and end at 4 GiB at most: if one of them passes the end
-- of the bitmap, `initialize_from_memory_map` fails with `out_of_bounds`, and else it returns the sum of
-- their lengths modulo 2 ^ 32. A frame of the bitmap is free afterwards exactly if one of the free
-- entries, up to the first that passes the end, has a byte in that frame.
pub initialize_from_memory_map_lem :
    (b : FrameBitmap) (entries : List MapEntry) (g : ℕ)
    → FreeIsLow entries
    → g < total_frame_count b
    → ((initialize_from_memory_map b entries).0 ≡ (
        if any_outside (total_frame_count b) entries
        then err out_of_bounds
        else ok (free_bytes entries % 2 ^ 32)))
      × (frame_used (initialize_from_memory_map b entries).1.map g
          ≡ not (some_meets (before_outside (total_frame_count b) entries) g))
unfolding initialize_from_memory_map reset
initialize_from_memory_map_lem b entries g low h =
    let same_size : total_frame_count b ≡ total_frame_count (reset b) =
      ap (λ n. n * 8) (sym (length-replicate (length b.map) 0xff)) in
    let (outcome, used) =
      release_entries-Releases entries 0 (reset b) g (total_frame_count b) (reset-IsBytes b) low
        same_size (omega arith) in
    let sum : (0 + free_bytes entries) % 2 ^ 32 ≡ free_bytes entries % 2 ^ 32 = omega arith in
    (
      outcome
          ∙ ap (λ n. if any_outside (total_frame_count b) entries then err out_of_bounds else ok n)
              sum,
      used ∙ ground (arith, frame_used-reset b g h),
    )
