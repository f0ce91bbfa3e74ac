-- ===== src/Memory/Bitmap/Search.antt =====
-- `find_free_range` and `allocate_frames`: first fit.
use mathlib.Core.Bool.{false≢true}
use native.Mathlib.Decide.{dec_lt}
use idos_nx.Base.{
  ℕ, zero, suc, ◌+◌, ◌-◌, ◌*◌, ◌^◌, ◌≤◌, ◌<◌, ◌≡◌, refl, sym, ◌∙◌, true, false, ◌&&◌, Option, none,
  some, List, arith, ltb, leb, ◌==◌, if◌then◌else◌, length, Bool-cases, inl, inr, sub32, ◌<<<◌,
}
use idos_nx.Base.Results.{Result, ok, err}
use idos_nx.Memory.Range.{FrameRange}
use idos_nx.Memory.Bitmap.{
  FrameBitmap, BitmapError, frame_used, search_from, find_free_range, allocate_frames,
  allocate_found, allocate_range, contains_range, no_available_space,
}
use idos_nx.Memory.Bitmap.Frames.{IsBytes}
use idos_nx.Memory.Bitmap.Ranges.{allocate_range_frames}

-- The `n` frames from `s` on are free.
pub record IsFree (m : List ℕ) (s n : ℕ) : Type 0 where
  pub at : (g : ℕ) → s ≤ g → g < s + n → frame_used m g ≡ false

abbrev pub frames_range : ℕ → ℕ → FrameRange
frames_range s n = record { start = s * 4096; length = n * 4096 }

-- A run of `n` free frames inside the map, the first there is.
pub record IsFirst (m : List ℕ) (n s : ℕ) : Type 0 where
  pub inside : s + n ≤ length m * 8
  pub free : IsFree m s n
  pub earlier : (t : ℕ) → t < s → ¬ IsFree m t n

abbrev pub Finds : List ℕ → ℕ → Option FrameRange → Type 0
Finds m n none = (t : ℕ) → t + n ≤ length m * 8 → ¬ IsFree m t n
Finds m n (some r) = (s : ℕ) × (r ≡ frames_range s n) × IsFirst m n s

module _ (m : List ℕ) (n : ℕ) (small : n < 2 ^ 20) (bound : length m * 8 ≤ 2 ^ 20) where
  -- What the loop knows at `frame`, with the current run from `start`.
  record Run (frame remaining start : ℕ) : Type 0 where
    count : remaining + frame ≡ start + n
    pos : 0 < remaining
    order : start ≤ frame
    free : (g : ℕ) → start ≤ g → g < frame → frame_used m g ≡ false
    earlier : (t : ℕ) → t < start → ¬ IsFree m t n

  blocked :
      {frame remaining start : ℕ}
      → Run frame remaining start
      → frame_used m frame ≡ true
      → (t : ℕ) → t < frame + 1
      → ¬ IsFree m t n
  blocked {frame} {remaining} {start} r used t h f = elim (dec_lt t start) [
    | yes p ↦ r.earlier t p f
    | no p ↦ false≢true (sym (f.at frame (omega arith) (omega arith)) ∙ used)
  ]

  restart :
      {frame remaining start : ℕ}
      → 0 < n
      → Run frame remaining start
      → frame_used m frame ≡ true
      → Run (frame + 1) n (frame + 1)
  restart {frame} pos r used = record {
    count = omega arith;
    pos = pos;
    order = omega arith;
    free = λ g p q. absurd (omega arith);
    earlier = blocked r used;
  }

  extend_free :
      {frame remaining start : ℕ}
      → Run frame remaining start
      → frame_used m frame ≡ false
      → (g : ℕ) → start ≤ g
      → g < frame + 1
      → frame_used m g ≡ false
  extend_free {frame} r free g p q = elim (dec_lt g frame) [
    | yes lt ↦ r.free g p lt
    | no ge ↦ let e : g ≡ frame = omega arith in rw e free
  ]

  extend :
      {frame remaining start : ℕ}
      → Run frame remaining start
      → frame_used m frame ≡ false
      → (sub32 remaining 1 == 0) ≡ false
      → Run (frame + 1) (sub32 remaining 1) start
  extend {frame} {remaining} {start} r free more = record {
    count = omega arith;
    pos = ground arith;
    order = omega arith;
    free = extend_free r free;
    earlier = r.earlier;
  }

  found :
      {frame remaining start : ℕ}
      → Run frame remaining start
      → frame_used m frame ≡ false
      → (sub32 remaining 1 == 0) ≡ true
      → frame < length m * 8
      → Finds m n (some (record { start = start <<< 12; length = (frame + 1 - start) <<< 12 }))
  found {frame} {remaining} {start} r free last inside =
      let done : frame + 1 ≡ start + n = ground arith in
      (
        start,
        ground arith,
        record {
          inside = omega arith;
          free = record { at = λ g p q. extend_free r free g p (omega arith) };
          earlier = r.earlier;
        },
      )

  search_from-Finds :
      (left frame remaining start : ℕ)
      → 0 < n
      → left + frame ≡ length m * 8
      → Run frame remaining start
      → Finds m n (search_from m n left frame remaining start)
  unfolding search_from
  search_from-Finds zero frame remaining start pos e r = λ t h. r.earlier t (omega arith)
  search_from-Finds (suc left) frame remaining start pos e r =
      elim (Bool-cases (frame_used m frame)) [
        | inl used ↦ rw used (
            search_from-Finds left (frame + 1) n (frame + 1) pos (omega arith) (restart pos r used))
        | inr free ↦ elim (Bool-cases (sub32 remaining 1 == 0)) [
          | inl last ↦ rw (free, last) (found r free last (omega arith))
          | inr more ↦
              rw (free, more)
                (search_from-Finds left (frame + 1) (sub32 remaining 1) start pos (omega arith)
                  (extend r free more))
        ]
      ]

-- For a map of at most 2 ^ 20 frames and a request of fewer, but not of none: a range that is found
-- is the first run of that many free frames, and none is found only if there is no such run.
pub find_free_range-Finds :
    (b : FrameBitmap) (n : ℕ)
    → 0 < n
    → n < 2 ^ 20
    → length b.map * 8 ≤ 2 ^ 20
    → Finds b.map n (find_free_range b n)
unfolding find_free_range
find_free_range-Finds b n pos small bound =
    search_from-Finds b.map n small bound (length b.map * 8) 0 n 0 pos (omega arith) (record {
      count = omega arith;
      pos = pos;
      order = omega arith;
      free = λ g p q. absurd (omega arith);
      earlier = λ t h. absurd (omega arith);
    })

-- What `allocate_frames` returns and does to each frame's bit.
abbrev pub Allocates : List ℕ → List ℕ → ℕ → Result FrameRange BitmapError → Type 0
Allocates m m' n (err e) =
    (e ≡ no_available_space) × (m' ≡ m) × ((t : ℕ) → t + n ≤ length m * 8 → ¬ IsFree m t n)
Allocates m m' n (ok r) =
    (s : ℕ) × (r ≡ frames_range s n)
    × IsFirst m n s
    × ((g : ℕ) → frame_used m' g ≡ (if leb s g && ltb g (s + n) then true else frame_used m g))

module _ (b : FrameBitmap) (s n : ℕ) (bytes : IsBytes b.map) (pos : 0 < n) where
  allocate_at :
      n < 2 ^ 20
      → s + n ≤ length b.map * 8
      → length b.map * 8 ≤ 2 ^ 20
      → ((allocate_range b (frames_range s n)).0 ≡ ok tt)
        × ((g : ℕ)
            → frame_used (allocate_range b (frames_range s n)).1.map g
              ≡ (if leb s g && ltb g (s + n) then true else frame_used b.map g))
  allocate_at small inside bound =
      let inside' : contains_range b (frames_range s n) ≡ true =
        unfold contains_range in ground arith in
      (
        ground (arith, allocate_range_frames b (frames_range s n) bytes 0),
        λ g. ground (arith, allocate_range_frames b (frames_range s n) bytes g),
      )

-- For a map of bytes of at most 2 ^ 20 frames and a request of fewer, but not of none,
-- `allocate_frames` either takes the first run of `n` free frames, marks exactly its frames as used,
-- and returns its range; or it fails with `no_available_space`, changes nothing, and there is no such
-- run.
pub allocate_frames_lem :
    (b : FrameBitmap) (n : ℕ)
    → IsBytes b.map
    → 0 < n
    → n < 2 ^ 20
    → length b.map * 8 ≤ 2 ^ 20
    → Allocates b.map (allocate_frames b n).1.map n (allocate_frames b n).0
unfolding allocate_frames
allocate_frames_lem b n bytes pos small bound =
    go (find_free_range b n) (find_free_range-Finds b n pos small bound)
  where
    go :
        (o : Option FrameRange)
        → Finds b.map n o
        → Allocates b.map (allocate_found b o).1.map n (allocate_found b o).0
    go none f = (refl, refl, f)
    go (some r) (s, e, first) =
        let (done, marked) = allocate_at b s n bytes pos small first.inside bound in
        rw (e, done) (s, refl, first, marked)
