-- ===== src/Memory/Bitmap/Count.antt =====
-- `get_free_frame_count`: the loop over bytes and masks against a plain count.
use native.Mathlib.Decide.{ℕ_discrete}
use native.Mathlib.Numerals.{add-one}
use idos_nx.Base.{
  ℕ, zero, suc, ◌+◌, ◌*◌, ◌/◌, ◌%◌, ◌^◌, ◌≤◌, ◌<◌, ◌≡◌, refl, sym, ap, ◌∙◌, ◌⊎◌, true, false, List,
  arith, ltb, ltb→lt, ◌==◌, ==_iff, if◌then◌else◌, length, get_or, Bool-cases, inl, inr,
}
use idos_nx.Base.Bits.{bit_set, holds_under, holds_under-at}
use idos_nx.Memory.Bitmap.{
  FrameBitmap, frame_used, tally, count_bits, count_from, get_free_frame_count, total_frame_count,
}

-- The number of frames below `n` that are free.
unfoldable pub free_below : List ℕ → ℕ → ℕ
free_below m zero = 0
free_below m (suc n) = if frame_used m n then free_below m n else free_below m n + 1

tally-bit_set : (v k free : ℕ) → tally v (2 ^ k) free ≡ (if bit_set v k then free else free + 1)
unfolding tally bit_set
tally-bit_set v k free = ground arith

-- The eight rounds of the inner loop.
count_bits_lem :
    (v free frame : ℕ)
    → count_bits 9 v 1 free frame ≡ (
      tally v (2 ^ 7) (
          tally v (2 ^ 6) (
            tally v (2 ^ 5) (
              tally v
                (2 ^ 4)
                (tally v (2 ^ 3) (tally v (2 ^ 2) (tally v (2 ^ 1) (tally v (2 ^ 0) free))))))),
      frame + 8,
    )
unfolding count_bits
count_bits_lem v free frame = ap (λ (x : ℕ). ((count_bits 9 v 1 free frame).0, x)) e
  where
    e : (count_bits 9 v 1 free frame).1 ≡ frame + 8
    e = omega arith

pub full_byte : (k : ℕ) → k < 8 → bit_set 255 k ≡ true
unfolding bit_set holds_under
full_byte k h = holds_under-at (bit_set 255) 8 k refl h

module _ (m : List ℕ) where
  used_at : (f q k : ℕ) → f ≡ q * 8 + k → k < 8 → frame_used m f ≡ bit_set (get_or m q 0) k
  unfolding frame_used
  used_at f q k e h =
      let p : f / 8 ≡ q = omega arith in let r : f % 8 ≡ k = omega arith in rw (p, r)

  -- One frame more is one tally more.
  free_below-tally :
      (f q k : ℕ)
      → f ≡ q * 8 + k
      → k < 8
      → free_below m (f + 1) ≡ tally (get_or m q 0) (2 ^ k) (free_below m f)
  unfolding free_below
  free_below-tally f q k e h =
      rw (add-one, used_at f q k e h, tally-bit_set (get_or m q 0) k (free_below m f))

  free_below-count_bits :
      (f q : ℕ)
      → f ≡ q * 8
      → count_bits 9 (get_or m q 0) 1 (free_below m f) f ≡ (free_below m (f + 8), f + 8)
  free_below-count_bits f q e =
      let round = λ (g k : ℕ) (p : g ≡ q * 8 + k) (h : k < 8). free_below-tally g q k p h in
      let last : f + 1 + 1 + 1 + 1 + 1 + 1 + 1 + 1 ≡ f + 8 = omega arith in
      cc (
        count_bits_lem (get_or m q 0) (free_below m f) f,
        round f 0 (omega arith) (omega arith),
        round (f + 1) 1 (omega arith) (omega arith),
        round (f + 1 + 1) 2 (omega arith) (omega arith),
        round (f + 1 + 1 + 1) 3 (omega arith) (omega arith),
        round (f + 1 + 1 + 1 + 1) 4 (omega arith) (omega arith),
        round (f + 1 + 1 + 1 + 1 + 1) 5 (omega arith) (omega arith),
        round (f + 1 + 1 + 1 + 1 + 1 + 1) 6 (omega arith) (omega arith),
        round (f + 1 + 1 + 1 + 1 + 1 + 1 + 1) 7 (omega arith) (omega arith),
        last,
      )

  -- The loop is at a byte's first frame, or inside a full byte.
  abbrev AtByte : ℕ → Type 0
  AtByte f = (f % 8 ≡ 0) ⊎ (get_or m (f / 8) 0 ≡ 255)

  next-AtByte : (f : ℕ) → get_or m (f / 8) 0 ≡ 255 → AtByte (f + 1)
  next-AtByte f full = elim (ℕ_discrete ((f + 1) % 8) 0) [
    | yes e ↦ inl e
    | no ne ↦ let e : (f + 1) / 8 ≡ f / 8 = omega arith in inr (rw e full)
  ]

  free_below-full : (f : ℕ) → get_or m (f / 8) 0 ≡ 255 → free_below m (f + 1) ≡ free_below m f
  free_below-full f full =
      free_below-tally f (f / 8) (f % 8) (omega arith) (omega arith)
      ∙ tally-bit_set (get_or m (f / 8) 0) (f % 8) (free_below m f)
      ∙ rw full (rw (full_byte (f % 8) (omega arith)))

  aligned : (f : ℕ) → AtByte f → (get_or m (f / 8) 0 == 0xff) ≡ false → f ≡ f / 8 * 8
  aligned f at part = ground arith

  whole : (f : ℕ) → f ≡ f / 8 * 8 → ltb f (length m * 8) ≡ true → f + 8 ≤ length m * 8
  whole f e h = omega (arith, ltb→lt f (length m * 8) h)

  next_aligned : (f : ℕ) → f ≡ f / 8 * 8 → (f + 8) % 8 ≡ 0
  next_aligned f e = omega arith

  count_from_lem :
      (fuel free f : ℕ)
      → length m * 8 < f + fuel
      → f ≤ length m * 8
      → AtByte f
      → free ≡ free_below m f
      → count_from fuel m free f ≡ free_below m (length m * 8)
  unfolding count_from
  count_from_lem zero free f enough le at e = absurd (omega arith)
  count_from_lem (suc fuel) free f enough le at e = elim (Bool-cases (ltb f (length m * 8))) [
    | inr stop ↦ let end : f ≡ length m * 8 = ground arith in rw (stop, e, end)
    | inl go ↦ elim (Bool-cases (get_or m (f / 8) 0 == 0xff)) [
      | inl full ↦
          let full' = (==_iff _ _).0 full in
          rw (go, full)
            (count_from_lem fuel free (f + 1) (omega arith) (ground arith) (next-AtByte f full')
              (e ∙ sym (free_below-full f full')))
      | inr part ↦
          let counted : count_bits 9 (get_or m (f / 8) 0) 1 free f ≡ (free_below m (f + 8), f + 8) =
            rw e (free_below-count_bits f (f / 8) (aligned f at part)) in
          rw (go, part, counted)
            (count_from_lem fuel (free_below m (f + 8)) (f + 8) (omega arith)
              (whole f (aligned f at part) go) (inl (next_aligned f (aligned f at part))) refl)
    ]
  ]

-- `get_free_frame_count` is the number of frames of the map that are free, and the loop ends on its own test.
pub get_free_frame_count_lem :
    (b : FrameBitmap) → get_free_frame_count b ≡ free_below b.map (total_frame_count b)
unfolding get_free_frame_count free_below
get_free_frame_count_lem b =
    count_from_lem b.map (length b.map * 8 + 1) 0 0 (omega arith) (omega arith) (inl refl) refl
