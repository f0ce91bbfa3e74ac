-- ===== src/Memory/Heap/Fits.antt =====
-- That the first fit among the blocks of a heap is a part of one of them, and leaves blocks of a heap.
use idos_nx.Base.{
  ℕ, ◌+◌, ◌-◌, ◌%◌, ◌≤◌, ◌<◌, ◌≡◌, refl, sym, subst, inl, inr, List, [], ◌∷◌, arith, ltb, leb,
  ltb→lt, leb→le, Bool-cases,
}
use idos_nx.Memory.Heap.{Layout, get_aligned_start}
use idos_nx.Memory.Heap.Blocks.{
  Block, Ascend, Fit, nothing, kept, dropped, aligned_end, trailing, whole_block, keep, first_fit,
  Within, Serves, Placed, Bounded, get_aligned_start_lem, Ascend-le, Apart-above, Ascend-lower,
}

Placed-whole :
    (layout : Layout) (blocks rest : List Block) (q a n low end : ℕ)
    → Serves layout q a n
    → Within a n blocks
    → low ≤ a
    → 0 < a
    → end % 4 ≡ 0
    → Ascend (a + n) rest end
    → Placed layout blocks low end (whole_block q a n rest end)
Placed-whole layout blocks [] q a n low end s w h pos e up = (
  s,
  w,
  h,
  omega arith,
  (omega arith, omega arith, omega arith, omega arith, e, omega arith, omega arith),
  (inr (omega arith), tt),
)
Placed-whole layout blocks (b ∷ rest) q a n low end s w h pos e up = (
  s,
  w,
  h,
  omega arith,
  Ascend-lower (b ∷ rest) (a + n) low end (omega arith) (omega arith) up,
  Apart-above (b ∷ rest) a n (a + n) end (omega arith) up,
)

Placed-keep :
    (layout : Layout) (blocks : List Block) (a n low end : ℕ) (fit : Fit)
    → 0 < a
    → low ≤ a
    → 12 ≤ n
    → n < 0x80000000
    → a % 4 ≡ 0
    → n % 4 ≡ 0
    → a + n < get_aligned_start a layout.align + layout.size
    → Placed layout blocks (a + n) end fit
    → Placed layout ((a, n) ∷ blocks) low end (keep (a, n) fit)
Placed-keep layout blocks a n low end nothing h1 h2 h3 h4 h5 h6 small p = (small, p)
Placed-keep layout blocks a n low end (kept q c used left) h1 h2 h3 h4 h5 h6 small
      (s, w, b, up, apart) =
    (s, inr w, omega arith, (h1, h2, h3, h4, h5, h6, up), (inl (omega arith), apart))
Placed-keep layout blocks a n low end (dropped q c used left end') h1 h2 h3 h4 h5 h6 small
      (s, w, b, some_left, up, apart) =
    (
      s,
      inr w,
      omega arith,
      some_left,
      Ascend-lower left (a + n) low end' (omega arith) some_left up,
      apart,
    )

Placed-split :
    (layout : Layout) (rest : List Block) (a n low end : ℕ)
    → Bounded layout end
    → Ascend low ((a, n) ∷ rest) end
    → 16 < a + n - aligned_end layout a
    → let t = trailing layout a in
      Placed layout
        ((a, n) ∷ rest)
        low
        end
        (kept (get_aligned_start a layout.align) a (t - a) ((t, a + n - t) ∷ rest))
Placed-split layout rest a n low end (h, b) (h1, h2, h3, h4, h5, h6, up) room =
    let inside = Ascend-le rest (a + n) end up in
    let (q1, q2, q3) = get_aligned_start_lem a layout.align h (omega arith) in
    let t = trailing layout a in
    let joined : t + (a + n - t) ≡ a + n = omega arith in
    (
      (q1, q3, omega arith),
      inl (refl, omega arith),
      h2,
      (
        omega arith,
        omega arith,
        omega arith,
        omega arith,
        omega arith,
        omega arith,
        subst (λ (m : ℕ). Ascend m rest end) (sym joined) up,
      ),
      (inr (omega arith), Apart-above rest a (t - a) (a + n) end (omega arith) up),
    )

-- An allocation among the blocks of a heap takes its block from one of them and leaves blocks that do
-- not meet it; otherwise every block is too small.
pub first_fit_lem :
    (layout : Layout) (blocks : List Block) (low end : ℕ)
    → Bounded layout end
    → end % 4 ≡ 0
    → Ascend low blocks end
    → Placed layout blocks low end (first_fit layout blocks end)
first_fit_lem layout [] low end h e up = tt
first_fit_lem layout ((a, n) ∷ rest) low end (h, b) e (h1, h2, h3, h4, h5, h6, up) =
    let inside = Ascend-le rest (a + n) end up in
    let (q1, q2, q3) = get_aligned_start_lem a layout.align h (omega arith) in
    elim (Bool-cases (leb (aligned_end layout a) (a + n))) [
      | inl fits ↦ elim (Bool-cases (ltb 16 (a + n - aligned_end layout a))) [
        | inl room ↦
            rw (fits, room)
              (Placed-split layout rest a n low end (h, b) (h1, h2, h3, h4, h5, h6, up)
                (ltb→lt _ _ room))
        | inr tight ↦
            let enough = leb→le _ _ fits in
            rw (fits, tight)
              (Placed-whole layout ((a, n) ∷ rest) rest (get_aligned_start a layout.align) a n low
                end (q1, q3, omega arith) (inl (refl, omega arith)) h2 h1 e up)
      ]
      | inr over ↦
          let small : a + n < get_aligned_start a layout.align + layout.size = ground arith in
          rw over (
            Placed-keep layout rest a n low end (first_fit layout rest end) h1 h2 h3 h4 h5 h6 small
              (first_fit_lem layout rest (a + n) end (h, b) e up))
    ]
