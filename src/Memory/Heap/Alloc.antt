-- ===== src/Memory/Heap/Alloc.antt =====
-- That an allocation does to the list in memory what `first_fit` does to its blocks.
use idos_nx.Base.{
  ℕ, zero, suc, ◌+◌, ◌-◌, ◌%◌, ◌≤◌, ◌<◌, ◌≡◌, refl, subst, ap, ◌∙◌, inl, inr, true, false, Option,
  some, List, [], ◌∷◌, arith, ltb, leb, ◌==◌, if◌then◌else◌, ltb→lt, leb→le, Bool-cases, length,
}
use idos_nx.Base.Results.{Outcome, done, ◌>>=◌}
use idos_nx.Memory.Heap.{
  ListAllocator, Layout, magic, flag, Words, State, init, get_aligned_start, split_node, use_node,
  take_node, alloc_from,
}
use idos_nx.Memory.Heap.Split.{
  marked, split_words, split_words_lem, split_words-else, linked_words, linked_words_lem,
  linked_words-else, marked_lem, marked-else, init-marked_lem,
}
use idos_nx.Memory.Heap.Blocks.{
  Block, Ascend, kept, aligned_end, trailing, whole_block, first_fit, Bounded, Ascend-le,
  get_aligned_start_lem,
}
use idos_nx.Memory.Heap.InMemory.{
  FreeList, FreeList-above, FreeList-moved, Link, Implements, Implements-keep,
}

-- What a round does that takes its node, when the padding has space.
take_node-eq :
    (frames : ℕ) (layout : Layout) (h : ListAllocator) (w : Words) (prev a n : ℕ)
    → w (a + 4) % flag ≡ n
    → a + 12 ≤ get_aligned_start a layout.align
    → let q = get_aligned_start a layout.align in
      take_node frames (h, w) layout prev a ≡ (
        if ltb 16 (a + n - aligned_end layout a)
        then done (some q, split_node (h, marked w a q) prev a (w (a + 8)) (aligned_end layout a))
        else use_node frames (h, marked w a q) (w (a + 8)) >>= (λ s. done (some q, s)))
unfolding take_node
take_node-eq frames layout h w prev a n s room =
    let padded : ltb (get_aligned_start a layout.align - a - 8) 4 ≡ false = ground arith in
    rw (padded, s) refl

use_node-Implements :
    (frames : ℕ) (h : ListAllocator) (w : Words) (prev low a n q : ℕ) (rest : List Block)
    → Ascend (a + n) rest (h.start + h.size)
    → w (a + 4) ≡ n
    → 12 ≤ n
    → n < 0x80000000
    → a + 12 ≤ q
    → q ≤ a + n
    → w a ≡ magic
    → FreeList w (w (a + 8)) rest
    → 0 < frames
    → (result : Option (Outcome (Option ℕ × State)))
    → result ≡ some (use_node frames (h, marked w a q) (w (a + 8)) >>= (λ s. done (some q, s)))
    → Implements (h, w) prev low (whole_block q a n rest (h.start + h.size)) result
use_node-Implements frames h w prev low a n q [] up s h3 h4 q1 behind m f some_frame result e =
    let last : (w (a + 8) == 0) ≡ true = ground arith in
    let enough : (frames == 0) ≡ false = ground arith in
    let (o1, o2, o3, n1, n2, n3) =
      init-marked_lem w a n q s h3 h4 q1 behind (h.start + h.size) (omega arith) in
    (
      record { start = h.start; size = h.size + 0x1000; first_free = h.start + h.size },
      init (marked w a q) (h.start + h.size) 0x1000,
      e ∙ rw (last, enough) refl,
      refl,
      omega arith,
      (refl, n1, n2, n3),
      (o1 ∙ m, o2, o3),
    )
use_node-Implements frames h w prev low a n q ((b, k) ∷ rest) up s h3 h4 q1 behind m f some_frame
      result e =
    let (link, _, _, _) = f in
    let (b1, b2, _, _, _, _, _) = up in
    let more : (w (a + 8) == 0) ≡ false = ground arith in
    let (o1, o2, o3) = marked_lem w a n q s h3 h4 q1 behind in
    (
      record { start = h.start; size = h.size; first_free = w (a + 8) },
      marked w a q,
      e ∙ rw more refl,
      refl,
      refl,
      FreeList-above ((b, k) ∷ rest) w (marked w a q) (w (a + 8)) (a + n) (h.start + h.size)
          (λ x above. marked-else w a n q s h3 h4 q1 behind x (inr above)) up f,
      (o1 ∙ m, o2, o3),
    )

module _ (frames : ℕ) (layout : Layout) (h : ListAllocator) (w : Words) (prev low a n : ℕ)
    (rest : List Block) (up : Ascend low ((a, n) ∷ rest) (h.start + h.size))
    (bounded : Bounded layout (h.start + h.size)) (fits : aligned_end layout a ≤ a + n)
    (m : w a ≡ magic) (s : w (a + 4) ≡ n) (f : FreeList w (w (a + 8)) rest)
    (l : Link (h, w) prev a low) where
  take_node-split :
      16 < a + n - aligned_end layout a
      → Implements
          (h, w)
          prev
          low
          (kept
            (get_aligned_start a layout.align)
            a
            (trailing layout a - a)
            ((trailing layout a, a + n - trailing layout a) ∷ rest))
          (some (take_node frames (h, w) layout prev a))
  take_node-split room =
      let (h1, h2, h3, h4, h5, h6, higher) = up in
      let inside = Ascend-le rest (a + n) (h.start + h.size) higher in
      let (q1, q2, q3) = get_aligned_start_lem a layout.align bounded.0 (omega arith) in
      let q = get_aligned_start a layout.align in
      let t = trailing layout a in
      let behind : q ≤ t = omega arith in
      let last : t + 12 ≤ a + n = omega arith in
      let large : ltb 16 (a + n - aligned_end layout a) ≡ true = ground arith in
      let taken = take_node-eq frames layout h w prev a n (omega arith) q1 in
      elim l [
        | inl (z, first) ↦
            let e : (prev == 0) ≡ true = ground arith in
            let (o1, o2, o3, n1, n2, n3) =
              split_words_lem w a n q t (w (a + 8)) prev s h3 h4 q1 behind last in
            let else_kept = split_words-else w a n q t (w (a + 8)) prev s h3 h4 q1 behind last in
            (
              record { start = h.start; size = h.size; first_free = t },
              split_words w a q t (w (a + 8)),
              ap some (taken ∙ rw (large, e) refl),
              refl,
              refl,
              λ x below ne. else_kept x (inl (omega arith)),
              inl (
                z,
                (
                  refl,
                  n1,
                  n2,
                  FreeList-moved rest w (split_words w a q t (w (a + 8))) (w (a + 8)) _ (a + n)
                      (h.start + h.size) n3 (λ x above. else_kept x (inr above)) higher f,
                ),
              ),
              (o1 ∙ m, o2, o3),
            )
        | inr (pos, below, linked) ↦
            let e : (prev == 0) ≡ false = ground arith in
            let (o1, o2, o3, n1, n2, n3, n4) =
              linked_words_lem w a n q t (w (a + 8)) prev s h3 h4 q1 behind last (omega arith) in
            let else_kept =
              linked_words-else w a n q t (w (a + 8)) prev s h3 h4 q1 behind last (omega arith) in
            (
              h,
              linked_words w a q t (w (a + 8)) prev,
              ap some (taken ∙ rw (large, e) refl),
              refl,
              refl,
              λ x under ne. else_kept x (inl (omega arith)) ne,
              inr (
                pos,
                refl,
                (
                  n4,
                  n1,
                  n2,
                  FreeList-moved rest w (linked_words w a q t (w (a + 8)) prev) (w (a + 8)) _
                      (a + n) (h.start + h.size) n3
                      (λ x above. else_kept x (inr above) (λ eq. absurd (omega (arith, eq)))) higher
                      f,
                ),
              ),
              (o1 ∙ m, o2, o3),
            )
      ]

  take_node-whole :
      a + n - aligned_end layout a ≤ 16
      → 0 < frames
      → Implements
          (h, w)
          prev
          low
          (whole_block (get_aligned_start a layout.align) a n rest (h.start + h.size))
          (some (take_node frames (h, w) layout prev a))
  take_node-whole tight some_frame =
      let (h1, h2, h3, h4, h5, h6, higher) = up in
      let inside = Ascend-le rest (a + n) (h.start + h.size) higher in
      let (q1, q2, q3) = get_aligned_start_lem a layout.align bounded.0 (omega arith) in
      let q = get_aligned_start a layout.align in
      let behind : q ≤ a + n = omega arith in
      let large : ltb 16 (a + n - aligned_end layout a) ≡ false = ground arith in
      let taken = take_node-eq frames layout h w prev a n (omega arith) q1 in
      use_node-Implements frames h w prev low a n q rest higher s h3 h4 q1 behind m f some_frame
        (some (take_node frames (h, w) layout prev a)) (ap some (taken ∙ rw large refl))

-- The loop does to the list in memory what `first_fit` does to its blocks.
pub alloc_from-Implements :
    (blocks : List Block) (rounds frames : ℕ) (layout : Layout) (h : ListAllocator) (w : Words)
    → (prev low current : ℕ) → Ascend low blocks (h.start + h.size)
    → Bounded layout (h.start + h.size)
    → 0 < frames
    → length blocks ≤ rounds
    → FreeList w current blocks
    → Link (h, w) prev current low
    → Implements
        (h, w)
        prev
        low
        (first_fit layout blocks (h.start + h.size))
        (alloc_from rounds frames (h, w) layout prev current)
unfolding alloc_from
alloc_from-Implements [] zero frames layout h w prev low current up bounded fr r f l = rw f refl
alloc_from-Implements [] (suc rounds) frames layout h w prev low current up bounded fr r f l =
    rw f refl
alloc_from-Implements ((a, n) ∷ rest) zero frames layout h w prev low current up bounded fr r f l =
    absurd (omega arith)
alloc_from-Implements ((a, n) ∷ rest) (suc rounds) frames layout h w prev low current up bounded fr
      r f l =
    let (at, m, s, f') = f in
    let (h1, h2, h3, h4, h5, h6, higher) = up in
    let live : (a == 0) ≡ false = ground arith in
    let l' : Link (h, w) prev a low = subst (λ (c : ℕ). Link (h, w) prev c low) at l in
    let size : w (a + 4) % flag ≡ n = omega arith in
    let test : leb (aligned_end layout a) (a + w (a + 4) % flag)
        ≡ leb (aligned_end layout a) (a + n) =
      ap (λ (k : ℕ). leb (aligned_end layout a) (a + k)) size in
    elim (Bool-cases (leb (aligned_end layout a) (a + n))) [
      | inl fits ↦ elim (Bool-cases (ltb 16 (a + n - aligned_end layout a))) [
        | inl room ↦
            rw (at, live, test, fits, room)
              (take_node-split frames layout h w prev low a n rest up bounded (leb→le _ _ fits) m s
                f' l' (ltb→lt _ _ room))
        | inr tight ↦
            rw (at, live, test, fits, tight)
              (take_node-whole frames layout h w prev low a n rest up bounded (leb→le _ _ fits) m s
                f' l' (ground arith) fr)
      ]
      | inr over ↦
          rw (at, live, test, over)
            (Implements-keep h w prev low a n (first_fit layout rest (h.start + h.size)) _ h1 h2 h3
              m s l'
              (alloc_from-Implements rest rounds frames layout h w a (a + n) (w (a + 8)) higher
                bounded fr (omega arith) f' (inr (h1, omega arith, refl))))
    ]
