-- ===== src/Memory/Heap/Grow/Extended.antt =====
-- `expand` makes the last block of the heap longer.
use idos_nx.Base.{
  ℕ, zero, suc, ◌+◌, ◌*◌, ◌%◌, ◌≤◌, ◌<◌, ◌≡◌, refl, sym, subst, ap, false, some, List, [], ◌∷◌,
  arith, ltb, ◌==◌, length, word_count, add32,
}
use idos_nx.Base.Results.{done}
use idos_nx.Memory.Heap.{ListAllocator, Layout, Words, put}
use idos_nx.Memory.Heap.Blocks.{Block, Ascend, NoneFits, get_aligned_start_lem}
use idos_nx.Memory.Heap.InMemory.{FreeList}
use idos_nx.Memory.Heap.Serve.{IsHeap}
use idos_nx.Memory.Heap.Grow.{find_last_node, expand}

abbrev pub grow_last : ℕ → List Block → List Block
grow_last bytes [] = []
grow_last bytes ((a, n) ∷ []) = (a, n + bytes) ∷ []
grow_last bytes ((a, n) ∷ b ∷ rest) = (a, n) ∷ grow_last bytes (b ∷ rest)

pub length-grow_last :
    (bytes : ℕ) (blocks : List Block) → length (grow_last bytes blocks) ≡ length blocks
length-grow_last bytes [] = refl
length-grow_last bytes ((a, n) ∷ []) = refl
length-grow_last bytes ((a, n) ∷ b ∷ rest) = ap suc (length-grow_last bytes (b ∷ rest))

pub grow_last-Ascend :
    (bytes : ℕ) (blocks : List Block) (low start end : ℕ)
    → 0 < length blocks
    → bytes % 4 ≡ 0
    → start ≤ low
    → end + bytes < start + 0x80000000
    → Ascend low blocks end
    → Ascend low (grow_last bytes blocks) (end + bytes)
grow_last-Ascend bytes [] low start end ne m s l up = absurd (omega arith)
grow_last-Ascend bytes ((a, n) ∷ []) low start end ne m s l (h1, h2, h3, h4, h5, h6, up) =
    (h1, h2, omega arith, omega arith, h5, omega arith, omega arith)
grow_last-Ascend bytes ((a, n) ∷ b ∷ rest) low start end ne m s l (h1, h2, h3, h4, h5, h6, up) = (
  h1,
  h2,
  h3,
  h4,
  h5,
  h6,
  grow_last-Ascend bytes (b ∷ rest) (a + n) start end (omega arith) m (omega arith) l up,
)

find_next :
    (rounds : ℕ) (w : Words) (at a last : ℕ)
    → at ≡ a
    → (w (a + 8) == 0) ≡ false
    → find_last_node rounds w (w (a + 8)) ≡ some last
    → find_last_node (suc rounds) w at ≡ some last
unfolding find_last_node
find_next rounds w at a last e more found = rw (e, more, found) refl

expand-eq :
    (rounds frames pages : ℕ) (h : ListAllocator) (w : Words) (last : ℕ)
    → find_last_node rounds w h.first_free ≡ some last
    → ltb frames pages ≡ false
    → expand rounds frames (h, w) pages
      ≡ some (
          done (
            record { start = h.start; size = h.size + 0x1000 * pages; first_free = h.first_free },
            put w (last + 4) (add32 (w (last + 4)) (0x1000 * pages)),
          ))
unfolding expand
expand-eq rounds frames pages h w last found enough = rw (expand, found, enough) refl

-- The node that is found starts a block, and its size is the only word that changes.
find_last_node-grow :
    (bytes : ℕ) (blocks : List Block) (rounds : ℕ) (w : Words) (at low start end : ℕ)
    → 0 < length blocks
    → length blocks ≤ rounds
    → start ≤ low
    → end + bytes < start + 0x80000000
    → Ascend low blocks end
    → FreeList w at blocks
    → (last : ℕ) × (find_last_node rounds w at ≡ some last)
      × (low ≤ last)
      × FreeList (put w (last + 4) (add32 (w (last + 4)) bytes)) at (grow_last bytes blocks)
unfolding find_last_node
find_last_node-grow bytes [] rounds w at low start end ne r s l up f = absurd (omega arith)
find_last_node-grow bytes ((a, n) ∷ rest) zero w at low start end ne r s l up f =
    absurd (omega arith)
find_last_node-grow bytes ((a, n) ∷ []) (suc rounds) w at low start end ne r s l
      (h1, h2, h3, h4, h5, h6, up) (e, m, sz, f) =
    (a, rw (e, f) refl, h2, (e, ground arith, ground arith, ground arith))
find_last_node-grow bytes ((a, n) ∷ (b, k) ∷ rest) (suc rounds) w at low start end ne r s l
      (h1, h2, h3, h4, h5, h6, up) (e, m, sz, f) =
    let (last, found, below, f') =
      find_last_node-grow bytes ((b, k) ∷ rest) rounds w (w (a + 8)) (a + n) start end (omega arith)
        (omega arith) (omega arith) l up f in
    let more : (w (a + 8) == 0) ≡ false = ground (arith, up.0, f.0) in
    let w' : Words = put w (last + 4) (add32 (w (last + 4)) bytes) in
    let link : w' (a + 8) ≡ w (a + 8) = ground arith in
    (
      last,
      find_next rounds w at a last e more found,
      omega arith,
      (
        e,
        ground arith,
        ground arith,
        subst (λ (p : ℕ). FreeList w' p (grow_last bytes ((b, k) ∷ rest))) (sym link) f',
      ),
    )

-- The heap is longer by the pages, and so is its last block.
pub expand-IsHeap :
    (blocks : List Block) (rounds frames pages : ℕ) (h : ListAllocator) (w : Words)
    → IsHeap (h, w) blocks
    → 0 < length blocks
    → length blocks ≤ rounds
    → pages ≤ frames
    → h.size + 0x1000 * pages < 0x80000000
    → (h' : ListAllocator) × (w' : Words) × (expand rounds frames (h, w) pages
        ≡ some (done (h', w')))
      × (h'.start ≡ h.start)
      × (h'.size ≡ h.size + 0x1000 * pages)
      × IsHeap (h', w') (grow_last (0x1000 * pages) blocks)
expand-IsHeap blocks rounds frames pages h w (f, up, pos, al) ne r fr small =
    let bytes = 0x1000 * pages in
    let (last, found, low, f') =
      find_last_node-grow bytes blocks rounds w h.first_free h.start h.start (h.start + h.size) ne r
        (omega arith) (omega arith) up f in
    let enough : ltb frames pages ≡ false = ground arith in
    let longer : h.start + h.size + bytes ≡ h.start + (h.size + bytes) = omega arith in
    (
      record { start = h.start; size = h.size + bytes; first_free = h.first_free },
      put w (last + 4) (add32 (w (last + 4)) bytes),
      expand-eq rounds frames pages h w last found enough,
      refl,
      refl,
      (
        f',
        subst (λ (e : ℕ). Ascend h.start (grow_last bytes blocks) e) longer
            (grow_last-Ascend bytes blocks h.start h.start (h.start + h.size) ne (omega arith)
              (omega arith) (omega arith) up),
        pos,
        al,
      ),
    )

-- The last block has so many bytes.
abbrev pub LastHas : ℕ → List Block → Type 0
LastHas bytes [] = ⊥
LastHas bytes ((a, n) ∷ []) = bytes ≤ n
LastHas bytes ((a, n) ∷ b ∷ rest) = LastHas bytes (b ∷ rest)

pub Ascend-LastHas :
    (blocks : List Block) (low end : ℕ)
    → 0 < length blocks
    → Ascend low blocks end
    → LastHas 12 blocks
Ascend-LastHas [] low end ne up = absurd (omega arith)
Ascend-LastHas ((a, n) ∷ []) low end ne (_, _, h3, _, _, _, _) = h3
Ascend-LastHas ((a, n) ∷ b ∷ rest) low end ne (h1, h2, h3, h4, h5, h6, up) =
    Ascend-LastHas (b ∷ rest) (a + n) end (omega arith) up

pub LastHas-grow_last :
    (blocks : List Block) (bytes more : ℕ)
    → LastHas bytes blocks
    → LastHas (bytes + more) (grow_last more blocks)
LastHas-grow_last [] bytes more h = h
LastHas-grow_last ((a, n) ∷ []) bytes more h = omega arith
LastHas-grow_last ((a, n) ∷ (b, k) ∷ []) bytes more h = omega arith
LastHas-grow_last ((a, n) ∷ (b, k) ∷ c ∷ rest) bytes more h =
    LastHas-grow_last ((b, k) ∷ c ∷ rest) bytes more h

-- A last block with space for the header, the alignment and the layout is not too small.
pub LastHas-NoneFits :
    (layout : Layout) (blocks : List Block) (low end : ℕ)
    → 0 < layout.align
    → end + layout.align + 12 < word_count
    → Ascend low blocks end
    → LastHas (12 + layout.align + layout.size) blocks
    → NoneFits layout blocks
    → ⊥
LastHas-NoneFits layout [] low end pos b up h none_fits = h
LastHas-NoneFits layout ((a, n) ∷ []) low end pos b (h1, h2, h3, h4, h5, h6, up) h (small, _) =
    let (q1, q2, q3) = get_aligned_start_lem a layout.align pos (omega arith) in omega arith
LastHas-NoneFits layout ((a, n) ∷ c ∷ rest) low end pos b (h1, h2, h3, h4, h5, h6, up) h
      (_, small) =
    LastHas-NoneFits layout (c ∷ rest) (a + n) end pos b up h small
