-- ===== src/Memory/Heap/Grow/Reached.antt =====
-- That the loop of the global allocator ends with an address.
use idos_nx.Base.{
  ℕ, zero, suc, ◌+◌, ◌-◌, ◌*◌, ◌≤◌, ◌<◌, ◌≡◌, refl, sym, subst, ◌∙◌, ◌⊎◌, inl, inr, Option, none,
  some, List, [], ◌∷◌, arith, length, word_count,
}
use idos_nx.Base.Results.{Outcome, done}
use idos_nx.Memory.Heap.{ListAllocator, Layout, Words, State, alloc}
use idos_nx.Memory.Heap.Blocks.{Block, Serves, Within, Apart, Bounded}
use idos_nx.Memory.Heap.InMemory.{Occupied}
use idos_nx.Memory.Heap.Serve.{IsHeap, Served, alloc_lem}
use idos_nx.Memory.Heap.Grow.{expand, pages_needed, global_alloc}
use idos_nx.Memory.Heap.Grow.Extended.{
  grow_last, length-grow_last, expand-IsHeap, LastHas, Ascend-LastHas, LastHas-grow_last,
  LastHas-NoneFits,
}

-- An address was given out as `Served` says, from one of these blocks.
abbrev pub Reached : Layout → List Block → Option (Outcome (ℕ × State)) → Type 0
Reached layout blocks result =
    (q a used : ℕ) × (left : List Block) × (h' : ListAllocator) × (w' : Words) × (result
      ≡ some (done (q, (h', w'))))
    × Serves layout q a used
    × Within a used blocks
    × Occupied w' q a used
    × IsHeap (h', w') left
    × Apart a used left

-- A heap with a frame for the last block, whose addresses stay below 2 ^ 32.
abbrev Ready : ℕ → ℕ → Layout → State → List Block → Type 0
Ready rounds frames layout (h, w) blocks =
    IsHeap (h, w) blocks
    × Bounded layout (h.start + h.size)
    × (0 < length blocks)
    × (length blocks ≤ rounds)
    × (0 < frames)

global_alloc-Served :
    (tries rounds frames : ℕ) (s : State) (layout : Layout) (blocks : List Block)
    → Served layout blocks (alloc rounds frames s layout)
    → Reached layout blocks (global_alloc (suc tries) rounds frames s layout)
unfolding global_alloc
global_alloc-Served tries rounds frames s layout blocks
      (q, a, used, left, h', w', e, s1, s2, s3, s4, s5) =
    (q, a, used, left, h', w', rw (global_alloc, e) refl, s1, s2, s3, s4, s5)

global_alloc-grown :
    (tries rounds frames : ℕ) (s : State) (layout : Layout) (s' : State)
    → alloc rounds frames s layout ≡ some (done (none, s))
    → expand rounds frames s (pages_needed layout) ≡ some (done s')
    → global_alloc (suc tries) rounds frames s layout
      ≡ global_alloc tries rounds (frames - pages_needed layout) s' layout
unfolding global_alloc
global_alloc-grown tries rounds frames s layout s' e e' = rw (global_alloc, e, e') refl

LastHas-le : (blocks : List Block) (n m : ℕ) → m ≤ n → LastHas n blocks → LastHas m blocks
LastHas-le [] n m h l = l
LastHas-le ((a, k) ∷ []) n m h l = omega arith
LastHas-le ((a, k) ∷ b ∷ rest) n m h l = LastHas-le (b ∷ rest) n m h l

-- The last try, when the last block is large enough.
last_try :
    (tries rounds frames : ℕ) (h : ListAllocator) (w : Words) (layout : Layout)
    (blocks : List Block)
    → Ready rounds frames layout (h, w) blocks
    → LastHas (12 + layout.align + layout.size) blocks
    → Reached layout blocks (global_alloc (suc tries) rounds frames (h, w) layout)
last_try tries rounds frames h w layout blocks (heap, b, ne, r, fr) large =
    elim (alloc_lem blocks rounds frames layout h w heap b fr r) [
      | inl (_, none_fits) ↦ absurd (
          LastHas-NoneFits layout blocks h.start (h.start + h.size) b.0 (omega arith) heap.1 large
            none_fits)
      | inr served ↦ global_alloc-Served tries rounds frames (h, w) layout blocks served
    ]

-- The heap has grown some times, by so many bytes each.
abbrev pub grown : ℕ → ℕ → List Block → List Block
grown zero bytes blocks = blocks
grown (suc times) bytes blocks = grow_last bytes (grown times bytes blocks)

-- A try that finds nothing, and what is left to do.
next_try :
    (tries rounds frames : ℕ) (h : ListAllocator) (w : Words) (layout : Layout)
    (blocks : List Block)
    → Ready rounds frames layout (h, w) blocks
    → pages_needed layout ≤ frames
    → h.size + 0x1000 * pages_needed layout < 0x80000000
    → Reached layout blocks (global_alloc (suc tries) rounds frames (h, w) layout)
      ⊎ ((h' : ListAllocator) × (w' : Words) × (h'.start ≡ h.start)
          × (h'.size ≡ h.size + 0x1000 * pages_needed layout)
          × IsHeap (h', w') (grow_last (0x1000 * pages_needed layout) blocks)
          × (global_alloc (suc tries) rounds frames (h, w) layout
              ≡ global_alloc tries rounds (frames - pages_needed layout) (h', w') layout))
next_try tries rounds frames h w layout blocks (heap, b, ne, r, fr) enough small =
    elim (alloc_lem blocks rounds frames layout h w heap b fr r) [
      | inl (e, _) ↦
          let (h', w', e', st, sz, heap') =
            expand-IsHeap blocks rounds frames (pages_needed layout) h w heap ne r enough small in
          inr (
            h',
            w',
            st,
            sz,
            heap',
            global_alloc-grown tries rounds frames (h, w) layout (h', w') e e',
          )
      | inr served ↦ inl (global_alloc-Served tries rounds frames (h, w) layout blocks served)
    ]

-- The global allocator returns an address: on a heap that is not empty, for an alignment of at most a
-- page, it tries at most three times, and the heap grows in between by the pages of the layout. The
-- address is aligned and lies with its bytes in a part of a block of the heap that has grown, which is
-- now marked as used; what is left is a heap, and no free block meets the used part. There are frames
-- for the two times and one more, the heap stays below 2 GiB, and the addresses below 2 ^ 32.
pub global_alloc_lem :
    (blocks : List Block) (rounds frames : ℕ) (layout : Layout) (h : ListAllocator) (w : Words)
    → IsHeap (h, w) blocks
    → 0 < length blocks
    → length blocks ≤ rounds
    → 0 < layout.align
    → layout.align ≤ 0x1000
    → h.size + 2 * (0x1000 * pages_needed layout) < 0x80000000
    → h.start + h.size + 2 * (0x1000 * pages_needed layout) + layout.align + layout.size + 16
      < word_count
    → 2 * pages_needed layout < frames
    → (times : ℕ) × (times ≤ 2)
      × Reached layout
          (grown times (0x1000 * pages_needed layout) blocks)
          (global_alloc 3 rounds frames (h, w) layout)
global_alloc_lem blocks rounds frames layout h w heap ne r pos page small bound fr =
    let bytes = 0x1000 * pages_needed layout in
    let blocks1 : List Block = grow_last bytes blocks in
    let same1 = length-grow_last bytes blocks in
    elim (next_try 2 rounds frames h w layout blocks (heap, (pos, omega arith), ne, r, omega arith)
      (omega arith) (omega arith)) [
        | inl found ↦ (0, omega arith, found)
        | inr (h1, w1, st1, sz1, heap1, e1) ↦
            elim (next_try 1 rounds (frames - pages_needed layout) h1 w1 layout blocks1
              (heap1, (pos, omega arith), omega arith, omega arith, omega arith) (omega arith)
              (omega arith)) [
                | inl found ↦ (1, omega arith, subst (Reached layout blocks1) (sym e1) found)
                | inr (h2, w2, st2, sz2, heap2, e2) ↦
                    let large = LastHas-grow_last blocks1 (12 + bytes) bytes (
                      LastHas-grow_last blocks 12 bytes
                        (Ascend-LastHas blocks h.start (h.start + h.size) ne heap.1)) in
                    let same2 = length-grow_last bytes blocks1 in
                    (
                      2,
                      omega arith,
                      subst (Reached layout (grow_last bytes blocks1)) (sym (e1 ∙ e2)) (
                          last_try 0 rounds (frames - pages_needed layout - pages_needed layout) h2
                            w2 layout (grow_last bytes blocks1)
                            (heap2, (pos, omega arith), omega arith, omega arith, omega arith)
                            (LastHas-le (grow_last bytes blocks1) (12 + bytes + bytes) _
                              (omega arith) large)),
                    )
              ]
      ]
