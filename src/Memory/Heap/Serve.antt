-- ===== src/Memory/Heap/Serve.antt =====
-- What an allocation from the kernel's heap returns, and that it leaves a heap.
use idos_nx.Base.{
  ℕ, ◌+◌, ◌%◌, ◌≤◌, ◌<◌, ◌≡◌, refl, ◌⊎◌, inl, inr, Option, none, some, List, [], ◌∷◌, arith, length,
}
use idos_nx.Base.Results.{Outcome, done}
use idos_nx.Memory.Heap.{ListAllocator, Layout, Words, State, new, alloc}
use idos_nx.Memory.Heap.Blocks.{
  Block, Ascend, Fit, nothing, kept, dropped, first_fit, Bounded, NoneFits, Serves, Within, Apart,
  Placed,
}
use idos_nx.Memory.Heap.InMemory.{FreeList, Occupied, Implements}
use idos_nx.Memory.Heap.Alloc.{alloc_from-Implements}
use idos_nx.Memory.Heap.Fits.{first_fit_lem}

-- The free list of the heap has these blocks: they lie in the heap in the order of their addresses,
-- they do not meet, and the last one ends with the heap.
abbrev pub IsHeap : State → List Block → Type 0
IsHeap (h, w) blocks =
    FreeList w h.first_free blocks
    × Ascend h.start blocks (h.start + h.size)
    × (0 < h.start)
    × (h.start % 4 ≡ 0)

-- A new heap is one free block.
pub new-IsHeap :
    (start size : ℕ) (w : Words)
    → 0 < start
    → start % 4 ≡ 0
    → 12 ≤ size
    → size < 0x80000000
    → size % 4 ≡ 0
    → IsHeap (new start size w) ((start, size) ∷ [])
new-IsHeap start size w h1 h2 h3 h4 h5 = (
  (refl, ground arith, ground arith, ground arith),
  (h1, omega arith, h3, h4, h2, h5, refl),
  h1,
  h2,
)

Ascend-mod : (blocks : List Block) (low end : ℕ) → low % 4 ≡ 0 → Ascend low blocks end → end % 4 ≡ 0
Ascend-mod [] low end h e = omega arith
Ascend-mod ((a, n) ∷ rest) low end h (h1, h2, h3, h4, h5, h6, up) =
    Ascend-mod rest (a + n) end (omega arith) up

-- An address was given out, from a node that is now occupied, and what is left is a heap.
abbrev pub Served : Layout → List Block → Option (Outcome (Option ℕ × State)) → Type 0
Served layout blocks result =
    (q a used : ℕ) × (left : List Block) × (h' : ListAllocator) × (w' : Words) × (result
      ≡ some (done (some q, (h', w'))))
    × Serves layout q a used
    × Within a used blocks
    × Occupied w' q a used
    × IsHeap (h', w') left
    × Apart a used left

Served-fit :
    (layout : Layout) (blocks : List Block) (h : ListAllocator) (w : Words) (fit : Fit)
    → (result : Option (Outcome (Option ℕ × State))) → 0 < h.start
    → h.start % 4 ≡ 0
    → Placed layout blocks h.start (h.start + h.size) fit
    → Implements (h, w) 0 h.start fit result
    → ((result ≡ some (done (none, (h, w)))) × NoneFits layout blocks) ⊎ Served layout blocks result
Served-fit layout blocks h w nothing result pos al p i = inl (i, p)
Served-fit layout blocks h w (kept q a used left) result pos al (s, within, low, up, apart)
      (h', w', e, st, sz, same, inl (_, f), o) =
    inr (q, a, used, left, h', w', e, s, within, o, (f, rw (st, sz) up, rw st pos, rw st al), apart)
Served-fit layout blocks h w (kept q a used left) result pos al p
      (h', w', e, st, sz, same, inr (zero_prev, _, _), o) =
    absurd (omega arith)
Served-fit layout blocks h w (dropped q a used left end) result pos al
      (s, within, low, some_left, up, apart) (h', w', e, st, ends, f, o) =
    inr (
      q,
      a,
      used,
      left,
      h',
      w',
      e,
      s,
      within,
      o,
      (f, rw ends (rw st up), rw st pos, rw st al),
      apart,
    )

-- On a heap, `alloc` returns: with no address, if every free block is too small, and the heap is as it
-- was; or with an address that is aligned as the layout asks, whose bytes lie in a part of a free block
-- behind the header that is now marked as used, with the padding noted in front of the address. What
-- is left is a heap again, and no free block meets the used part. It gets at least as many rounds as
-- there are free blocks and a frame for the case that the last one is used up, and the layout keeps
-- the addresses below 2 ^ 32.
pub alloc_lem :
    (blocks : List Block) (rounds frames : ℕ) (layout : Layout) (h : ListAllocator) (w : Words)
    → IsHeap (h, w) blocks
    → Bounded layout (h.start + h.size)
    → 0 < frames
    → length blocks ≤ rounds
    → ((alloc rounds frames (h, w) layout ≡ some (done (none, (h, w)))) × NoneFits layout blocks)
      ⊎ Served layout blocks (alloc rounds frames (h, w) layout)
unfolding alloc
alloc_lem blocks rounds frames layout h w (f, up, pos, al) bounded fr r =
    Served-fit layout blocks h w (first_fit layout blocks (h.start + h.size)) _ pos al
      (first_fit_lem layout blocks h.start (h.start + h.size) bounded
        (Ascend-mod blocks h.start (h.start + h.size) al up) up)
      (alloc_from-Implements blocks rounds frames layout h w 0 h.start h.first_free up bounded fr r
        f (inl (refl, refl)))
