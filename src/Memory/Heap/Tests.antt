-- ===== src/Memory/Heap/Tests.antt =====
-- A page as the heap, and what the first allocations from it are.
use idos_nx.Base.{
  ℕ, ◌+◌, ◌≤◌, ◌==◌, if◌then◌else◌, inr, ◌≡◌, refl, ◌⊎◌, Option, none, some, List, [], ◌∷◌, arith,
}
use idos_nx.Base.Results.{Outcome, done, panic}
use idos_nx.Memory.Heap.{
  ListAllocator, Words, magic, flag, get_size, Layout, State, new, alloc, alloc_from, take_node,
  get_aligned_start,
}
use idos_nx.Memory.Heap.Blocks.{Block, NoneFits}
use idos_nx.Memory.Heap.Release.{dealloc, add_node, merge_from, insert_from}
use idos_nx.Memory.Heap.Dealloc.{Returned, dealloc_lem}
use idos_nx.Memory.Heap.Grow.{global_alloc}
use idos_nx.Memory.Heap.Grow.Reached.{Reached, grown, global_alloc_lem}
use idos_nx.Memory.Heap.Serve.{IsHeap, new-IsHeap, Served, alloc_lem}

abbrev page : State
page = new 0x1000 0x1000 (λ x. 0)

abbrev page_blocks : List Block
page_blocks = (0x1000, 0x1000) ∷ []

abbrev layout : Layout
layout = record { size = 24; align = 8 }

page-IsHeap : IsHeap page page_blocks
page-IsHeap = new-IsHeap 0x1000 0x1000 (λ x. 0) (omega arith) refl (omega arith) (omega arith) refl

alloc_lem_example :
    ((alloc 1 1 page layout ≡ some (done (none, page))) × NoneFits layout page_blocks)
    ⊎ Served layout page_blocks (alloc 1 1 page layout)
alloc_lem_example =
    alloc_lem page_blocks 1 1 layout page.0 page.1 page-IsHeap (omega arith, omega arith)
      (omega arith) (omega arith)

abbrev address_of : Option (Outcome (Option ℕ × State)) → Option ℕ
address_of (some (done (q, s))) = q
address_of _ = none

first_address : address_of (alloc 1 1 page layout) ≡ some 0x1010
unfolding alloc alloc_from take_node get_aligned_start
first_address = refl

-- The page after this allocation: a node of 40 bytes, and the free rest.
abbrev words : Words
words x =
    if x == 0x1000
    then magic
    else if x == 0x1004
    then flag + 40
    else if x == 0x100c
    then 8
    else if x == 0x1028
    then magic
    else if x == 0x102c
    then 4056
    else 0

abbrev heap : ListAllocator
heap = record { start = 0x1000; size = 0x1000; first_free = 0x1028 }

abbrev heap_blocks : List Block
heap_blocks = (0x1028, 4056) ∷ []

dealloc_lem_example :
    (left : List Block) × (h' : ListAllocator) × (w' : Words) × (dealloc 2 (heap, words) 0x1010
      ≡ done (some (h', w')))
    × Returned (heap, words) 0x1000 40 heap_blocks (h', w') left
dealloc_lem_example =
    dealloc_lem heap_blocks 2 heap words 0x1010 0x1000 40
      (
        (refl, refl, refl, refl),
        (omega arith, omega arith, omega arith, omega arith, refl, refl, refl),
        omega arith,
        refl,
      )
      (refl, refl, refl)
      (omega arith, omega arith, omega arith, omega arith, refl, refl, omega arith, omega arith)
      (inr (omega arith), tt) (omega arith) (omega arith)

abbrev first_node : Outcome (Option State) → Option (ℕ × ℕ)
first_node (done (some (h, w))) = some (h.first_free, get_size w h.first_free)
first_node (done none) = none
first_node panic = none

-- The two free blocks are one again.
merged_page : first_node (dealloc 2 (heap, words) 0x1010) ≡ some (0x1000, 0x1000)
unfolding dealloc add_node merge_from insert_from
merged_page = refl

-- More than the page has.
abbrev large : Layout
large = record { size = 5000; align = 8 }

global_alloc_lem_example :
    (times : ℕ) × (times ≤ 2)
    × Reached large (grown times 0x2000 page_blocks) (global_alloc 3 1 10 page large)
global_alloc_lem_example =
    global_alloc_lem page_blocks 1 10 large page.0 page.1 page-IsHeap (omega arith) (omega arith)
      (omega arith) (omega arith) (omega arith) (omega arith) (omega arith)
