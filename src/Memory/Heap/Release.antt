-- ===== src/Memory/Heap/Release.antt =====
-- `dealloc` of kernel/src/memory/heap/list_allocator.rs, and the merging of free nodes. A loop gets a
-- number of rounds, and is none if they are not enough.
use idos_nx.Base.{ℕ, zero, suc, ◌+◌, not, ◌&&◌, ◌||◌, Option, none, some, ltb, ◌==◌, if◌then◌else◌}
use idos_nx.Base.Results.{Outcome, done, panic}
use idos_nx.Memory.Heap.{
  Words, State, is_valid, is_free, get_size, get_next, mark_free, set_next, set_size,
  find_node_from_allocated_ptr,
}

-- The loop of `dealloc` that finds the place of a node in the list.
unfoldable pub insert_from : ℕ → Words → ℕ → ℕ → Option Words
insert_from zero w node iter_addr = if iter_addr == 0 then some w else none
insert_from (suc rounds) w node iter_addr =
    let next_addr = get_next w iter_addr in
    let rest = insert_from rounds w node next_addr in
    if iter_addr == 0
    then some w
    else if ltb iter_addr node && (ltb node next_addr || next_addr == 0)
    then some (set_next (set_next w iter_addr node) node next_addr)
    else rest

-- The loop of `merge_free_areas`.
unfoldable pub merge_from : ℕ → Words → ℕ → Option Words
merge_from zero w iter_addr = if iter_addr == 0 then some w else none
merge_from (suc rounds) w iter_addr =
    let next_byte = iter_addr + get_size w iter_addr in
    let next_addr = get_next w iter_addr in
    let w1 : Words = set_size w iter_addr (get_size w iter_addr + get_size w next_addr) in
    let merged = merge_from rounds (set_next w1 iter_addr (get_next w1 next_addr)) iter_addr in
    let further = merge_from rounds w next_addr in
    if iter_addr == 0 then some w else if next_byte == next_addr then merged else further

-- Into the free list, which is then merged.
unfoldable pub add_node : ℕ → State → ℕ → Option State
add_node rounds (h, w) node =
    if ltb node h.first_free
    then elim (merge_from rounds (set_next w node h.first_free) node) [
      | some w' ↦ some (record { start = h.start; size = h.size; first_free = node }, w')
      | none ↦ none
    ]
    else elim (insert_from rounds w node h.first_free) [
      | some w1 ↦ elim (merge_from rounds w1 h.first_free) [ some w' ↦ some (h, w') | none ↦ none ]
      | none ↦ none
    ]

unfoldable pub dealloc : ℕ → State → ℕ → Outcome (Option State)
dealloc rounds (h, w) addr =
    if ltb addr h.start || ltb (h.start + h.size) addr
    then panic
    else let node = find_node_from_allocated_ptr w addr in
      if not (is_valid w node)
      then panic
      else if is_free w node
      then panic
      else done (add_node rounds (h, mark_free w node) node)
