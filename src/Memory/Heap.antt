-- ===== src/Memory/Heap.antt =====
-- kernel/src/memory/heap/list_allocator.rs: the allocator of the kernel's heap, a list of free nodes
-- that are kept in the heap itself. The memory is the 32-bit word at each address. The nodes start at
-- multiples of 4, and the alignment of a layout is a power of two. The heap ends below 2 ^ 32, so that
-- only the sums with a layout can leave the bound; these are reduced.
mod Tests
pub mod Blocks
pub mod Split
pub mod InMemory
pub mod Fits
pub mod Alloc
pub mod Serve
pub mod Release
pub mod Merge
pub mod Freed
pub mod Dealloc
pub mod Grow
use idos_nx.Base.{
  ℕ, zero, suc, ◌+◌, ◌-◌, ◌*◌, ◌/◌, ◌%◌, Bool, Option, none, some, ltb, leb, ◌==◌, if◌then◌else◌,
  add32,
}
use idos_nx.Base.Results.{Outcome, done, panic, ◌>>=◌}

pub record ListAllocator : Type 0 where
  pub start : ℕ
  pub size : ℕ
  pub first_free : ℕ

pub record Layout : Type 0 where
  pub size : ℕ
  pub align : ℕ

abbrev pub magic : ℕ
magic = 0xa110ca7e

abbrev pub header_size : ℕ
header_size = 8

abbrev pub flag : ℕ
flag = 0x80000000

abbrev pub Words : Type 0
Words = ℕ → ℕ

abbrev pub put : Words → ℕ → ℕ → Words
put w at value x = if x == at then value else w x

abbrev pub init : Words → ℕ → ℕ → Words
init w node size = put (put (put w node magic) (node + 4) (size % flag)) (node + 8) 0

abbrev pub is_valid : Words → ℕ → Bool
is_valid w node = w node == magic

abbrev pub get_size : Words → ℕ → ℕ
get_size w node = w (node + 4) % flag

abbrev pub is_free : Words → ℕ → Bool
is_free w node = ltb (w (node + 4)) flag

abbrev pub get_next : Words → ℕ → ℕ
get_next w node = w (node + 8)

abbrev pub mark_occupied : Words → ℕ → Words
mark_occupied w node = put w (node + 4) (w (node + 4) % flag + flag)

abbrev pub mark_free : Words → ℕ → Words
mark_free w node = put w (node + 4) (w (node + 4) % flag)

abbrev pub set_next : Words → ℕ → ℕ → Words
set_next w node addr = put w (node + 8) addr

abbrev pub set_size : Words → ℕ → ℕ → Words
set_size w node size = put w (node + 4) (w (node + 4) / flag * flag + size % flag)

unfoldable pub get_aligned_start : ℕ → ℕ → ℕ
get_aligned_start node alignment =
    let start = node + 12 in add32 start (alignment - 1) / alignment * alignment

abbrev pub mark_padded : Words → ℕ → ℕ → Outcome Words
mark_padded w node padding =
    if ltb padding 4 then panic else done (put w (node + header_size + padding - 4) padding)

abbrev pub find_node_from_allocated_ptr : Words → ℕ → ℕ
find_node_from_allocated_ptr w addr = addr - w (addr - 4) - header_size

abbrev pub State : Type 0
State = ListAllocator × Words

-- `ListAllocator::new`
abbrev pub new : ℕ → ℕ → Words → State
new start size w = (record { start = start; size = size; first_free = start }, init w start size)

-- The trailing space of a node becomes a free node in its place.
abbrev pub split_node : State → ℕ → ℕ → ℕ → ℕ → State
split_node (h, w) prev current next aligned_end =
    let trailing_start = (aligned_end + 3) / 4 * 4 in
    let new_size = current + get_size w current - trailing_start in
    let w1 : Words = set_next (init w trailing_start new_size) trailing_start next in
    if prev == 0
    then (
      record { start = h.start; size = h.size; first_free = trailing_start },
      set_size w1 current (trailing_start - current),
    )
    else (h, set_size (set_next w1 prev trailing_start) current (trailing_start - current))

-- A node is used as a whole: the list goes on behind it, or with a new page at the end of the heap, if
-- there is a frame for it.
abbrev pub use_node : ℕ → State → ℕ → Outcome State
use_node frames (h, w) next =
    if next == 0
    then if frames == 0
      then panic
      else done (
        record { start = h.start; size = h.size + 0x1000; first_free = h.start + h.size },
        init w (h.start + h.size) 0x1000,
      )
    else done (record { start = h.start; size = h.size; first_free = next }, w)

-- The node at `current` is large enough.
unfoldable pub take_node : ℕ → State → Layout → ℕ → ℕ → Outcome (Option ℕ × State)
unfolding get_aligned_start
take_node frames (h, w) layout prev current =
    let next = get_next w current in
    let aligned_start = get_aligned_start current layout.align in
    let aligned_end = add32 aligned_start layout.size in
    let remainder = current + get_size w current - aligned_end in
    mark_padded (mark_occupied w current) current (aligned_start - current - header_size) >>= (λ w2.
      if ltb 16 remainder
      then done (some aligned_start, split_node (h, w2) prev current next aligned_end)
      else use_node frames (h, w2) next >>= (λ s. done (some aligned_start, s)))

-- The loop of `alloc`, for at most so many nodes: none if the list is longer.
unfoldable pub alloc_from : ℕ → ℕ → State → Layout → ℕ → ℕ → Option (Outcome (Option ℕ × State))
alloc_from zero frames (h, w) layout prev current =
    if current == 0 then some (done (none, (h, w))) else none
alloc_from (suc rounds) frames (h, w) layout prev current =
    let rest = alloc_from rounds frames (h, w) layout current (get_next w current) in
    let aligned_end = add32 (get_aligned_start current layout.align) layout.size in
    if current == 0
    then some (done (none, (h, w)))
    else if leb aligned_end (current + get_size w current)
    then some (take_node frames (h, w) layout prev current)
    else rest

unfoldable pub alloc : ℕ → ℕ → State → Layout → Option (Outcome (Option ℕ × State))
unfolding alloc_from
alloc rounds frames (h, w) layout = alloc_from rounds frames (h, w) layout 0 h.first_free
