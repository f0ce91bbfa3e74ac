-- ===== src/Memory/Heap/Grow.antt =====
-- How the heap grows: `find_last_node` and `expand` of kernel/src/memory/heap/list_allocator.rs, and the
-- loop of the global allocator, kernel/src/memory/heap/mod.rs. A loop gets a number of rounds, and is
-- none if they are not enough; an operation gets the number of frames that are left.
pub mod Extended
pub mod Reached
use idos_nx.Base.{
  ℕ, zero, suc, ◌+◌, ◌-◌, ◌*◌, ◌/◌, ◌%◌, ◌^◌, ◌≤◌, ◌<◌, min, max, ◌≡◌, refl, sym, subst, ap, ap₂,
  ◌∙◌, ◌≢◌, ◌↔◌, ◌⊎◌, inl, inr, Bool, true, false, not, ◌&&◌, ◌||◌, Option, none, some, List, [],
  ◌∷◌, ◌++◌, append-nil, append_assoc, arith, ltb, leb, ◌==◌, if◌then◌else◌, ltb→lt, lt→ltb, leb→le,
  ltb→le, le→ltb, ==_iff, Bool-cases, Option-cases, length, get_elem?, get_or, set, replicate,
  length-append, length-replicate, take, drop, append-take-drop, length-take, length-drop,
  take-of_ge, take-append-slice, word_count, wrap32, add32, sub32, ◌<<<◌, ◌>>>◌, get_elem?-append,
  get_elem?-none, get_elem?-lt,
}
use idos_nx.Base.Results.{Outcome, done, panic}
use idos_nx.Memory.Heap.{ListAllocator, Layout, Words, State, put, get_next, alloc}

unfoldable pub find_last_node : ℕ → Words → ℕ → Option ℕ
find_last_node zero w current = none
find_last_node (suc rounds) w current =
    let rest = find_last_node rounds w (get_next w current) in
    if get_next w current == 0 then some current else rest

-- Every page takes a frame.
unfoldable pub expand : ℕ → ℕ → State → ℕ → Option (Outcome State)
expand rounds frames (h, w) page_count = elim (find_last_node rounds w h.first_free) [
  | none ↦ none
  | some last_node ↦
      let expanded_bytes = 0x1000 * page_count in
      if ltb frames page_count
      then some panic
      else some (
          done (
            record { start = h.start; size = h.size + expanded_bytes; first_free = h.first_free },
            put w (last_node + 4) (add32 (w (last_node + 4)) expanded_bytes),
          ))
]

abbrev pub pages_needed : Layout → ℕ
pages_needed layout = layout.size / 0x1000 + 1

-- After an allocation that found nothing, the heap grows and it is tried again.
unfoldable pub global_alloc : ℕ → ℕ → ℕ → State → Layout → Option (Outcome (ℕ × State))
global_alloc zero rounds frames s layout = none
global_alloc (suc tries) rounds frames s layout = elim (alloc rounds frames s layout) [
  | none ↦ none
  | some panic ↦ some panic
  | some (done (some ptr, s')) ↦ some (done (ptr, s'))
  | some (done (none, s')) ↦ elim (expand rounds frames s' (pages_needed layout)) [
    | none ↦ none
    | some panic ↦ some panic
    | some (done s'') ↦ global_alloc tries rounds (frames - pages_needed layout) s'' layout
  ]
]
