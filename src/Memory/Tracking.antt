-- ===== src/Memory/Tracking.antt =====
-- kernel/src/memory/physical/tracking.rs: the radix tree of reference counts to physical frames.
pub mod Nodes
pub mod Shape
pub mod Descent
pub mod Refine
use Nodes.{Node, node, Kids, unallocated, allocated, Slots, slot_at, slot_set, blank}
use idos_nx.Base.{
  ℕ, zero, suc, ◌+◌, ◌-◌, ◌*◌, ◌/◌, ◌%◌, ◌^◌, Bool, true, false, Option, none, some, ltb, ◌==◌,
  if◌then◌else◌, add32, ◌>>>◌,
}
use idos_nx.Base.Results.{Outcome, done, panic, ◌>>=◌}
use idos_nx.Memory.Address.{is_page_aligned}

abbrev pub radix_bits : ℕ
radix_bits = 5

abbrev pub tree_depth : ℕ
tree_depth = 4

-- The index for a level, from 0 to 3.
unfoldable pub extract_index : ℕ → ℕ → ℕ
extract_index addr level =
    (addr >>> 12) / 2 ^ ((tree_depth - 1 - level) * radix_bits) % 2 ^ radix_bits

-- `Node::with_value` and `Node::new`
abbrev pub with_value : ℕ → Node
with_value n = node (some n) unallocated

abbrev pub new_node : Node
new_node = node none unallocated

-- `ensure_children`, with the array that is there afterwards.
abbrev pub ensure_children : Kids → Slots
ensure_children unallocated = blank
ensure_children (allocated s) = s

-- The leaf's increment and decrement. `expect` panics at a leaf with no value.
abbrev pub increment : Option Node → Outcome (Option ℕ × Option Node)
increment none = done (none, none)
increment (some (node none kids)) = panic
increment (some (node (some n) kids)) = done (some (add32 n 1), some (node (some (add32 n 1)) kids))

abbrev pub decrement : Option Node → Outcome (Option ℕ × Option Node)
decrement none = done (none, none)
decrement (some (node none kids)) = panic
decrement (some (node (some n) kids)) =
    if ltb 1 n then done (some (n - 1), some (node (some (n - 1)) kids)) else done (some 0, none)

-- `add_reference` below a node at `level`, with the levels that are left: a missing node is created
-- on the way down, and a missing leaf is created with the count 1.
pub add_below : ℕ → ℕ → ℕ → Option Node → Outcome (ℕ × Node)
add_below zero level addr none = done (1, with_value 1)
add_below zero level addr (some (node none kids)) = panic
add_below zero level addr (some (node (some n) kids)) =
    done (add32 n 1, node (some (add32 n 1)) kids)
add_below (suc n) level addr none = do
  let index = extract_index addr level
  (count, child) ← add_below n (level + 1) addr (slot_at blank index)
  done (count, node none (allocated (slot_set blank index (some child))))
add_below (suc n) level addr (some (node v kids)) = do
  let index = extract_index addr level
  let children = ensure_children kids
  (count, child) ← add_below n (level + 1) addr (slot_at children index)
  done (count, node v (allocated (slot_set children index (some child))))

-- The descent of `add_reference_if_exists` and `remove_reference`, which creates nothing, and what
-- is done to the leaf's slot.
pub visit_below :
    (Option Node → Outcome (Option ℕ × Option Node))
    → ℕ
    → ℕ
    → ℕ
    → Option Node
    → Outcome (Option ℕ × Option Node)
visit_below leaf zero level addr o = leaf o
visit_below leaf (suc n) level addr none = done (none, none)
visit_below leaf (suc n) level addr (some (node v unallocated)) =
    done (none, some (node v unallocated))
visit_below leaf (suc n) level addr (some (node v (allocated children))) = do
  let index = extract_index addr level
  (count, child) ← visit_below leaf n (level + 1) addr (slot_at children index)
  done (count, some (node v (allocated (slot_set children index child))))

-- The descent of `contains` and `get_reference_count`.
pub find_below : ℕ → ℕ → ℕ → Option Node → Option Node
find_below zero level addr o = o
find_below (suc n) level addr none = none
find_below (suc n) level addr (some (node v unallocated)) = none
find_below (suc n) level addr (some (node v (allocated children))) =
    find_below n (level + 1) addr (slot_at children (extract_index addr level))

pub record AddressTree : Type 0 where
  pub root : Option Node

unfoldable pub empty_tree : AddressTree
empty_tree = record { root = none }

pub add_reference : AddressTree → ℕ → Outcome (ℕ × AddressTree)
unfolding add_below
add_reference t addr =
    if is_page_aligned addr
    then (do
      (count, root) ← add_below tree_depth 0 addr t.root
      done (count, record { root = some root }))
    else panic

pub add_reference_if_exists : AddressTree → ℕ → Outcome (Option ℕ × AddressTree)
unfolding visit_below
add_reference_if_exists t addr =
    if is_page_aligned addr
    then (do
      (count, root) ← visit_below increment tree_depth 0 addr t.root
      done (count, record { root = root }))
    else panic

pub remove_reference : AddressTree → ℕ → Outcome (Option ℕ × AddressTree)
unfolding visit_below
remove_reference t addr = do
  (count, root) ← visit_below decrement tree_depth 0 addr t.root
  done (count, record { root = root })

abbrev pub value_of : Option Node → Option ℕ
value_of none = none
value_of (some (node v kids)) = v

abbrev pub is_some {ℓ} : {A : Type ℓ} → Option A → Bool
is_some none = false
is_some (some x) = true

pub contains : AddressTree → ℕ → Bool
unfolding find_below
contains t addr = is_some (find_below tree_depth 0 addr t.root)

pub get_reference_count : AddressTree → ℕ → Option ℕ
unfolding find_below
get_reference_count t addr = value_of (find_below tree_depth 0 addr t.root)
