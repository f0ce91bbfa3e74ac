-- ===== src/Memory/Tracking/Nodes.antt =====
-- `Node` of tracking.rs and its array of children. A node holds an array of nodes, hence the block.
use idos_nx.Base.{ℕ, zero, suc, ◌<◌, ◌≡◌, refl, ap, Option, none, some, arith, ◌==◌, if◌then◌else◌}

mutual
  pub data Node : Type 0 where
    node : Option ℕ → Kids → Node

  -- `Option<Box<[Option<Node>; 32]>>`
  pub data Kids : Type 0 where
    unallocated : Kids
    allocated : Slots → Kids

  pub data Slots : Type 0 where
    nil : Slots
    empty : Slots → Slots
    filled : Node → Slots → Slots

abbrev pub slot_count : Slots → ℕ
slot_count nil = 0
slot_count (empty s) = suc (slot_count s)
slot_count (filled n s) = suc (slot_count s)

-- `children[index]`. The index is always below 32, the length of the array.
unfoldable pub slot_at : Slots → ℕ → Option Node
slot_at nil i = none
slot_at (empty s) zero = none
slot_at (empty s) (suc i) = slot_at s i
slot_at (filled n s) zero = some n
slot_at (filled n s) (suc i) = slot_at s i

abbrev slot : Option Node → Slots → Slots
slot none s = empty s
slot (some n) s = filled n s

unfoldable pub slot_set : Slots → ℕ → Option Node → Slots
slot_set nil i o = nil
slot_set (empty s) zero o = slot o s
slot_set (empty s) (suc i) o = empty (slot_set s i o)
slot_set (filled n s) zero o = slot o s
slot_set (filled n s) (suc i) o = filled n (slot_set s i o)

abbrev empties : ℕ → Slots
empties zero = nil
empties (suc n) = empty (empties n)

-- 32 empty slots.
abbrev pub blank : Slots
blank = empties 32

slot_count-slot : (o : Option Node) (s : Slots) → slot_count (slot o s) ≡ suc (slot_count s)
slot_count-slot none s = refl
slot_count-slot (some n) s = refl

pub slot_count-slot_set :
    (s : Slots) (i : ℕ) (o : Option Node) → slot_count (slot_set s i o) ≡ slot_count s
unfolding slot_set
slot_count-slot_set nil i o = refl
slot_count-slot_set (empty s) zero o = slot_count-slot o s
slot_count-slot_set (empty s) (suc i) o = ap suc (slot_count-slot_set s i o)
slot_count-slot_set (filled n s) zero o = slot_count-slot o s
slot_count-slot_set (filled n s) (suc i) o = ap suc (slot_count-slot_set s i o)

slot_at-slot :
    (o : Option Node) (s : Slots) (j : ℕ)
    → slot_at (slot o s) j ≡ (if 0 == j then o else slot_at (empty s) j)
unfolding slot_at
slot_at-slot none s zero = refl
slot_at-slot none s (suc j) = ground arith
slot_at-slot (some n) s zero = refl
slot_at-slot (some n) s (suc j) = ground arith

pub slot_at-slot_set :
    (s : Slots) (i j : ℕ) (o : Option Node)
    → i < slot_count s
    → slot_at (slot_set s i o) j ≡ (if i == j then o else slot_at s j)
unfolding slot_at slot_set
slot_at-slot_set nil i j o h = absurd (omega arith)
slot_at-slot_set (empty s) zero j o h = slot_at-slot o s j
slot_at-slot_set (empty s) (suc i) zero o h = ground arith
slot_at-slot_set (empty s) (suc i) (suc j) o h = ground (arith, slot_at-slot_set s i j o)
slot_at-slot_set (filled n s) zero zero o h = slot_at-slot o s 0
slot_at-slot_set (filled n s) zero (suc j) o h = slot_at-slot o s (suc j)
slot_at-slot_set (filled n s) (suc i) zero o h = ground arith
slot_at-slot_set (filled n s) (suc i) (suc j) o h = ground (arith, slot_at-slot_set s i j o)

pub slot_at-blank : (i : ℕ) → slot_at blank i ≡ none
unfolding slot_at
slot_at-blank i = go 32 i
  where
    go : (n i : ℕ) → slot_at (empties n) i ≡ none
    go zero i = refl
    go (suc n) zero = refl
    go (suc n) (suc i) = go n i
