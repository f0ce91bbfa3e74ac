-- ===== src/Collections/SlotList.antt =====
-- kernel/src/collections/slotlist.rs: a growing vector of slots whose indexes stay stable, and the
-- handle table of kernel/src/io/handle.rs over it.
pub mod Laws
pub mod Handles
use idos_nx.Base.{
  ℕ, zero, suc, ◌+◌, ◌-◌, Option, none, some, List, [], ◌∷◌, ◌++◌, length, get_elem?, set,
  replicate, ltb, if◌then◌else◌,
}

pub record SlotList (T : Type 0) : Type 0 where
  pub slots : List (Option T)

module _ {T : Type 0} where
  -- The `while` of `find_empty_slot`, from an index on.
  pub find_from : List (Option T) → ℕ → Option ℕ
  find_from [] index = none
  find_from (none ∷ rest) index = some index
  find_from (some x ∷ rest) index = find_from rest (index + 1)

  abbrev pub found_or_push : SlotList T → Option ℕ → ℕ × SlotList T
  found_or_push l (some i) = (i, l)
  found_or_push l none = (length l.slots, record { slots = l.slots ++ none ∷ [] })

  pub find_empty_slot : SlotList T → ℕ × SlotList T
  unfolding find_from
  find_empty_slot l = found_or_push l (find_from l.slots 0)

  pub insert : SlotList T → T → ℕ × SlotList T
  unfolding find_empty_slot
  insert l item =
      let (index, l') = find_empty_slot l in
      (index, record { slots = set l'.slots index (some item) })

  -- `slots.get(index)?` and the slot's content
  abbrev pub content : Option (Option T) → Option T
  content none = none
  content (some slot) = slot

  unfoldable pub get : SlotList T → ℕ → Option T
  get l index = content (get_elem? l.slots index)

  pub remove : SlotList T → ℕ → Option T × SlotList T
  unfolding get
  remove l index = (get l index, record { slots = set l.slots index none })

  -- The `while` of `replace` pushes as many empty slots as are missing.
  abbrev pub pad : List (Option T) → ℕ → List (Option T)
  pad slots index = slots ++ replicate (index + 1 - length slots) none

  pub replace : SlotList T → ℕ → T → Option T × SlotList T
  replace l index item =
      let slots = pad l.slots index in
      (content (get_elem? slots index), record { slots = set slots index (some item) })

  -- `enumerate`, from an index on
  pub enumerate_from : List (Option T) → ℕ → List (ℕ × T)
  enumerate_from [] index = []
  enumerate_from (none ∷ rest) index = enumerate_from rest (index + 1)
  enumerate_from (some x ∷ rest) index = (index, x) ∷ enumerate_from rest (index + 1)

  pub enumerate : SlotList T → List (ℕ × T)
  unfolding enumerate_from
  enumerate l = enumerate_from l.slots 0
