-- ===== src/Collections/SlotList/Laws.antt =====
-- What each operation of the slot list does to every index.
use native.Mathlib.Nat.{le_refl}
use idos_nx.Base.{
  ℕ, zero, suc, ◌+◌, ◌-◌, ◌<◌, ◌≡◌, refl, ◌∙◌, ap, Option, none, some, List, [], ◌∷◌, ◌++◌, arith,
  ltb, Bool-cases, inl, inr, ◌==◌, if◌then◌else◌, length, get_elem?, set, replicate,
  length-replicate, length-append, get_elem?-append, get_elem?-set, get_elem?-none, get_elem?-lt,
  get_elem?-replicate,
}
use idos_nx.Collections.SlotList.{
  SlotList, find_from, found_or_push, insert, content, get, remove, pad, replace, enumerate_from,
  enumerate,
}

module _ {T : Type 0} where
  -- The first empty slot, or none in a list that is full.
  abbrev FirstEmpty : List (Option T) → ℕ → Option ℕ → Type 0
  FirstEmpty slots from none =
      (j : ℕ) → j < length slots → (x : T) × (get_elem? slots j ≡ some (some x))
  FirstEmpty slots from (some i) =
      (d : ℕ) × (i ≡ from + d)
      × (get_elem? slots d ≡ some none)
      × ((j : ℕ) → j < d → (x : T) × (get_elem? slots j ≡ some (some x)))

  Filled : List (Option T) → ℕ → Type 0
  Filled slots n = (j : ℕ) → j < n → (x : T) × (get_elem? slots j ≡ some (some x))

  Filled-cons :
      (y : T) (rest : List (Option T)) (n : ℕ) → Filled rest n → Filled (some y ∷ rest) (suc n)
  unfolding Filled
  Filled-cons y rest n f zero h = (y, refl)
  Filled-cons y rest n f (suc j) h = f j (omega arith)

  FirstEmpty-cons :
      (y : T) (rest : List (Option T)) (from : ℕ) (o : Option ℕ)
      → FirstEmpty rest (from + 1) o
      → FirstEmpty (some y ∷ rest) from o
  unfolding Filled
  FirstEmpty-cons y rest from none f = Filled-cons y rest (length rest) f
  FirstEmpty-cons y rest from (some i) (d, e, empty, before) =
      (suc d, omega arith, empty, Filled-cons y rest d before)

  find_from-FirstEmpty :
      (slots : List (Option T)) (from : ℕ) → FirstEmpty slots from (find_from slots from)
  unfolding find_from
  find_from-FirstEmpty [] from = λ j h. absurd (omega arith)
  find_from-FirstEmpty (none ∷ rest) from = (0, omega arith, refl, λ j h. absurd (omega arith))
  find_from-FirstEmpty (some y ∷ rest) from =
      FirstEmpty-cons y rest from (find_from rest (from + 1)) (find_from-FirstEmpty rest (from + 1))

  -- An insertion takes the first index without an item, and changes no other index.
  pub record Inserted (l l' : SlotList T) (index : ℕ) (item : T) : Type 0 where
    pub was_empty : get l index ≡ none
    pub is_first : (j : ℕ) → j < index → (x : T) × (get l j ≡ some x)
    pub contents : (j : ℕ) → get l' j ≡ (if index == j then some item else get l j)

  -- `insert` puts the item at the first index that holds none, and changes no other index.
  pub insert-Inserted :
      (l : SlotList T) (item : T) → Inserted l (insert l item).1 (insert l item).0 item
  unfolding insert get
  insert-Inserted l item = go (find_from l.slots 0) (find_from-FirstEmpty l.slots 0)
    where
      go :
          (o : Option ℕ)
          → FirstEmpty l.slots 0 o
          → Inserted l
              (record { slots = set (found_or_push l o).1.slots (found_or_push l o).0 (some item) })
              (found_or_push l o).0
              item
      go none f = record {
        was_empty = rw (get_elem?-none l.slots (length l.slots) (le_refl _)) refl;
        is_first = λ j h. ((f j h).0, ap content (f j h).1);
        contents = λ j. rw (get_elem?-set (l.slots ++ none ∷ []) (length l.slots) j (some item)) (
            ground (
              arith,
              length-append l.slots (none ∷ []),
              get_elem?-append l.slots (none ∷ []) j,
              get_elem?-none l.slots j,
              get_elem?-none {A = Option T} (none ∷ []) (j - length l.slots),
            ));
      }
      go (some i) (d, e, empty, before) =
          let same : i ≡ d = omega arith in
          let here : get_elem? l.slots i ≡ some none = rw same empty in
          record {
            was_empty = ap content here;
            is_first = λ j h. let b = before j (omega arith) in (b.0, ap content b.1);
            contents = λ j.
                rw (get_elem?-set l.slots i j (some item))
                  (ground (arith, get_elem?-lt l.slots i here));
          }

  -- `remove` returns the item at the index, if there is one, and empties that index alone.
  pub remove_lem :
      (l : SlotList T) (index j : ℕ)
      → ((remove l index).0 ≡ get l index)
        × (get (remove l index).1 j ≡ (if index == j then none else get l j))
  unfolding remove get
  remove_lem l index j = (refl, rw (get_elem?-set l.slots index j none) (ground arith))

  content-pad : (l : SlotList T) (i j : ℕ) → content (get_elem? (pad l.slots i) j) ≡ get l j
  unfolding get
  content-pad l i j = ground (
    arith,
    get_elem?-append l.slots (replicate (i + 1 - length l.slots) none) j,
    get_elem?-none l.slots j,
    get_elem?-replicate {A = Option T} (i + 1 - length l.slots) (j - length l.slots) none,
  )

  -- `replace` returns the item at the index, if there was one, and puts the new one there; the list
  -- grows as needed, and no other index changes.
  pub replace_lem :
      (l : SlotList T) (index j : ℕ) (item : T)
      → ((replace l index item).0 ≡ get l index)
        × (get (replace l index item).1 j ≡ (if index == j then some item else get l j))
  unfolding replace get
  replace_lem l index j item = (
    content-pad l index index,
    rw (get_elem?-set (pad l.slots index) index j (some item)) (
        ground (
          arith,
          content-pad l index j,
          length-append l.slots (replicate (index + 1 - length l.slots) none),
          length-replicate {A = Option T} (index + 1 - length l.slots) none,
        )),
  )

  get_elem?-tail :
      (x : Option T) (rest : List (Option T)) (from k : ℕ)
      → get_elem? (x ∷ rest) (k - from)
        ≡ (if ltb from k then get_elem? rest (k - (from + 1)) else some x)
  get_elem?-tail x rest from k = elim (Bool-cases (ltb from k)) [
    | inl later ↦ let e : k - from ≡ suc (k - (from + 1)) = ground arith in rw (later, e)
    | inr now ↦ let e : k - from ≡ 0 = ground arith in rw (now, e)
  ]

  -- An entry of a list of index and item pairs.
  unfoldable pub entry : List (ℕ × T) → ℕ → Option T
  entry [] k = none
  entry ((i, x) ∷ rest) k = if i == k then some x else entry rest k

  entry-enumerate_from :
      (slots : List (Option T)) (from k : ℕ)
      → entry (enumerate_from slots from) k
        ≡ (if ltb k from then none else content (get_elem? slots (k - from)))
  unfolding entry enumerate_from
  entry-enumerate_from [] from k = ground arith
  entry-enumerate_from (none ∷ rest) from k =
      ground (arith, entry-enumerate_from rest (from + 1) k, get_elem?-tail none rest from k)
  entry-enumerate_from (some x ∷ rest) from k =
      ground (arith, entry-enumerate_from rest (from + 1) k, get_elem?-tail (some x) rest from k)

  -- `enumerate` lists each index with its item.
  pub entry-enumerate : (l : SlotList T) (k : ℕ) → entry (enumerate l) k ≡ get l k
  unfolding enumerate get
  entry-enumerate l k = entry-enumerate_from l.slots 0 k ∙ from_start
    where
      from_start : (if ltb k 0 then none else content (get_elem? l.slots (k - 0))) ≡ get l k
      from_start = let e : k - 0 ≡ k = omega arith in rw e (ground arith)
