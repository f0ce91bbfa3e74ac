-- ===== src/Task/Mapping/Placed.antt =====
-- `find_free_mapping_space` and `map_memory` on well-formed maps.
use idos_nx.Base.{
  ℕ, ◌+◌, ◌-◌, ◌%◌, ◌≤◌, ◌<◌, ◌≡◌, ◌⊎◌, inl, inr, Bool-cases, Option, none, some, [], ◌∷◌, leb,
  word_count, arith,
}
use idos_nx.Memory.Address.{address_sub, prev_page_barrier, page_size}
use idos_nx.Task.Mapping.{MemMappedRegion, Regions}
use idos_nx.Task.Mapping.Paged.{
  page_end, Paged, Paged-le, next_page_barrier-page_end, Apart, Apart-before,
}
use idos_nx.Task.Mapping.Space.{
  Descent, found, below, visit_region, search_down, last_place, find_free_mapping_space,
}

module _ (U size : ℕ) where
  -- A free place at a page start below the bound, the null page included.
  abbrev pub Free : Regions → ℕ → Type 0
  Free m q = (q + size ≤ U) × (q % page_size ≡ 0) × Apart m q size

  -- How far the search has come: to the highest free place, or below a region with every free place
  -- below it.
  abbrev Reached : ℕ → Regions → Descent → Type 0
  Reached lo m (found a) = (lo ≤ a) × Free m a × ((q : ℕ) → Free m q → q ≤ a)
  Reached lo m (below p) =
      (lo ≤ p) × (p % page_size ≡ 0) × Paged p U m × ((q : ℕ) → Free m q → q + size ≤ p)

  module _ (hs : size % page_size ≡ 0) (hp : 0 < size) (hu : U % page_size ≡ 0)
      (small : U < word_count - 1) where
    visit_region-Reached :
        (r : MemMappedRegion) (rest : Regions) (lo : ℕ) (d : Descent)
        → Paged lo U (r ∷ rest)
        → Reached (page_end r) rest d
        → Reached lo (r ∷ rest) (visit_region size r d)
    visit_region-Reached r rest lo (found a) (x, y, z, h) (above, (b, c, apart), top) = (
      omega arith,
      (b, c, (inr (omega arith), apart)),
      λ q (b', c', (head, others)). top q (b', c', others),
    )
    visit_region-Reached r rest lo (below p) (x, y, z, h) (above, aligned, ordered, all) =
        let barrier = next_page_barrier-page_end lo U r rest (x, y, z, h) small in
        elim (Bool-cases (leb size (address_sub p (page_end r)))) [
          | inl fits ↦
              let top = Paged-le p U rest ordered in
              let room : page_end r + size ≤ p = ground arith in
              let place : prev_page_barrier (p - size) ≡ p - size = omega arith in
              rw (barrier, fits, place)
                (
                  omega arith,
                  (
                    omega arith,
                    omega arith,
                    (
                      inr (omega arith),
                      Apart-before p U (p - size) size rest ordered (omega arith),
                    ),
                  ),
                  λ q (b', c', (head, others)). omega (arith, all q (b', c', others)),
                )
          | inr full ↦
              let no_room : p < page_end r + size = ground arith in
              rw (barrier, full)
                (
                  x,
                  z,
                  (omega arith, y, z, h),
                  λ q (b', c', (head, others)). elim head [
                    | inl before ↦ before
                    | inr after ↦ absurd (omega (arith, all q (b', c', others)))
                  ],
                )
        ]

    search_down-Reached :
        (m : Regions) (lo : ℕ) → Paged lo U m → Reached lo m (search_down U size m)
    unfolding search_down
    search_down-Reached [] lo h = (h, hu, omega arith, λ q (b, c, d). b)
    search_down-Reached (r ∷ rest) lo (x, y, z, h) =
        visit_region-Reached r rest lo (search_down U size rest) (x, y, z, h)
          (search_down-Reached rest (page_end r) h)

  -- The highest free place, or 0 where there is none.
  abbrev pub Highest : Regions → Option ℕ → Type 0
  Highest m none = ⊥
  Highest m (some a) =
      (Free m a × ((q : ℕ) → Free m q → q ≤ a)) ⊎ ((a ≡ 0) × ((q : ℕ) → Free m q → ⊥))

last_place-Highest :
    (U size : ℕ) (m : Regions) (d : Descent)
    → size % page_size ≡ 0
    → Reached U size 0 m d
    → Highest U size m (last_place size d)
last_place-Highest U size m (found a) hs (x, free, top) = inl (free, top)
last_place-Highest U size m (below p) hs (x, y, ordered, all) =
    let top = Paged-le p U m ordered in
    elim (Bool-cases (leb size p)) [
      | inl fits ↦
          let room : size ≤ p = ground arith in
          let place : prev_page_barrier (p - size) ≡ p - size = omega arith in
          rw place (
            inl (
              (omega arith, omega arith, Apart-before p U (p - size) size m ordered (omega arith)),
              λ q f. omega (arith, all q f),
            ))
      | inr full ↦
          let none_left : p < size = ground arith in
          inr (omega arith, λ q f. omega (arith, all q f))
    ]

-- In a well-formed map, `find_free_mapping_space` always returns an address. It is the highest page
-- start whose range is free and ends below the bound, if there is one, and otherwise it is 0,
-- although no range of the size is free. The size is a positive multiple of the page size, and the
-- bound is a page start.
pub find_free_mapping_space-Highest :
    (U size : ℕ) (m : Regions)
    → size % page_size ≡ 0
    → 0 < size
    → U % page_size ≡ 0
    → U < word_count - 1
    → Paged 0 U m
    → Highest U size m (find_free_mapping_space U m size)
unfolding find_free_mapping_space
find_free_mapping_space-Highest U size m hs hp hu small h =
    last_place-Highest U size m (search_down U size m) hs
      (search_down-Reached U size hs hp hu small m 0 h)
