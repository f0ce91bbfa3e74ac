-- ===== src/Task/Mapping/Request.antt =====
-- `map_memory` with an address: what it maps, and that the map stays well formed.
use idos_nx.Base.{
  ℕ, ◌+◌, ◌-◌, ◌%◌, ◌≤◌, ◌<◌, ◌≡◌, refl, ◌⊎◌, inl, inr, true, false, Bool-cases, Option, none, some,
  [], ◌∷◌, ltb, leb, ◌==◌, word_count, arith,
}
use idos_nx.Base.Results.{Result, ok, err}
use idos_nx.Memory.Address.{address_add, page_size, is_page_aligned}
use idos_nx.Task.Mapping.{
  MemoryBacking, MemMappedRegion, Regions, region_end, insert, MemMapError, not_enough_memory,
}
use idos_nx.Task.Mapping.Paged.{page_end, Paged, Paged-le, Apart, Fits, Nearest}
use idos_nx.Task.Mapping.Nearest.{find_nearest_free_space-Nearest}
use idos_nx.Task.Mapping.Space.{
  ranges_overlap, can_fit_range, distance, find_nearest_free_space, round_size, map_at, map_memory,
}

-- The test of one region.
ranges_overlap-apart :
    (lo U s size : ℕ) (r : MemMappedRegion) (rest : Regions)
    → Paged lo U (r ∷ rest)
    → U + size ≤ word_count
    → 0 < size
    → s + size ≤ U
    → 0 < lo
    → ranges_overlap r.address (region_end r) s (address_add s size) ≡ false
    → (s + size ≤ r.address) ⊎ (r.address + r.size ≤ s)
ranges_overlap-apart lo U s size r rest (a, b, c, h) small hp hs hl e =
    let top = Paged-le (page_end r) U rest h in
    elim (Bool-cases (leb (s + size) r.address)) [
      | inl before ↦ inl (ground arith)
      | inr not_before ↦ inr (ground arith)
    ]

can_fit_range-Apart :
    (lo U s size : ℕ) (m : Regions)
    → Paged lo U m
    → U + size ≤ word_count
    → 0 < size
    → s + size ≤ U
    → 0 < lo
    → can_fit_range m s (address_add s size) ≡ true
    → Apart m s size
unfolding can_fit_range
can_fit_range-Apart lo U s size [] h small hp hs hl e = tt
can_fit_range-Apart lo U s size (r ∷ rest) h small hp hs hl e =
    elim (Bool-cases (ranges_overlap r.address (region_end r) s (address_add s size))) [
      | inl over ↦ ground arith
      | inr free ↦ (
        ranges_overlap-apart lo U s size r rest h small hp hs hl free,
        can_fit_range-Apart (page_end r) U s size rest h.3 small hp hs (omega (arith, h.0))
            (ground arith),
      )
    ]

-- A new region in a free place keeps the map well formed.
insert-Paged :
    (lo U : ℕ) (x : MemMappedRegion) (m : Regions)
    → Paged lo U m
    → lo ≤ x.address
    → x.address % page_size ≡ 0
    → 0 < x.size
    → page_end x ≤ U
    → Apart m x.address (page_end x - x.address)
    → Paged lo U (insert x m)
unfolding insert
insert-Paged lo U x [] h a b c d apart = (a, c, b, d)
insert-Paged lo U x (r ∷ rest) (p, q, s, h) a b c d (inl before, others) =
    let first : ltb x.address r.address ≡ true = ground arith in
    rw first (a, c, b, (omega arith, q, s, h))
insert-Paged lo U x (r ∷ rest) (p, q, s, h) a b c d (inr after, others) =
    let later : ltb x.address r.address ≡ false = ground arith in
    let other : (x.address == r.address) ≡ false = ground arith in
    rw (later, other) (p, q, s, insert-Paged (page_end r) U x rest h (omega arith) b c d others)

-- The answer of `map_memory` and the map after it: the region stands at a free place, which is the
-- address asked for if that is free, and otherwise the nearest; or there is no free place.
abbrev pub Mapped : ℕ → Regions → ℕ → ℕ → MemoryBacking → Result ℕ MemMapError × Regions → Type 0
Mapped U m hint requested_size backing (err e, m') =
    (e ≡ not_enough_memory) × (m' ≡ m) × ((q : ℕ) → Fits U m (round_size requested_size) q → ⊥)
Mapped U m hint requested_size backing (ok a, m') =
    Fits U m (round_size requested_size) a
    × ((q : ℕ) → Fits U m (round_size requested_size) q → distance hint a ≤ distance hint q)
    × Paged 0x1000 U m'
    × (m' ≡ insert (record { address = a; size = requested_size; backed_by = backing }) m)

module _ (U hint requested_size : ℕ) (m : Regions) (backing : MemoryBacking)
    (asked : 0 < requested_size) (aligned : hint % page_size ≡ 0) (above : 0x1000 ≤ hint)
    (inside : hint + round_size requested_size ≤ U) (bound : U % page_size ≡ 0)
    (sizes : U + requested_size + 0xfff ≤ word_count) (ordered : Paged 0x1000 U m) where
  at_hint :
      can_fit_range m hint (address_add hint (round_size requested_size)) ≡ true
      → Fits U m (round_size requested_size) hint
  at_hint e = (
    above,
    inside,
    aligned,
    can_fit_range-Apart 0x1000 U hint (round_size requested_size) m ordered (omega arith)
        (omega arith) inside (omega arith) e,
  )

  map_at-Mapped :
      (o : Option ℕ)
      → Nearest U m hint (round_size requested_size) o
      → Mapped U m hint requested_size backing (map_at m requested_size backing o)
  map_at-Mapped none f = (refl, refl, f)
  map_at-Mapped (some a) ((b, c, d, apart), near) =
      let new : MemMappedRegion = record {
        address = a;
        size = requested_size;
        backed_by = backing;
      } in
      let covered : page_end new - a ≡ round_size requested_size = omega arith in
      (
        (b, c, d, apart),
        near,
        insert-Paged 0x1000 U new m ordered b d asked (omega arith) (rw covered apart),
        refl,
      )

  -- For a positive size and a page start at or above 0x1000 whose range ends below the bound, in a
  -- well-formed map, `map_memory` puts the region at that address if its range is free, and otherwise
  -- at a free place nearest to it; the map stays well formed. It fails with `NotEnoughMemory`, and
  -- leaves the map, only if no free place is left. The bound is a page start, and the bound and the
  -- size, with what rounding it up to a page can add, do not pass 2 ^ 32 together.
  pub map_memory-Mapped :
      Mapped U m hint requested_size backing (map_memory U m (some hint) requested_size backing)
  unfolding map_memory
  map_memory-Mapped =
      let some_size : (requested_size == 0) ≡ false = ground arith in
      let on_page : is_page_aligned hint ≡ true = ground arith in
      let size = round_size requested_size in
      rw (some_size, on_page)
        (elim (Bool-cases (can_fit_range m hint (address_add hint size))) [
          | inl fits ↦ rw fits (map_at-Mapped (some hint) (at_hint fits, λ q f. at_zero q))
          | inr taken ↦ rw taken (
              map_at-Mapped (find_nearest_free_space U m hint size) (
                find_nearest_free_space-Nearest U hint size m (omega arith) (omega arith)
                  (omega arith) aligned bound (omega arith) ordered))
        ])
    where
      at_zero : (q : ℕ) → distance hint hint ≤ distance hint q
      at_zero q = ground arith
