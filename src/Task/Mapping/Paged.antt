-- ===== src/Task/Mapping/Paged.antt =====
-- Maps whose regions share no page, and free places in them.
use idos_nx.Base.{
  ℕ, ◌+◌, ◌-◌, ◌*◌, ◌/◌, ◌%◌, ◌≤◌, ◌<◌, ◌≡◌, ◌⊎◌, inl, Option, none, some, [], ◌∷◌, word_count,
  arith,
}
use idos_nx.Memory.Address.{next_page_barrier, page_size}
use idos_nx.Task.Mapping.{MemMappedRegion, Regions, region_end}
use idos_nx.Task.Mapping.Space.{distance}

-- The page start at or after the end of a region.
abbrev pub page_end : MemMappedRegion → ℕ
page_end r = (r.address + r.size + 0xfff) / page_size * page_size

-- The regions between two addresses lie at ascending page starts, none is empty, and no two share a
-- page.
abbrev pub Paged : ℕ → ℕ → Regions → Type 0
Paged lo hi [] = lo ≤ hi
Paged lo hi (r ∷ rest) =
    (lo ≤ r.address) × (0 < r.size) × (r.address % page_size ≡ 0) × Paged (page_end r) hi rest

pub Paged-le : (lo hi : ℕ) (m : Regions) → Paged lo hi m → lo ≤ hi
Paged-le lo hi [] h = h
Paged-le lo hi (r ∷ rest) (a, b, c, h) = omega (arith, Paged-le (page_end r) hi rest h)

pub next_page_barrier-page_end :
    (lo hi : ℕ) (r : MemMappedRegion) (rest : Regions)
    → Paged lo hi (r ∷ rest)
    → hi < word_count - 1
    → next_page_barrier (region_end r) ≡ page_end r
next_page_barrier-page_end lo hi r rest (a, b, c, h) small =
    ground (arith, Paged-le (page_end r) hi rest h)

-- A range that no region overlaps.
abbrev pub Apart : Regions → ℕ → ℕ → Type 0
Apart [] q size = Unit {0}
Apart (r ∷ rest) q size = ((q + size ≤ r.address) ⊎ (r.address + r.size ≤ q)) × Apart rest q size

pub Apart-before : (lo hi q size : ℕ) (m : Regions) → Paged lo hi m → q + size ≤ lo → Apart m q size
Apart-before lo hi q size [] h e = tt
Apart-before lo hi q size (r ∷ rest) (a, b, c, h) e =
    (inl (omega arith), Apart-before (page_end r) hi q size rest h (omega arith))

-- A free place at a page start, above the null page and below the bound.
abbrev pub Fits : ℕ → Regions → ℕ → ℕ → Type 0
Fits U m size q = (0x1000 ≤ q) × (q + size ≤ U) × (q % page_size ≡ 0) × Apart m q size

-- A free place that is nearest to the hint, or none if there is no free place.
abbrev pub Nearest : ℕ → Regions → ℕ → ℕ → Option ℕ → Type 0
Nearest U m hint size none = (q : ℕ) → Fits U m size q → ⊥
Nearest U m hint size (some p) =
    Fits U m size p × ((q : ℕ) → Fits U m size q → distance hint p ≤ distance hint q)
