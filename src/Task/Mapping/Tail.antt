-- ===== src/Task/Mapping/Tail.antt =====
-- `unmap_memory` of kernel/src/task/memory.rs on a part of a file-backed region: the parts that stay
-- keep `backed_by` as it was, also the one that starts later in the region.
use idos_nx.Base.{ℕ, ◌+◌, ◌-◌, ◌%◌, ◌^◌, ◌≤◌, ◌<◌, ◌≡◌, Bool, some, List, [], ◌∷◌, arith}
use idos_nx.Base.Results.{ok, done}
use idos_nx.Task.Mapping.{
  MemMappedRegion, Regions, UnmappedRegion, file_backed, unmap_memory, file_offset,
}
use idos_nx.Task.Mapping.Map.{Ordered, cuts, parts}
use idos_nx.Task.Mapping.Removed.{unmap_from-cuts}

-- A file-backed region of whole pages, of which `length` bytes are unmapped from the start, and a page
-- `x` that stays.
pub record Cut (r : MemMappedRegion) (d t o : ℕ) (shared : Bool) (length x : ℕ) : Type 0 where
  pub backed : r.backed_by ≡ file_backed d t o shared
  pub aligned : (r.address % 4096 ≡ 0) × (length % 4096 ≡ 0) × (x % 4096 ≡ 0)
  pub within : (r.address + length ≤ x) × (x < r.address + r.size) × (0 < length)
  pub bound : (r.address + r.size < 2 ^ 32) × (o + r.size < 2 ^ 32)

module _ (U : ℕ) (r : MemMappedRegion) (d t o : ℕ) (shared : Bool) (length x : ℕ)
    (c : Cut r d t o shared length x) (top : r.address + length ≤ U) (small : U < 2 ^ 32) where
  one : Ordered 0 (2 ^ 32 - 1) (r ∷ [])
  one = (omega arith, omega arith, omega arith)

  offset_before : file_offset (r ∷ []) x ≡ some (o + (x - r.address))
  unfolding file_offset
  offset_before = ground (arith, c.backed)

  offset_after :
      file_offset (cuts r.address (r.address + length) (r ∷ [])) x
      ≡ some (o + (x - r.address) - length)
  unfolding file_offset cuts
  offset_after = ground (arith, c.backed)

  -- In a map of one file-backed region of whole pages, whose addresses and file offsets do not wrap,
  -- a page `x` was read from its place in the file; after `length` bytes are unmapped at the start of
  -- the region, below `x`, the page is read from a place `length` bytes earlier.
  pub tail_offset :
      (out : List UnmappedRegion) × (m' : Regions) × (unmap_memory U (r ∷ []) r.address length
        ≡ done (ok out, m'))
      × (file_offset (r ∷ []) x ≡ some (o + (x - r.address)))
      × (file_offset m' x ≡ some (o + (x - r.address) - length))
  unfolding unmap_memory
  tail_offset = (
    parts r.address (r.address + length) (r ∷ []),
    cuts r.address (r.address + length) (r ∷ []),
    ground (
      arith,
      unmap_from-cuts r.address (r.address + length) (2 ^ 32 - 1) (omega arith) (omega arith) 0
          (r ∷ []) one,
    ),
    offset_before,
    offset_after,
  )
