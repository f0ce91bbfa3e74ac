-- ===== src/Task/Mapping/Removed.antt =====
-- What `unmap_memory` of kernel/src/task/memory.rs returns and leaves, over the whole function.
use idos_nx.Base.{
  ℕ, ◌+◌, ◌%◌, ◌^◌, ◌≤◌, ◌<◌, ◌≡◌, refl, Bool, false, not, ◌&&◌, ◌||◌, List, [], ◌∷◌, ◌++◌, arith,
  ltb, leb, if◌then◌else◌, Bool-cases, Option-cases, inl, inr,
}
use idos_nx.Base.Results.{ok, done}
use idos_nx.Memory.Address.{address_add}
use idos_nx.Task.Mapping.{
  MemMappedRegion, Regions, UnmappedRegion, region_end, contains_address, unmapped_part, unmap_from,
  initial_key, unmap_memory, get_mapping_containing_address,
}
use idos_nx.Task.Mapping.Map.{
  Ordered, region_end-Ordered, mapped, mapped-cons, intersects, cuts, parts,
}
use idos_nx.Task.Mapping.Unmap.{
  unmap_keys-hits, keys_to_modify-hits, initial_key-Skips, no_key, mapped-cuts, Ordered-cuts,
}

-- An address of one of the parts that were unmapped.
unfoldable pub released : List UnmappedRegion → ℕ → Bool
released [] x = false
released (p ∷ rest) x = (leb p.address x && ltb x (p.address + p.size)) || released rest x

module _ (addr unmap_end hi : ℕ) (order : addr ≤ unmap_end) (small : hi < 2 ^ 32) where
  abbrev one_part : MemMappedRegion → List UnmappedRegion
  one_part r = if intersects addr unmap_end r then unmapped_part r addr unmap_end else []

  abbrev in_range : ℕ → Bool
  in_range x = leb addr x && ltb x unmap_end

  released-one_part :
      (r : MemMappedRegion) (x : ℕ)
      → region_end r ≡ r.address + r.size
      → released (one_part r) x ≡ (contains_address r x && in_range x)
  unfolding released
  released-one_part r x e = ground arith

  released-append :
      (a b : List UnmappedRegion) (x : ℕ) → released (a ++ b) x ≡ (released a x || released b x)
  unfolding released
  released-append [] b x = refl
  released-append (p ∷ a) b x = ground (arith, released-append a b x)

  parts-cons :
      (r : MemMappedRegion) (rest : Regions)
      → parts addr unmap_end (r ∷ rest) ≡ one_part r ++ parts addr unmap_end rest
  unfolding parts
  parts-cons r rest = elim (Bool-cases (intersects addr unmap_end r)) [
    | inl hit ↦ rw hit
    | inr miss ↦ rw miss
  ]

  distribute : (a b c : Bool) → ((a && c) || (b && c)) ≡ ((a || b) && c)
  distribute a b c = ground arith

  released-parts :
      (lo : ℕ) (m : Regions) (x : ℕ)
      → Ordered lo hi m
      → released (parts addr unmap_end m) x ≡ (mapped m x && in_range x)
  released-parts lo [] x h = unfold parts released get_mapping_containing_address in refl
  released-parts lo (r ∷ rest) x h =
      rw
        (
          parts-cons r rest,
          released-append (one_part r) (parts addr unmap_end rest) x,
          released-one_part r x (region_end-Ordered lo hi r rest h small),
          released-parts (r.address + r.size) rest x h.2,
          mapped-cons r rest x,
        )
        (distribute (contains_address r x) (mapped rest x) (in_range x))

  pub unmap_from-cuts :
      (lo : ℕ) (m : Regions)
      → Ordered lo hi m
      → unmap_from m (initial_key m addr) addr unmap_end
        ≡ done (ok (parts addr unmap_end m), cuts addr unmap_end m)
  unmap_from-cuts lo m h = elim (Option-cases (initial_key m addr)) [
    | inl nothing ↦
        let empty = no_key addr hi small m nothing in
        rw (nothing, empty) (unfold parts cuts in refl)
    | inr (k, found) ↦ rw (
      found,
      keys_to_modify-hits addr unmap_end hi order small k lo m
          (initial_key-Skips addr hi small lo k m h found) h,
      unmap_keys-hits addr unmap_end hi order small lo m h,
    )
  ]

-- A map of ascending regions stays one.
pub record Removed (lo hi addr unmap_end : ℕ) (m m' : Regions) (out : List UnmappedRegion)
    : Type 0 where
  pub ordered : Ordered lo hi m'
  pub kept : (x : ℕ) → mapped m' x ≡ (mapped m x && not (leb addr x && ltb x unmap_end))
  pub released_parts : (x : ℕ) → released out x ≡ (mapped m x && (leb addr x && ltb x unmap_end))

-- On a map of ascending regions that do not overlap, for a page-multiple length inside the bound,
-- `unmap_memory` does not panic and succeeds: an address is mapped afterwards exactly if it was
-- mapped and lies outside the range, the returned parts cover exactly the mapped addresses inside it,
-- and the map is again one of ascending regions.
pub unmap_memory_lem :
    (U lo hi : ℕ) (m : Regions) (addr length : ℕ)
    → Ordered lo hi m
    → hi < 2 ^ 32
    → length % 0x1000 ≡ 0
    → addr < U
    → addr + length ≤ U
    → U < 2 ^ 32
    → (out : List UnmappedRegion) × (m' : Regions) × (unmap_memory U m addr length
        ≡ done (ok out, m'))
      × Removed lo hi addr (addr + length) m m' out
unfolding unmap_memory
unmap_memory_lem U lo hi m addr length h small pages low inside bound =
    let e : address_add addr length ≡ addr + length = omega arith in
    (
      parts addr (addr + length) m,
      cuts addr (addr + length) m,
      ground (arith, unmap_from-cuts addr (addr + length) hi (omega arith) small lo m h),
      record {
        ordered = Ordered-cuts addr (addr + length) hi (omega arith) small lo m h;
        kept = λ x. mapped-cuts addr (addr + length) hi (omega arith) small lo m x h;
        released_parts = λ x. released-parts addr (addr + length) hi (omega arith) small lo m x h;
      },
    )
