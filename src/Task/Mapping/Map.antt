-- ===== src/Task/Mapping/Map.antt =====
-- Well-formed mappings: ascending regions that do not overlap; and the shape of the map after one
-- region is replaced by what is left of it.
use idos_nx.Base.{
  ℕ, ◌+◌, ◌^◌, ◌≤◌, ◌<◌, ◌≡◌, refl, Bool, true, false, ◌&&◌, ◌||◌, Option, none, some, List, [],
  ◌∷◌, ◌++◌, arith, ltb, ◌==◌, if◌then◌else◌, Option-cases, inl, inr,
}
use idos_nx.Base.Results.{Outcome, done, panic, Outcome-cases}
use idos_nx.Task.Mapping.{
  MemMappedRegion, Regions, UnmappedRegion, region_end, contains_address,
  get_mapping_containing_address, unmap_found, find_key, remove_key, insert, unmapped_part,
  part_before, part_after, unmap_key, unmap_keys,
}

-- Every region lies between `lo` and `hi`, is not empty, and ends before the next one starts.
abbrev pub Ordered : ℕ → ℕ → Regions → Type 0
Ordered lo hi [] = lo ≤ hi
Ordered lo hi (r ∷ rest) = (lo ≤ r.address) × (0 < r.size) × Ordered (r.address + r.size) hi rest

pub Ordered-le : (lo hi : ℕ) (m : Regions) → Ordered lo hi m → lo ≤ hi
Ordered-le lo hi [] h = h
Ordered-le lo hi (r ∷ rest) h = omega (arith, Ordered-le (r.address + r.size) hi rest h.2)

pub Ordered-weaken : (lo lo' hi : ℕ) (m : Regions) → lo' ≤ lo → Ordered lo hi m → Ordered lo' hi m
Ordered-weaken lo lo' hi [] p h = omega arith
Ordered-weaken lo lo' hi (r ∷ rest) p h = (omega arith, h.1, h.2)

-- No end of a region wraps.
pub region_end-Ordered :
    (lo hi : ℕ) (r : MemMappedRegion) (rest : Regions)
    → Ordered lo hi (r ∷ rest)
    → hi < 2 ^ 32
    → region_end r ≡ r.address + r.size
region_end-Ordered lo hi r rest h small = omega (arith, Ordered-le (r.address + r.size) hi rest h.2)

abbrev pub is_mapped : Option MemMappedRegion → Bool
is_mapped none = false
is_mapped (some r) = true

-- An address of some region.
abbrev pub mapped : Regions → ℕ → Bool
mapped m x = is_mapped (get_mapping_containing_address m x)

pub mapped-cons :
    (r : MemMappedRegion) (m : Regions) (x : ℕ)
    → mapped (r ∷ m) x ≡ (contains_address r x || mapped m x)
unfolding get_mapping_containing_address
mapped-cons r m x = ground arith

module _ (addr unmap_end : ℕ) where
  abbrev pub intersects : MemMappedRegion → Bool
  intersects r = ltb r.address unmap_end && ltb addr (region_end r)

  -- What is left of a region.
  abbrev pub pieces : MemMappedRegion → Regions
  pieces r =
      (if ltb r.address addr then part_before r addr ∷ [] else [])
      ++ (if ltb unmap_end (region_end r) then part_after r unmap_end ∷ [] else [])

  abbrev pub cut : MemMappedRegion → Regions
  cut r = if intersects r then pieces r else r ∷ []

  unfoldable pub cuts : Regions → Regions
  cuts [] = []
  cuts (r ∷ rest) = cut r ++ cuts rest

  unfoldable pub parts : Regions → List UnmappedRegion
  parts [] = []
  parts (r ∷ rest) =
      let others = parts rest in
      if intersects r then unmapped_part r addr unmap_end ++ others else others

  -- The keys of the regions that the range meets.
  unfoldable pub hits : Regions → List ℕ
  hits [] = []
  hits (r ∷ rest) = let others = hits rest in if intersects r then r.address ∷ others else others

  abbrev pub consed :
      MemMappedRegion
      → Outcome (List UnmappedRegion × Regions)
      → Outcome (List UnmappedRegion × Regions)
  consed p panic = panic
  consed p (done (u, m)) = done (u, p ∷ m)

  find_key-address :
      (k : ℕ) (m : Regions) (r : MemMappedRegion) → find_key k m ≡ some r → r.address ≡ k
  unfolding find_key
  find_key-address k [] r e = cc
  find_key-address k (x ∷ m) r e = ground (arith, find_key-address k m r)

  pub insert-cons :
      (x p : MemMappedRegion) (m : Regions)
      → p.address < x.address
      → insert x (p ∷ m) ≡ p ∷ insert x m
  unfolding insert
  insert-cons x p m h = ground arith

  unmap_found-cons :
      (r p : MemMappedRegion) (m : Regions)
      → p.address < r.address
      → p.address < unmap_end
      → unmap_found (some r) (p ∷ m) addr unmap_end
        ≡ consed p (unmap_found (some r) m addr unmap_end)
  unmap_found-cons r p m h h' = ground (
    arith,
    insert-cons (part_before r addr) p m,
    insert-cons (part_after r unmap_end) p m,
    insert-cons (part_after r unmap_end) p (insert (part_before r addr) m),
  )

  -- A region below the key stays where it is.
  unmap_key-cons :
      (k : ℕ) (p : MemMappedRegion) (m : Regions)
      → p.address < k
      → p.address < unmap_end
      → unmap_key k addr unmap_end (p ∷ m) ≡ consed p (unmap_key k addr unmap_end m)
  unfolding unmap_key
  unmap_key-cons k p m h h' =
      let later : (p.address == k) ≡ false = ground arith in
      rw later (elim (Option-cases (find_key k m)) [
        | inl none_there ↦ rw none_there
        | inr (r, there) ↦
            let e = find_key-address k m r there in
            rw there (unmap_found-cons r p (remove_key k m) (omega arith) h')
      ])

  abbrev pub AllAbove : ℕ → List ℕ → Type 0
  AllAbove lo [] = Unit {0}
  AllAbove lo (k ∷ ks) = (lo ≤ k) × (k < unmap_end) × AllAbove lo ks

  pub unmap_keys-cons :
      (ks : List ℕ) (p : MemMappedRegion) (m : Regions) (lo : ℕ)
      → p.address < lo
      → AllAbove lo ks
      → unmap_keys ks addr unmap_end (p ∷ m) ≡ consed p (unmap_keys ks addr unmap_end m)
  unfolding unmap_keys
  unmap_keys-cons [] p m lo below h = refl
  unmap_keys-cons (k ∷ ks) p m lo below (h, h', hs) =
      rw (unmap_key-cons k p m (omega arith) (omega arith))
        (elim (Outcome-cases (unmap_key k addr unmap_end m)) [
          | inl bad ↦ rw bad
          | inr ((u, m'), e) ↦ rw e (
              rw (unmap_keys-cons ks p m' lo below hs)
                (elim (Outcome-cases (unmap_keys ks addr unmap_end m')) [
                  | inl bad ↦ rw bad
                  | inr (x, e') ↦ rw e'
                ]))
        ])
