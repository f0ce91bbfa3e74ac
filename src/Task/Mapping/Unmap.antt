-- ===== src/Task/Mapping/Unmap.antt =====
-- `unmap_memory` of kernel/src/task/memory.rs takes exactly the range out of the map.
use idos_nx.Base.{
  ℕ, ◌+◌, ◌-◌, ◌^◌, ◌≤◌, ◌<◌, ◌≡◌, refl, subst, Bool, true, not, ◌&&◌, ◌||◌, none, some, List, [],
  ◌∷◌, ◌++◌, arith, ltb, leb, Bool-cases, Option-cases, inl, inr,
}
use idos_nx.Base.Results.{done}
use idos_nx.Task.Mapping.{
  MemMappedRegion, Regions, UnmappedRegion, region_end, contains_address, find_key, remove_key,
  insert, unmapped_part, part_before, part_after, unmap_key, unmap_keys, last_key, first_key,
  initial_key, keys_to_modify, get_mapping_containing_address,
}
use idos_nx.Task.Mapping.Map.{
  Ordered, Ordered-le, Ordered-weaken, region_end-Ordered, mapped, mapped-cons, intersects, pieces,
  cut, cuts, parts, hits, AllAbove, unmap_keys-cons, insert-cons,
}

insert-Ordered :
    (x : MemMappedRegion) (lo hi : ℕ) (m : Regions)
    → x.address < lo
    → Ordered lo hi m
    → insert x m ≡ x ∷ m
unfolding insert
insert-Ordered x lo hi [] p h = refl
insert-Ordered x lo hi (r ∷ rest) p h = ground arith

module _ (addr unmap_end hi : ℕ) (order : addr ≤ unmap_end) (small : hi < 2 ^ 32) where
  AllAbove-weaken :
      (lo lo' : ℕ) (ks : List ℕ)
      → lo' ≤ lo
      → AllAbove addr unmap_end lo ks
      → AllAbove addr unmap_end lo' ks
  AllAbove-weaken lo lo' [] p h = tt
  AllAbove-weaken lo lo' (k ∷ ks) p (a, b, c) = (omega arith, b, AllAbove-weaken lo lo' ks p c)

  hits-AllAbove :
      (lo : ℕ) (m : Regions) → Ordered lo hi m → AllAbove addr unmap_end lo (hits addr unmap_end m)
  unfolding hits
  hits-AllAbove lo [] h = tt
  hits-AllAbove lo (r ∷ rest) h =
      let ih = hits-AllAbove (r.address + r.size) rest h.2 in
      let ih' = AllAbove-weaken (r.address + r.size) lo _ (omega arith) ih in
      elim (Bool-cases (intersects addr unmap_end r)) [
        | inl hit ↦ rw hit (omega arith, ground arith, ih')
        | inr miss ↦ rw miss ih'
      ]

  module _ (lo : ℕ) (r : MemMappedRegion) (rest : Regions) (h : Ordered lo hi (r ∷ rest)) where
    unmap_key-head :
        intersects addr unmap_end r ≡ true
        → unmap_key r.address addr unmap_end (r ∷ rest)
          ≡ done (unmapped_part r addr unmap_end, pieces addr unmap_end r ++ rest)
    unfolding unmap_key find_key remove_key
    unmap_key-head hit = ground (
      arith,
      region_end-Ordered lo hi r rest h small,
      insert-Ordered (part_before r addr) (r.address + r.size) hi rest,
      insert-Ordered (part_after r unmap_end) (r.address + r.size) hi rest,
      insert-cons addr unmap_end (part_after r unmap_end) (part_before r addr) rest,
    )

    pieces-cons :
        (ks : List ℕ)
        → AllAbove addr unmap_end (r.address + r.size) ks
        → (v : List UnmappedRegion) (m : Regions) → unmap_keys ks addr unmap_end rest ≡ done (v, m)
        → unmap_keys ks addr unmap_end (pieces addr unmap_end r ++ rest)
          ≡ done (v, pieces addr unmap_end r ++ m)
    pieces-cons ks above v m e = ground (
      arith,
      region_end-Ordered lo hi r rest h small,
      unmap_keys-cons addr unmap_end ks (part_before r addr) rest (r.address + r.size),
      unmap_keys-cons addr unmap_end ks (part_after r unmap_end) rest (r.address + r.size),
      unmap_keys-cons addr unmap_end ks (part_before r addr) (part_after r unmap_end ∷ rest)
          (r.address + r.size),
    )

  pub unmap_keys-hits :
      (lo : ℕ) (m : Regions)
      → Ordered lo hi m
      → unmap_keys (hits addr unmap_end m) addr unmap_end m
        ≡ done (parts addr unmap_end m, cuts addr unmap_end m)
  unfolding unmap_keys hits parts cuts
  unmap_keys-hits lo [] h = refl
  unmap_keys-hits lo (r ∷ rest) h =
      let ih = unmap_keys-hits (r.address + r.size) rest h.2 in
      let above = hits-AllAbove (r.address + r.size) rest h.2 in
      elim (Bool-cases (intersects addr unmap_end r)) [
        | inl hit ↦
            rw (hit, unmap_key-head lo r rest h hit)
              (rw (pieces-cons lo r rest h (hits addr unmap_end rest) above _ _ ih))
        | inr miss ↦ rw miss (
            rw
              (unmap_keys-cons addr unmap_end (hits addr unmap_end rest) r rest (r.address + r.size)
                (omega arith) above)
              (rw ih))
      ]

-- The regions before the first key to look at end before the range.
pub Skips : ℕ → ℕ → Regions → Type 0
Skips initial addr [] = Unit {0}
Skips initial addr (r ∷ rest) =
    (ltb r.address initial ≡ true → region_end r ≤ addr) × Skips initial addr rest

module _ (addr hi : ℕ) (small : hi < 2 ^ 32) where
  Skips-above : (lo k : ℕ) (m : Regions) → k ≤ lo → Ordered lo hi m → Skips k addr m
  unfolding Skips
  Skips-above lo k [] p h = tt
  Skips-above lo k (r ∷ rest) p h =
      ((λ lt. ground arith), Skips-above (r.address + r.size) k rest (omega arith) h.2)

  last_key-Skips :
      (lo k : ℕ) (m : Regions)
      → Ordered lo hi m
      → last_key m addr ≡ some k
      → (lo ≤ k) × (k ≤ addr) × Skips k addr m
  unfolding last_key Skips
  last_key-Skips lo k [] h e = cc
  last_key-Skips lo k (r ∷ rest) h e = elim (Option-cases (last_key rest addr)) [
    | inl none_later ↦ (
      ground arith,
      ground arith,
      ((λ lt. ground arith), Skips-above (r.address + r.size) k rest (ground arith) h.2),
    )
    | inr (j, later) ↦
        let ih = last_key-Skips (r.address + r.size) j rest h.2 later in
        let same : j ≡ k = ground arith in
        subst (λ i. (lo ≤ i) × (i ≤ addr) × Skips i addr (r ∷ rest)) same
          (
            omega arith,
            ih.1,
            ((λ lt. omega (arith, region_end-Ordered lo hi r rest h small)), ih.2),
          )
  ]

  first_key-Skips :
      (lo k : ℕ) (m : Regions)
      → Ordered lo hi m
      → last_key m addr ≡ none
      → first_key m addr ≡ some k
      → Skips k addr m
  unfolding last_key first_key
  first_key-Skips lo k [] h e f = cc
  first_key-Skips lo k (r ∷ rest) h e f =
      Skips-above r.address k (r ∷ rest) (ground arith) (omega arith, h.1, h.2)

  pub no_key : (m : Regions) → initial_key m addr ≡ none → m ≡ []
  unfolding initial_key last_key first_key
  no_key [] e = refl
  no_key (r ∷ rest) e = absurd (ground arith)

  pub initial_key-Skips :
      (lo k : ℕ) (m : Regions) → Ordered lo hi m → initial_key m addr ≡ some k → Skips k addr m
  unfolding initial_key
  initial_key-Skips lo k m h e = elim (Option-cases (last_key m addr)) [
    | inl no_last ↦ first_key-Skips lo k m h no_last (ground arith)
    | inr (j, last) ↦
        let same : j ≡ k = ground arith in rw (← same) ((last_key-Skips lo j m h last).2)
  ]

module _ (addr unmap_end hi : ℕ) (order : addr ≤ unmap_end) (small : hi < 2 ^ 32) where
  keys_above :
      (initial lo : ℕ) (m : Regions)
      → unmap_end ≤ lo
      → Ordered lo hi m
      → keys_to_modify m initial addr unmap_end ≡ []
  unfolding keys_to_modify
  keys_above initial lo [] p h = refl
  keys_above initial lo (r ∷ rest) p h =
      ground (arith, keys_above initial (r.address + r.size) rest (omega arith) h.2)

  hits_above :
      (lo : ℕ) (m : Regions) → unmap_end ≤ lo → Ordered lo hi m → hits addr unmap_end m ≡ []
  unfolding hits
  hits_above lo [] p h = refl
  hits_above lo (r ∷ rest) p h =
      ground (arith, hits_above (r.address + r.size) rest (omega arith) h.2)

  -- The first loop finds the regions that the range meets.
  pub keys_to_modify-hits :
      (initial lo : ℕ) (m : Regions)
      → Skips initial addr m
      → Ordered lo hi m
      → keys_to_modify m initial addr unmap_end ≡ hits addr unmap_end m
  unfolding keys_to_modify hits Skips
  keys_to_modify-hits initial lo [] s h = refl
  keys_to_modify-hits initial lo (r ∷ rest) s h = ground (
    arith,
    region_end-Ordered lo hi r rest h small,
    keys_to_modify-hits initial (r.address + r.size) rest s.1 h.2,
    hits_above (r.address + r.size) rest,
  )

  abbrev in_range : ℕ → Bool
  in_range x = leb addr x && ltb x unmap_end

  mapped-append : (m m' : Regions) (x : ℕ) → mapped (m ++ m') x ≡ (mapped m x || mapped m' x)
  unfolding get_mapping_containing_address
  mapped-append [] m' x = refl
  mapped-append (r ∷ m) m' x = ground (arith, mapped-append m m' x)

  mapped-cut :
      (lo : ℕ) (r : MemMappedRegion) (rest : Regions) (x : ℕ)
      → Ordered lo hi (r ∷ rest)
      → mapped (cut addr unmap_end r) x ≡ (contains_address r x && not (in_range x))
  unfolding get_mapping_containing_address
  mapped-cut lo r rest x h =
      ground (
        arith,
        region_end-Ordered lo hi r rest h small,
        Ordered-le (r.address + r.size) hi rest h.2,
      )

  pub mapped-cuts :
      (lo : ℕ) (m : Regions) (x : ℕ)
      → Ordered lo hi m
      → mapped (cuts addr unmap_end m) x ≡ (mapped m x && not (in_range x))
  unfolding cuts get_mapping_containing_address
  mapped-cuts lo [] x h = refl
  mapped-cuts lo (r ∷ rest) x h =
      rw (mapped-append (cut addr unmap_end r) (cuts addr unmap_end rest) x) (
        ground (
          arith,
          mapped-cut lo r rest x h,
          mapped-cuts (r.address + r.size) rest x h.2,
          mapped-cons r rest x,
        ))

  pub Ordered-cuts :
      (lo : ℕ) (m : Regions) → Ordered lo hi m → Ordered lo hi (cuts addr unmap_end m)
  unfolding cuts
  Ordered-cuts lo [] h = h
  Ordered-cuts lo (r ∷ rest) h =
      let ih = Ordered-cuts (r.address + r.size) rest h.2 in
      let weaker = λ (l : ℕ) (p : l ≤ r.address + r.size).
        Ordered-weaken (r.address + r.size) l hi (cuts addr unmap_end rest) p ih in
      ground (
        arith,
        region_end-Ordered lo hi r rest h small,
        ih,
        weaker lo,
        weaker (r.address + (addr - r.address)),
        weaker (unmap_end + (region_end r - unmap_end)),
      )
