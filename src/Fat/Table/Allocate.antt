-- ===== src/Fat/Table/Allocate.antt =====
-- Allocation takes the first free cluster; freeing a chain clears exactly its entries.
use idos_nx.Base.{
  ℕ, zero, suc, ◌+◌, ◌%◌, ◌≤◌, ◌<◌, ◌≡◌, refl, sym, subst, ap, ◌∙◌, ◌≢◌, inl, inr, Bool, false,
  none, some, List, [], ◌∷◌, arith, ◌==◌, if◌then◌else◌, ==_iff, Bool-cases, length,
}
use idos_nx.Fat.Table.{
  AllocationTable, Disk, read_pair, pair_offset, entry_of, get_next_cluster, set_cluster_entry,
  allocate_from, allocate_cluster, free_chain,
}
use idos_nx.Fat.Table.Entries.{HasBytes, InTable, entry_in, set_cluster_entry_lem}

-- The entry of a cluster in the first copy, the one that is read.
abbrev pub first_entry : AllocationTable → Disk → ℕ → ℕ
first_entry t d cluster = entry_of cluster (read_pair d (t.table_start + pair_offset cluster))

first_entry-eq : (t : AllocationTable) (d : Disk) (c : ℕ) → entry_in t 0 d c ≡ first_entry t d c
first_entry-eq t d c = ap (λ (n : ℕ). entry_of c (read_pair d (n + pair_offset c))) (omega arith)

-- The search stops at the first free cluster.
allocate_from-first :
    (left : ℕ) (t : AllocationTable) (from c0 : ℕ) (d : Disk)
    → from ≤ c0
    → c0 < from + left
    → first_entry t d c0 ≡ 0
    → (c : ℕ) × (allocate_from left t from d ≡ (some c, set_cluster_entry t c 0xfff d))
      × (from ≤ c)
      × (c ≤ c0)
      × (first_entry t d c ≡ 0)
      × ((k : ℕ) → from ≤ k → k < c → first_entry t d k ≢ 0)
unfolding allocate_from
allocate_from-first zero t from c0 d low high free = absurd (omega arith)
allocate_from-first (suc left) t from c0 d low high free =
    elim (Bool-cases (first_entry t d from == 0)) [
      | inl here ↦
          (from, rw here refl, omega arith, low, (==_iff _ _).0 here, λ k a b. absurd (omega arith))
      | inr used ↦
          let ne : first_entry t d from ≢ 0 = λ e. cc (sym used ∙ (==_iff _ _).1 e) in
          let later : from + 1 ≤ c0 = elim (Bool-cases (from == c0)) [
            | inl same ↦
                absurd (ne (subst (λ n. first_entry t d n ≡ 0) (sym ((==_iff _ _).0 same)) free))
            | inr other ↦ ground arith
          ] in
          let (c, e, a, b, f, before) =
            allocate_from-first left t (from + 1) c0 d later (omega arith) free in
          (
            c,
            rw used e,
            omega arith,
            b,
            f,
            λ k p q. elim (Bool-cases (from == k)) [
              | inl same ↦ subst (λ n. first_entry t d n ≢ 0) ((==_iff _ _).0 same) ne
              | inr other ↦ before k (ground arith) q
            ],
          )
    ]

InTable-le : (t : AllocationTable) (c c0 : ℕ) → c ≤ c0 → InTable t c0 → InTable t c
InTable-le t c c0 h k = omega arith

-- If some cluster from 2 to 4084 whose entry lies in the table is free, `allocate_cluster` returns the
-- first free one, marks it as the end of a chain in every copy of the table, and changes no other
-- entry. The table has at least one copy, and the disk holds bytes.
pub allocate_cluster_lem :
    (t : AllocationTable) (c0 : ℕ) (d : Disk)
    → HasBytes d
    → 0 < t.fat_count
    → 2 ≤ c0
    → c0 < 4085
    → InTable t c0
    → first_entry t d c0 ≡ 0
    → (c : ℕ) × ((allocate_cluster t d).0 ≡ some c)
      × (2 ≤ c)
      × (c ≤ c0)
      × (first_entry t d c ≡ 0)
      × ((k : ℕ) → 2 ≤ k → k < c → first_entry t d k ≢ 0)
      × ((g k : ℕ)
          → g < t.fat_count
          → InTable t k
          → entry_in t g (allocate_cluster t d).1 k ≡ (if c == k then 0xfff else entry_in t g d k))
unfolding allocate_cluster
allocate_cluster_lem t c0 d h copies low high inside free =
    let (c, e, a, b, f, before) = allocate_from-first 4083 t 2 c0 d low (omega arith) free in
    rw e (
      c,
      refl,
      a,
      b,
      f,
      before,
      λ g k hg hk. (set_cluster_entry_lem t c k g 0xfff d h (InTable-le t c c0 b inside) hk hg).0,
    )

abbrev pub Lacks : ℕ → List ℕ → Type 0
Lacks c [] = Unit {0}
Lacks c (x ∷ xs) = (c ≢ x) × Lacks c xs

-- A chain of different clusters, each of whose entries names the next, and whose last entry is the end
-- mark.
abbrev pub Chain : AllocationTable → Disk → ℕ → List ℕ → Type 0
Chain t d c [] = (first_entry t d c ≡ 0xfff) × InTable t c
Chain t d c (next ∷ rest) =
    (first_entry t d c ≡ next)
    × (next ≢ 0xfff)
    × InTable t c
    × Lacks c (next ∷ rest)
    × Chain t d next rest

-- The entry of a cluster after all of a chain is freed.
abbrev pub freed : List ℕ → ℕ → ℕ → ℕ
freed [] k old = old
freed (c ∷ cs) k old = if c == k then 0 else freed cs k old

get_next_cluster-eq :
    (t : AllocationTable) (d : Disk) (c : ℕ)
    → get_next_cluster t c d
      ≡ (if first_entry t d c == 0xfff then none else some (first_entry t d c))
unfolding get_next_cluster
get_next_cluster-eq t d c = refl

module _ (t : AllocationTable) (copies : 0 < t.fat_count) where
  first_entry-set :
      (d : Disk) (c k v : ℕ)
      → HasBytes d
      → InTable t c
      → InTable t k
      → first_entry t (set_cluster_entry t c v d) k
        ≡ (if c == k then v % 0x1000 else first_entry t d k)
  first_entry-set d c k v h hc hk =
      let e = (set_cluster_entry_lem t c k 0 v d h hc hk copies).0 in
      sym (first_entry-eq t (set_cluster_entry t c v d) k)
      ∙ e
      ∙ ap (λ (n : ℕ). if c == k then v % 0x1000 else n) (first_entry-eq t d k)

  first_entry-kept :
      (d : Disk) (c k : ℕ)
      → HasBytes d
      → InTable t c
      → InTable t k
      → c ≢ k
      → first_entry t (set_cluster_entry t c 0 d) k ≡ first_entry t d k
  first_entry-kept d c k h hc hk ne =
      let other : (c == k) ≡ false = ground arith in
      first_entry-set d c k 0 h hc hk
      ∙ ap (λ (b : Bool). if b then 0 % 0x1000 else first_entry t d k) other

  -- Clearing a cluster that the chain lacks leaves the chain.
  Chain-set :
      (d : Disk) (c from : ℕ) (cs : List ℕ)
      → HasBytes d
      → InTable t c
      → Lacks c (from ∷ cs)
      → Chain t d from cs
      → Chain t (set_cluster_entry t c 0 d) from cs
  Chain-set d c from [] h hc (ne, l) (e, i) = (first_entry-kept d c from h hc i ne ∙ e, i)
  Chain-set d c from (next ∷ rest) h hc (ne, l) (e, live, i, lacks, more) =
      (first_entry-kept d c from h hc i ne ∙ e, live, i, lacks, Chain-set d c next rest h hc l more)

  freed-zero : (cs : List ℕ) (k : ℕ) → freed cs k 0 ≡ 0
  freed-zero [] k = refl
  freed-zero (c ∷ cs) k = ground (arith, freed-zero cs k)

  freed-cons :
      (cs : List ℕ) (c k old : ℕ) → freed cs k (if c == k then 0 else old) ≡ freed (c ∷ cs) k old
  freed-cons cs c k old = elim (Bool-cases (c == k)) [
    | inl same ↦ rw same (freed-zero cs k)
    | inr other ↦ rw other refl
  ]

  -- On a chain of different clusters, `free_chain` ends, after as many rounds as the chain has clusters;
  -- the entries of these clusters are then 0, and no other entry has changed. The entries lie in the
  -- table, the table has at least one copy, and the disk holds bytes.
  pub free_chain_lem :
      (cs : List ℕ) (c : ℕ) (d : Disk)
      → HasBytes d
      → Chain t d c cs
      → (d' : Disk) × (free_chain (suc (length cs)) t c d ≡ some d')
        × ((k : ℕ) → InTable t k → first_entry t d' k ≡ freed (c ∷ cs) k (first_entry t d k))
  unfolding free_chain
  free_chain_lem [] c d h (e, i) =
      let last : get_next_cluster t c d ≡ none = get_next_cluster-eq t d c ∙ rw e refl in
      (
        set_cluster_entry t c 0 d,
        rw (last, free_chain) refl,
        λ k hk. first_entry-set d c k 0 h i hk,
      )
  free_chain_lem (next ∷ rest) c d h (e, live, i, lacks, more) =
      let d1 : Disk = set_cluster_entry t c 0 d in
      let going : (first_entry t d c == 0xfff) ≡ false = ground arith in
      let step : get_next_cluster t c d ≡ some next =
        get_next_cluster-eq t d c ∙ rw going (ap some e) in
      let bytes = (set_cluster_entry_lem t c c 0 0 d h i i copies).1 in
      let (d', done, entries) =
        free_chain_lem rest next d1 bytes (Chain-set d c next rest h i lacks more) in
      (
        d',
        rw (step, free_chain) done,
        λ k hk.
            entries k hk
            ∙ ap (λ (n : ℕ). freed (next ∷ rest) k n) (first_entry-set d c k 0 h i hk)
            ∙ freed-cons (next ∷ rest) c k (first_entry t d k),
      )
