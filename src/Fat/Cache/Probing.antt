-- ===== src/Fat/Cache/Probing.antt =====
-- components/drivers/fatdriver/src/disk.rs: what a search of the hash table finds.
use idos_nx.Base.{
  ℕ, zero, suc, ◌+◌, ◌%◌, ◌<◌, ◌≡◌, refl, sym, ap, ◌∙◌, ◌≢◌, ◌⊎◌, inl, inr, true, false, Option,
  none, some, List, [], ◌∷◌, arith, ◌==◌, if◌then◌else◌, ==_iff, Bool-cases, length, get_elem?,
  get_or, get_elem?-lt, get_elem?-eq-get_or,
}
use idos_nx.Base.Results.{done}
use idos_nx.Fat.Cache.{
  Cells, hash_table_size, hash_empty, hash_lba, next_cell, lookup_from, hash_lookup,
}

-- So many cells on from where a sector belongs.
abbrev pub probe : ℕ → ℕ → ℕ
probe lba d = (hash_lba lba + d) % hash_table_size

-- The first index of a sector.
unfoldable pub position : List ℕ → ℕ → Option ℕ
position [] lba = none
position (found ∷ lbas) lba =
    let further = position lbas lba in
    if found == lba then some 0 else elim further [ some i ↦ some (suc i) | none ↦ none ]

-- The cells hold slots, and each slot is behind cells in use, at most 255 cells on.
pub record IsTable (t : Cells) (lbas : List ℕ) : Type 0 where
  pub slots : (i : ℕ) → (t i == hash_empty) ≡ false → t i < length lbas
  pub few : length lbas < hash_table_size
  pub distance : ℕ → ℕ
  pub near : (slot : ℕ) → slot < length lbas → distance slot < hash_table_size
  pub held : (slot lba : ℕ) → get_elem? lbas slot ≡ some lba → t (probe lba (distance slot)) ≡ slot
  pub reached :
      (slot lba d : ℕ)
      → get_elem? lbas slot ≡ some lba
      → d < distance slot
      → (t (probe lba d) == hash_empty) ≡ false
  pub home :
      (i : ℕ)
      → i < hash_table_size
      → (t i == hash_empty) ≡ false
      → i ≡ probe (get_or lbas (t i) 0) (distance (t i))
  pub distinct :
      (slot other lba : ℕ)
      → get_elem? lbas slot ≡ some lba
      → get_elem? lbas other ≡ some lba
      → slot ≡ other

-- What stands in a cell that is in use.
pub used_cell :
    (t : Cells) (lbas : List ℕ) (idx : ℕ)
    → IsTable t lbas
    → (t idx == hash_empty) ≡ false
    → get_elem? lbas (t idx) ≡ some (get_or lbas (t idx) 0)
used_cell t lbas idx h e = get_elem?-eq-get_or lbas (t idx) 0 (h.slots idx e)

lookup_from-none :
    (rounds : ℕ) (t : Cells) (lbas : List ℕ) (lba idx : ℕ)
    → IsTable t lbas
    → ((slot : ℕ) → get_elem? lbas slot ≢ some lba)
    → lookup_from rounds t lbas lba idx ≡ done none
unfolding lookup_from
lookup_from-none zero t lbas lba idx h missing = refl
lookup_from-none (suc rounds) t lbas lba idx h missing = elim (Bool-cases (t idx == hash_empty)) [
  | inl e ↦ rw e refl
  | inr e ↦
      let g = used_cell t lbas idx h e in
      elim (Bool-cases (get_or lbas (t idx) 0 == lba)) [
        | inl same_lba ↦
            absurd (missing (t idx) (g ∙ ap some ((==_iff (get_or lbas (t idx) 0) lba).0 same_lba)))
        | inr other ↦
            rw (e, g, other) (lookup_from-none rounds t lbas lba (next_cell idx) h missing)
      ]
]

pub probe-next : (lba d : ℕ) → next_cell (probe lba d) ≡ probe lba (suc d)
probe-next lba d = omega arith

-- From a cell before the slot's, the search comes to the slot.
lookup_from-some :
    (rounds : ℕ) (t : Cells) (lbas : List ℕ) (lba slot d left : ℕ) (h : IsTable t lbas)
    → get_elem? lbas slot ≡ some lba
    → d + left ≡ h.distance slot
    → left < rounds
    → lookup_from rounds t lbas lba (probe lba d) ≡ done (some slot)
unfolding lookup_from
lookup_from-some zero t lbas lba slot d left h at e lt = absurd (omega arith)
lookup_from-some (suc rounds) t lbas lba slot d zero h at e lt =
    let far : d ≡ h.distance slot = omega arith in
    let here : t (probe lba d) ≡ slot = ap (λ n. t (probe lba n)) far ∙ h.held slot lba at in
    let below : slot < length lbas = get_elem?-lt lbas slot at in
    let few : length lbas < 256 = h.few in
    let used : (slot == hash_empty) ≡ false = ground (arith, below, few) in
    let same_lba : (lba == lba) ≡ true = ground arith in
    rw (here, used, at, same_lba) (ap (λ n. done (some n)) here)
lookup_from-some (suc rounds) t lbas lba slot d (suc left) h at e lt =
    let used : (t (probe lba d) == hash_empty) ≡ false = h.reached slot lba d at (omega arith) in
    let g = used_cell t lbas (probe lba d) h used in
    elim (Bool-cases (get_or lbas (t (probe lba d)) 0 == lba)) [
      | inl same_lba ↦
          rw (used, g, same_lba)
            (ap (λ n. done (some n))
              (h.distinct (t (probe lba d)) slot lba
                (g ∙ ap some ((==_iff (get_or lbas (t (probe lba d)) 0) lba).0 same_lba)) at))
      | inr other ↦
          rw (used, g, other)
            (ap (lookup_from rounds t lbas lba) (probe-next lba d)
              ∙ lookup_from-some rounds t lbas lba slot (suc d) left h at (omega arith)
                  (omega arith))
    ]

hash_lookup-some :
    (t : Cells) (lbas : List ℕ) (lba slot : ℕ)
    → IsTable t lbas
    → get_elem? lbas slot ≡ some lba
    → hash_lookup t lbas lba ≡ done (some slot)
unfolding hash_lba
hash_lookup-some t lbas lba slot h at =
    let below = get_elem?-lt lbas slot at in
    let near = h.near slot below in
    let start : hash_lba lba ≡ probe lba 0 = omega arith in
    ap (lookup_from hash_table_size t lbas lba) start
    ∙ lookup_from-some 256 t lbas lba slot 0 (h.distance slot) h at (omega arith) near

missing_in :
    (found : ℕ) (lbas : List ℕ) (lba : ℕ)
    → (found == lba) ≡ false
    → ((slot : ℕ) → get_elem? lbas slot ≢ some lba)
    → (slot : ℕ) → get_elem? (found ∷ lbas) slot ≢ some lba
missing_in found lbas lba e missing zero at =
    let same_lba : found ≡ lba = cc in ground (arith, e, same_lba)
missing_in found lbas lba e missing (suc slot) at = missing slot at

-- Where a sector stands.
pub position-cases :
    (lbas : List ℕ) (lba : ℕ)
    → ((i : ℕ) × (position lbas lba ≡ some i) × (get_elem? lbas i ≡ some lba))
      ⊎ ((position lbas lba ≡ none) × ((slot : ℕ) → get_elem? lbas slot ≢ some lba))
unfolding position
position-cases [] lba = inr (refl, (λ slot e. cc))
position-cases (found ∷ lbas) lba = elim (Bool-cases (found == lba)) [
  | inl e ↦ inl (0, rw e refl, ap some ((==_iff found lba).0 e))
  | inr e ↦ elim (position-cases lbas lba) [
    | inl (i, p, g) ↦ inl (suc i, rw (e, p) refl, g)
    | inr (p, missing) ↦ inr (rw (e, p) refl, missing_in found lbas lba e missing)
  ]
]

-- The search of a hash table that holds the slots of the cache entries ends without a panic, at the slot of
-- the entry that has the sector, or at none if no entry has it.
pub hash_lookup_lem :
    (t : Cells) (lbas : List ℕ) (lba : ℕ)
    → IsTable t lbas
    → hash_lookup t lbas lba ≡ done (position lbas lba)
hash_lookup_lem t lbas lba h = elim (position-cases lbas lba) [
  | inl (i, p, g) ↦ hash_lookup-some t lbas lba i h g ∙ ap done (sym p)
  | inr (p, missing) ↦
      lookup_from-none hash_table_size t lbas lba (hash_lba lba) h missing ∙ ap done (sym p)
]
