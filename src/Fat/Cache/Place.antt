-- ===== src/Fat/Cache/Place.antt =====
-- components/drivers/fatdriver/src/disk.rs: where a slot is inserted.
use idos_nx.Base.{
  ℕ, zero, suc, ◌+◌, ◌-◌, ◌%◌, ◌≤◌, ◌<◌, ◌≡◌, refl, sym, subst, ap, ◌∙◌, inl, inr, true, false,
  List, arith, ◌==◌, ==_iff, Bool-cases, length, get_or,
}
use idos_nx.Fat.Cache.{
  Cells, hash_table_size, hash_empty, hash_lba, set_cell, place_from, hash_insert,
}
use idos_nx.Fat.Cache.Free.{some_below, pigeonhole}
use idos_nx.Fat.Cache.Probing.{probe, IsTable, probe-next}

home-injective :
    (t : Cells) (lbas : List ℕ) (h : IsTable t lbas) (i j : ℕ)
    → i < hash_table_size
    → j < hash_table_size
    → (t i == hash_empty) ≡ false
    → (t j == hash_empty) ≡ false
    → t i ≡ t j
    → i ≡ j
home-injective t lbas h i j i_lt j_lt ui uj e =
    h.home i i_lt ui ∙ ap (λ s. probe (get_or lbas s 0) (h.distance s)) e ∙ sym (h.home j j_lt uj)

free_cell :
    (t : Cells) (lbas : List ℕ)
    → IsTable t lbas
    → (i : ℕ) × (i < hash_table_size) × ((t i == hash_empty) ≡ true)
free_cell t lbas h = elim (some_below hash_table_size (λ i. t i == hash_empty)) [
  | inl found ↦ found
  | inr used ↦
      let le : hash_table_size ≤ length lbas =
        pigeonhole (length lbas) hash_table_size t (λ i lt. h.slots i (used i lt))
          (λ i j i_lt j_lt e.
            home-injective t lbas h i j i_lt j_lt (used i i_lt) (used j j_lt) e) in
      let few = h.few in absurd (omega arith)
]

around : (h i : ℕ) → h < 256 → i < 256 → (h + (i + 256 - h) % 256) % 256 ≡ i
around h i h_lt i_lt = omega arith

hash_lba-lt : (lba : ℕ) → hash_lba lba < 256
unfolding hash_lba
hash_lba-lt lba = omega arith

-- Some number of steps from where a sector belongs comes to a cell.
steps_to : (lba i : ℕ) → i < hash_table_size → (d : ℕ) × (d < hash_table_size) × (probe lba d ≡ i)
steps_to lba i lt =
    ((i + 256 - hash_lba lba) % 256, omega arith, around (hash_lba lba) i (hash_lba-lt lba) lt)

-- The slot goes to the first free cell.
place_from-first :
    (rounds : ℕ) (t : Cells) (lba slot d left : ℕ)
    → (t (probe lba (d + left)) == hash_empty) ≡ true
    → left < rounds
    → (at : ℕ) × (d ≤ at)
      × (at ≤ d + left)
      × ((t (probe lba at) == hash_empty) ≡ true)
      × ((e : ℕ) → d ≤ e → e < at → (t (probe lba e) == hash_empty) ≡ false)
      × (place_from rounds t slot (probe lba d) ≡ set_cell t (probe lba at) (slot % 65536))
unfolding place_from
place_from-first zero t lba slot d left e lt = absurd (omega arith)
place_from-first (suc rounds) t lba slot d zero e lt =
    let same_d : d + 0 ≡ d = omega arith in
    let here : (t (probe lba d) == hash_empty) ≡ true =
      subst (λ n. (t (probe lba n) == hash_empty) ≡ true) same_d e in
    (d, omega arith, omega arith, here, (λ k le k_lt. absurd (omega arith)), rw here refl)
place_from-first (suc rounds) t lba slot d (suc left) e lt =
    elim (Bool-cases (t (probe lba d) == hash_empty)) [
      | inl here ↦
          (d, omega arith, omega arith, here, (λ k le k_lt. absurd (omega arith)), rw here refl)
      | inr used ↦
          let same_d : d + suc left ≡ suc d + left = omega arith in
          let (at, le, le2, free, before, eq) =
            place_from-first rounds t lba slot (suc d) left
              (subst (λ n. (t (probe lba n) == hash_empty) ≡ true) same_d e) (omega arith) in
          (
            at,
            omega arith,
            omega arith,
            free,
            (λ k k_le k_lt. elim (Bool-cases (k == d)) [
              | inl at_d ↦ ap (λ n. t (probe lba n) == hash_empty) ((==_iff k d).0 at_d) ∙ used
              | inr past ↦ before k (ground (arith, past, k_le)) k_lt
            ]),
            rw used (ap (place_from rounds t slot) (probe-next lba d) ∙ eq),
          )
    ]

-- The slot is put where the search for its sector first meets a free cell.
pub hash_insert-first :
    (t : Cells) (lbas : List ℕ) (lba slot : ℕ)
    → IsTable t lbas
    → (at : ℕ) × (at < hash_table_size)
      × ((t (probe lba at) == hash_empty) ≡ true)
      × ((e : ℕ) → e < at → (t (probe lba e) == hash_empty) ≡ false)
      × (hash_insert t lba slot ≡ set_cell t (probe lba at) (slot % 65536))
unfolding hash_lba
hash_insert-first t lbas lba slot h =
    let (i, i_lt, free) = free_cell t lbas h in
    let (d, d_lt, e) = steps_to lba i i_lt in
    let from_zero : 0 + d ≡ d = omega arith in
    let start : hash_lba lba ≡ probe lba 0 = omega arith in
    let (at, le, le2, here, before, eq) =
      place_from-first 256 t lba slot 0 d
        (ap (λ n. t (probe lba n) == hash_empty) from_zero ∙ ap (λ n. t n == hash_empty) e ∙ free)
        d_lt in
    (
      at,
      omega arith,
      here,
      (λ k k_lt. before k (omega arith) k_lt),
      ap (place_from hash_table_size t slot) start ∙ eq,
    )
