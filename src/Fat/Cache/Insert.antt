-- ===== src/Fat/Cache/Insert.antt =====
-- components/drivers/fatdriver/src/disk.rs: inserting a slot keeps the hash table.
use idos_nx.Base.{
  ℕ, zero, suc, ◌+◌, ◌%◌, ◌<◌, ◌≡◌, refl, sym, subst, ap, ap₂, ◌∙◌, ◌≢◌, ◌⊎◌, inl, inr, true, false,
  some, List, [], ◌∷◌, ◌++◌, arith, ◌==◌, if◌then◌else◌, ==_iff, Bool-cases, length, get_elem?,
  get_or, length-append, get_elem?-lt,
}
use idos_nx.Fat.Cache.{Cells, hash_table_size, hash_empty, set_cell, hash_insert}
use idos_nx.Fat.Cache.Probing.{probe, IsTable}
use idos_nx.Fat.Cache.Place.{hash_insert-first}

-- What stands in a list with one more.
get_elem?-pushed :
    (lbas : List ℕ) (lba s l : ℕ)
    → get_elem? (lbas ++ (lba ∷ [])) s ≡ some l
    → ((s ≡ length lbas) × (lba ≡ l)) ⊎ ((s < length lbas) × (get_elem? lbas s ≡ some l))
get_elem?-pushed [] lba zero l e = inl (refl, cc)
get_elem?-pushed [] lba (suc s) l e = cc
get_elem?-pushed (x ∷ lbas) lba zero l e = inr (omega arith, e)
get_elem?-pushed (x ∷ lbas) lba (suc s) l e = elim (get_elem?-pushed lbas lba s l e) [
  | inl (at, same_lba) ↦ inl (ap suc at, same_lba)
  | inr (lt, there) ↦ inr (omega arith, there)
]

get_or-pushed :
    (lbas : List ℕ) (lba s : ℕ)
    → s < length lbas
    → get_or (lbas ++ (lba ∷ [])) s 0 ≡ get_or lbas s 0
get_or-pushed [] lba s lt = absurd (omega arith)
get_or-pushed (x ∷ lbas) lba zero lt = refl
get_or-pushed (x ∷ lbas) lba (suc s) lt = get_or-pushed lbas lba s (omega arith)

get_or-pushed_last : (lbas : List ℕ) (lba : ℕ) → get_or (lbas ++ (lba ∷ [])) (length lbas) 0 ≡ lba
get_or-pushed_last [] lba = refl
get_or-pushed_last (x ∷ lbas) lba = get_or-pushed_last lbas lba

new_distance : (ℕ → ℕ) → ℕ → ℕ → ℕ → ℕ
new_distance distance slot at s = if s == slot then at else distance s

new_distance-old :
    (distance : ℕ → ℕ) (slot at s : ℕ) → s < slot → new_distance distance slot at s ≡ distance s
unfolding new_distance
new_distance-old distance slot at s lt =
    let ne : (s == slot) ≡ false = ground (arith, lt) in rw ne refl

new_distance-new : (distance : ℕ → ℕ) (slot at : ℕ) → new_distance distance slot at slot ≡ at
unfolding new_distance
new_distance-new distance slot at = let e : (slot == slot) ≡ true = ground arith in rw e refl

set_cell-same : (t : Cells) (c slot : ℕ) → set_cell t c slot c ≡ slot
set_cell-same t c slot = let e : (c == c) ≡ true = ground arith in rw e refl

set_cell-used :
    (t : Cells) (c slot i : ℕ)
    → slot < hash_empty
    → (t i == hash_empty) ≡ false
    → (set_cell t c slot i == hash_empty) ≡ false
set_cell-used t c slot i lt used = elim (Bool-cases (i == c)) [
  | inl e ↦ rw e (ground (arith, lt))
  | inr e ↦ rw e used
]

-- Another cell than a free one.
set_cell-other :
    (t : Cells) (c slot i : ℕ)
    → (t c == hash_empty) ≡ true
    → (t i == hash_empty) ≡ false
    → set_cell t c slot i ≡ t i
set_cell-other t c slot i free used = elim (Bool-cases (i == c)) [
  | inl e ↦
      let bad : true ≡ false =
        sym free ∙ ap (λ n. t n == hash_empty) (sym ((==_iff i c).0 e)) ∙ used in
      cc
  | inr e ↦ rw e refl
]

set_cell-cases :
    (t : Cells) (c slot i : ℕ)
    → ((i ≡ c) × (set_cell t c slot i ≡ slot)) ⊎ (set_cell t c slot i ≡ t i)
set_cell-cases t c slot i = elim (Bool-cases (i == c)) [
  | inl e ↦ inl ((==_iff i c).0 e, rw e refl)
  | inr e ↦ inr (rw e refl)
]

-- The new slot is put in a free cell.
module _ (t : Cells) (lbas : List ℕ) (lba at : ℕ) (h : IsTable t lbas)
    (few : 1 + length lbas < hash_table_size)
    (missing : (slot : ℕ) → get_elem? lbas slot ≢ some lba) (at_lt : at < hash_table_size)
    (free : (t (probe lba at) == hash_empty) ≡ true)
    (before : (e : ℕ) → e < at → (t (probe lba e) == hash_empty) ≡ false) where
  abbrev pushed : List ℕ
  pushed = lbas ++ (lba ∷ [])

  abbrev filled : Cells
  filled = set_cell t (probe lba at) (length lbas)

  abbrev further : ℕ → ℕ
  further = new_distance h.distance (length lbas) at

  length-pushed : length pushed ≡ 1 + length lbas
  length-pushed = let e = length-append lbas (lba ∷ []) in omega arith

  old_used :
      (s l : ℕ) → get_elem? lbas s ≡ some l → (t (probe l (h.distance s)) == hash_empty) ≡ false
  old_used s l e =
      let lt = get_elem?-lt lbas s e in
      let small : (s == hash_empty) ≡ false = ground (arith, lt, few) in
      ap (λ n. n == hash_empty) (h.held s l e) ∙ small

  held_filled : (s l : ℕ) → get_elem? pushed s ≡ some l → filled (probe l (further s)) ≡ s
  held_filled s l e = elim (get_elem?-pushed lbas lba s l e) [
    | inl (same_s, same_l) ↦
        ap (λ x. filled (probe x (further s))) (sym same_l)
        ∙ ap (λ n. filled (probe lba (further n))) same_s
        ∙ ap (λ d. filled (probe lba d)) (new_distance-new h.distance (length lbas) at)
        ∙ set_cell-same t (probe lba at) (length lbas)
        ∙ sym same_s
    | inr (lt, old) ↦
        ap (λ d. filled (probe l d)) (new_distance-old h.distance (length lbas) at s lt)
        ∙ set_cell-other t (probe lba at) (length lbas) (probe l (h.distance s)) free
            (old_used s l old)
        ∙ h.held s l old
  ]

  reached_filled :
      (s l d : ℕ)
      → get_elem? pushed s ≡ some l
      → d < further s
      → (filled (probe l d) == hash_empty) ≡ false
  reached_filled s l d e lt = elim (get_elem?-pushed lbas lba s l e) [
    | inl (same_s, same_l) ↦
        let sooner : d < at =
          subst (λ n. d < n) (ap further same_s ∙ new_distance-new h.distance (length lbas) at)
            lt in
        ap (λ x. filled (probe x d) == hash_empty) (sym same_l)
        ∙ set_cell-used t (probe lba at) (length lbas) (probe lba d) (omega (arith, few))
            (before d sooner)
    | inr (s_lt, old) ↦
        set_cell-used t (probe lba at) (length lbas) (probe l d) (omega (arith, few)) (
          h.reached s l d old
            (subst (λ n. d < n) (new_distance-old h.distance (length lbas) at s s_lt) lt))
  ]

  slots_filled : (i : ℕ) → (filled i == hash_empty) ≡ false → filled i < length pushed
  slots_filled i used = elim (set_cell-cases t (probe lba at) (length lbas) i) [
    | inl (same_i, e) ↦ let len = length-pushed in omega (arith, e)
    | inr e ↦
        let lt = h.slots i (sym (ap (λ n. n == hash_empty) e) ∙ used) in
        let len = length-pushed in omega (arith, e)
  ]

  near_filled : (s : ℕ) → s < length pushed → further s < hash_table_size
  near_filled s lt = elim (Bool-cases (s == length lbas)) [
    | inl e ↦
        subst (λ n. n < hash_table_size)
          (sym (
            ap further ((==_iff s (length lbas)).0 e)
            ∙ new_distance-new h.distance (length lbas) at))
          at_lt
    | inr e ↦
        let len = length-pushed in
        let s_lt : s < length lbas = ground (arith, e, lt, len) in
        subst (λ n. n < hash_table_size) (sym (new_distance-old h.distance (length lbas) at s s_lt))
          (h.near s s_lt)
  ]

  home_filled :
      (i : ℕ)
      → i < hash_table_size
      → (filled i == hash_empty) ≡ false
      → i ≡ probe (get_or pushed (filled i) 0) (further (filled i))
  home_filled i i_lt used = elim (set_cell-cases t (probe lba at) (length lbas) i) [
    | inl (same_i, e) ↦
        same_i
        ∙ sym (
            ap (λ n. probe (get_or pushed n 0) (further n)) e
            ∙ ap₂ probe (get_or-pushed_last lbas lba)
                (new_distance-new h.distance (length lbas) at))
    | inr e ↦
        let old : (t i == hash_empty) ≡ false = sym (ap (λ n. n == hash_empty) e) ∙ used in
        let lt = h.slots i old in
        h.home i i_lt old
        ∙ sym (
            ap (λ n. probe (get_or pushed n 0) (further n)) e
            ∙ ap₂ probe (get_or-pushed lbas lba (t i) lt)
                (new_distance-old h.distance (length lbas) at (t i) lt))
  ]

  distinct_filled :
      (s other l : ℕ) → get_elem? pushed s ≡ some l → get_elem? pushed other ≡ some l → s ≡ other
  distinct_filled s other l e f = elim (get_elem?-pushed lbas lba s l e) [
    | inl (same_s, same_l) ↦ elim (get_elem?-pushed lbas lba other l f) [
      | inl (same_o, also) ↦ same_s ∙ sym same_o
      | inr (lt, old) ↦ absurd (missing other (old ∙ ap some (sym same_l)))
    ]
    | inr (lt, old) ↦ elim (get_elem?-pushed lbas lba other l f) [
      | inl (same_o, same_l) ↦ absurd (missing s (old ∙ ap some (sym same_l)))
      | inr (lt2, old2) ↦ h.distinct s other l old old2
    ]
  ]

  filled-IsTable : IsTable filled pushed
  filled-IsTable = record {
    slots = slots_filled;
    few = (let len = length-pushed in omega (arith, few));
    distance = further;
    near = near_filled;
    held = held_filled;
    reached = reached_filled;
    home = home_filled;
    distinct = distinct_filled;
  }

-- The table with no slot in it.
pub empty-IsTable : IsTable (λ i. hash_empty) []
empty-IsTable = record {
  slots = (λ i used. cc);
  few = omega arith;
  distance = (λ slot. 0);
  near = (λ slot lt. absurd (omega arith));
  held = (λ slot lba e. cc);
  reached = (λ slot lba d e lt. cc);
  home = (λ i lt used. cc);
  distinct = (λ slot other lba e f. cc);
}

-- A hash table holds the slots of the cache entries when every cell in use holds one of them, every slot
-- stands in one cell, behind no free cell from where its sector belongs, the entries have different
-- sectors and are fewer than the cells. Inserting a new last entry, whose sector no other has, keeps this,
-- if the entries stay fewer than the cells.
pub hash_insert_lem :
    (t : Cells) (lbas : List ℕ) (lba : ℕ)
    → IsTable t lbas
    → 1 + length lbas < hash_table_size
    → ((slot : ℕ) → get_elem? lbas slot ≢ some lba)
    → IsTable (hash_insert t lba (length lbas)) (lbas ++ (lba ∷ []))
hash_insert_lem t lbas lba h few missing =
    let (at, at_lt, free, before, e) = hash_insert-first t lbas lba (length lbas) h in
    let whole : length lbas % 65536 ≡ length lbas = omega (arith, few) in
    subst (λ cells. IsTable cells (lbas ++ (lba ∷ [])))
      (sym (e ∙ ap (set_cell t (probe lba at)) whole))
      (filled-IsTable t lbas lba at h few missing at_lt free before)
