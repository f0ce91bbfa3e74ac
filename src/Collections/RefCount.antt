-- ===== src/Collections/RefCount.antt =====
-- kernel/src/collections/refcount.rs: reference counts of keys. The `BTreeMap` is an association list
-- with one entry for each key, and a key is its number.
use idos_nx.Base.{
  ℕ, ◌+◌, ◌-◌, ◌<◌, ◌≡◌, refl, Bool, true, false, Option, none, some, List, [], ◌∷◌, arith, ltb,
  ◌==◌, if◌then◌else◌, add32, word_count, Option-cases, Bool-cases, inl, inr,
}

abbrev pub Counts : Type 0
Counts = List (ℕ × ℕ)

-- `BTreeMap::get`, `insert` and `remove`
unfoldable pub get_key : ℕ → Counts → Option ℕ
get_key k [] = none
get_key k ((i, n) ∷ rest) = if i == k then some n else get_key k rest

unfoldable pub set_key : ℕ → ℕ → Counts → Counts
set_key k c [] = (k, c) ∷ []
set_key k c ((i, n) ∷ rest) = if i == k then (k, c) ∷ rest else (i, n) ∷ set_key k c rest

unfoldable pub drop_key : ℕ → Counts → Counts
drop_key k [] = []
drop_key k ((i, n) ∷ rest) =
    let others = drop_key k rest in if i == k then others else (i, n) ∷ others

abbrev added : Counts → ℕ → Option ℕ → ℕ × Counts
added m t (some count) = (add32 count 1, set_key t (add32 count 1) m)
added m t none = (1, set_key t 1 m)

unfoldable pub add_reference : Counts → ℕ → ℕ × Counts
unfolding get_key set_key
add_reference m t = added m t (get_key t m)

-- `saturating_sub` stops at 0.
abbrev removed : Counts → ℕ → Option ℕ → ℕ × Counts
removed m t (some count) =
    if ltb 0 (count - 1) then (count - 1, set_key t (count - 1) m) else (0, drop_key t m)
removed m t none = (0, m)

unfoldable pub remove_reference : Counts → ℕ → ℕ × Counts
unfolding get_key set_key drop_key
remove_reference m t = removed m t (get_key t m)

abbrev is_some : Option ℕ → Bool
is_some none = false
is_some (some c) = true

unfoldable pub contains : Counts → ℕ → Bool
unfolding get_key
contains m t = is_some (get_key t m)

get_key-set_key :
    (m : Counts) (k c j : ℕ) → get_key j (set_key k c m) ≡ (if k == j then some c else get_key j m)
unfolding get_key set_key
get_key-set_key [] k c j = ground arith
get_key-set_key ((i, n) ∷ rest) k c j = ground (arith, get_key-set_key rest k c j)

get_key-drop_key :
    (m : Counts) (k j : ℕ) → get_key j (drop_key k m) ≡ (if k == j then none else get_key j m)
unfolding get_key drop_key
get_key-drop_key [] k j = ground arith
get_key-drop_key ((i, n) ∷ rest) k j = ground (arith, get_key-drop_key rest k j)

-- The number of references to a key.
abbrev pub references_in : Option ℕ → ℕ
references_in none = 0
references_in (some c) = c

abbrev pub references : Counts → ℕ → ℕ
references m t = references_in (get_key t m)

-- No key is kept with the count 0.
unfoldable pub Positive : Counts → Type 0
Positive m = (j c : ℕ) → get_key j m ≡ some c → 0 < c

-- `add_reference` returns the key's new count, one more than before, and changes no other; and every
-- key that is kept still has a positive count. The count must be below the word limit.
pub add_reference_lem :
    (m : Counts) (t j : ℕ)
    → Positive m
    → references m t + 1 < word_count
    → ((add_reference m t).0 ≡ references m t + 1)
      × (references (add_reference m t).1 j
          ≡ (if t == j then references m t + 1 else references m j))
      × Positive (add_reference m t).1
unfolding add_reference Positive
add_reference_lem m t j p small = elim (Option-cases (get_key t m)) [
  | inl new ↦ rw new (
    refl,
    ground (arith, new, get_key-set_key m t 1 j),
    λ i c e. ground (arith, p i c, get_key-set_key m t 1 i),
  )
  | inr (n, old) ↦
      let grown : add32 n 1 ≡ n + 1 = ground arith in
      rw (old, grown)
        (
          refl,
          ground (arith, old, get_key-set_key m t (n + 1) j),
          λ i c e. ground (arith, p i c, get_key-set_key m t (n + 1) i),
        )
]

-- `remove_reference` returns the key's new count, one less than before or 0, and changes no other; a
-- key stays in the map exactly if its new count is positive.
pub remove_reference_lem :
    (m : Counts) (t j : ℕ)
    → Positive m
    → ((remove_reference m t).0 ≡ references m t - 1)
      × (references (remove_reference m t).1 j
          ≡ (if t == j then references m t - 1 else references m j))
      × Positive (remove_reference m t).1
      × (contains (remove_reference m t).1 t ≡ ltb 0 (references m t - 1))
unfolding remove_reference Positive contains
remove_reference_lem m t j p = elim (Option-cases (get_key t m)) [
  | inl absent ↦ rw absent (ground arith, ground (arith, absent), p, rw absent (ground arith))
  | inr (n, old) ↦ elim (Bool-cases (ltb 0 (n - 1))) [
    | inl more ↦
        rw (old, more)
          (
            refl,
            ground (arith, old, get_key-set_key m t (n - 1) j),
            λ i c e. ground (arith, p i c, get_key-set_key m t (n - 1) i),
            ground (arith, get_key-set_key m t (n - 1) t),
          )
    | inr last ↦
        rw (old, last)
          (
            ground arith,
            ground (arith, old, get_key-drop_key m t j),
            λ i c e. ground (arith, p i c, get_key-drop_key m t i),
            ground (arith, get_key-drop_key m t t),
          )
  ]
]
