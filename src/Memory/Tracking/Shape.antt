-- ===== src/Memory/Tracking/Shape.antt =====
-- Well-formed trees, and what one replaced slot does to every address's count.
use idos_nx.Base.{
  ℕ, zero, suc, ◌+◌, ◌^◌, ◌<◌, ◌≡◌, refl, ◌∙◌, Bool, true, ◌&&◌, Option, none, some, arith, ◌==◌,
  ==_iff, if◌then◌else◌, ◌>>>◌, Bool-cases, inl, inr,
}
use idos_nx.Memory.Tracking.Nodes.{
  Node, node, unallocated, allocated, Slots, slot_at, slot_set, slot_count, blank, slot_at-blank,
  slot_at-slot_set, slot_count-slot_set,
}
use idos_nx.Memory.Tracking.{extract_index, find_below, value_of}

-- Leaves have values, and arrays have 32 slots.
abbrev pub ShapedAt : ℕ → Option Node → Type 0
ShapedAt n none = Unit {0}
ShapedAt zero (some (node v kids)) = (c : ℕ) × (v ≡ some c)
ShapedAt (suc n) (some (node v unallocated)) = Unit {0}
ShapedAt (suc n) (some (node v (allocated s))) =
    (slot_count s ≡ 32) × ((i : ℕ) → ShapedAt n (slot_at s i))

-- Two addresses have the same indexes at `n` levels from `level` on.
unfoldable pub same_path : ℕ → ℕ → ℕ → ℕ → Bool
same_path zero level a b = true
same_path (suc n) level a b =
    extract_index a level == extract_index b level && same_path n (level + 1) a b

extract_index-lt : (a level : ℕ) → extract_index a level < 32
unfolding extract_index
extract_index-lt a level = omega arith

-- Four indexes of five bits are the page number.
pub same_path-page :
    (a b : ℕ) → a < 2 ^ 32 → b < 2 ^ 32 → same_path 4 0 a b ≡ ((a >>> 12) == (b >>> 12))
unfolding same_path extract_index
same_path-page a b ha hb = ground arith

unfoldable pub count_below : ℕ → ℕ → ℕ → Option Node → Option ℕ
count_below n level b o = value_of (find_below n level b o)

pub find_below-none : (n level b : ℕ) → find_below n level b none ≡ none
unfolding find_below
find_below-none zero level b = refl
find_below-none (suc n) level b = refl

-- `w` for the addresses on the path of `a`, and no change for the others.
unfoldable pub Updated : ℕ → ℕ → ℕ → Option ℕ → Option Node → Option Node → Type 0
Updated n level a w o o' =
    (b : ℕ)
    → count_below n level b o' ≡ (if same_path n level a b then w else count_below n level b o)

module _ (n level a : ℕ) (s : Slots) (o' : Option Node) (full : slot_count s ≡ 32) where
  abbrev index : ℕ
  index = extract_index a level

  pub slot_set-Updated :
      (v v' : Option ℕ) (w : Option ℕ)
      → Updated n (level + 1) a w (slot_at s index) o'
      → Updated
          (suc n)
          level
          a
          w
          (some (node v (allocated s)))
          (some (node v' (allocated (slot_set s index o'))))
  unfolding Updated count_below find_below same_path
  slot_set-Updated v v' w u b =
      rw
        (slot_at-slot_set s index (extract_index b level) o'
          (omega (arith, extract_index-lt a level)))
        (elim (Bool-cases (index == extract_index b level)) [
          | inl eq ↦ rw eq (let e = (==_iff _ _).0 eq in rw (← e) (u b))
          | inr ne ↦ rw ne
        ])

  pub slot_set-ShapedAt :
      (v : Option ℕ)
      → ((i : ℕ) → ShapedAt n (slot_at s i))
      → ShapedAt n o'
      → ShapedAt (suc n) (some (node v (allocated (slot_set s index o'))))
  slot_set-ShapedAt v h h' = (slot_count-slot_set s index o' ∙ full, λ i. at i)
    where
      at : (i : ℕ) → ShapedAt n (slot_at (slot_set s index o') i)
      at i =
          rw (slot_at-slot_set s index i o' (omega (arith, extract_index-lt a level)))
            (elim (Bool-cases (index == i)) [ inl eq ↦ rw eq h' | inr ne ↦ rw ne (h i) ])

pub blank-ShapedAt : (n : ℕ) (v : Option ℕ) → ShapedAt (suc n) (some (node v (allocated blank)))
blank-ShapedAt n v = (refl, λ i. rw (slot_at-blank i) tt)

pub count_below-blank :
    (n level b : ℕ) (v : Option ℕ)
    → count_below (suc n) level b (some (node v (allocated blank))) ≡ none
unfolding count_below find_below
count_below-blank n level b v =
    rw (slot_at-blank (extract_index b level), find_below-none n (level + 1) b)
