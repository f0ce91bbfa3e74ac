-- ===== src/Memory/Heap/Merge.antt =====
-- A block that goes back among the free blocks, and blocks that become one where they touch.
use idos_nx.Base.{
  ℕ, ◌+◌, ◌%◌, ◌≤◌, ◌<◌, ◌≡◌, refl, subst, ap, ◌∙◌, inl, inr, Bool, true, false, ◌&&◌, ◌||◌, List,
  [], ◌∷◌, arith, ltb, leb, ◌==◌, if◌then◌else◌, ==_iff, Bool-cases,
}
use idos_nx.Memory.Heap.Blocks.{Block, Ascend, Ascend-le, Apart}

abbrev pub insert_block : ℕ → ℕ → List Block → List Block
insert_block a n [] = (a, n) ∷ []
insert_block a n ((b, m) ∷ rest) =
    let more = insert_block a n rest in if ltb a b then (a, n) ∷ (b, m) ∷ rest else (b, m) ∷ more

-- A block that the others follow.
abbrev pub merge_onto : ℕ → ℕ → List Block → List Block
merge_onto c m [] = (c, m) ∷ []
merge_onto c m ((d, k) ∷ rest) =
    let joined = merge_onto c (m + k) rest in
    let next = merge_onto d k rest in if c + m == d then joined else (c, m) ∷ next

-- The address lies in a block, or in one of the blocks.
abbrev pub in_block : ℕ → ℕ → ℕ → Bool
in_block x a n = leb a x && ltb x (a + n)

abbrev pub free_at : ℕ → List Block → Bool
free_at x [] = false
free_at x ((a, n) ∷ rest) = in_block x a n || free_at x rest

pub insert_block-Ascend :
    (blocks : List Block) (a n low end : ℕ)
    → 0 < a
    → low ≤ a
    → 12 ≤ n
    → n < 0x80000000
    → a % 4 ≡ 0
    → n % 4 ≡ 0
    → a + n ≤ end
    → Apart a n blocks
    → Ascend low blocks end
    → Ascend low (insert_block a n blocks) end
insert_block-Ascend [] a n low end p1 p2 p3 p4 p5 p6 inside apart up = absurd (omega arith)
insert_block-Ascend ((b, m) ∷ rest) a n low end p1 p2 p3 p4 p5 p6 inside (away, apart)
      (h1, h2, h3, h4, h5, h6, up) =
    elim (Bool-cases (ltb a b)) [
      | inl before ↦ rw before (
        p1,
        p2,
        p3,
        p4,
        p5,
        p6,
        (
          h1,
          elim away [ inl behind ↦ absurd (ground arith) | inr clear ↦ clear ],
          h3,
          h4,
          h5,
          h6,
          up,
        ),
      )
      | inr after ↦ rw after (
        h1,
        h2,
        h3,
        h4,
        h5,
        h6,
        insert_block-Ascend rest a n (b + m) end p1
            (elim away [ inl behind ↦ behind | inr clear ↦ absurd (ground arith) ]) p3 p4 p5 p6
            inside apart up,
      )
    ]

pub swap : (p q r : Bool) → (p || (q || r)) ≡ (q || (p || r))
swap true true r = refl
swap true false r = refl
swap false q r = refl

joined_block :
    (x c m d k : ℕ)
    → c + m ≡ d
    → (r : Bool) → (in_block x c (m + k) || r) ≡ (in_block x c m || (in_block x d k || r))
joined_block x c m d k e true = ground arith
joined_block x c m d k e false = ground arith

pub free_at-insert_block :
    (blocks : List Block) (x a n : ℕ)
    → free_at x (insert_block a n blocks) ≡ (in_block x a n || free_at x blocks)
free_at-insert_block [] x a n = refl
free_at-insert_block ((b, m) ∷ rest) x a n = elim (Bool-cases (ltb a b)) [
  | inl before ↦ rw before refl
  | inr after ↦
      rw (after, free_at-insert_block rest x a n)
        (swap (in_block x b m) (in_block x a n) (free_at x rest))
]

pub merge_onto-Ascend :
    (rest : List Block) (c m low start end : ℕ)
    → start ≤ low
    → end < start + 0x80000000
    → Ascend low ((c, m) ∷ rest) end
    → Ascend low (merge_onto c m rest) end
merge_onto-Ascend [] c m low start end s l up = up
merge_onto-Ascend ((d, k) ∷ rest) c m low start end s l
      (h1, h2, h3, h4, h5, h6, (g1, g2, g3, g4, g5, g6, up)) =
    elim (Bool-cases (c + m == d)) [
      | inl touch ↦
          let e : d + k ≡ c + (m + k) = ground arith in
          let inside = Ascend-le rest (d + k) end up in
          rw touch (
            merge_onto-Ascend rest c (m + k) low start end s l (
              h1,
              h2,
              omega arith,
              omega arith,
              h5,
              omega arith,
              subst (λ (p : ℕ). Ascend p rest end) e up,
            ))
      | inr gap ↦ rw gap (
        h1,
        h2,
        h3,
        h4,
        h5,
        h6,
        merge_onto-Ascend rest d k (c + m) start end (omega arith) l (g1, g2, g3, g4, g5, g6, up),
      )
    ]

pub free_at-merge_onto :
    (rest : List Block) (x c m : ℕ)
    → free_at x (merge_onto c m rest) ≡ (in_block x c m || free_at x rest)
free_at-merge_onto [] x c m = refl
free_at-merge_onto ((d, k) ∷ rest) x c m = elim (Bool-cases (c + m == d)) [
  | inl touch ↦ rw touch (
      free_at-merge_onto rest x c (m + k)
      ∙ joined_block x c m d k ((==_iff _ _).0 touch) (free_at x rest))
  | inr gap ↦ rw gap (ap (λ (b : Bool). in_block x c m || b) (free_at-merge_onto rest x d k))
]
