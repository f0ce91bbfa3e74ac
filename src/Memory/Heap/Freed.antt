-- ===== src/Memory/Heap/Freed.antt =====
-- That `dealloc` does to the list in memory what `insert_block` and `merge_onto` do to its blocks.
use idos_nx.Base.{
  ℕ, zero, suc, ◌+◌, ◌%◌, ◌≤◌, ◌<◌, ◌≡◌, refl, sym, subst, ap, ap₂, ◌∙◌, ◌⊎◌, inl, inr, true, false,
  some, List, [], ◌∷◌, arith, ltb, ◌==◌, Bool-cases, length,
}
use idos_nx.Memory.Heap.{Words, magic, flag, set_next, set_size, get_size}
use idos_nx.Memory.Heap.Blocks.{Block, Ascend, Ascend-le, Apart}
use idos_nx.Memory.Heap.InMemory.{FreeList, FreeList-moved}
use idos_nx.Memory.Heap.Release.{insert_from, merge_from}
use idos_nx.Memory.Heap.Merge.{insert_block, merge_onto}

-- Words that change only in a part that the blocks are apart from.
pub FreeList-Apart :
    (blocks : List Block) (w w' : Words) (at a n low end : ℕ)
    → ((x : ℕ) → (x < a) ⊎ (a + n ≤ x) → w' x ≡ w x)
    → Apart a n blocks
    → Ascend low blocks end
    → FreeList w at blocks
    → FreeList w' at blocks
FreeList-Apart [] w w' at a n low end same away up f = f
FreeList-Apart ((b, m) ∷ rest) w w' at a n low end same (away, apart) (h1, h2, h3, h4, h5, h6, up)
      (e, v, s, f) =
    let side : (x : ℕ) → b ≤ x → x < b + 12 → (x < a) ⊎ (a + n ≤ x) =
      λ x l r. elim away [ inl behind ↦ inl (omega arith) | inr clear ↦ inr (omega arith) ] in
    (
      e,
      same b (side b (omega arith) (omega arith)) ∙ v,
      same (b + 4) (side (b + 4) (omega arith) (omega arith)) ∙ s,
      subst (λ (p : ℕ). FreeList w' p rest)
          (sym (same (b + 8) (side (b + 8) (omega arith) (omega arith))))
          (FreeList-Apart rest w w' (w (b + 8)) a n (b + m) end same apart up f),
    )

-- The words after the node at `c` takes in the one it links to.
abbrev joined_words : Words → ℕ → Words
joined_words w c =
    let w1 : Words = set_size w c (get_size w c + get_size w (w (c + 8))) in
    set_next w1 c (w1 (w (c + 8) + 8))

joined_words_lem :
    (w : Words) (c d m k : ℕ)
    → w (c + 4) ≡ m
    → w (d + 4) ≡ k
    → w (c + 8) ≡ d
    → m + k < 0x80000000
    → 12 ≤ m
    → c + m ≤ d
    → (joined_words w c c ≡ w c)
      × (joined_words w c (c + 4) ≡ m + k)
      × (joined_words w c (c + 8) ≡ w (d + 8))
joined_words_lem w c d m k s s2 e2 small h g =
    let at : w (w (c + 8) + 4) ≡ k = ap (λ (n : ℕ). w (n + 4)) e2 ∙ s2 in
    let far : w (w (c + 8) + 8) ≡ w (d + 8) = ap (λ (n : ℕ). w (n + 8)) e2 in
    (ground arith, ground arith, ground arith)

joined_words-else :
    (w : Words) (c d x : ℕ) → w (c + 8) ≡ d → (x < c + 4) ⊎ (c + 12 ≤ x) → joined_words w c x ≡ w x
joined_words-else w c d x e (inl h) = ground arith
joined_words-else w c d x e (inr h) = ground arith

FreeList-start :
    (w : Words) (at d k : ℕ) (rest : List Block)
    → w at ≡ d
    → FreeList w d ((d, k) ∷ rest)
    → FreeList w (w at) ((d, k) ∷ rest)
FreeList-start w at d k rest e f = subst (λ (p : ℕ). FreeList w p ((d, k) ∷ rest)) (sym e) f

merge_from-end : (rounds : ℕ) (w : Words) (at : ℕ) → at ≡ 0 → merge_from rounds w at ≡ some w
unfolding merge_from
merge_from-end zero w at e = rw e refl
merge_from-end (suc rounds) w at e = rw e refl

-- The merging of a list in memory.
pub merge_from-eq :
    (rest : List Block) (rounds : ℕ) (w : Words) (c m low start end : ℕ)
    → start ≤ low
    → end < start + 0x80000000
    → Ascend low ((c, m) ∷ rest) end
    → FreeList w c ((c, m) ∷ rest)
    → length rest < rounds
    → (w' : Words) × (merge_from rounds w c ≡ some w')
      × FreeList w' c (merge_onto c m rest)
      × ((x : ℕ) → x < c + 4 → w' x ≡ w x)
unfolding merge_from
merge_from-eq rest zero w c m low start end sl l up f r = absurd (omega arith)
merge_from-eq [] (suc rounds) w c m low start end sl l (h1, h2, h3, h4, h5, h6, up) (e, v, s, f) r =
    let live : (c == 0) ≡ false = ground arith in
    let apart : (c + w (c + 4) % flag == w (c + 8)) ≡ false = ground arith in
    (w, rw (live, apart) (merge_from-end rounds w (w (c + 8)) f), (refl, v, s, f), λ x h. refl)
merge_from-eq ((d, k) ∷ rest) (suc rounds) w c m low start end sl l
      (h1, h2, h3, h4, h5, h6, (g1, g2, g3, g4, g5, g6, up)) (e, v, s, (e2, v2, s2, f)) r =
    let inside = Ascend-le rest (d + k) end up in
    let live : (c == 0) ≡ false = ground arith in
    let test : (c + w (c + 4) % flag == w (c + 8)) ≡ (c + m == d) =
      ap₂ (λ (p q : ℕ). c + p == q) (omega arith) e2 in
    elim (Bool-cases (c + m == d)) [
      | inl touch ↦
          let small : m + k < 0x80000000 = ground arith in
          let (n1, n2, n3) = joined_words_lem w c d m k s s2 e2 small h3 g2 in
          let meet : d + k ≡ c + (m + k) = ground arith in
          let up' : Ascend low ((c, m + k) ∷ rest) end = (
            h1,
            h2,
            omega arith,
            small,
            h5,
            omega arith,
            subst (λ (p : ℕ). Ascend p rest end) meet up,
          ) in
          let f2 : FreeList (joined_words w c) (joined_words w c (c + 8)) rest =
            FreeList-moved rest w (joined_words w c) (w (d + 8)) _ (d + k) end n3
              (λ x h. joined_words-else w c d x e2 (inr (omega arith))) up f in
          let (w', done', f', same) =
            merge_from-eq rest rounds (joined_words w c) c (m + k) low start end sl l up'
              (refl, n1 ∙ v, n2, f2) (omega arith) in
          (
            w',
            rw (live, test, touch) done',
            rw touch f',
            λ x h. same x h ∙ joined_words-else w c d x e2 (inl h),
          )
      | inr gap ↦
          let (w', done', f', same) =
            merge_from-eq rest rounds w d k (c + m) start end (omega arith) l
              (g1, g2, g3, g4, g5, g6, up) (refl, v2, s2, f) (omega arith) in
          (
            w',
            rw (live, test, gap) (ap (merge_from rounds w) e2 ∙ done'),
            rw gap (
              refl,
              same c (omega arith) ∙ v,
              same (c + 4) (omega arith) ∙ s,
              subst (λ (p : ℕ). FreeList w' p (merge_onto d k rest))
                  (sym (same (c + 8) (omega arith) ∙ e2)) f',
            ),
            λ x h. same x (omega arith),
          )
    ]

-- The insertion of a node whose place is behind the first block of the list.
pub insert_from-eq :
    (rest : List Block) (rounds : ℕ) (w : Words) (a n c m low end : ℕ)
    → c + m ≤ a
    → 12 ≤ n
    → a + n ≤ end
    → w a ≡ magic
    → w (a + 4) ≡ n
    → Apart a n rest
    → Ascend low ((c, m) ∷ rest) end
    → FreeList w c ((c, m) ∷ rest)
    → length rest < rounds
    → (w' : Words) × (insert_from rounds w a c ≡ some w')
      × FreeList w' c ((c, m) ∷ insert_block a n rest)
      × ((x : ℕ) → x < c + 8 → w' x ≡ w x)
unfolding insert_from
insert_from-eq rest zero w a n c m low end cm n12 an v s apart up f r = absurd (omega arith)
insert_from-eq [] (suc rounds) w a n c m low end cm n12 an v s apart (h1, h2, h3, h4, h5, h6, up) f
      r =
    absurd (omega arith)
insert_from-eq ((d, k) ∷ rest) (suc rounds) w a n c m low end cm n12 an v s (away, apart)
      (h1, h2, h3, h4, h5, h6, (g1, g2, g3, g4, g5, g6, up)) (e, vc, sc, (ed, vd, sd, f)) r =
    let live : (c == 0) ≡ false = ground arith in
    let more : (w (c + 8) == 0) ≡ false = ground arith in
    let under : ltb c a ≡ true = ground arith in
    let test : ltb a (w (c + 8)) ≡ ltb a d = ap (ltb a) ed in
    elim (Bool-cases (ltb a d)) [
      | inl before ↦
          let clear : a + n ≤ d = elim away [ inl behind ↦ absurd (ground arith) | inr h ↦ h ] in
          let w2 : Words = set_next (set_next w c a) a (w (c + 8)) in
          let kept_words : (x : ℕ) → a + 12 ≤ x → w2 x ≡ w x = λ x h. ground arith in
          (
            w2,
            rw (live, under, test, before) refl,
            rw before (
              refl,
              ground arith,
              ground arith,
              (
                ground arith,
                ground arith,
                ground arith,
                FreeList-moved ((d, k) ∷ rest) w w2 (w (c + 8)) _ (a + n) end (ground arith)
                    (λ x h. kept_words x (omega arith)) (g1, clear, g3, g4, g5, g6, up)
                    (ed, vd, sd, f),
              ),
            ),
            λ x h. ground arith,
          )
      | inr after ↦
          let behind : d + k ≤ a = elim away [ inl h ↦ h | inr h ↦ absurd (ground arith) ] in
          let (w', done', f', same) =
            insert_from-eq rest rounds w a n d k (c + m) end behind n12 an v s apart
              (g1, g2, g3, g4, g5, g6, up) (refl, vd, sd, f) (omega arith) in
          (
            w',
            rw (live, under, test, after, more) (ap (insert_from rounds w a) ed ∙ done'),
            rw after (
              refl,
              same c (omega arith) ∙ vc,
              same (c + 4) (omega arith) ∙ sc,
              FreeList-start w' (c + 8) d k (insert_block a n rest)
                  (same (c + 8) (omega arith) ∙ ed) f',
            ),
            λ x h. same x (omega arith),
          )
    ]
