-- ===== src/Memory/Heap/Dealloc.antt =====
-- What a heap is after memory is given back.
use idos_nx.Base.{
  ℕ, suc, ◌+◌, ◌%◌, ◌≤◌, ◌<◌, ◌≡◌, refl, sym, subst, ap, ◌∙◌, ◌⊎◌, inl, inr, Bool, true, false,
  ◌||◌, Option, some, List, [], ◌∷◌, arith, ltb, ltb→lt, Bool-cases, length,
}
use idos_nx.Base.Results.{done}
use idos_nx.Memory.Heap.{
  ListAllocator, Words, State, magic, set_next, mark_free, find_node_from_allocated_ptr, is_valid,
  is_free,
}
use idos_nx.Memory.Heap.Blocks.{Block, Ascend, Apart}
use idos_nx.Memory.Heap.InMemory.{FreeList, FreeList-moved, Occupied}
use idos_nx.Memory.Heap.Release.{insert_from, merge_from, add_node, dealloc}
use idos_nx.Memory.Heap.Merge.{
  insert_block, merge_onto, insert_block-Ascend, merge_onto-Ascend, in_block, free_at, swap,
  free_at-insert_block, free_at-merge_onto,
}
use idos_nx.Memory.Heap.Freed.{FreeList-Apart, merge_from-eq, insert_from-eq}
use idos_nx.Memory.Heap.Serve.{IsHeap}

-- A node in the heap, with an address in it behind its header.
abbrev pub IsNode : ListAllocator → ℕ → ℕ → ℕ → Type 0
IsNode h q a used =
    (h.start ≤ a)
    × (a + used ≤ h.start + h.size)
    × (12 ≤ used)
    × (used < 0x80000000)
    × (a % 4 ≡ 0)
    × (used % 4 ≡ 0)
    × (a + 12 ≤ q)
    × (q ≤ a + used)

-- The blocks of a heap that is otherwise the same cover the used part and what was free.
abbrev pub Returned : State → ℕ → ℕ → List Block → State → List Block → Type 0
Returned (h, w) a used blocks (h', w') left =
    IsHeap (h', w') left
    × (h'.start ≡ h.start)
    × (h'.size ≡ h.size)
    × ((x : ℕ) → free_at x left ≡ (in_block x a used || free_at x blocks))

first_eq :
    (rounds : ℕ) (h : ListAllocator) (w : Words) (a : ℕ) (w' : Words)
    → ltb a h.first_free ≡ true
    → merge_from rounds (set_next w a h.first_free) a ≡ some w'
    → add_node rounds (h, w) a
      ≡ some (record { start = h.start; size = h.size; first_free = a }, w')
unfolding add_node
first_eq rounds h w a w' test e = rw (test, e) refl

later_eq :
    (rounds : ℕ) (h : ListAllocator) (w : Words) (a c : ℕ) (w1 w' : Words)
    → h.first_free ≡ c
    → ltb a c ≡ false
    → insert_from rounds w a c ≡ some w1
    → merge_from rounds w1 c ≡ some w'
    → add_node rounds (h, w) a ≡ some (h, w')
unfolding add_node
later_eq rounds h w a c w1 w' first after e1 e2 =
    let test : ltb a h.first_free ≡ false = ap (ltb a) first ∙ after in
    let e1' : insert_from rounds w a h.first_free ≡ some w1 =
      ap (insert_from rounds w a) first ∙ e1 in
    let e2' : merge_from rounds w1 h.first_free ≡ some w' = ap (merge_from rounds w1) first ∙ e2 in
    rw (test, e1', e2') refl

-- None of the panics.
dealloc_eq :
    (rounds : ℕ) (h : ListAllocator) (w : Words) (q a : ℕ)
    → (ltb q h.start || ltb (h.start + h.size) q) ≡ false
    → find_node_from_allocated_ptr w q ≡ a
    → is_valid w a ≡ true
    → is_free w a ≡ false
    → dealloc rounds (h, w) q ≡ done (add_node rounds (h, mark_free w a) a)
unfolding dealloc
dealloc_eq rounds h w q a inside found valid used_now = rw (inside, found, valid, used_now) refl

length-insert_block :
    (blocks : List Block) (a n : ℕ) → length (insert_block a n blocks) ≡ suc (length blocks)
length-insert_block [] a n = refl
length-insert_block ((b, m) ∷ rest) a n = ground (arith, length-insert_block rest a n)

module _ (h : ListAllocator) (w : Words) (q a used c m : ℕ) (rest : List Block)
    (heap : IsHeap (h, w) ((c, m) ∷ rest)) (node : IsNode h q a used)
    (apart : Apart a used ((c, m) ∷ rest)) (small : h.size < 0x80000000) (v : w a ≡ magic)
    (s : w (a + 4) ≡ used) where
  -- The node comes before all free ones.
  add_node-first :
      (rounds : ℕ)
      → suc (length rest) < rounds
      → a < c
      → (h' : ListAllocator) × (w' : Words) × (add_node rounds (h, w) a ≡ some (h', w'))
        × Returned (h, w) a used ((c, m) ∷ rest) (h', w') (merge_onto a used ((c, m) ∷ rest))
  add_node-first rounds r before =
      let (f, up, pos, al) = heap in
      let (first, _, _, _) = f in
      let (n1, n2, n3, n4, n5, n6, n7, n8) = node in
      let (h1, h2, h3, h4, h5, h6, higher) = up in
      let clear : a + used ≤ c = elim (apart.0) [ inl behind ↦ absurd (omega arith) | inr x ↦ x ] in
      let test : ltb a h.first_free ≡ true = ground arith in
      let w2 : Words = set_next w a h.first_free in
      let up2 : Ascend h.start ((a, used) ∷ (c, m) ∷ rest) (h.start + h.size) =
        (omega arith, n1, n3, n4, n5, n6, (h1, clear, h3, h4, h5, h6, higher)) in
      let f2 : FreeList w2 a ((a, used) ∷ (c, m) ∷ rest) = (
        refl,
        ground arith,
        ground arith,
        FreeList-moved ((c, m) ∷ rest) w w2 h.first_free _ (a + used) (h.start + h.size)
            (ground arith) (λ x low. ground arith) (h1, clear, h3, h4, h5, h6, higher) f,
      ) in
      let (w', done', f', same) =
        merge_from-eq ((c, m) ∷ rest) rounds w2 a used h.start h.start (h.start + h.size)
          (omega arith) (omega arith) up2 f2 r in
      (
        record { start = h.start; size = h.size; first_free = a },
        w',
        first_eq rounds h w a w' test done',
        (
          (
            f',
            merge_onto-Ascend ((c, m) ∷ rest) a used h.start h.start (h.start + h.size)
                (omega arith) (omega arith) up2,
            pos,
            al,
          ),
          refl,
          refl,
          λ x. free_at-merge_onto ((c, m) ∷ rest) x a used,
        ),
      )

  -- The first free node stays the first.
  add_node-later :
      (rounds : ℕ)
      → suc (length rest) < rounds
      → (ltb a c) ≡ false
      → (h' : ListAllocator) × (w' : Words) × (add_node rounds (h, w) a ≡ some (h', w'))
        × Returned
            (h, w)
            a
            used
            ((c, m) ∷ rest)
            (h', w')
            (merge_onto c m (insert_block a used rest))
  add_node-later rounds r after =
      let (f, up, pos, al) = heap in
      let (first, vc, sc, f1) = f in
      let (n1, n2, n3, n4, n5, n6, n7, n8) = node in
      let (h1, h2, h3, h4, h5, h6, higher) = up in
      let behind : c + m ≤ a = elim (apart.0) [ inl x ↦ x | inr clear ↦ absurd (ground arith) ] in
      let (w1, done1, f2, _) =
        insert_from-eq rest rounds w a used c m h.start (h.start + h.size) behind n3 n2 v s apart.1
          up (refl, vc, sc, f1) (omega arith) in
      let up2 : Ascend h.start ((c, m) ∷ insert_block a used rest) (h.start + h.size) = (
        h1,
        h2,
        h3,
        h4,
        h5,
        h6,
        insert_block-Ascend rest a used (c + m) (h.start + h.size) (omega arith) behind n3 n4 n5 n6
            n2 apart.1 higher,
      ) in
      let (w', done', f', _) =
        merge_from-eq (insert_block a used rest) rounds w1 c m h.start h.start (h.start + h.size)
          (omega arith) (omega arith) up2 f2 (omega (arith, length-insert_block rest a used)) in
      (
        h,
        w',
        later_eq rounds h w a c w1 w' first after done1 done',
        (
          (
            subst (λ (p : ℕ). FreeList w' p (merge_onto c m (insert_block a used rest))) (sym first)
                f',
            merge_onto-Ascend (insert_block a used rest) c m h.start h.start (h.start + h.size)
                (omega arith) (omega arith) up2,
            pos,
            al,
          ),
          refl,
          refl,
          λ x.
              free_at-merge_onto (insert_block a used rest) x c m
              ∙ ap (λ (b : Bool). in_block x c m || b) (free_at-insert_block rest x a used)
              ∙ swap (in_block x c m) (in_block x a used) (free_at x rest),
        ),
      )

mark_free-else : (w : Words) (a n x : ℕ) → 12 ≤ n → (x < a) ⊎ (a + n ≤ x) → mark_free w a x ≡ w x
mark_free-else w a n x n12 (inl h) = ground arith
mark_free-else w a n x n12 (inr h) = ground arith

add_node-Returned :
    (blocks : List Block) (rounds : ℕ) (h : ListAllocator) (w : Words) (q a used : ℕ)
    → IsHeap (h, w) blocks
    → IsNode h q a used
    → Apart a used blocks
    → h.size < 0x80000000
    → w a ≡ magic
    → w (a + 4) ≡ used
    → length blocks < rounds
    → (left : List Block) × (h' : ListAllocator) × (w' : Words) × (add_node rounds (h, w) a
        ≡ some (h', w'))
      × Returned (h, w) a used blocks (h', w') left
add_node-Returned [] rounds h w q a used (f, up, pos, al) (n1, n2, n3, _, _, _, _, _) apart small v
      s r =
    absurd (omega arith)
add_node-Returned ((c, m) ∷ rest) rounds h w q a used heap node apart small v s r =
    elim (Bool-cases (ltb a c)) [
      | inl before ↦
          let (h', w', e, ok) =
            add_node-first h w q a used c m rest heap node apart small v s rounds r
              (ltb→lt a c before) in
          (merge_onto a used ((c, m) ∷ rest), h', w', e, ok)
      | inr after ↦
          let (h', w', e, ok) =
            add_node-later h w q a used c m rest heap node apart small v s rounds r after in
          (merge_onto c m (insert_block a used rest), h', w', e, ok)
    ]

-- On a heap below 2 GiB, `dealloc` of an address in an occupied node that no free block meets ends,
-- without a panic, when it gets more rounds than there are free blocks. What is left is a heap of the
-- same extent, in which exactly the bytes of the node and those that were free are free.
pub dealloc_lem :
    (blocks : List Block) (rounds : ℕ) (h : ListAllocator) (w : Words) (q a used : ℕ)
    → IsHeap (h, w) blocks
    → Occupied w q a used
    → IsNode h q a used
    → Apart a used blocks
    → h.size < 0x80000000
    → length blocks < rounds
    → (left : List Block) × (h' : ListAllocator) × (w' : Words) × (dealloc rounds (h, w) q
        ≡ done (some (h', w')))
      × Returned (h, w) a used blocks (h', w') left
dealloc_lem blocks rounds h w q a used (f, up, pos, al) (v, s, p) node apart small r =
    let (n1, n2, n3, n4, n5, n6, n7, n8) = node in
    let inside : (ltb q h.start || ltb (h.start + h.size) q) ≡ false = ground arith in
    let found : find_node_from_allocated_ptr w q ≡ a = omega arith in
    let valid : is_valid w a ≡ true = ground arith in
    let used_now : is_free w a ≡ false = ground arith in
    let f2 : FreeList (mark_free w a) h.first_free blocks =
      FreeList-Apart blocks w (mark_free w a) h.first_free a used h.start (h.start + h.size)
        (λ x side. mark_free-else w a used x n3 side) apart up f in
    let (left, h', w', done', ok) =
      add_node-Returned blocks rounds h (mark_free w a) q a used (f2, up, pos, al) node apart small
        (ground arith) (ground arith) r in
    (
      left,
      h',
      w',
      dealloc_eq rounds h w q a inside found valid used_now
          ∙ ap (λ (o : Option State). done o) done',
      ok,
    )
