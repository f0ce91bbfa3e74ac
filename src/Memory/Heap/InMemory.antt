-- ===== src/Memory/Heap/InMemory.antt =====
-- The free list in memory, and what it means that an allocation there is one among its blocks.
use idos_nx.Base.{
  ℕ, ◌+◌, ◌-◌, ◌≤◌, ◌<◌, ◌≡◌, sym, subst, ◌∙◌, ◌≢◌, ◌⊎◌, inl, inr, Option, none, some, List, [],
  ◌∷◌, arith,
}
use idos_nx.Base.Results.{Outcome, done}
use idos_nx.Memory.Heap.{ListAllocator, magic, flag, Words, State}
use idos_nx.Memory.Heap.Blocks.{Block, Ascend, Fit, nothing, kept, dropped, keep}

-- The list that starts at an address has these blocks.
abbrev pub FreeList : Words → ℕ → List Block → Type 0
FreeList w at [] = at ≡ 0
FreeList w at ((a, n) ∷ rest) =
    (at ≡ a) × (w a ≡ magic) × (w (a + 4) ≡ n) × FreeList w (w (a + 8)) rest

-- An occupied node: its header, and the padding in front of the address that was given out.
abbrev pub Occupied : Words → ℕ → ℕ → ℕ → Type 0
Occupied w q a used = (w a ≡ magic) × (w (a + 4) ≡ flag + used) × (w (q - 4) ≡ q - a - 8)

pub FreeList-above :
    (blocks : List Block) (w w' : Words) (at low end : ℕ)
    → ((x : ℕ) → low ≤ x → w' x ≡ w x)
    → Ascend low blocks end
    → FreeList w at blocks
    → FreeList w' at blocks
FreeList-above [] w w' at low end same up f = f
FreeList-above ((a, n) ∷ rest) w w' at low end same (h1, h2, h3, h4, h5, h6, up) (e, m, s, f) = (
  e,
  same a (omega arith) ∙ m,
  same (a + 4) (omega arith) ∙ s,
  subst (λ (p : ℕ). FreeList w' p rest) (sym (same (a + 8) (omega arith)))
      (FreeList-above rest w w' (w (a + 8)) (a + n) end (λ x h. same x (omega arith)) up f),
)

pub FreeList-moved :
    (blocks : List Block) (w w' : Words) (at at' low end : ℕ)
    → at' ≡ at
    → ((x : ℕ) → low ≤ x → w' x ≡ w x)
    → Ascend low blocks end
    → FreeList w at blocks
    → FreeList w' at' blocks
FreeList-moved blocks w w' at at' low end e same up f =
    subst (λ (p : ℕ). FreeList w' p blocks) (sym e)
      (FreeList-above blocks w w' at low end same up f)

-- `prev` is the node before `current` in the list, or 0 if `current` is the first.
abbrev pub Link : State → ℕ → ℕ → ℕ → Type 0
Link (h, w) prev current low =
    ((prev ≡ 0) × (h.first_free ≡ current))
    ⊎ ((0 < prev) × (prev + 12 ≤ low) × (w (prev + 8) ≡ current))

abbrev pub NewLink : State → State → ℕ → List Block → Type 0
NewLink (h, w) (h', w') prev blocks =
    ((prev ≡ 0) × FreeList w' h'.first_free blocks)
    ⊎ ((0 < prev) × (h'.first_free ≡ h.first_free) × FreeList w' (w' (prev + 8)) blocks)

abbrev pub Implements : State → ℕ → ℕ → Fit → Option (Outcome (Option ℕ × State)) → Type 0
Implements (h, w) prev low nothing result = result ≡ some (done (none, (h, w)))
Implements (h, w) prev low (kept q a used blocks) result =
    (h' : ListAllocator) × (w' : Words) × (result ≡ some (done (some q, (h', w'))))
    × (h'.start ≡ h.start)
    × (h'.size ≡ h.size)
    × ((x : ℕ) → x < low → x ≢ prev + 8 → w' x ≡ w x)
    × NewLink (h, w) (h', w') prev blocks
    × Occupied w' q a used
Implements (h, w) prev low (dropped q a used blocks end) result =
    (h' : ListAllocator) × (w' : Words) × (result ≡ some (done (some q, (h', w'))))
    × (h'.start ≡ h.start)
    × (h'.start + h'.size ≡ end)
    × FreeList w' h'.first_free blocks
    × Occupied w' q a used

pub Implements-keep :
    (h : ListAllocator) (w : Words) (prev low a n : ℕ) (fit : Fit)
    → (result : Option (Outcome (Option ℕ × State))) → 0 < a
    → low ≤ a
    → 12 ≤ n
    → w a ≡ magic
    → w (a + 4) ≡ n
    → Link (h, w) prev a low
    → Implements (h, w) a (a + n) fit result
    → Implements (h, w) prev low (keep (a, n) fit) result
Implements-keep h w prev low a n nothing result h1 h2 h3 m s l i = i
Implements-keep h w prev low a n (dropped q c used blocks end) result h1 h2 h3 m s l i = i
Implements-keep h w prev low a n (kept q c used blocks) result h1 h2 h3 m s l
      (h', w', e, st, sz, same, inl (zero_prev, _), o) =
    absurd (omega arith)
Implements-keep h w prev low a n (kept q c used blocks) result h1 h2 h3 m s l
      (h', w', e, st, sz, same, inr (_, ff, f), o) =
    let m' : w' a ≡ magic = same a (omega arith) (λ e. absurd (omega (arith, e))) ∙ m in
    let s' : w' (a + 4) ≡ n = same (a + 4) (omega arith) (λ e. absurd (omega (arith, e))) ∙ s in
    (
      h',
      w',
      e,
      st,
      sz,
      λ x below ne. same x (omega arith) (λ e. absurd (omega (arith, e))),
      elim l [
        | inl (z, first) ↦ inl (z, (ff ∙ first, m', s', f))
        | inr (pos, below, linked) ↦ inr (
          pos,
          ff,
          (same (prev + 8) (omega arith) (λ e. absurd (omega (arith, e))) ∙ linked, m', s', f),
        )
      ],
      o,
    )
