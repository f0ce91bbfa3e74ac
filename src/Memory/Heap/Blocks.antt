-- ===== src/Memory/Heap/Blocks.antt =====
-- The free blocks of the heap as a list of starts and sizes, in the order of their addresses, and what
-- an allocation does to this list.
use idos_nx.Base.{
  ℕ, ◌+◌, ◌-◌, ◌*◌, ◌/◌, ◌%◌, ◌≤◌, ◌<◌, ◌≡◌, ◌⊎◌, inr, List, [], ◌∷◌, arith, ltb, leb,
  if◌then◌else◌, length, word_count, add32,
}
use native.Mathlib.Nat.{mod-add-div', mod-lt, mul-mod_left}
use idos_nx.Memory.Heap.{Layout, get_aligned_start}

abbrev pub Block : Type 0
Block = ℕ × ℕ

-- The blocks start at `low` or above, do not meet, and the last one ends where the heap ends.
abbrev pub Ascend : ℕ → List Block → ℕ → Type 0
Ascend low [] end = low ≡ end
Ascend low ((a, n) ∷ rest) end =
    (0 < a)
    × (low ≤ a)
    × (12 ≤ n)
    × (n < 0x80000000)
    × (a % 4 ≡ 0)
    × (n % 4 ≡ 0)
    × Ascend (a + n) rest end

-- The result of an allocation: its address, the block that it is cut from, and how much of the block is
-- used. In `kept`, the free blocks before this one stay in the list.
pub data Fit : Type 0 where
  nothing : Fit
  kept : ℕ → ℕ → ℕ → List Block → Fit
  dropped : ℕ → ℕ → ℕ → List Block → ℕ → Fit

abbrev pub aligned_end : Layout → ℕ → ℕ
aligned_end layout a = add32 (get_aligned_start a layout.align) layout.size

abbrev pub trailing : Layout → ℕ → ℕ
trailing layout a = (aligned_end layout a + 3) / 4 * 4

abbrev pub whole_block : ℕ → ℕ → ℕ → List Block → ℕ → Fit
whole_block q a n [] end = dropped q a n ((end, 0x1000) ∷ []) (end + 0x1000)
whole_block q a n (b ∷ rest) end = dropped q a n (b ∷ rest) end

abbrev pub fit_block : Layout → ℕ → ℕ → List Block → ℕ → Fit
fit_block layout a n rest end =
    let q = get_aligned_start a layout.align in
    let t = trailing layout a in
    if ltb 16 (a + n - aligned_end layout a)
    then kept q a (t - a) ((t, a + n - t) ∷ rest)
    else whole_block q a n rest end

abbrev pub keep : Block → Fit → Fit
keep b nothing = nothing
keep b (kept q a used blocks) = kept q a used (b ∷ blocks)
keep b (dropped q a used blocks end) = dropped q a used blocks end

abbrev pub first_fit : Layout → List Block → ℕ → Fit
first_fit layout [] end = nothing
first_fit layout ((a, n) ∷ rest) end =
    let later = first_fit layout rest end in
    if leb (aligned_end layout a) (a + n) then fit_block layout a n rest end else keep (a, n) later

-- No block meets the one that starts at an address and has a size.
abbrev pub Apart : ℕ → ℕ → List Block → Type 0
Apart a n [] = Unit {0}
Apart a n ((b, m) ∷ rest) = ((b + m ≤ a) ⊎ (a + n ≤ b)) × Apart a n rest

-- The used part lies in one of the blocks.
abbrev pub Within : ℕ → ℕ → List Block → Type 0
Within a used [] = ⊥
Within a used ((b, m) ∷ rest) = ((a ≡ b) × (used ≤ m)) ⊎ Within a used rest

-- The address is aligned and has space for the layout in the used part, behind a node's header.
abbrev pub Serves : Layout → ℕ → ℕ → ℕ → Type 0
Serves layout q a used = (a + 12 ≤ q) × (q % layout.align ≡ 0) × (q + layout.size ≤ a + used)

-- Every block is too small for the layout at the next aligned address behind the block's header.
abbrev pub NoneFits : Layout → List Block → Type 0
NoneFits layout [] = Unit {0}
NoneFits layout ((a, n) ∷ rest) =
    (a + n < get_aligned_start a layout.align + layout.size) × NoneFits layout rest

abbrev pub Placed : Layout → List Block → ℕ → ℕ → Fit → Type 0
Placed layout blocks low end nothing = NoneFits layout blocks
Placed layout blocks low end (kept q a used left) =
    Serves layout q a used
    × Within a used blocks
    × (low ≤ a)
    × Ascend low left end
    × Apart a used left
Placed layout blocks low end (dropped q a used left end') =
    Serves layout q a used
    × Within a used blocks
    × (low ≤ a)
    × (0 < length left)
    × Ascend low left end'
    × Apart a used left

-- A layout that keeps the sums below 2 ^ 32 in a heap that ends there.
abbrev pub Bounded : Layout → ℕ → Type 0
Bounded layout end = (0 < layout.align) × (end + layout.align + layout.size + 16 < word_count)

pub get_aligned_start_lem :
    (a align : ℕ)
    → 0 < align
    → a + 12 + align < word_count
    → (a + 12 ≤ get_aligned_start a align)
      × (get_aligned_start a align < a + 12 + align)
      × (get_aligned_start a align % align ≡ 0)
unfolding get_aligned_start
get_aligned_start_lem a align h b =
    let x = a + 12 + (align - 1) in
    let small : add32 (a + 12) (align - 1) ≡ x = omega arith in
    rw small (
      omega (arith, mod-add-div' x align, mod-lt x h),
      omega (arith, mod-add-div' x align, mod-lt x h),
      mul-mod_left (x / align) align,
    )

pub Ascend-le : (blocks : List Block) (low end : ℕ) → Ascend low blocks end → low ≤ end
Ascend-le [] low end h = omega arith
Ascend-le ((a, n) ∷ rest) low end (h1, h2, h3, h4, h5, h6, h) =
    omega (arith, Ascend-le rest (a + n) end h)

pub Apart-above :
    (blocks : List Block) (a n low end : ℕ) → a + n ≤ low → Ascend low blocks end → Apart a n blocks
Apart-above [] a n low end h s = tt
Apart-above ((b, m) ∷ rest) a n low end h (h1, h2, h3, h4, h5, h6, s) =
    (inr (omega arith), Apart-above rest a n (b + m) end (omega arith) s)

pub Ascend-lower :
    (blocks : List Block) (low low' end : ℕ)
    → low' ≤ low
    → 0 < length blocks
    → Ascend low blocks end
    → Ascend low' blocks end
Ascend-lower [] low low' end h l s = absurd (omega arith)
Ascend-lower ((b, m) ∷ rest) low low' end h l (h1, h2, h3, h4, h5, h6, s) =
    (h1, omega arith, h3, h4, h5, h6, s)
