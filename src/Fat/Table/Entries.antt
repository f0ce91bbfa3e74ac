-- ===== src/Fat/Table/Entries.antt =====
-- The table as a map from clusters to entries.
use idos_nx.Base.{
  ℕ, zero, suc, ◌+◌, ◌*◌, ◌/◌, ◌%◌, ◌≤◌, ◌<◌, ◌≡◌, refl, sym, subst, ap, ◌∙◌, ◌⊎◌, inl, inr, true,
  false, ◌&&◌, arith, ltb, leb, ◌==◌, if◌then◌else◌, ltb→lt, ==_iff, Bool-cases,
}
use idos_nx.Fat.Table.{
  AllocationTable, Disk, read_pair, write_pair, pair_offset, entry_of, with_entry, set_in_copy,
  set_copies, set_cluster_entry,
}

abbrev pub HasBytes : Disk → Type 0
HasBytes d = (x : ℕ) → d x < 256

-- The entry of a cluster in one copy of the table.
abbrev pub entry_in : AllocationTable → ℕ → Disk → ℕ → ℕ
entry_in t fat_index d cluster =
    entry_of cluster
      (read_pair d (t.table_start + fat_index * t.bytes_per_fat + pair_offset cluster))

with_entry-lt : (c v pair : ℕ) → v < 0x1000 → pair < 0x1000000 → with_entry c v pair < 0x1000000
with_entry-lt c v pair hv hp = ground arith

-- The three bytes that are written are read back.
read_pair-write_pair :
    (d : Disk) (at pair : ℕ) → pair < 0x1000000 → read_pair (write_pair d at pair) at ≡ pair
read_pair-write_pair d at pair h = ground arith

-- Three bytes that do not meet those that are written.
read_pair-apart :
    (d : Disk) (at other pair : ℕ)
    → (other + 3 ≤ at) ⊎ (at + 3 ≤ other)
    → read_pair (write_pair d at pair) other ≡ read_pair d other
read_pair-apart d at other pair (inl h) = ground arith
read_pair-apart d at other pair (inr h) = ground arith

entry_of-with_entry :
    (c c' v pair : ℕ)
    → v < 0x1000
    → pair < 0x1000000
    → c / 2 ≡ c' / 2
    → entry_of c' (with_entry c v pair) ≡ (if c == c' then v else entry_of c' pair)
entry_of-with_entry c c' v pair hv hp e = ground arith

write_pair-lt : (d : Disk) (at pair : ℕ) → HasBytes d → HasBytes (write_pair d at pair)
write_pair-lt d at pair h x = ground (arith, h x)

apart_or :
    (c c' start : ℕ)
    → (c / 2 == c' / 2) ≡ false
    → (start + pair_offset c' + 3 ≤ start + pair_offset c)
      ⊎ (start + pair_offset c + 3 ≤ start + pair_offset c')
apart_or c c' start h = elim (Bool-cases (ltb (c / 2) (c' / 2))) [
  | inl before ↦ inr (ground arith)
  | inr after ↦ inl (ground arith)
]

-- One copy.
entry_of-set_in_copy :
    (d : Disk) (start c c' v : ℕ)
    → HasBytes d
    → v < 0x1000
    → entry_of c' (read_pair (set_in_copy start c v d) (start + pair_offset c'))
      ≡ (if c == c' then v else entry_of c' (read_pair d (start + pair_offset c')))
entry_of-set_in_copy d start c c' v h hv =
    let old = read_pair d (start + pair_offset c) in
    let small : old < 0x1000000 = omega (
      arith,
      h (start + pair_offset c),
      h (start + pair_offset c + 1),
      h (start + pair_offset c + 2),
    ) in
    let fits = with_entry-lt c v old hv small in
    elim (Bool-cases (c / 2 == c' / 2)) [
      | inl same ↦
          let e : c / 2 ≡ c' / 2 = (==_iff _ _).0 same in
          let p : pair_offset c ≡ pair_offset c' = ap (λ (n : ℕ). n * 3) e in
          ap (λ (n : ℕ). entry_of c' (read_pair (set_in_copy start c v d) (start + n))) (sym p)
          ∙ ap (entry_of c')
              (read_pair-write_pair d (start + pair_offset c) (with_entry c v old) fits)
          ∙ entry_of-with_entry c c' v old hv small e
          ∙ ap (λ (n : ℕ). if c == c' then v else entry_of c' (read_pair d (start + n))) p
      | inr other ↦
          let ne : (c == c') ≡ false = ground arith in
          rw ne (
            ap (entry_of c') (
              read_pair-apart d (start + pair_offset c) (start + pair_offset c')
                (with_entry c v old) (apart_or c c' start other)))
    ]

copies_apart : (g f b : ℕ) → g < f → g * b + b ≤ f * b
copies_apart g f b h = grind arith

-- The entry lies in the table.
abbrev pub InTable : AllocationTable → ℕ → Type 0
InTable t cluster = pair_offset cluster + 3 ≤ t.bytes_per_fat

-- Another copy is left alone.
entry_in-other :
    (t : AllocationTable) (d : Disk) (f g c c' pair : ℕ)
    → InTable t c
    → InTable t c'
    → (f == g) ≡ false
    → entry_in t g (write_pair d (t.table_start + f * t.bytes_per_fat + pair_offset c) pair) c'
      ≡ entry_in t g d c'
entry_in-other t d f g c c' pair hc hc' ne = ap (entry_of c') (
    read_pair-apart d (t.table_start + f * t.bytes_per_fat + pair_offset c)
      (t.table_start + g * t.bytes_per_fat + pair_offset c') pair
      (elim (Bool-cases (ltb g f)) [
        | inl before ↦ inl (omega (arith, copies_apart g f t.bytes_per_fat (ltb→lt g f before)))
        | inr after ↦
            let later : f < g = ground arith in
            inr (omega (arith, copies_apart f g t.bytes_per_fat later))
      ]))

set_copies-HasBytes :
    (left : ℕ) (t : AllocationTable) (f c v : ℕ) (d : Disk)
    → HasBytes d
    → HasBytes (set_copies left t f c v d)
unfolding set_copies
set_copies-HasBytes zero t f c v d h = h
set_copies-HasBytes (suc left) t f c v d h =
    let start = t.table_start + f * t.bytes_per_fat + pair_offset c in
    set_copies-HasBytes left t (f + 1) c v (write_pair d start (with_entry c v (read_pair d start)))
      (write_pair-lt d start (with_entry c v (read_pair d start)) h)

entry_in-set_copies :
    (left : ℕ) (t : AllocationTable) (f g c c' v : ℕ) (d : Disk)
    → HasBytes d
    → v < 0x1000
    → InTable t c
    → InTable t c'
    → entry_in t g (set_copies left t f c v d) c'
      ≡ (if (leb f g && ltb g (f + left)) && c == c' then v else entry_in t g d c')
unfolding set_copies
entry_in-set_copies zero t f g c c' v d h hv hc hc' =
    let none_there : (leb f g && ltb g (f + 0)) ≡ false = ground arith in rw none_there refl
entry_in-set_copies (suc left) t f g c c' v d h hv hc hc' =
    let start = t.table_start + f * t.bytes_per_fat + pair_offset c in
    let d' : Disk = write_pair d start (with_entry c v (read_pair d start)) in
    let ih =
      entry_in-set_copies left t (f + 1) g c c' v d'
        (write_pair-lt d start (with_entry c v (read_pair d start)) h) hv hc hc' in
    elim (Bool-cases (f == g)) [
      | inl here ↦
          let e : f ≡ g = (==_iff f g).0 here in
          let inside : (leb f g && ltb g (f + suc left)) ≡ true = ground arith in
          let past : (leb (f + 1) g && ltb g (f + 1 + left)) ≡ false = ground arith in
          rw inside (
            ih
            ∙ rw past (
                subst (λ (n : ℕ). entry_in t n d' c' ≡ (if c == c' then v else entry_in t n d c')) e
                  (entry_of-set_in_copy d (t.table_start + f * t.bytes_per_fat) c c' v h hv)))
      | inr other ↦
          let same : (leb (f + 1) g && ltb g (f + 1 + left)) ≡ (leb f g && ltb g (f + suc left)) =
            ground arith in
          rw (← same) (
            ih
            ∙ ap (λ (n : ℕ). if (leb (f + 1) g && ltb g (f + 1 + left)) && c == c' then v else n)
                (entry_in-other t d f g c c' (with_entry c v (read_pair d start)) hc hc' other))
    ]

-- `set_cluster_entry` writes the lower twelve bits of the value to the cluster's entry, in every copy of
-- the table, and changes no other entry of any copy. The entries that are named lie in the table, and
-- the disk holds bytes.
pub set_cluster_entry_lem :
    (t : AllocationTable) (c c' g value : ℕ) (d : Disk)
    → HasBytes d
    → InTable t c
    → InTable t c'
    → g < t.fat_count
    → (entry_in t g (set_cluster_entry t c value d) c'
        ≡ (if c == c' then value % 0x1000 else entry_in t g d c'))
      × HasBytes (set_cluster_entry t c value d)
unfolding set_cluster_entry
set_cluster_entry_lem t c c' g value d h hc hc' hg =
    let inside : (leb 0 g && ltb g (0 + t.fat_count)) ≡ true = ground arith in
    (
      entry_in-set_copies t.fat_count t 0 g c c' (value % 0x1000) d h (omega arith) hc hc'
          ∙ rw inside refl,
      set_copies-HasBytes t.fat_count t 0 c (value % 0x1000) d h,
    )
