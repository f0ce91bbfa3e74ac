-- ===== src/Memory/Heap/Split.antt =====
-- The words of the memory after a node is taken: what they are in the two nodes, and that all others are
-- kept.
use idos_nx.Base.{ℕ, ◌+◌, ◌-◌, ◌%◌, ◌≤◌, ◌<◌, ◌≡◌, ◌≢◌, ◌⊎◌, inl, inr, arith}
use idos_nx.Memory.Heap.{magic, flag, Words, put, init, get_size, set_next, set_size}

-- The node is marked, and the padding in front of the address `q` is written.
abbrev pub marked : Words → ℕ → ℕ → Words
marked w a q = put (put w (a + 4) (w (a + 4) % flag + flag)) (a + 8 + (q - a - 8) - 4) (q - a - 8)

abbrev pub with_trailing : Words → ℕ → ℕ → ℕ → Words
with_trailing w a t next = set_next (init w t (a + get_size w a - t)) t next

-- The first node of the list is split at `t`.
abbrev pub split_words : Words → ℕ → ℕ → ℕ → ℕ → Words
split_words w a q t next = set_size (with_trailing (marked w a q) a t next) a (t - a)

-- A node that another one links to is split.
abbrev pub linked_words : Words → ℕ → ℕ → ℕ → ℕ → ℕ → Words
linked_words w a q t next prev =
    set_size (set_next (with_trailing (marked w a q) a t next) prev t) a (t - a)

module _ (w : Words) (a n q t next prev : ℕ) (size : w (a + 4) ≡ n) (large : 12 ≤ n)
    (small : n < 0x80000000) (room : a + 12 ≤ q) (behind : q ≤ t) (inside : t + 12 ≤ a + n) where
  pub marked-size : marked w a q (a + 4) ≡ n + flag
  marked-size = ground arith

  pub split_words_lem :
      (split_words w a q t next a ≡ w a)
      × (split_words w a q t next (a + 4) ≡ flag + (t - a))
      × (split_words w a q t next (q - 4) ≡ q - a - 8)
      × (split_words w a q t next t ≡ magic)
      × (split_words w a q t next (t + 4) ≡ a + n - t)
      × (split_words w a q t next (t + 8) ≡ next)
  split_words_lem =
      (ground arith, ground arith, ground arith, ground arith, ground arith, ground arith)

  pub split_words-else : (x : ℕ) → (x < a) ⊎ (a + n ≤ x) → split_words w a q t next x ≡ w x
  split_words-else x (inl h) = ground arith
  split_words-else x (inr h) = ground arith

  module _ (before : prev + 12 ≤ a) where
    pub linked_words_lem :
        (linked_words w a q t next prev a ≡ w a)
        × (linked_words w a q t next prev (a + 4) ≡ flag + (t - a))
        × (linked_words w a q t next prev (q - 4) ≡ q - a - 8)
        × (linked_words w a q t next prev t ≡ magic)
        × (linked_words w a q t next prev (t + 4) ≡ a + n - t)
        × (linked_words w a q t next prev (t + 8) ≡ next)
        × (linked_words w a q t next prev (prev + 8) ≡ t)
    linked_words_lem = (
      ground arith,
      ground arith,
      ground arith,
      ground arith,
      ground arith,
      ground arith,
      ground arith,
    )

    pub linked_words-else :
        (x : ℕ) → (x < a) ⊎ (a + n ≤ x) → x ≢ prev + 8 → linked_words w a q t next prev x ≡ w x
    linked_words-else x (inl h) ne = ground arith
    linked_words-else x (inr h) ne = ground arith

module _ (w : Words) (a n q : ℕ) (size : w (a + 4) ≡ n) (large : 12 ≤ n) (small : n < 0x80000000)
    (room : a + 12 ≤ q) (behind : q ≤ a + n) where
  pub marked_lem :
      (marked w a q a ≡ w a)
      × (marked w a q (a + 4) ≡ flag + n)
      × (marked w a q (q - 4) ≡ q - a - 8)
  marked_lem = (ground arith, ground arith, ground arith)

  pub marked-else : (x : ℕ) → (x < a) ⊎ (a + n ≤ x) → marked w a q x ≡ w x
  marked-else x (inl h) = ground arith
  marked-else x (inr h) = ground arith

  pub init-marked_lem :
      (end : ℕ)
      → a + n ≤ end
      → let w' : Words = init (marked w a q) end 0x1000 in
        (w' a ≡ w a)
        × (w' (a + 4) ≡ flag + n)
        × (w' (q - 4) ≡ q - a - 8)
        × (w' end ≡ magic)
        × (w' (end + 4) ≡ 0x1000)
        × (w' (end + 8) ≡ 0)
  init-marked_lem end h =
      (ground arith, ground arith, ground arith, ground arith, ground arith, ground arith)
