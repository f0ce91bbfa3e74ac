-- ===== src/Base/Bits.antt =====
-- Single bits of a byte: the value of a bit after `|=` and `&= !` with a one-bit mask. A table over
-- all bytes and positions, checked by evaluation.
use Prim.Native.Nat.{ℕ, zero, suc, ◌+◌, ◌-◌, ◌*◌, ◌/◌, ◌%◌, ◌^◌, ◌<◌, bit_and, bit_or}
use mathlib.Core.Path.{◌≡◌, refl, sym, ◌∙◌}
use mathlib.Core.Bool.{Bool, true, false, not, ◌&&◌}
use native.Mathlib.Omega.{arith}
use idos_nx.Base.Tests.{ltb, ltb→lt, ◌==◌, if◌then◌else◌}

-- A test at every number under a bound, the highest first.
unfoldable pub holds_under : (ℕ → Bool) → ℕ → Bool
holds_under test zero = true
holds_under test (suc top) = let lower = holds_under test top in if test top then lower else false

pub holds_under-at :
    (test : ℕ → Bool) (bound i : ℕ) → holds_under test bound ≡ true → i < bound → test i ≡ true
unfolding holds_under
holds_under-at test zero i e small = absurd (omega arith)
holds_under-at test (suc top) i e small = ground (arith, holds_under-at test top i)

-- `b & (1 << k) != 0`
unfoldable pub bit_set : ℕ → ℕ → Bool
bit_set b k = not (bit_and b (2 ^ k) == 0)

-- `b | (1 << k)`
unfoldable pub with_bit : ℕ → ℕ → ℕ
with_bit b k = bit_or b (2 ^ k)

-- `b & !(1 << k)`, for a byte
unfoldable pub without_bit : ℕ → ℕ → ℕ
without_bit b k = bit_and b (255 - 2 ^ k)

abbrev same : Bool → Bool → Bool
same true c = c
same false c = not c

same→eq : (b c : Bool) → same b c ≡ true → b ≡ c
same→eq true c h = ground arith
same→eq false c h = ground arith

entry : ℕ → ℕ → ℕ → Bool
entry b k j =
    (same (bit_set (with_bit b k) j) (if k == j then true else bit_set b j)
      && same (bit_set (without_bit b k) j) (if k == j then false else bit_set b j))
    && (ltb (with_bit b k) 256 && ltb (without_bit b k) 256)

cell : ℕ → Bool
unfolding entry bit_set with_bit without_bit
cell n = entry (n / 64) (n / 8 % 8) (n % 8)

table : holds_under cell 16384 ≡ true
unfolding holds_under cell
table = refl

-- A cell with its index split into the byte and the two positions.
cell_lem : (n b k j : ℕ) → n / 64 ≡ b → n / 8 % 8 ≡ k → n % 8 ≡ j → cell n ≡ entry b k j
unfolding cell
cell_lem n b k j p q r = rw (p, q, r)

entry-true : (b k j : ℕ) → b < 256 → k < 8 → j < 8 → entry b k j ≡ true
entry-true b k j hb hk hj =
    sym (cell_lem n b k j (omega arith) (omega arith) (omega arith))
    ∙ holds_under-at cell 16384 n table (omega arith)
  where
    n : ℕ
    n = b * 64 + k * 8 + j

pub and_left : (p q : Bool) → (p && q) ≡ true → p ≡ true
and_left p q h = ground arith

pub and_right : (p q : Bool) → (p && q) ≡ true → q ≡ true
and_right p q h = ground arith

module _ (b k : ℕ) (hb : b < 256) (hk : k < 8) where
  pub bit_set-with_bit :
      (j : ℕ) → j < 8 → bit_set (with_bit b k) j ≡ (if k == j then true else bit_set b j)
  unfolding entry
  bit_set-with_bit j hj = same→eq _ _ (and_left _ _ (and_left _ _ (entry-true b k j hb hk hj)))

  pub bit_set-without_bit :
      (j : ℕ) → j < 8 → bit_set (without_bit b k) j ≡ (if k == j then false else bit_set b j)
  unfolding entry
  bit_set-without_bit j hj = same→eq _ _ (and_right _ _ (and_left _ _ (entry-true b k j hb hk hj)))

  pub with_bit-lt : with_bit b k < 256
  unfolding entry
  with_bit-lt = ltb→lt _ _ (and_left _ _ (and_right _ _ (entry-true b k 0 hb hk (omega arith))))

  pub without_bit-lt : without_bit b k < 256
  unfolding entry
  without_bit-lt = ltb→lt _ _ (and_right _ _ (and_right _ _ (entry-true b k 0 hb hk (omega arith))))
