-- ===== src/Base/Words.antt =====
-- 32-bit words: `u32` and `usize` of the target. The kernel is built in release mode, where `+` and
-- `-` wrap.
use Prim.Native.Nat.{ℕ, ◌+◌, ◌-◌, ◌*◌, ◌/◌, ◌%◌, ◌^◌}

abbrev pub word_count : ℕ
word_count = 4294967296

abbrev pub wrap32 : ℕ → ℕ
wrap32 n = n % word_count

abbrev pub add32 : ℕ → ℕ → ℕ
add32 x n = wrap32 (x + n)

-- For operands that are words themselves.
abbrev pub sub32 : ℕ → ℕ → ℕ
sub32 x n = wrap32 (x + word_count - n)

infixl 75 ◌<<<◌ ◌>>>◌
abbrev pub ◌<<<◌ : ℕ → ℕ → ℕ
x <<< k = wrap32 (x * 2 ^ k)

abbrev pub ◌>>>◌ : ℕ → ℕ → ℕ
x >>> k = x / 2 ^ k
