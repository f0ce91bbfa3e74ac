-- ===== src/Memory/Address.antt =====
-- kernel/src/memory/address.rs. An address is its `u32`. A mask of low bits is written as a
-- remainder, and a mask that clears them as a multiple.
use idos_nx.Base.{
  ℕ, ◌+◌, ◌-◌, ◌*◌, ◌/◌, ◌%◌, ◌^◌, ◌≤◌, ◌<◌, ◌≡◌, Bool, arith, ◌==◌, if◌then◌else◌, add32, ◌>>>◌,
}

abbrev pub page_size : ℕ
page_size = 4096

-- `PhysicalAddress + u32` and `VirtualAddress + u32`: `wrapping_add`.
abbrev pub address_add : ℕ → ℕ → ℕ
address_add a n = add32 a n

-- `Sub` of both address types: `saturating_sub`.
abbrev pub address_sub : ℕ → ℕ → ℕ
address_sub a b = a - b

unfoldable pub get_page_directory_index : ℕ → ℕ
get_page_directory_index a = a >>> 22

unfoldable pub get_page_table_index : ℕ → ℕ
get_page_table_index a = (a >>> 12) % 1024

abbrev pub is_page_aligned : ℕ → Bool
is_page_aligned a = a % page_size == 0

abbrev pub prev_page_barrier : ℕ → ℕ
prev_page_barrier a = a / page_size * page_size

abbrev pub next_page_barrier : ℕ → ℕ
next_page_barrier a = if a % page_size == 0 then a else add32 a page_size / page_size * page_size

-- The two table indexes and the offset in the page make up the address.
pub page_indexes :
    (a : ℕ)
    → a < 2 ^ 32
    → (get_page_directory_index a * 2 ^ 22 + get_page_table_index a * 2 ^ 12 + a % page_size ≡ a)
      × (get_page_directory_index a < 1024)
      × (get_page_table_index a < 1024)
unfolding get_page_directory_index get_page_table_index
page_indexes a h = omega arith

-- The barriers are the nearest page starts on the two sides, if the next one can be addressed.
pub barriers :
    (a : ℕ)
    → a ≤ 2 ^ 32 - page_size
    → (prev_page_barrier a ≤ a)
      × (a < prev_page_barrier a + page_size)
      × (a ≤ next_page_barrier a)
      × (next_page_barrier a < a + page_size)
      × (prev_page_barrier a % page_size ≡ 0)
      × (next_page_barrier a % page_size ≡ 0)
barriers a h = ground arith
