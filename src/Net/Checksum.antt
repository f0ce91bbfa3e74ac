-- ===== src/Net/Checksum.antt =====
-- kernel/src/net/protocol/checksum.rs: the checksum of IPv4, UDP and TCP headers.
use idos_nx.Base.{
  ℕ, ◌+◌, ◌-◌, ◌/◌, ◌%◌, ◌≤◌, ◌<◌, ◌≡◌, ◌∙◌, List, [], ◌∷◌, arith, if◌then◌else◌, add32, ◌>>>◌,
  word_count, ◌==◌, not,
}

-- The running sum is the `u32` of `Checksum`.
unfoldable pub add_u16 : ℕ → ℕ → ℕ
add_u16 sum value = add32 sum value

-- `!running_sum as u16` is what the low 16 bits lack of all ones.
unfoldable pub compute : ℕ → ℕ
compute sum =
    let carry = sum >>> 16 in
    let running_sum = add32 (sum % 0x10000) carry in
    let folded = if not (running_sum / 0x10000 == 0) then add32 running_sum 1 else running_sum in
    0xffff - folded % 0x10000

-- The fields of a header, added one after the other.
unfoldable pub add_all : ℕ → List ℕ → ℕ
unfolding add_u16
add_all sum [] = sum
add_all sum (value ∷ rest) = add_all (add_u16 sum value) rest

unfoldable pub total : List ℕ → ℕ
total [] = 0
total (value ∷ rest) = value + total rest

add_all-total :
    (sum : ℕ) (fields : List ℕ)
    → sum + total fields < word_count
    → add_all sum fields ≡ sum + total fields
unfolding add_all total add_u16
add_all-total sum [] h = omega arith
add_all-total sum (value ∷ rest) h =
    let here : add32 sum value ≡ sum + value = omega arith in
    add_all-total (add32 sum value) rest (omega arith) ∙ omega arith

compute-add : (sum : ℕ) → sum + 0xffff < word_count → compute (sum + compute sum) ≡ 0
unfolding compute
compute-add sum h = ground arith

compute_mod : (sum : ℕ) → sum < word_count → (sum + compute sum) % 0xffff ≡ 0
unfolding compute
compute_mod sum h = ground arith

compute_lt : (sum : ℕ) → compute sum ≤ 0xffff
unfolding compute
compute_lt sum = omega arith

-- For fields whose sum does not pass the 32-bit range, the sum with the checksum added is a multiple
-- of 0xffff, as one's complement arithmetic asks, and a receiver who adds the same fields and the
-- checksum computes 0.
pub compute_lem :
    (fields : List ℕ)
    → total fields + 0xffff < word_count
    → ((total fields + compute (add_all 0 fields)) % 0xffff ≡ 0)
      × (compute (add_u16 (add_all 0 fields) (compute (add_all 0 fields))) ≡ 0)
unfolding add_u16
compute_lem fields h =
    let sum : add_all 0 fields ≡ total fields =
      add_all-total 0 fields (omega arith) ∙ omega arith in
    let small = compute_lt (total fields) in
    let same : add32 (total fields) (compute (total fields))
        ≡ total fields + compute (total fields) =
      omega arith in
    rw (sum, same) (compute_mod (total fields) (omega arith), compute-add (total fields) h)
