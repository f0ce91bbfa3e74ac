-- ===== src/Net/Tests.antt =====
-- The checksum of a real header, and its theorem at that header.
use idos_nx.Base.{ℕ, ◌+◌, ◌%◌, ◌≡◌, refl, List, [], ◌∷◌, arith}
use idos_nx.Net.Checksum.{add_u16, compute, add_all, total, compute_lem}

-- An IPv4 header with its checksum field left out.
abbrev header : List ℕ
header = 0x4500 ∷ 0x0073 ∷ 0x0000 ∷ 0x4000 ∷ 0x4011 ∷ 0xc0a8 ∷ 0x0001 ∷ 0xc0a8 ∷ 0x00c7 ∷ []

checksum_of_header : compute (add_all 0 header) ≡ 0xb861
unfolding compute add_all add_u16
checksum_of_header = refl

compute_lem_example :
    ((total header + compute (add_all 0 header)) % 0xffff ≡ 0)
    × (compute (add_u16 (add_all 0 header) (compute (add_all 0 header))) ≡ 0)
compute_lem_example = compute_lem header (unfold total in omega arith)
